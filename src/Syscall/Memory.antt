-- ===== src/Syscall/Memory.antt =====
-- brk, mprotect, munmap and the anonymous case of mmap, over the address spaces of Vmm.
pub mod Extend
pub mod Served
pub mod Heap
use my_unix.Base.{
  ℕ, zero, suc, ◌+◌, ◌-◌, ◌*◌, ◌/◌, ◌≤◌, ◌<◌, ◌≡◌, refl, ◌∙◌, ◌⊎◌, inl, inr, Bool, true, false, not,
  if◌then◌else◌, ◌==◌, ltb, Option, none, some, arith, Bool-cases,
}
use my_unix.Base.Bits.{test_bit, set_bit}
use my_unix.Base.Outcome.{Outcome, done, panic, and_then}
use my_unix.Base.Word.{word_mod, page_size, page_up}
use my_unix.Pmm.{Pmm, alloc}
use my_unix.Vmm.{Vma, Space, create_vma}
use my_unix.Vmm.Tables.{map, protect}
use my_unix.Vmm.User.{alloc_user, free_user, release_pages}

-- VMM_USER_RW
abbrev pub user_rw : ℕ
user_rw = 7

-- The pages from `p` on, `n` of them left; whether there was a frame for each. What vmm_map returns is passed over.
pub extend_heap : Space → Pmm → (p n : ℕ) → Bool × Space × Pmm
extend_heap space s p zero = (true, space, s)
extend_heap space s p (suc n) =
    let (phys, s1) = alloc s in
    let (r, space', s2) = map space s1 p phys user_rw in
    let rest = extend_heap space' s2 (p + page_size) n in
    if phys == 0 then (false, space, s1) else rest

-- how many pages the loop from `from` up to `to` visits
abbrev pub rounds : (from to : ℕ) → ℕ
rounds from to = (to - from + (page_size - 1)) / page_size

-- the result, the break and the address space
pub after_extend : (old new : ℕ) → Bool × Space × Pmm → ℕ × ℕ × Space × Pmm
after_extend old new (true, space, s) = (new, new, space, s)
after_extend old new (false, space, s) = (old, old, space, s)

pub sys_brk : Space → Pmm → (old_brk new_brk : ℕ) → Outcome (ℕ × ℕ × Space × Pmm)
unfolding extend_heap after_extend
sys_brk space s old_brk new_brk =
    let new = page_up new_brk in
    if new_brk == 0
    then done (old_brk, old_brk, space, s)
    else if ltb old_brk new
    then done (after_extend old_brk new (extend_heap space s old_brk (rounds old_brk new)))
    else if ltb new old_brk
    then and_then (release_pages space s new 0 (rounds new old_brk))
        (λ (space', s'). done (new, new, space', s'))
    else done (new, new, space, s)

pub sys_mprotect : Space → Pmm → (addr len prot : ℕ) → ℕ × Pmm
sys_mprotect space s addr len prot = (0, protect space s addr len prot)

pub sys_munmap : Space → Pmm → (addr length : ℕ) → Outcome (ℕ × Space × Pmm)
sys_munmap space s addr length =
    and_then (free_user space s addr (page_up length)) (λ (space', s'). done (0, space', s'))

-- PTE_PRESENT and PTE_USER, PTE_WRITABLE with PROT_WRITE, and PTE_NX without PROT_EXEC
abbrev pub vma_flags : (prot : ℕ) → ℕ
vma_flags prot =
    let flags = if test_bit prot 1 then 7 else 5 in
    if test_bit prot 2 then flags else set_bit flags 63

-- MAP_FAILED
abbrev pub map_failed : ℕ
map_failed = word_mod - 1

-- The range that was found gets a region; 0 is none. `node` is what kzalloc gives for the region.
pub after_alloc : (node : Option ℕ) → (len prot flags : ℕ) → ℕ × Space × Pmm → ℕ × Space × Pmm
after_alloc node len prot flags (vaddr, space, s) =
    if vaddr == 0
    then (map_failed, space, s)
    else (vaddr, (create_vma node space vaddr len prot flags).1, s)

-- mmap with MAP_ANONYMOUS; `none` is fuel run out in the search for room.
pub sys_mmap_anonymous :
    (node : Option ℕ)
    → Space
    → Pmm
    → (addr length prot flags : ℕ) → Option (Outcome (ℕ × Space × Pmm))
unfolding after_alloc
sys_mmap_anonymous node space s addr length prot flags =
    let len = page_up length in
    if length == 0
    then some (done (map_failed, space, s))
    else elim (alloc_user space s addr len (vma_flags prot)) [
      | none ↦ none
      | some result ↦ some (and_then result (λ r. done (after_alloc node len prot flags r)))
    ]
