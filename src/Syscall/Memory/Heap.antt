-- ===== src/Syscall/Memory/Heap.antt =====
-- What growing the heap with brk does to the address space.
use my_unix.Base.{
  ℕ, ◌+◌, ◌*◌, ◌%◌, ◌≤◌, ◌<◌, ◌≡◌, refl, ap, ◌⊎◌, inl, inr, Bool, true, false, ◌==◌, ltb, arith,
}
use my_unix.Base.Outcome.{done}
use my_unix.Base.Word.{page_size, page_up}
use my_unix.Pmm.{Pmm}
use my_unix.Vmm.{Space}
use my_unix.Vmm.Tables.{pml4_page}
use my_unix.Vmm.Tables.Laws.{IsTree}
use my_unix.Syscall.Memory.Extend.{Extended, user_top, extend_heap-Extended, extend_heap-stopped}
use my_unix.Syscall.Memory.Served.{Filled, extend_heap-Filled}
use my_unix.Syscall.Memory.{extend_heap, rounds, after_extend, sys_brk}

brk_result :
    (space : Space) (s : Pmm) (old new : ℕ) (x : Bool × Space × Pmm)
    → (x.0 ≡ false → x.2.free_pages ≡ 0)
    → (x.2.free_pages ≡ 0) ⊎ ((x.0 ≡ true) × Filled old new x.1 x.2)
    → Extended space s old new x.1 x.2
    → (r : ℕ) × (space' : Space) × (s' : Pmm) × (after_extend old new x ≡ (r, r, space', s'))
      × ((((r ≡ old) ⊎ (r ≡ new)) × (s'.free_pages ≡ 0)) ⊎ ((r ≡ new) × Filled old new space' s'))
      × Extended space s old new space' s'
unfolding after_extend
brk_result space s old new (true, space', s') stopped (inl out) e =
    (new, space', s', refl, inl (inr refl, out), e)
brk_result space s old new (true, space', s') stopped (inr (_, filled)) e =
    (new, space', s', refl, inr (refl, filled), e)
brk_result space s old new (false, space', s') stopped _ e =
    (old, space', s', refl, inl (inl refl, stopped refl), e)

-- With page tables that form a tree, brk that grows the heap, from a break at a page border to one that is below 2^48 when rounded up to pages: it does not
-- panic, and it returns the break that the process has afterwards. Either that is the new break rounded up, and every address
-- between the two breaks leads somewhere or lies in a large page; or no free page is left, and it is the new or the old
-- break. An address below 2^48 that does not lie between the two breaks leads where it did, one between them leads where
-- it did or to a page that it now has, and the page tables form a tree as before.
pub sys_brk_lem :
    (space : Space) (s : Pmm) (old_brk new_brk : ℕ)
    → IsTree s (pml4_page space)
    → old_brk % page_size ≡ 0
    → old_brk < page_up new_brk
    → page_up new_brk ≤ user_top
    → (new_brk == 0) ≡ false
    → (r : ℕ) × (space' : Space) × (s' : Pmm) × (sys_brk space s old_brk new_brk
        ≡ done (r, r, space', s'))
      × ((((r ≡ old_brk) ⊎ (r ≡ page_up new_brk)) × (s'.free_pages ≡ 0))
          ⊎ ((r ≡ page_up new_brk) × Filled old_brk (page_up new_brk) space' s'))
      × Extended space s old_brk (page_up new_brk) space' s'
unfolding sys_brk
sys_brk_lem space s old new tree aligned grows low nz =
    let above : ltb old (page_up new) ≡ true = ground (arith, grows) in
    let whole : old + rounds old (page_up new) * page_size ≡ page_up new =
      omega (arith, aligned, grows) in
    let extended =
      extend_heap-Extended space s old (rounds old (page_up new)) tree aligned (rw whole low) in
    let (r, space', s', e, which, ext) =
      brk_result space s old (page_up new) (extend_heap space s old (rounds old (page_up new)))
        (extend_heap-stopped space s old (rounds old (page_up new)) tree aligned (rw whole low))
        (rw whole at
          (extend_heap-Filled space s old (rounds old (page_up new)) tree aligned (rw whole low)))
        (rw whole at extended) in
    (r, space', s', rw (nz, above) (ap done e), which, ext)
