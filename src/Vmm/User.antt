-- ===== src/Vmm/User.antt =====
-- User ranges of mm/vmm.c: vmm_alloc_user with its rollback, and vmm_free_user.
pub mod Laws
use my_unix.Base.{
  ℕ, zero, suc, ◌+◌, ◌*◌, ◌/◌, Bool, not, if◌then◌else◌, ◌==◌, leb, Option, none, some,
}
use my_unix.Base.Int.{ℤ, is_neg}
use my_unix.Base.Outcome.{Outcome, done, panic, and_then}
use my_unix.Base.Word.{add64, page_size, page_down, page_up}
use my_unix.Pmm.{Pmm, alloc, free}
use my_unix.Vmm.{Space}
use my_unix.Vmm.Access.{vmm_user_end}
use my_unix.Vmm.Tables.{map, unmap, translate, is_mapped}

abbrev pub vmm_user_start : ℕ
vmm_user_start = 0x40_0000

-- `virt + i * PAGE_SIZE`
abbrev pub page_at : ℕ → ℕ → ℕ
page_at virt i = add64 virt (i * page_size)

-- The first of `n` pages from page `i` of the range on that is mapped.
pub first_mapped : Space → Pmm → (virt i n : ℕ) → Option ℕ
first_mapped space s virt i zero = none
first_mapped space s virt i (suc n) =
    let rest = first_mapped space s virt (i + 1) n in
    if is_mapped space s (page_at virt i) then some i else rest

-- One page of the rollback and of vmm_free_user: the page is unmapped and its frame given back.
pub release : Space → Pmm → (addr : ℕ) → Outcome (Space × Pmm)
release space s addr =
    let phys = translate space s addr in
    let (space', s') = unmap space s addr in
    if phys == 0 then done (space', s') else and_then (free s' phys) (λ s''. done (space', s''))

-- `for (j = from; j < from + n; j++)`
pub release_pages : Space → Pmm → (virt from n : ℕ) → Outcome (Space × Pmm)
unfolding release
release_pages space s virt from zero = done (space, s)
release_pages space s virt from (suc n) =
    and_then (release space s (page_at virt from))
      λ (space', s'). release_pages space' s' virt (from + 1) n

-- The rollback of the first `i` pages, and the return of 0.
pub undo : Space → Pmm → (virt i : ℕ) → Outcome (ℕ × Space × Pmm)
unfolding release_pages
undo space s virt i = and_then (release_pages space s virt 0 i) λ (space', s'). done (0, space', s')

-- The pages from page `i` on, `n` of them left.
pub alloc_pages : Space → Pmm → (virt i n flags : ℕ) → Outcome (ℕ × Space × Pmm)
unfolding undo
alloc_pages space s virt i zero flags = done (virt, space, s)
alloc_pages space s virt i (suc n) flags =
    let (phys, s1) = alloc s in
    let (r, space', s2) = map space s1 (page_at virt i) phys flags in
    let rest = alloc_pages space' s2 virt (i + 1) n flags in
    if phys == 0
    then undo space s1 virt i
    else if is_neg r
    then and_then (free s2 phys) (λ s3. undo space' s3 virt i)
    else rest

-- The search for room from `virt` on: the outer `none` is fuel run out, the inner one no room.
pub find_room : ℕ → Space → Pmm → (virt size n : ℕ) → Option (Option ℕ)
unfolding first_mapped
find_room zero space s virt size n = none
find_room (suc fuel) space s virt size n =
    if not (leb (add64 virt size) vmm_user_end)
    then some none
    else elim (first_mapped space s virt 0 n) [
      | none ↦ some (some virt)
      | some i ↦ find_room fuel space s (add64 virt ((i + 1) * page_size)) size n
    ]

-- One round for each page of user memory, and two more.
abbrev pub room_fuel : ℕ
room_fuel = 0x8_0000_0000 + 1

-- what follows the search
pub alloc_room : Space → Pmm → (n flags : ℕ) → Option ℕ → Outcome (ℕ × Space × Pmm)
unfolding alloc_pages
alloc_room space s n flags none = done (0, space, s)
alloc_room space s n flags (some virt) = alloc_pages space s virt 0 n flags

pub alloc_user : Space → Pmm → (hint size flags : ℕ) → Option (Outcome (ℕ × Space × Pmm))
unfolding find_room alloc_room
alloc_user space s hint size flags =
    let hint = page_up (if hint == 0 then vmm_user_start else hint) in
    let size = page_up size in
    elim (find_room room_fuel space s hint size (size / page_size)) [
      | none ↦ none
      | some room ↦ some (alloc_room space s (size / page_size) flags room)
    ]

pub free_user : Space → Pmm → (virt size : ℕ) → Outcome (Space × Pmm)
unfolding release_pages
free_user space s virt size = release_pages space s (page_down virt) 0 (page_up size / page_size)
