-- ===== src/Vmm/Tables.antt =====
-- The page tables of mm/vmm.c, in the frames of the page allocator: vmm_get_pte, vmm_map, vmm_unmap, vmm_virt_to_phys,
-- vmm_protect and their ranges. A table is known by its page number, a pointer to an entry by the page and the index.
-- The lock is held for all of each routine, and invlpg only drops what the processor has cached.
pub mod Entry
pub mod Tree
pub mod Grow
pub mod Leaf
pub mod Enter
pub mod Lookup
pub mod Laws
pub mod Large
pub mod Change
pub mod Tests
use my_unix.Base.{
  ℕ, zero, suc, ◌+◌, ◌-◌, ◌*◌, ◌/◌, ◌%◌, ◌≤◌, ◌<◌, Bool, true, false, not, ◌&&◌, ◌||◌,
  if◌then◌else◌, ◌==◌, ltb, Option, none, some,
}
use my_unix.Base.Bits.{or_bits}
use my_unix.Base.Errno.{einval, enomem}
use my_unix.Base.Int.{ℤ, pos, neg, is_neg}
use my_unix.Base.Word.{add64, page_size, page_down, page_up, is_page_aligned}
use my_unix.Pmm.{Pmm, alloc}
use my_unix.Vmm.{Space, pte_flags}

abbrev pub Frames : Type 0
Frames = ℕ → ℕ → ℕ

-- `pte & PTE_PRESENT` and `pte & PTE_HUGE`
abbrev pub is_present : ℕ → Bool
is_present e = e % 2 == 1

abbrev pub is_huge : ℕ → Bool
is_huge e = e / 128 % 2 == 1

-- `PTE_ADDR(pte)`, as a page number and as an address
abbrev pub pte_page : ℕ → ℕ
pte_page e = e / 4096 % 1099511627776

abbrev pub pte_addr : ℕ → ℕ
pte_addr e = pte_page e * page_size

abbrev pub pml4_idx : ℕ → ℕ
pml4_idx va = va / 549755813888 % 512

abbrev pub pdpt_idx : ℕ → ℕ
pdpt_idx va = va / 1073741824 % 512

abbrev pub pd_idx : ℕ → ℕ
pd_idx va = va / 2097152 % 512

abbrev pub pt_idx : ℕ → ℕ
pt_idx va = va / 4096 % 512

-- `table[index] = entry`
pub write : Frames → ℕ → ℕ → ℕ → Frames
write f p i e q j = if p == q && i == j then e else f q j

-- `phys | PTE_PRESENT | PTE_WRITABLE | (flags & PTE_USER)`; the last three are different bits, so that their OR is the sum
pub table_entry : ℕ → ℕ → ℕ
table_entry phys flags = or_bits 64 phys (3 + flags / 4 % 2 * 4)

-- One level of vmm_get_pte: the table that entry `i` of table `p` points to, made if it is absent and wanted.
pub enter : Pmm → (p i : ℕ) → (create : Bool) → (flags : ℕ) → Option ℕ × Pmm
enter s p i create flags =
    let e = s.frames p i in
    if is_present e
    then (some (pte_page e), s)
    else if not create
    then (none, s)
    else let (phys, s') = alloc s in
      if phys == 0 then (none, s') else (
        some (phys / page_size),
        record s' { frames = write s'.frames p i (table_entry phys flags) },
      )

-- The entry of `virt` in the page directory: a table, made if need be, but no page of 2 MB.
pub enter_pd : Pmm → (p i : ℕ) → (create : Bool) → (flags : ℕ) → Option ℕ × Pmm
unfolding enter
enter_pd s p i create flags =
    if is_present (s.frames p i) && is_huge (s.frames p i)
    then (none, s)
    else enter s p i create flags

-- go on with the table, if there is one
abbrev pub then_in {ℓ} : {A : Type ℓ} → Option ℕ × Pmm → (ℕ → Pmm → Option A × Pmm) → Option A × Pmm
then_in (none, s) f = (none, s)
then_in (some q, s) f = f q s

pub get_pte : Pmm → (pml4 virt : ℕ) → (create : Bool) → (flags : ℕ) → Option (ℕ × ℕ) × Pmm
unfolding enter enter_pd
get_pte s pml4 virt create flags = then_in (enter s pml4 (pml4_idx virt) create flags) λ pdpt s3.
    then_in (enter s3 pdpt (pdpt_idx virt) create flags) λ pd s2.
      then_in (enter_pd s2 pd (pd_idx virt) create flags) λ pt s1. (some (pt, pt_idx virt), s1)

abbrev pub pml4_page : Space → ℕ
pml4_page space = space.pml4_phys / page_size

-- what vmm_map does with the entry that it got
pub map_at : Space → (phys flags : ℕ) → Option (ℕ × ℕ) × Pmm → ℤ × Space × Pmm
map_at space phys flags (none, s) = (neg enomem, space, s)
map_at space phys flags (some (p, i), s) = (
  pos 0,
  record space { n_pages = add64 space.n_pages 1 },
  record s { frames = write s.frames p i (or_bits 64 phys flags) },
)

pub map : Space → Pmm → (virt phys flags : ℕ) → ℤ × Space × Pmm
unfolding get_pte map_at
map space s virt phys flags =
    if not (is_page_aligned virt) || not (is_page_aligned phys)
    then (neg einval, space, s)
    else map_at space phys flags (get_pte s (pml4_page space) virt true flags)

-- the rounds of vmm_map_range that are left, the addresses of the next one
pub map_range : Space → Pmm → (virt phys n_pages flags : ℕ) → ℤ × Space × Pmm
unfolding map
map_range space s virt phys zero flags = (pos 0, space, s)
map_range space s virt phys (suc n) flags =
    let (r, space', s') = map space s virt phys flags in
    let rest = map_range space' s' (add64 virt page_size) (add64 phys page_size) n flags in
    if is_neg r then (r, space', s') else rest

-- what vmm_unmap does with the entry
pub unmap_at : Space → Option (ℕ × ℕ) × Pmm → Space × Pmm
unmap_at space (none, s) = (space, s)
unmap_at space (some (p, i), s) =
    if is_present (s.frames p i)
    then (
      record space { n_pages = if ltb 0 space.n_pages then space.n_pages - 1 else space.n_pages },
      record s { frames = write s.frames p i 0 },
    )
    else (space, s)

pub unmap : Space → Pmm → (virt : ℕ) → Space × Pmm
unfolding get_pte unmap_at
unmap space s virt = unmap_at space (get_pte s (pml4_page space) virt false 0)

pub unmap_range : Space → Pmm → (virt n_pages : ℕ) → Space × Pmm
unfolding unmap
unmap_range space s virt zero = (space, s)
unmap_range space s virt (suc n) =
    let (space', s') = unmap space s virt in unmap_range space' s' (add64 virt page_size) n

pub virt_to_phys : Frames → (pml4 virt : ℕ) → ℕ
virt_to_phys f pml4 virt =
    let e4 = f pml4 (pml4_idx virt) in
    if not (is_present e4)
    then 0
    else let e3 = f (pte_page e4) (pdpt_idx virt) in
      if not (is_present e3)
      then 0
      else if is_huge e3
      then pte_addr e3 + virt % 1073741824
      else let e2 = f (pte_page e3) (pd_idx virt) in
        if not (is_present e2)
        then 0
        else if is_huge e2
        then pte_addr e2 + virt % 2097152
        else let e1 = f (pte_page e2) (pt_idx virt) in
          if not (is_present e1) then 0 else pte_addr e1 + virt % 4096

abbrev pub translate : Space → Pmm → ℕ → ℕ
translate space s virt = virt_to_phys s.frames (pml4_page space) virt

abbrev pub is_mapped : Space → Pmm → ℕ → Bool
is_mapped space s virt = not (translate space s virt == 0)

-- the body of vmm_protect's loop
pub protect_at : ℕ → Option (ℕ × ℕ) × Pmm → Pmm
protect_at prot (none, s) = s
protect_at prot (some (p, i), s) =
    let e = s.frames p i in
    if is_present e
    then record s { frames = write s.frames p i (or_bits 64 (pte_addr e) (pte_flags prot)) }
    else s

pub protect_page : Space → Pmm → (addr prot : ℕ) → Pmm
unfolding get_pte protect_at
protect_page space s addr prot = protect_at prot (get_pte s (pml4_page space) addr false 0)

-- `for (addr = virt; addr < virt + size; addr += PAGE_SIZE)`, for an end that does not wrap
pub protect_pages : Space → Pmm → (addr n prot : ℕ) → Pmm
unfolding protect_page
protect_pages space s addr zero prot = s
protect_pages space s addr (suc n) prot =
    protect_pages space (protect_page space s addr prot) (addr + page_size) n prot

pub protect : Space → Pmm → (virt size prot : ℕ) → Pmm
unfolding protect_pages
protect space s virt size prot =
    let virt = page_down virt in
    let size = page_up size in
    if ltb virt (add64 virt size) then protect_pages space s virt (size / page_size) prot else s
