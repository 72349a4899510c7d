-- ===== src/Vmm/Spaces.antt =====
-- Whole address spaces of mm/vmm.c: vmm_map_phys_huge, vmm_create_space, vmm_clone_space and vmm_destroy_space. Whether
-- kzalloc and kmalloc have memory for a vmm_space_t or a vma_t is an argument; kfree of them is left to the heap.
pub mod Laws
pub mod Fresh
mod Tests
use my_unix.Base.{
  ℕ, zero, suc, ◌+◌, ◌-◌, ◌*◌, ◌/◌, ◌%◌, ◌≤◌, ◌<◌, Bool, true, false, not, ◌&&◌, ◌||◌,
  if◌then◌else◌, ◌==◌, leb, ltb, ◌^◌, List, [], ◌∷◌, ◌++◌, Option, none, some,
}
use my_unix.Base.Bits.{or_bits}
use my_unix.Base.Outcome.{Outcome, done, panic, and_then}
use my_unix.Base.Word.{add64, page_size}
use my_unix.Pmm.{Pmm, alloc, free}
use my_unix.Vmm.{Vma, Space}
use my_unix.Vmm.Tables.{
  Frames, is_present, is_huge, pte_page, pte_addr, pml4_idx, pdpt_idx, pd_idx, write, then_in, map,
  unmap, translate, pml4_page,
}

abbrev pub huge_size : ℕ
huge_size = 2097152

-- A table of vmm_map_phys_huge: `p | PTE_PRESENT | PTE_WRITABLE | PTE_GLOBAL` if it is absent.
pub enter_kernel : Pmm → (p i : ℕ) → Option ℕ × Pmm
enter_kernel s p i =
    let e = s.frames p i in
    if is_present e
    then (some (pte_page e), s)
    else let (phys, s') = alloc s in
      if phys == 0 then (none, s') else (
        some (phys / page_size),
        record s' { frames = write s'.frames p i (or_bits 64 phys 259) },
      )

-- One round of the loop, and whether it goes on.
pub map_huge : Pmm → (pml4 virt phys flags : ℕ) → Option ℕ × Pmm
unfolding enter_kernel
map_huge s pml4 virt phys flags = then_in (enter_kernel s pml4 (pml4_idx virt)) λ pdpt s3.
    then_in (enter_kernel s3 pdpt (pdpt_idx virt)) λ pd s2. (
      some pd,
      record s2 {
        frames = write s2.frames pd (pd_idx virt) (or_bits 64 (or_bits 64 phys 128) flags);
      },
    )

pub map_huge_pages : Pmm → (pml4 virt phys n flags : ℕ) → Pmm
unfolding map_huge
map_huge_pages s pml4 virt phys zero flags = s
map_huge_pages s pml4 virt phys (suc n) flags =
    let (more, s') = map_huge s pml4 virt phys flags in
    let rest = map_huge_pages s' pml4 (add64 virt huge_size) (add64 phys huge_size) n flags in
    elim more [ none ↦ s' | some pd ↦ rest ]

pub map_phys_huge : Pmm → (pml4 virt_base phys_base size flags : ℕ) → Pmm
unfolding map_huge_pages
map_phys_huge s pml4 virt_base phys_base size flags =
    map_huge_pages s pml4 (virt_base / huge_size * huge_size) (phys_base / huge_size * huge_size)
      (add64 size (huge_size - 1) / huge_size) flags

-- `memcpy(entries + 256, g_kernel_pml4->entries + 256, 256 * sizeof(pml4e_t))`
pub copy_kernel : Frames → (pml4 kernel : ℕ) → Frames
copy_kernel f pml4 kernel p i = if pml4 == p && (leb 256 i && ltb i 512) then f kernel i else f p i

-- The first argument says whether there is memory for the vmm_space_t; `kernel` is the page of g_kernel_pml4.
pub create_space : Bool → Pmm → (kernel : ℕ) → Option Space × Pmm
create_space false s kernel = (none, s)
create_space true s kernel =
    let (phys, s') = alloc s in
    if phys == 0 then (none, s') else (
      some (record { pml4_phys = phys; refcount = 1; vma_list = []; n_pages = 0; n_vmas = 0 }),
      record s' { frames = copy_kernel s'.frames (phys / page_size) kernel },
    )

-- `memcpy(phys_to_kvirt(dst), phys_to_kvirt(src), PAGE_SIZE)`
pub copy_frame : Frames → (dst src : ℕ) → Frames
copy_frame f dst src p w = if dst == p then f src w else f p w

-- One page of a region of `src`, copied for `dst`.
pub clone_page : (src dst : Space) → Pmm → (flags addr : ℕ) → Space × Pmm
clone_page src dst s flags addr =
    let src_phys = translate src s addr in
    if src_phys == 0
    then (dst, s)
    else let (dst_phys, s1) = alloc s in
      if dst_phys == 0
      then (dst, s1)
      else let frames = copy_frame s1.frames (dst_phys / page_size) (src_phys / page_size) in
        let (_, dst', s2) = map dst (record s1 { frames = frames }) addr dst_phys flags in
        (dst', s2)

pub clone_pages : (src dst : Space) → Pmm → (flags addr n : ℕ) → Space × Pmm
unfolding clone_page
clone_pages src dst s flags addr zero = (dst, s)
clone_pages src dst s flags addr (suc n) =
    let (dst', s') = clone_page src dst s flags addr in
    clone_pages src dst' s' flags (add64 addr page_size) n

-- the copy of a region at the address that kmalloc returned
abbrev pub copy_vma : Vma → ℕ → Vma
copy_vma vma node = record vma { node = node; refcount = 1 }

add_vma : Space → Vma → Option ℕ → Space
add_vma dst vma none = dst
add_vma dst vma (some node) = record dst {
  vma_list = dst.vma_list ++ (copy_vma vma node ∷ []);
  n_vmas = add64 dst.n_vmas 1;
}

-- The regions of `src` in turn; `nodes` says what kmalloc returns for each.
pub clone_vmas : (src dst : Space) → Pmm → List Vma → (nodes : ℕ → Option ℕ) → Space × Pmm
unfolding clone_pages add_vma
clone_vmas src dst s [] nodes = (dst, s)
clone_vmas src dst s (vma ∷ vmas) nodes =
    let (dst', s') =
      clone_pages src dst s vma.flags vma.start ((vma.end - vma.start) / page_size) in
    clone_vmas src (add_vma dst' vma (nodes vma.node)) s' vmas nodes

-- what vmm_clone_space does with the new space
pub clone_into : Space → (nodes : ℕ → Option ℕ) → Option Space × Pmm → Option Space × Pmm
unfolding clone_vmas
clone_into src nodes (none, s) = (none, s)
clone_into src nodes (some dst, s) =
    let (dst', s') = clone_vmas src dst s src.vma_list nodes in (some dst', s')

pub clone_space : Space → Bool → (nodes : ℕ → Option ℕ) → Pmm → (kernel : ℕ) → Option Space × Pmm
unfolding create_space clone_into
clone_space src has_node nodes s kernel = clone_into src nodes (create_space has_node s kernel)

-- The pages of a region, unmapped and given back.
pub drop_pages : Space → Pmm → (addr n : ℕ) → Outcome (Space × Pmm)
drop_pages space s addr zero = done (space, s)
drop_pages space s addr (suc n) =
    let phys = translate space s addr in
    let (space', s') = unmap space s addr in
    let next = add64 addr page_size in
    if phys == 0
    then drop_pages space s next n
    else and_then (free s' phys) (λ s''. drop_pages space' s'' next n)

pub drop_vmas : Space → Pmm → List Vma → Outcome (Space × Pmm)
unfolding drop_pages
drop_vmas space s [] = done (space, s)
drop_vmas space s (vma ∷ vmas) =
    and_then (drop_pages space s vma.start ((vma.end - vma.start) / page_size))
      λ (space', s'). drop_vmas space' s' vmas

-- The `n` entries of a directory from entry `i` on: their tables are given back.
pub free_tables : Pmm → (pd i n : ℕ) → Outcome Pmm
free_tables s pd i zero = done s
free_tables s pd i (suc n) =
    let e = s.frames pd i in
    and_then (if not (is_present e) || is_huge e then done s else free s (pte_addr e))
      λ s'. free_tables s' pd (i + 1) n

pub free_directories : Pmm → (pdpt i n : ℕ) → Outcome Pmm
unfolding free_tables
free_directories s pdpt i zero = done s
free_directories s pdpt i (suc n) =
    let e = s.frames pdpt i in
    and_then
      (if not (is_present e) || is_huge e
        then done s
        else and_then (free_tables s (pte_page e) 0 512) (λ s'. free s' (pte_addr e)))
      λ s'. free_directories s' pdpt (i + 1) n

pub free_user_half : Pmm → (pml4 i n : ℕ) → Outcome Pmm
unfolding free_directories
free_user_half s pml4 i zero = done s
free_user_half s pml4 i (suc n) =
    let e = s.frames pml4 i in
    and_then
      (if not (is_present e)
        then done s
        else and_then (free_directories s (pte_page e) 0 512) (λ s'. free s' (pte_addr e)))
      λ s'. free_user_half s' pml4 (i + 1) n

-- The space that is left, if it is still in use.
pub destroy_space : Space → Pmm → Outcome (Option Space × Pmm)
unfolding drop_vmas free_user_half
destroy_space space s =
    let left = (space.refcount + 2 ^ 32 - 1) % 2 ^ 32 in
    if not (left == 0)
    then done (some (record space { refcount = left }), s)
    else and_then (drop_vmas space s space.vma_list) λ (space', s').
      and_then (free_user_half s' (pml4_page space') 0 256)
        λ s''. and_then (free s'' space'.pml4_phys) λ s'''. done (none, s''')
