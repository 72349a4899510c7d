-- ===== src/Vmm.antt =====
-- The regions of an address space (VMAs) of mm/vmm.c: vmm_find_vma, vmm_create_vma and vmm_destroy_vma. A region is
-- known by the address of its vma_t. The page tables, the lock and the memory that kfree takes back are not modelled.
use my_unix.Base.{
  ℕ, ◌≡◌, Bool, ◌&&◌, if◌then◌else◌, ◌==◌, ltb, leb, List, [], ◌∷◌, ◌++◌, Option, none, some,
}
use my_unix.Base.Bits.{test_bit, set_bit}
use my_unix.Base.Int.{ℤ, negsuc}
use my_unix.Base.Word.{add64, sub64, page_down, page_up}
mod Regions
pub mod Tables
pub mod User
pub mod Spaces
pub mod Access
mod Tests

pub record Vma : Type 0 where
  pub node : ℕ
  pub start : ℕ
  pub end : ℕ
  pub flags : ℕ
  pub prot : ℕ
  pub mmap_flags : ℕ
  pub fd : ℤ
  pub offset : ℕ
  pub vnode : ℕ
  pub refcount : ℕ

pub record Space : Type 0 where
  pub pml4_phys : ℕ
  pub refcount : ℕ
  pub vma_list : List Vma
  pub n_pages : ℕ
  pub n_vmas : ℕ

-- `addr >= vma->start && addr < vma->end`
abbrev pub covers : Vma → ℕ → Bool
covers v addr = leb v.start addr && ltb addr v.end

pub find_in : List Vma → ℕ → Option Vma
find_in [] addr = none
find_in (v ∷ vs) addr = if covers v addr then some v else find_in vs addr

abbrev pub find_vma : Space → ℕ → Option Vma
find_vma s addr = find_in s.vma_list addr

-- PTE_PRESENT | PTE_USER, then PTE_WRITABLE under PROT_WRITE and PTE_NX unless PROT_EXEC
abbrev pub pte_flags : ℕ → ℕ
pte_flags prot =
    let flags = if test_bit prot 1 then set_bit 5 1 else 5 in
    if test_bit prot 2 then flags else set_bit flags 63

-- `node` is what kzalloc has returned, with every field zero.
abbrev pub new_vma : (node start size prot map_flags : ℕ) → Vma
new_vma node start size prot map_flags = record {
  node = node;
  start = page_down start;
  end = page_up (add64 start size);
  flags = pte_flags prot;
  prot = prot;
  mmap_flags = map_flags;
  fd = negsuc 0;
  offset = 0;
  vnode = 0;
  refcount = 1;
}

-- The first argument is what kzalloc comes to.
pub create_vma : Option ℕ → Space → (start size prot map_flags : ℕ) → Option Vma × Space
create_vma none s start size prot map_flags = (none, s)
create_vma (some node) s start size prot map_flags =
    let vma = new_vma node start size prot map_flags in
    (some vma, record s { vma_list = s.vma_list ++ (vma ∷ []); n_vmas = add64 s.n_vmas 1 })

-- list_del of the node of a region, which must be on the list
pub del_node : List Vma → ℕ → Option (List Vma)
del_node [] node = none
del_node (v ∷ vs) node =
    let rest = del_node vs node in
    if v.node == node then some vs else elim rest [ none ↦ none | some r ↦ some (v ∷ r) ]

-- `none`: the region is on no list, and list_del writes through stale links.
pub destroy_vma : Space → ℕ → Option Space
destroy_vma s node = elim (del_node s.vma_list node) [
  | none ↦ none
  | some vs ↦ some (record s { vma_list = vs; n_vmas = sub64 s.n_vmas 1 })
]
