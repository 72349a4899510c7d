-- ===== src/Pmm/Init.antt =====
-- pmm_init_from_multiboot of mm/pmm.c: the memory map of the boot loader becomes the bitmap. The tags
-- are taken as found: the map's entries, the place and size of the information block, the module.
pub mod Laws
use my_unix.Base.{
  ℕ, zero, suc, ◌+◌, ◌-◌, ◌*◌, ◌/◌, ◌%◌, ◌^◌, ◌≤◌, ◌<◌, Bool, true, false, if◌then◌else◌, ◌==◌, ltb,
  leb, List, [], ◌∷◌, ◌++◌, Option, none, some, take,
}
use my_unix.Base.Outcome.{Outcome, done, panic}
use my_unix.Base.Word.{word_mod, page_size, add64, sub64, page_down, page_up}
use my_unix.Pmm.{Pmm, add_page, each_page, reserve_region}

-- `struct mb2_mmap_entry`
pub record MmapEntry : Type 0 where
  pub addr : ℕ
  pub len : ℕ
  pub kind : ℕ

-- What the routine reads of the boot information and of the linker's symbols.
pub record BootInfo : Type 0 where
  pub mmap : Option (List MmapEntry)
  pub mbi : ℕ
  pub total_size : ℕ
  pub initrd : Option (ℕ × ℕ)
  pub kernel_start : ℕ
  pub kernel_end : ℕ

abbrev pub kernel_vma_base : ℕ
kernel_vma_base = 0xffff_ffff_8000_0000

abbrev pub mmap_available : ℕ
mmap_available = 1

abbrev pub max_regions : ℕ
max_regions = 32

-- `VIRT_TO_PHYS`
abbrev pub virt_to_phys : ℕ → ℕ
virt_to_phys v = sub64 v kernel_vma_base

-- the highest end of an entry: `if (end > g_max_phys) g_max_phys = end`
unfoldable pub max_phys : List MmapEntry → ℕ → ℕ
max_phys [] top = top
max_phys (e ∷ es) top =
    let end = add64 e.addr e.len in max_phys es (if ltb top end then end else top)

-- The size of the bitmap in bytes.
unfoldable pub bitmap_bytes : ℕ → ℕ
bitmap_bytes total = page_up (total / 8)

-- `memset(g_bitmap, 0xFF, bitmap_bytes)` over what the memory there held.
pub fill_bitmap : (ℕ → ℕ) → ℕ → ℕ → ℕ
fill_bitmap old bytes w = if ltb w (bytes / 8) then word_mod - 1 else old w

-- All pages are marked as used.
pub all_used : (ℕ → ℕ) → (ℕ → ℕ → ℕ) → ℕ → Pmm
all_used old frames total = record {
  bitmap = fill_bitmap old (bitmap_bytes total);
  total_pages = total;
  free_pages = 0;
  used_pages = total;
  alloc_hint = 0;
  frames = frames;
}

-- The pages of an available region are freed.
pub free_entry : Pmm → MmapEntry → Pmm
free_entry s e =
    let start = page_up e.addr in
    let end = page_down (add64 e.addr e.len) in
    if e.kind == mmap_available
    then each_page add_page (end / page_size - start / page_size) (start / page_size) s
    else s

pub free_entries : Pmm → List MmapEntry → Pmm
free_entries s [] = s
free_entries s (e ∷ es) = free_entries (free_entry s e) es

-- Calls of pmm_reserve_region in order.
pub reserve_all : Pmm → List (ℕ × ℕ) → Pmm
reserve_all s [] = s
reserve_all s ((base, size) ∷ rs) = reserve_all (reserve_region s base size) rs

initrd_region : Option (ℕ × ℕ) → List (ℕ × ℕ)
initrd_region none = []
initrd_region (some (start, end)) = (start, sub64 end start) ∷ []

-- The regions that are reserved: page zero, the low megabyte, the kernel, the bitmap, the boot
-- information, and the initrd.
pub reserved_regions : BootInfo → ℕ → List (ℕ × ℕ)
unfolding initrd_region
reserved_regions boot total =
    let kern_end_phys = page_up (virt_to_phys boot.kernel_end) in
    let kern_start_phys = virt_to_phys boot.kernel_start in
    (0, page_size)
    ∷ (0, 0x10_0000)
    ∷ (kern_start_phys, sub64 kern_end_phys kern_start_phys)
    ∷ (kern_end_phys, bitmap_bytes total)
    ∷ (virt_to_phys boot.mbi, boot.total_size)
    ∷ initrd_region boot.initrd

-- The first 32 entries are kept as regions.
pub init : (ℕ → ℕ) → (ℕ → ℕ → ℕ) → BootInfo → Outcome Pmm
init old frames boot = elim boot.mmap [
  | none ↦ panic
  | some entries ↦
      let total = max_phys entries 0 / page_size in
      done (
        reserve_all (free_entries (all_used old frames total) (take max_regions entries))
          (reserved_regions boot total))
]
