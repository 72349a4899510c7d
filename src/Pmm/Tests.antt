-- ===== src/Pmm/Tests.antt =====
-- The page allocator on a small memory: 100 pages, of which page 0 and page 2 are in use.
use my_unix.Base.{
  ℕ, ◌+◌, ◌*◌, ◌/◌, ◌≤◌, ◌<◌, ◌≡◌, refl, ◌⊎◌, true, false, if◌then◌else◌, ◌==◌, List, [], ◌∷◌, some,
  none, arith,
}
use my_unix.Base.Bits.{test_bit}
use my_unix.Base.Outcome.{done, panic}
use my_unix.Base.Word.{page_size}
use my_unix.Pmm.{Pmm, alloc, alloc_n, free}
use my_unix.Pmm.Bitmap.{Bitmap, IsRun, bitmap_test, count_free}
use my_unix.Pmm.Inv.{Inv}
use my_unix.Pmm.Alloc.{Took, alloc_lem}
use my_unix.Pmm.Free.{IsPage, Gave, free_page, free-alloc}
use my_unix.Pmm.Run.{TookRun, alloc_n_lem}
use my_unix.Pmm.Init.{MmapEntry, BootInfo, max_phys, bitmap_bytes, init, mmap_available}
use my_unix.Pmm.Init.Laws.{Initialized, init-Initialized}

abbrev small_bitmap : Bitmap
small_bitmap w = if w == 0 then 5 else 0

abbrev small : Pmm
small = record {
  bitmap = small_bitmap;
  total_pages = 100;
  free_pages = 98;
  used_pages = 2;
  alloc_hint = 0;
  frames = λ p w. p + w;
}

small-Inv : Inv small
unfolding bitmap_test count_free test_bit
small-Inv = record {
  counts = record {
    words = λ w. ground arith;
    small = omega arith;
    counted = refl;
    balanced = refl;
  };
  hint_in = omega arith;
  zero_used = refl;
}

small-free : IsPage small (2 * page_size)
small-free = record { aligned = refl; nonzero = omega arith; in_range = omega arith }

alloc_example :
    ((small.free_pages ≡ 0) × (alloc small ≡ (0, small)))
    ⊎ ((0 < small.free_pages) × Took small (alloc small).0 (alloc small).1)
alloc_example = alloc_lem small small-Inv

free-alloc_example :
    (s' : Pmm) × (free (alloc small).1 (alloc small).0 ≡ done s')
    × ((q : ℕ) → bitmap_test s'.bitmap q ≡ bitmap_test small.bitmap q)
    × (s'.free_pages ≡ small.free_pages)
    × (s'.used_pages ≡ small.used_pages)
    × (free s' (alloc small).0 ≡ panic)
free-alloc_example = free-alloc small small-Inv (omega arith)

free_page_example :
    ((bitmap_test small.bitmap (2 * page_size / page_size) ≡ true)
      × (s' : Pmm) × (free small (2 * page_size) ≡ done s')
      × Gave small (2 * page_size) s')
    ⊎ ((bitmap_test small.bitmap (2 * page_size / page_size) ≡ false)
        × (free small (2 * page_size) ≡ panic))
free_page_example = free_page small (2 * page_size) small-Inv small-free

alloc_n_example :
    ((alloc_n small 3 ≡ (0, small))
      × ((r : ℕ) → 1 ≤ r → r + 3 ≤ small.total_pages → IsRun small.bitmap r 3 → ⊥))
    ⊎ TookRun small 3 (alloc_n small 3).0 (alloc_n small 3).1
alloc_n_example = alloc_n_lem small 3 small-Inv (omega arith)

-- One available megabyte and a half from address zero.
abbrev entries : List MmapEntry
entries = record { addr = 0; len = 0x18_0000; kind = mmap_available } ∷ []

abbrev boot : BootInfo
boot = record {
  mmap = some entries;
  mbi = 0xffff_ffff_8000_1000;
  total_size = 100;
  initrd = none;
  kernel_start = 0xffff_ffff_8010_0000;
  kernel_end = 0xffff_ffff_8012_0000;
}

init_example : (s : Pmm) × (init (λ _. 0) (λ _ _. 0) boot ≡ done s) × Initialized boot entries s
init_example =
    init-Initialized (λ _. 0) (λ _ _. 0) boot entries (λ w. omega arith) refl
      (unfold max_phys in omega arith) (unfold max_phys bitmap_bytes in omega arith)
