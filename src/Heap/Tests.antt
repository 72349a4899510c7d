-- ===== src/Heap/Tests.antt =====
-- A heap of three free blocks over a small page allocator.
use my_unix.Base.{
  ◌+◌, ℕ, ◌-◌, ◌≤◌, ◌<◌, ◌≡◌, refl, ◌⊎◌, true, if◌then◌else◌, ◌==◌, List, [], ◌∷◌, some, none,
  arith,
}
use my_unix.Base.Bits.{test_bit}
use my_unix.Base.Outcome.{done, panic}
use my_unix.Base.Word.{word_mod}
use my_unix.Pmm.{Pmm}
use my_unix.Pmm.Bitmap.{bitmap_test, count_free}
use my_unix.Pmm.Inv.{Inv}
use my_unix.Heap.{
  Heap, magic_free, heap_virt_base, best_fit, general, header_size, use_block, kfree,
}
use my_unix.Heap.Fit.{on_list, all_free, best_fit_lem}
use my_unix.Heap.Rounds.{general_lem}
use my_unix.Heap.Split.{kfree-use_block}

abbrev pages : Pmm
pages = record {
  bitmap = λ w. if w == 0 then 5 else 0;
  total_pages = 100;
  free_pages = 98;
  used_pages = 2;
  alloc_hint = 0;
  frames = λ p w. 0;
}

pages-Inv : Inv pages
unfolding bitmap_test count_free test_bit
pages-Inv = record {
  counts = record {
    words = λ w. ground arith;
    small = omega arith;
    counted = refl;
    balanced = refl;
  };
  hint_in = omega arith;
  zero_used = refl;
}

abbrev magics : ℕ → ℕ
magics b = magic_free

abbrev sizes : ℕ → ℕ
sizes b = if b == 5000 then 100000 else if b == 6000 then 50000 else 40000

abbrev blocks : List ℕ
blocks = 5000 ∷ 6000 ∷ 7000 ∷ []

abbrev small_heap : Heap
small_heap = record {
  magic = magics;
  size = sizes;
  free_list = blocks;
  heap_end = heap_virt_base;
  slabs = λ _. record { objects = []; total = 0; used = 0 };
  slab_virt = 0;
  stats = record {
    total_allocated = 0;
    total_freed = 0;
    current_usage = 0;
    alloc_count = 0;
    free_count = 0;
  };
  pmm = pages;
}

blocks_free : all_free magics blocks ≡ true
unfolding all_free
blocks_free = refl

best_fit_example :
    ((best_fit magics sizes 45000 blocks none (word_mod - 1) ≡ done none)
      × ((c : ℕ) → on_list c blocks ≡ true → sizes c < 45000))
    ⊎ ((b : ℕ) × (best_fit magics sizes 45000 blocks none (word_mod - 1) ≡ done (some b))
        × (on_list b blocks ≡ true)
        × (45000 ≤ sizes b)
        × ((c : ℕ) → on_list c blocks ≡ true → 45000 ≤ sizes c → sizes b ≤ sizes c))
best_fit_example = best_fit_lem magics sizes 45000 blocks blocks_free (λ c. ground arith)

general_example :
    (general 99 small_heap 40000 ≡ panic)
    ⊎ ((r : ℕ × Heap) × (general 99 small_heap 40000 ≡ done (some r)))
general_example = general_lem 99 small_heap 40000 pages-Inv (omega arith) (omega arith)

kfree-use_block_example :
    let split = 5000 + header_size + 40000 in
    (h' : Heap) × (kfree (use_block small_heap 40000 5000).1 (use_block small_heap 40000 5000).0
      ≡ done h')
    × (on_list 5000 h'.free_list ≡ true)
    × (on_list split h'.free_list ≡ true)
    × (h'.magic 5000 ≡ magic_free)
    × (h'.magic split ≡ magic_free)
    × (5000 < split)
    × (split + header_size + h'.size split ≡ 5000 + header_size + h'.size 5000)
unfolding on_list
kfree-use_block_example =
    kfree-use_block small_heap 40000 5000 refl (omega arith) (omega arith) (omega arith)
