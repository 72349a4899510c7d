-- ===== src/Heap/Split.antt =====
-- What becomes of a block that kmalloc split once it is given back.
use my_unix.Base.{
  ℕ, ◌+◌, ◌≤◌, ◌<◌, ◌≡◌, refl, true, false, ◌==◌, leb, List, [], ◌∷◌, arith, Bool-cases, inl, inr,
}
use my_unix.Base.Maps.{update}
use my_unix.Base.Outcome.{done}
use my_unix.Base.Word.{word_mod, add64, sub64}
use my_unix.Heap.{Heap, magic_free, header_size, heap_min_size, replace, use_block, kfree}
use my_unix.Heap.Fit.{on_list}

replace-on_list :
    (best split : ℕ) (l : List ℕ)
    → on_list best l ≡ true
    → on_list split (replace best split l) ≡ true
unfolding on_list replace
replace-on_list best split [] h = absurd (ground arith)
replace-on_list best split (b ∷ l) h = elim (Bool-cases (b == best)) [
  | inl here ↦ rw here (ground arith)
  | inr other ↦ rw other (ground (arith, replace-on_list best split l (rw other at h)))
]

-- What kfree leaves of the part handed out.
abbrev freed : Heap → ℕ → Heap
freed h best = record h {
  magic = update h.magic best magic_free;
  free_list = best ∷ h.free_list;
  stats = record (h.stats) {
    total_freed = add64 h.stats.total_freed (h.size best);
    current_usage = sub64 h.stats.current_usage (h.size best);
    free_count = add64 h.stats.free_count 1;
  };
}

-- If kmalloc splits a block of the free list and the part handed out is given back, kfree does not panic and the free list
-- holds two different blocks that are both marked free and share memory: the second lies within the extent of the first, and
-- both end at the same address. The block lies below 2^64 and its size fits into its 32 bits.
pub kfree-use_block :
    (h : Heap) (size best : ℕ)
    → on_list best h.free_list ≡ true
    → size + header_size + heap_min_size ≤ h.size best
    → h.size best < 4294967296
    → best + header_size < word_mod
    → let split = best + header_size + size in
      (h' : Heap) × (kfree (use_block h size best).1 (use_block h size best).0 ≡ done h')
      × (on_list best h'.free_list ≡ true)
      × (on_list split h'.free_list ≡ true)
      × (h'.magic best ≡ magic_free)
      × (h'.magic split ≡ magic_free)
      × (best < split)
      × (split + header_size + h'.size split ≡ best + header_size + h'.size best)
unfolding use_block kfree on_list
kfree-use_block h size best listed large fits low =
    let g : leb (size + header_size + heap_min_size) (h.size best) ≡ true = ground arith in
    let b : sub64 (best + header_size) header_size ≡ best = ground arith in
    let z : (best + header_size == 0) ≡ false = ground arith in
    let e : (best + header_size + size == best) ≡ false = ground arith in
    let f : (best == best + header_size + size) ≡ false = ground arith in
    let s : (best + header_size + size == best + header_size + size) ≡ true = ground arith in
    let r : (best == best) ≡ true = ground arith in
    (
      freed (use_block h size best).1 best,
      rw (g, b, z, r) refl,
      rw r refl,
      rw (g, f, replace-on_list best (best + header_size + size) h.free_list listed) refl,
      rw r refl,
      rw (g, f, s) refl,
      omega arith,
      rw (g, s, e) (omega (arith, large, fits)),
    )
