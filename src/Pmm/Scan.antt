-- ===== src/Pmm/Scan.antt =====
-- The searches of the page allocator: what the pages that they find, or fail to find, are.
use my_unix.Base.{
  ℕ, zero, suc, ◌+◌, ◌-◌, ◌/◌, ◌%◌, ◌≤◌, ◌<◌, ◌≡◌, ◌≢◌, inl, inr, true, false, ◌==◌, none, some,
  arith, Bool-cases, Option-cases,
}
use my_unix.Base.Bits.{
  test_bit, not_bits, not_bits-pos, test-not_bits, ctz, ctz-lt, test-ctz, test_below_ctz, test-zero,
}
use my_unix.Base.Word.{word_mod}
use my_unix.Pmm.Bitmap.{Bitmap, IsWords, bitmap_test, count_free-full}
use my_unix.Pmm.{Pmm, scan_word, scan_words, find_free, first_free}
use my_unix.Pmm.Inv.{Inv}

module _ (b : Bitmap) (words : IsWords b) (total : ℕ) where
  abbrev inverted : ℕ → ℕ
  inverted w = not_bits 64 (b w)

  lowest_free :
      (w : ℕ)
      → b w ≢ word_mod - 1
      → (ctz 64 (inverted w) < 64)
        × (test_bit (b w) (ctz 64 (inverted w)) ≡ false)
        × ((i : ℕ) → i < ctz 64 (inverted w) → test_bit (b w) i ≡ true)
  lowest_free w ne =
      let pos : 0 < inverted w = not_bits-pos 64 (b w) (words w) ne in
      let lt : ctz 64 (inverted w) < 64 = ctz-lt 64 (inverted w) (omega arith) pos in
      (
        lt,
        ground (
          arith,
          test-ctz 64 (inverted w) (omega arith) pos,
          test-not_bits 64 (b w) (ctz 64 (inverted w)) (words w) lt,
        ),
        λ i h. ground (
          arith,
          test_below_ctz 64 (inverted w) i h,
          test-not_bits 64 (b w) i (words w) (omega arith),
        ),
      )

  full_word : (w i : ℕ) → b w ≡ word_mod - 1 → i < 64 → test_bit (b w) i ≡ true
  full_word w i e h = ground (arith, test-not_bits 64 (b w) i (words w) h, test-zero i)

  scan_word-some :
      (w p : ℕ) → scan_word b total w ≡ some p → (p < total) × (bitmap_test b p ≡ false)
  unfolding scan_word bitmap_test
  scan_word-some w p e = elim (Bool-cases (b w == word_mod - 1)) [
    | inl full ↦ ground arith
    | inr ne ↦ ground (arith, lowest_free w (ground arith))
  ]

  scan_word-none :
      (w q : ℕ) → scan_word b total w ≡ none → q < total → q / 64 ≡ w → bitmap_test b q ≡ true
  unfolding scan_word bitmap_test
  scan_word-none w q e h k = elim (Bool-cases (b w == word_mod - 1)) [
    | inl full ↦ ground (arith, full_word w (q % 64))
    | inr ne ↦ ground (arith, (lowest_free w (ground arith)).2 (q % 64))
  ]

  scan_words-some :
      (w n p : ℕ) → scan_words b total w n ≡ some p → (p < total) × (bitmap_test b p ≡ false)
  unfolding scan_words
  scan_words-some w zero p e = ground arith
  scan_words-some w (suc n) p e = elim (Option-cases (scan_word b total w)) [
    | inl a ↦ ground (arith, scan_words-some (w + 1) n p)
    | inr (r, a) ↦ ground (arith, scan_word-some w p)
  ]

  scan_words-none :
      (w n q : ℕ)
      → scan_words b total w n ≡ none
      → q < total
      → w ≤ q / 64
      → q / 64 < w + n
      → bitmap_test b q ≡ true
  unfolding scan_words
  scan_words-none w zero q e h k l = absurd (omega arith)
  scan_words-none w (suc n) q e h k l = elim (Option-cases (scan_word b total w)) [
    | inl a ↦ ground (arith, scan_word-none w q a h, scan_words-none (w + 1) n q)
    | inr (r, a) ↦ ground arith
  ]

-- What the two passes of `pmm_alloc` find is a free page, and they find one if there is one.
pub find_free-some :
    (s : Pmm) (p : ℕ)
    → Inv s
    → find_free s ≡ some p
    → (p < s.total_pages) × (bitmap_test s.bitmap p ≡ false)
unfolding find_free
find_free-some s p v e = ground (
  arith,
  scan_words-some s.bitmap v.words s.total_pages (s.alloc_hint / 64)
      ((s.total_pages + 63) / 64 - s.alloc_hint / 64) p,
  scan_words-some s.bitmap v.words s.total_pages 0 (s.alloc_hint / 64) p,
)

find_free-none :
    (s : Pmm) (q : ℕ)
    → Inv s
    → find_free s ≡ none
    → q < s.total_pages
    → bitmap_test s.bitmap q ≡ true
unfolding find_free
find_free-none s q v e h = ground (
  arith,
  v.hint_in,
  scan_words-none s.bitmap v.words s.total_pages (s.alloc_hint / 64)
      ((s.total_pages + 63) / 64 - s.alloc_hint / 64) q,
  scan_words-none s.bitmap v.words s.total_pages 0 (s.alloc_hint / 64) q,
)

pub find_free-total : (s : Pmm) → Inv s → 0 < s.free_pages → (p : ℕ) × (find_free s ≡ some p)
find_free-total s v h = elim (Option-cases (find_free s)) [
  | inl e ↦ absurd (
      omega (
        arith,
        v.counted,
        count_free-full s.bitmap s.total_pages (λ q l. find_free-none s q v e l),
      ))
  | inr found ↦ found
]

-- The linear search of `pmm_alloc_zone`.
pub first_free-some :
    (b : Bitmap) (pfn n p : ℕ)
    → first_free b pfn n ≡ some p
    → (pfn ≤ p)
      × (p < pfn + n)
      × (bitmap_test b p ≡ false)
      × ((q : ℕ) → pfn ≤ q → q < p → bitmap_test b q ≡ true)
unfolding first_free
first_free-some b pfn zero p e = absurd (ground arith)
first_free-some b pfn (suc n) p e = elim (Bool-cases (bitmap_test b pfn)) [
  | inl used ↦
      let r = first_free-some b (pfn + 1) n p (ground arith) in
      (
        omega arith,
        omega arith,
        r.2,
        λ q l m. elim (Bool-cases (pfn == q)) [
          | inl same ↦ ground arith
          | inr other ↦ r.3 q (ground arith) m
        ],
      )
  | inr unused ↦ (ground arith, ground arith, ground arith, λ q l m. absurd (ground arith))
]

pub first_free-none :
    (b : Bitmap) (pfn n q : ℕ)
    → first_free b pfn n ≡ none
    → pfn ≤ q
    → q < pfn + n
    → bitmap_test b q ≡ true
unfolding first_free
first_free-none b pfn zero q e l m = absurd (omega arith)
first_free-none b pfn (suc n) q e l m = ground (arith, first_free-none b (pfn + 1) n q)
