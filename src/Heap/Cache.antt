-- ===== src/Heap/Cache.antt =====
-- The slab caches: which one serves a size, and what growing one does.
use native.Mathlib.Nat.{div-lt_iff_lt-mul}
use my_unix.Base.{
  ℕ, zero, suc, ◌+◌, ◌/◌, ◌≤◌, ◌<◌, ◌≡◌, refl, ◌⊎◌, inl, inr, true, false, ◌==◌, leb, none, some,
  arith, Bool-cases,
}
use my_unix.Base.Word.{page_size}
use my_unix.Pmm.{alloc}
use my_unix.Pmm.Inv.{Inv}
use my_unix.Pmm.Alloc.{alloc_lem}
use my_unix.Heap.{Heap, slab_size, slab_count, find_cache, slab_find_cache, cut, slab_cache_grow}

find_cache_lem :
    (size i n : ℕ)
    → ((j : ℕ) × (find_cache size i n ≡ some j)
        × (i ≤ j)
        × (j < i + n)
        × (size ≤ slab_size j)
        × ((k : ℕ) → i ≤ k → k < j → slab_size k < size))
      ⊎ ((find_cache size i n ≡ none) × ((k : ℕ) → i ≤ k → k < i + n → slab_size k < size))
unfolding find_cache
find_cache_lem size i zero = inr (refl, λ k l m. absurd (omega arith))
find_cache_lem size i (suc n) = elim (Bool-cases (leb size (slab_size i))) [
  | inl fits ↦
      inl (i, rw fits refl, omega arith, omega arith, ground arith, λ k l m. absurd (omega arith))
  | inr small ↦ elim (find_cache_lem size (i + 1) n) [
    | inl (j, e, l, m, fit, first) ↦
        inl (j, rw small e, omega arith, omega arith, fit, λ k a b. below small k a (first k) b)
    | inr (e, all) ↦ inr (
      rw small e,
      λ k a b. elim (Bool-cases (k == i)) [
        | inl same ↦ let eq : k ≡ i = ground arith in rw eq (ground arith)
        | inr other ↦ all k (ground arith) (omega arith)
      ],
    )
  ]
]
  where
    below :
        {j : ℕ}
        → leb size (slab_size i) ≡ false
        → (k : ℕ) → i ≤ k
        → (i + 1 ≤ k → k < j → slab_size k < size)
        → k < j
        → slab_size k < size
    below small k a f b = elim (Bool-cases (k == i)) [
      | inl same ↦ let eq : k ≡ i = ground arith in rw eq (ground arith)
      | inr other ↦ f (ground arith) b
    ]

-- slab_find_cache returns the cache of the smallest objects that hold `size` bytes, or none exactly if `size` is above
-- 32768.
slab_find_cache_lem :
    (size : ℕ)
    → ((j : ℕ) × (slab_find_cache size ≡ some j)
        × (j < slab_count)
        × (size ≤ slab_size j)
        × ((k : ℕ) → k < j → slab_size k < size))
      ⊎ ((slab_find_cache size ≡ none) × (32768 < size))
unfolding slab_find_cache
slab_find_cache_lem size = elim (find_cache_lem size 0 slab_count) [
  | inl (j, e, _, m, fit, first) ↦ inl (j, e, m, fit, λ k h. first k (omega arith) h)
  | inr (e, all) ↦ inr (e, all 12 (omega arith) (omega arith))
]

-- A cache of objects larger than a page never gets one: growing it takes a page from the page allocator and adds no
-- object.
large_cache_leaks :
    (h : Heap) (i : ℕ)
    → Inv h.pmm
    → 0 < h.pmm.free_pages
    → page_size < slab_size i
    → (((slab_cache_grow h i).slabs i).objects ≡ (h.slabs i).objects)
      × ((slab_cache_grow h i).pmm.free_pages + 1 ≡ h.pmm.free_pages)
unfolding slab_cache_grow cut
large_cache_leaks h i v some_free large = elim (alloc_lem h.pmm v) [
  | inl (z, _) ↦ absurd (omega (arith, z))
  | inr (_, t) ↦
      let nz : ((alloc h.pmm).0 == 0) ≡ false = ground (arith, t.nonzero) in
      let e : (i == i) ≡ true = ground arith in
      let none_fit : page_size / slab_size i ≡ 0 = omega (
        arith,
        (div-lt_iff_lt-mul {k = slab_size i} {x = page_size} {y = 1} (omega (arith, large))).1
            (omega (arith, large)),
      ) in
      (rw (nz, e, none_fit) refl, rw nz t.one_less)
]
