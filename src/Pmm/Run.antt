-- ===== src/Pmm/Run.antt =====
-- pmm_alloc_n: runs of contiguous free pages.
use my_unix.Base.{
  ℕ, zero, suc, ◌+◌, ◌-◌, ◌*◌, ◌/◌, ◌%◌, ◌≤◌, ◌<◌, ◌≡◌, refl, ◌≢◌, ◌⊎◌, inl, inr, true, false, ◌&&◌,
  if◌then◌else◌, ◌==◌, ltb, leb, none, some, arith, Bool-cases, Option-cases,
}
use my_unix.Base.Word.{page_size}
use my_unix.Pmm.Bitmap.{Bitmap, IsRun, bitmap_test, test-bitmap_set, count_free-run}
use my_unix.Pmm.{
  Pmm, take_page, reserve_page, each_page, find_run, clear_frames, alloc_n, alloc_n_found,
}
use my_unix.Pmm.Inv.{Inv, Counts, Counts-rest, take_page-Counts}
use my_unix.Pmm.Region.{Marked, each_page-Marked, reserve_page-Marked}

module _ (b : Bitmap) (want lo : ℕ) where
  -- A run that the search returns is free, in range, and not below the start of the search.
  find_run-some :
      (pfn n count start r : ℕ)
      → count < want
      → lo ≤ pfn
      → (count ≢ 0 → (start + count ≡ pfn) × (lo ≤ start))
      → (count ≢ 0 → IsRun b start count)
      → find_run b want pfn n count start ≡ some r
      → (lo ≤ r) × (r + want ≤ pfn + n) × IsRun b r want
  unfolding find_run
  find_run-some pfn zero count start r c l ends free e = absurd (ground arith)
  find_run-some pfn (suc n) count start r c l ends free e = elim (Bool-cases (bitmap_test b pfn)) [
    | inl used ↦
        let (x, y, z) =
          find_run-some (pfn + 1) n 0 start r (omega arith) (omega arith) (λ h. absurd (h refl))
            (λ h. absurd (h refl)) (ground arith) in
        (x, omega arith, z)
    | inr unused ↦ elim (Bool-cases (count + 1 == want)) [
      | inl full ↦ (
        ground (arith, ends),
        ground (arith, ends),
        λ q h k. run unused q (ground (arith)) (ground (arith, ends)),
      )
      | inr short ↦
          let (x, y, z) =
            find_run-some (pfn + 1) n (count + 1) (if count == 0 then pfn else start) r
              (ground arith) (omega arith) (λ h. (ground (arith, ends), ground (arith, ends)))
              (λ h q k m. run unused q k (ground (arith, ends))) (ground arith) in
          (x, omega arith, z)
    ]
  ]
    where
      run :
          bitmap_test b pfn ≡ false
          → (q : ℕ) → (if count == 0 then pfn else start) ≤ q
          → q < pfn + 1
          → bitmap_test b q ≡ false
      run unused q k m = elim (Bool-cases (q == pfn)) [
        | inl same ↦ ground arith
        | inr other ↦ free (ground arith) q (ground arith) (ground (arith, ends))
      ]

  -- If a run exists ahead, the search does not fail.
  find_run-none :
      (pfn n count start r : ℕ)
      → count < want
      → pfn ≤ r + count
      → r + want ≤ pfn + n
      → IsRun b r want
      → find_run b want pfn n count start ≢ none
  unfolding find_run
  find_run-none pfn zero count start r c l m run = absurd (omega arith)
  find_run-none pfn (suc n) count start r c l m run = elim (Bool-cases (bitmap_test b pfn)) [
    | inl used ↦ ground (arith, run pfn, find_run-none (pfn + 1) n 0 start r)
    | inr unused ↦
        ground (arith, find_run-none (pfn + 1) n (count + 1) (if count == 0 then pfn else start) r)
  ]

-- On a run of free pages the unguarded loop of pmm_alloc_n is that of pmm_reserve_region.
take_run-eq-reserve :
    (n from : ℕ) (s : Pmm)
    → from + n ≤ s.total_pages
    → IsRun s.bitmap from n
    → each_page take_page n from s ≡ each_page reserve_page n from s
unfolding each_page
take_run-eq-reserve zero from s h run = refl
take_run-eq-reserve (suc n) from s h run =
    rw
      (
        take_run-eq-reserve n (from + 1) (take_page s from) (unfold take_page in omega arith) next,
        here,
      )
      refl
  where
    here : reserve_page s from ≡ take_page s from
    here = unfold reserve_page in ground (arith, run from)

    next : IsRun (take_page s from).bitmap (from + 1) n
    next = unfold take_page in λ q k m. ground (arith, test-bitmap_set s.bitmap from q, run q)

take_run-free :
    (n from : ℕ) (s : Pmm)
    → Counts s
    → from + n ≤ s.total_pages
    → IsRun s.bitmap from n
    → (each_page take_page n from s).free_pages + n ≡ s.free_pages
unfolding each_page
take_run-free zero from s v h run = omega arith
take_run-free (suc n) from s v h run =
    let (c, less) =
      take_page-Counts s from v (omega arith) (run from (omega arith) (omega arith)) in
    omega (
      arith,
      take_run-free n (from + 1) (take_page s from) c (unfold take_page in omega arith) next,
      less,
    )
  where
    next : IsRun (take_page s from).bitmap (from + 1) n
    next = unfold take_page in λ q k m. ground (arith, test-bitmap_set s.bitmap from q, run q)

-- A run of `n` free pages was taken from `s`, cleared, and nothing else changed.
pub record TookRun (s : Pmm) (n phys : ℕ) (s' : Pmm) : Type 0 where
  pub valid : Inv s'
  pub aligned : phys % page_size ≡ 0
  pub nonzero : 0 < phys
  pub in_range : phys / page_size + n ≤ s.total_pages
  pub was_free : IsRun s.bitmap (phys / page_size) n
  pub bits :
      (q : ℕ)
      → bitmap_test s'.bitmap q ≡ (
          if leb (phys / page_size) q && ltb q (phys / page_size + n)
          then true
          else bitmap_test s.bitmap q)
  pub n_less : s'.free_pages + n ≡ s.free_pages
  pub cleared : (q w : ℕ) → phys / page_size ≤ q → q < phys / page_size + n → s'.frames q w ≡ 0

module _ (s : Pmm) (n from : ℕ) (v : Inv s) (pos : 1 ≤ from) (h : from + n ≤ s.total_pages)
    (run : IsRun s.bitmap from n) where
  abbrev run_taken : Pmm
  run_taken =
      let s' = each_page take_page n from s in record s' { frames = clear_frames s'.frames from n }

  run-Marked : Marked true from n s (each_page take_page n from s)
  run-Marked =
      rw (take_run-eq-reserve n from s h run)
        (each_page-Marked true reserve_page reserve_page-Marked n from s v.counts)

  run_taken-Inv : Inv run_taken
  run_taken-Inv =
      let m = run-Marked in
      record {
        counts = Counts-rest (each_page take_page n from s) _ _ m.valid;
        hint_in = ground (arith, m.same_hint, m.same_total, v.hint_in);
        zero_used = ground (arith, m.bits 0, v.zero_used);
      }

  first_of_run : from * page_size / page_size ≡ from
  first_of_run = omega arith

  run_taken-TookRun : TookRun s n (from * page_size) run_taken
  run_taken-TookRun =
      let m = run-Marked in
      record {
        valid = run_taken-Inv;
        aligned = omega arith;
        nonzero = omega arith;
        in_range = omega arith;
        was_free = rw first_of_run run;
        bits = rw first_of_run (λ q. ground (arith, m.bits q));
        n_less = take_run-free n from s v.counts h run;
        cleared = rw first_of_run (λ q w k l. ground arith);
      }

-- pmm_alloc_n of two pages or more takes a run of contiguous free pages, and fails, the state
-- unchanged, only if no such run lies between page one and the end of RAM.
pub alloc_n_lem :
    (s : Pmm) (n : ℕ)
    → Inv s
    → 2 ≤ n
    → ((alloc_n s n ≡ (0, s)) × ((r : ℕ) → 1 ≤ r → r + n ≤ s.total_pages → IsRun s.bitmap r n → ⊥))
      ⊎ TookRun s n (alloc_n s n).0 (alloc_n s n).1
unfolding alloc_n alloc_n_found
alloc_n_lem s n v two = elim (Bool-cases (ltb s.free_pages n)) [
  | inl short ↦ inl (
    ground arith,
    λ r l m run.
        absurd (ground (arith, v.counted, count_free-run s.bitmap r n s.total_pages run m)),
  )
  | inr enough ↦ elim (Option-cases (find_run s.bitmap n 1 (s.total_pages - 1) 0 0)) [
    | inl e ↦ inl (
      ground arith,
      λ r l m run.
          find_run-none s.bitmap n 1 1 (s.total_pages - 1) 0 0 r (omega arith) (omega arith)
            (omega arith) run e,
    )
    | inr (from, e) ↦
        let (x, y, z) =
          find_run-some s.bitmap n 1 1 (s.total_pages - 1) 0 0 from (omega arith) (omega arith)
            (λ h. absurd (h refl)) (λ h. absurd (h refl)) e in
        inr (rw (alloc_n-eq enough from e) (run_taken-TookRun s n from v x (omega arith) z))
  ]
]
  where
    alloc_n-eq :
        ltb s.free_pages n ≡ false
        → (from : ℕ) → find_run s.bitmap n 1 (s.total_pages - 1) 0 0 ≡ some from
        → alloc_n s n ≡ alloc_n_found s n (some from)
    alloc_n-eq enough from e = ground arith
