-- ===== src/Pmm/Alloc.antt =====
-- pmm_alloc and pmm_alloc_zone: which page they hand out, and when they fail.
use my_unix.Base.{
  ℕ, ◌+◌, ◌-◌, ◌*◌, ◌/◌, ◌%◌, ◌≤◌, ◌<◌, ◌≡◌, refl, ◌≢◌, ◌⊎◌, inl, inr, true, false, if◌then◌else◌,
  ◌==◌, leb, min, arith, Bool-cases, Option-cases,
}
use my_unix.Base.Word.{word_mod, page_size}
use my_unix.Pmm.Bitmap.{bitmap_test, test-bitmap_set}
use my_unix.Pmm.{
  Pmm, take_page, first_free, clear_frames, alloc, alloc_found, alloc_below_found, alloc_below,
  alloc_zone, ZoneId, zone_low, zone_dma, zone_normal, zone_high,
}
use my_unix.Pmm.Inv.{Inv, Counts-rest, take_page-Inv}
use my_unix.Pmm.Scan.{find_free-some, find_free-total, first_free-some, first_free-none}

-- A free page of RAM was taken from `s`, cleared, and nothing else changed.
pub record Took (s : Pmm) (phys : ℕ) (s' : Pmm) : Type 0 where
  pub valid : Inv s'
  pub aligned : phys % page_size ≡ 0
  pub nonzero : 0 < phys
  pub in_range : phys / page_size < s.total_pages
  pub was_free : bitmap_test s.bitmap (phys / page_size) ≡ false
  pub bits :
      (q : ℕ)
      → bitmap_test s'.bitmap q ≡ (if phys / page_size == q then true else bitmap_test s.bitmap q)
  pub same_total : s'.total_pages ≡ s.total_pages
  pub one_less : s'.free_pages + 1 ≡ s.free_pages
  pub cleared : (w : ℕ) → s'.frames (phys / page_size) w ≡ 0
  pub kept : (q w : ℕ) → q ≢ phys / page_size → s'.frames q w ≡ s.frames q w

-- Taking page `p` and clearing it, whatever becomes of the hint.
module _ (s : Pmm) (p hint : ℕ) (v : Inv s) (h : p < s.total_pages)
    (e : bitmap_test s.bitmap p ≡ false) (k : hint ≤ s.total_pages) where
  abbrev taken : Pmm
  taken = record (take_page s p) { alloc_hint = hint; frames = clear_frames s.frames p 1 }

  taken-Inv : Inv taken
  unfolding take_page
  taken-Inv =
      let t = (take_page-Inv s p v h e).0 in
      record {
        counts = Counts-rest (take_page s p) hint (clear_frames s.frames p 1) t.counts;
        hint_in = k;
        zero_used = t.zero_used;
      }

  page_of : p * page_size / page_size ≡ p
  page_of = omega arith

  taken-Took : Took s (p * page_size) taken
  unfolding take_page
  taken-Took = record {
    valid = taken-Inv;
    aligned = omega arith;
    nonzero = ground (arith, v.zero_used);
    in_range = omega arith;
    was_free = rw page_of e;
    bits = rw page_of (λ q. test-bitmap_set s.bitmap p q);
    same_total = refl;
    one_less = (take_page-Inv s p v h e).1;
    cleared = rw page_of (λ w. ground arith);
    kept = rw page_of (λ q w ne. ground arith);
  }

-- pmm_alloc fails exactly when no page is free, and then changes nothing; otherwise it takes a free
-- page, nonzero as an address, marks it, counts it and clears it.
pub alloc_lem :
    (s : Pmm)
    → Inv s
    → ((s.free_pages ≡ 0) × (alloc s ≡ (0, s)))
      ⊎ ((0 < s.free_pages) × Took s (alloc s).0 (alloc s).1)
unfolding alloc alloc_found
alloc_lem s v = elim (Bool-cases (s.free_pages == 0)) [
  | inl none_left ↦ inl (ground arith, rw none_left)
  | inr some_left ↦
      let (p, e) = find_free-total s v (ground arith) in
      let (h, f) = find_free-some s p v e in
      inr (
        ground arith,
        rw (some_left, e, alloc_found)
            (taken-Took s p (if leb s.total_pages (p + 1) then 0 else p + 1) v h f (ground arith)),
      )
]

-- the address below which a zone's pages lie
abbrev pub zone_limit : ZoneId → ℕ
zone_limit zone_low = 0x10_0000
zone_limit zone_dma = 0x100_0000
zone_limit zone_normal = 0x1_0000_0000
zone_limit zone_high = word_mod

-- A search below a limit takes the first free page below it, and fails only if there is none.
abbrev pub TookBelow : Pmm → ℕ → ℕ × Pmm → Type 0
TookBelow s limit r =
    ((r ≡ (0, s))
      × ((q : ℕ) → q < s.total_pages → q < limit / page_size → bitmap_test s.bitmap q ≡ true))
    ⊎ (Took s r.0 r.1
        × (r.0 < limit)
        × ((q : ℕ) → q < r.0 / page_size → bitmap_test s.bitmap q ≡ true))

alloc_below-TookBelow : (s : Pmm) (limit : ℕ) → Inv s → TookBelow s limit (alloc_below s limit)
unfolding alloc_below take_page
alloc_below-TookBelow s limit v =
    elim (Option-cases (first_free s.bitmap 1 (min (limit / page_size) s.total_pages - 1))) [
      | inl e ↦
          rw (e, alloc_below_found)
            (inl (
              refl,
              λ q h k. ground (
                arith,
                v.zero_used,
                first_free-none s.bitmap 1 (min (limit / page_size) s.total_pages - 1) q e,
              ),
            ))
      | inr (p, e) ↦
          let (l, m, f, first) =
            first_free-some s.bitmap 1 (min (limit / page_size) s.total_pages - 1) p e in
          rw (e, alloc_below_found)
            (inr (
              taken-Took s p s.alloc_hint v (omega arith) f v.hint_in,
              omega arith,
              λ q h. elim (Bool-cases (q == 0)) [
                | inl z ↦ ground (arith, v.zero_used)
                | inr nz ↦ first q (ground arith) (omega arith)
              ],
            ))
    ]

-- pmm_alloc_zone of a zone other than ZONE_HIGH takes the lowest free page, below the zone's limit, or
-- returns zero, the state unchanged, if no page below the limit is free.
pub alloc_zone_lem :
    (s : Pmm) (z : ZoneId) → Inv s → z ≢ zone_high → TookBelow s (zone_limit z) (alloc_zone s z)
unfolding alloc_zone
alloc_zone_lem s zone_low v h = alloc_below-TookBelow s 0x10_0000 v
alloc_zone_lem s zone_dma v h = alloc_below-TookBelow s 0x100_0000 v
alloc_zone_lem s zone_normal v h = alloc_below-TookBelow s 0x1_0000_0000 v
alloc_zone_lem s zone_high v h = absurd (h refl)
