-- ===== src/Pmm/Region.antt =====
-- pmm_reserve_region and pmm_add_region: exactly the pages that they touch.
use my_unix.Base.{
  ℕ, zero, suc, ◌+◌, ◌-◌, ◌*◌, ◌/◌, ◌≤◌, ◌<◌, ◌≡◌, refl, ◌∙◌, inl, inr, Bool, true, false, not,
  ◌&&◌, if◌then◌else◌, ◌==◌, ltb, leb, arith, Bool-cases,
}
use my_unix.Base.Word.{word_mod, page_size, add64, page_down, page_up}
use my_unix.Pmm.Bitmap.{bitmap_test, test-bitmap_set, test-bitmap_clear}
use my_unix.Pmm.{
  Pmm, take_page, give_page, reserve_page, add_page, each_page, reserve_region, add_region,
}
use my_unix.Pmm.Inv.{Counts, take_page-Counts, give_page-Counts}

-- `s'` is `s` with the bits of the pages of RAM in `from ≤ q < from + n` set to `used`, and its
-- counters in step.
pub record Marked (used : Bool) (from n : ℕ) (s s' : Pmm) : Type 0 where
  pub valid : Counts s'
  pub bits :
      (q : ℕ)
      → bitmap_test s'.bitmap q ≡ (
          if leb from q && (ltb q (from + n) && ltb q s.total_pages)
          then used
          else bitmap_test s.bitmap q)
  pub same_total : s'.total_pages ≡ s.total_pages
  pub same_hint : s'.alloc_hint ≡ s.alloc_hint
  pub same_frames : s'.frames ≡ s.frames

Marked-none : (used : Bool) (from : ℕ) (s : Pmm) → Counts s → Marked used from 0 s s
Marked-none used from s v = record {
  valid = v;
  bits = λ q. ground arith;
  same_total = refl;
  same_hint = refl;
  same_frames = refl;
}

-- one page, then the rest
Marked-cons :
    {used : Bool} {from n : ℕ} {s t u : Pmm}
    → Marked used from 1 s t
    → Marked used (from + 1) n t u
    → Marked used from (suc n) s u
Marked-cons a b = record {
  valid = b.valid;
  bits = λ q. ground (arith, a.bits q, b.bits q, a.same_total);
  same_total = ground (arith, a.same_total, b.same_total);
  same_hint = ground (arith, a.same_hint, b.same_hint);
  same_frames = b.same_frames ∙ a.same_frames;
}

module _ (s : Pmm) (p : ℕ) (v : Counts s) where
  Marked-skip :
      (used : Bool) → (p < s.total_pages → bitmap_test s.bitmap p ≡ used) → Marked used p 1 s s
  Marked-skip used h = record {
    valid = v;
    bits = λ q. elim (Bool-cases (p == q)) [
      | inl same ↦ let e : p ≡ q = ground arith in ground (arith, h, e)
      | inr other ↦ ground arith
    ];
    same_total = refl;
    same_hint = refl;
    same_frames = refl;
  }

  pub reserve_page-Marked : Marked true p 1 s (reserve_page s p)
  unfolding reserve_page take_page
  reserve_page-Marked = elim (Bool-cases (ltb p s.total_pages && not (bitmap_test s.bitmap p))) [
    | inr skip ↦ rw skip (Marked-skip true (λ h. ground arith))
    | inl go ↦ rw go (record {
      valid = (take_page-Counts s p v (ground arith) (ground arith)).0;
      bits = λ q. ground (arith, test-bitmap_set s.bitmap p q);
      same_total = refl;
      same_hint = refl;
      same_frames = refl;
    })
  ]

  pub add_page-Marked : Marked false p 1 s (add_page s p)
  unfolding add_page give_page
  add_page-Marked = elim (Bool-cases (ltb p s.total_pages && bitmap_test s.bitmap p)) [
    | inr skip ↦ rw skip (Marked-skip false (λ h. ground arith))
    | inl go ↦ rw go (record {
      valid = (give_page-Counts s p v (ground arith) (ground arith)).0;
      bits = λ q. ground (arith, test-bitmap_clear s.bitmap p q);
      same_total = refl;
      same_hint = refl;
      same_frames = refl;
    })
  ]

-- The loop marks the pages of its range, if its body marks each.
pub each_page-Marked :
    (used : Bool) (body : Pmm → ℕ → Pmm)
    → ((s : Pmm) (p : ℕ) → Counts s → Marked used p 1 s (body s p))
    → (n from : ℕ) (s : Pmm) → Counts s
    → Marked used from n s (each_page body n from s)
unfolding each_page
each_page-Marked used body step zero from s v = Marked-none used from s v
each_page-Marked used body step (suc n) from s v =
    let one = step s from v in
    Marked-cons one (each_page-Marked used body step n (from + 1) (body s from) one.valid)

-- `s'` is `s` with the pages of RAM that `inside` holds of marked.
pub record Sets (used : Bool) (inside : ℕ → Bool) (s s' : Pmm) : Type 0 where
  pub valid : Counts s'
  pub bits :
      (q : ℕ)
      → bitmap_test s'.bitmap q
        ≡ (if inside q && ltb q s.total_pages then used else bitmap_test s.bitmap q)
  pub same_total : s'.total_pages ≡ s.total_pages
  pub same_hint : s'.alloc_hint ≡ s.alloc_hint

-- Page `q` shares a byte with the region; page `q` lies in the region.
abbrev pub overlaps : ℕ → ℕ → ℕ → Bool
overlaps base size q = ltb (q * page_size) (base + size) && ltb base ((q + 1) * page_size)

abbrev pub contained : ℕ → ℕ → ℕ → Bool
contained base size q = leb base (q * page_size) && leb ((q + 1) * page_size) (base + size)

pub reserve_region-Marked :
    (s : Pmm) (base size : ℕ)
    → Counts s
    → Marked true
        (base / page_size)
        (page_up (add64 base size) / page_size - base / page_size)
        s
        (reserve_region s base size)
unfolding reserve_region
reserve_region-Marked s base size v =
    let e : page_down base / page_size ≡ base / page_size = omega arith in
    rw e (each_page-Marked true reserve_page reserve_page-Marked _ _ s v)

-- pmm_reserve_region marks as used exactly the pages of RAM that share a byte with a region that is
-- not empty and ends below 2^64 - 4095, and keeps the counters in step with the bitmap.
reserve_region_lem :
    (s : Pmm) (base size : ℕ)
    → Counts s
    → 0 < size
    → base + size + page_size ≤ word_mod
    → Sets true (overlaps base size) s (reserve_region s base size)
unfolding reserve_region
reserve_region_lem s base size v pos fits =
    let m = each_page-Marked true reserve_page reserve_page-Marked _ _ s v in
    record {
      valid = m.valid;
      bits = λ q. ground (arith, m.bits q);
      same_total = m.same_total;
      same_hint = m.same_hint;
    }

-- pmm_add_region marks as free exactly the pages of RAM that lie in the region.
pub add_region_lem :
    (s : Pmm) (base size : ℕ)
    → Counts s
    → base + size + page_size ≤ word_mod
    → Sets false (contained base size) s (add_region s base size)
unfolding add_region
add_region_lem s base size v fits =
    let m = each_page-Marked false add_page add_page-Marked _ _ s v in
    record {
      valid = m.valid;
      bits = λ q. ground (arith, m.bits q);
      same_total = m.same_total;
      same_hint = m.same_hint;
    }
