-- ===== src/Pmm/Free.antt =====
-- pmm_free: its branches, the double free, and that it undoes an allocation.
use my_unix.Base.{
  ℕ, ◌+◌, ◌/◌, ◌%◌, ◌≤◌, ◌<◌, ◌≡◌, refl, ◌≢◌, ◌⊎◌, inl, inr, true, false, not, if◌then◌else◌, ◌==◌,
  ltb, arith, Bool-cases,
}
use my_unix.Base.Outcome.{done, panic}
use my_unix.Base.Word.{page_size}
use my_unix.Pmm.Bitmap.{bitmap_test, test-bitmap_clear}
use my_unix.Pmm.{Pmm, give_page, alloc, free}
use my_unix.Pmm.Inv.{Inv, Counts-rest, give_page-Inv}
use my_unix.Pmm.Alloc.{Took, alloc_lem}

-- An address that pmm_free acts on: a page of RAM other than page zero.
pub record IsPage (s : Pmm) (phys : ℕ) : Type 0 where
  pub aligned : phys % page_size ≡ 0
  pub nonzero : 0 < phys
  pub in_range : phys / page_size < s.total_pages

-- The page at `phys` was given back, and nothing else changed but the hint, which is no higher.
pub record Gave (s : Pmm) (phys : ℕ) (s' : Pmm) : Type 0 where
  pub valid : Inv s'
  pub bits :
      (q : ℕ)
      → bitmap_test s'.bitmap q ≡ (if phys / page_size == q then false else bitmap_test s.bitmap q)
  pub same_total : s'.total_pages ≡ s.total_pages
  pub one_more : s'.free_pages ≡ s.free_pages + 1
  pub hint_low :
      (s'.alloc_hint ≤ s.alloc_hint)
      × (s'.alloc_hint ≤ phys / page_size ⊎ (s'.alloc_hint ≡ s.alloc_hint))
  pub same_frames : s'.frames ≡ s.frames

free_on_page :
    (s : Pmm) (phys : ℕ)
    → IsPage s phys
    → free s phys ≡ (
        if not (bitmap_test s.bitmap (phys / page_size))
        then panic
        else done (record (give_page s (phys / page_size)) {
          alloc_hint =
              if ltb (phys / page_size) s.alloc_hint then phys / page_size else s.alloc_hint;
        }))
unfolding free
free_on_page s phys g = ground arith

-- The state that pmm_free leaves when it gives page `phys` back.
module _ (s : Pmm) (phys : ℕ) (v : Inv s) (g : IsPage s phys) where
  abbrev given : Pmm
  given = record (give_page s (phys / page_size)) {
    alloc_hint = if ltb (phys / page_size) s.alloc_hint then phys / page_size else s.alloc_hint;
  }

  page_pos : 0 < phys / page_size
  page_pos = omega (arith, g.aligned, g.nonzero)

  given-Gave : bitmap_test s.bitmap (phys / page_size) ≡ true → Gave s phys given
  unfolding give_page
  given-Gave e =
      let (t, more) = give_page-Inv s (phys / page_size) v g.in_range e page_pos in
      record {
        valid = record {
          counts = Counts-rest (give_page s (phys / page_size)) _ s.frames t.counts;
          hint_in = ground (arith, v.hint_in, g.in_range);
          zero_used = t.zero_used;
        };
        bits = λ q. test-bitmap_clear s.bitmap (phys / page_size) q;
        same_total = refl;
        one_more = more;
        hint_low = (ground arith, ground arith);
        same_frames = refl;
      }

-- pmm_free of a page of RAM gives it back if it is in use, and changes no other page's bit and no
-- page's contents; if the page is free already it panics.
pub free_page :
    (s : Pmm) (phys : ℕ)
    → Inv s
    → IsPage s phys
    → ((bitmap_test s.bitmap (phys / page_size) ≡ true)
        × (s' : Pmm) × (free s phys ≡ done s')
        × Gave s phys s')
      ⊎ ((bitmap_test s.bitmap (phys / page_size) ≡ false) × (free s phys ≡ panic))
free_page s phys v g = elim (Bool-cases (bitmap_test s.bitmap (phys / page_size))) [
  | inr e ↦ inr (e, rw (free_on_page s phys g, e))
  | inl e ↦ inl (e, given s phys v g, rw (free_on_page s phys g, e), given-Gave s phys v g e)
]

-- Anything else pmm_free ignores: zero, an unaligned address, an address past the end of RAM.
pub free_ignored :
    (s : Pmm) (phys : ℕ)
    → (phys ≡ 0) ⊎ ((phys % page_size ≢ 0) ⊎ (s.total_pages ≤ phys / page_size))
    → free s phys ≡ done s
unfolding free
free_ignored s phys h = ground arith

Took-IsPage : {s s' : Pmm} {phys : ℕ} → Took s phys s' → IsPage s' phys
Took-IsPage t = record {
  aligned = t.aligned;
  nonzero = t.nonzero;
  in_range = rw t.same_total t.in_range;
}

-- Freeing what pmm_alloc has just returned succeeds, and restores every page's bit and the counters;
-- freeing it once more panics.
pub free-alloc :
    (s : Pmm)
    → Inv s
    → 0 < s.free_pages
    → (s' : Pmm) × (free (alloc s).1 (alloc s).0 ≡ done s')
      × ((q : ℕ) → bitmap_test s'.bitmap q ≡ bitmap_test s.bitmap q)
      × (s'.free_pages ≡ s.free_pages)
      × (s'.used_pages ≡ s.used_pages)
      × (free s' (alloc s).0 ≡ panic)
free-alloc s v h = elim (alloc_lem s v) [
  | inl (z, _) ↦ absurd (omega arith)
  | inr (_, t) ↦
      let g = Took-IsPage t in
      elim (free_page (alloc s).1 (alloc s).0 t.valid g) [
        | inr (e, _) ↦ absurd (ground (arith, t.bits ((alloc s).0 / page_size)))
        | inl (e, s', f, w) ↦ (
          s',
          f,
          (λ q. ground (arith, t.bits q, w.bits q, t.was_free)),
          omega (arith, w.one_more, t.one_less),
          omega (
            arith, w.one_more, t.one_less, v.balanced, w.valid.balanced, w.same_total, t.same_total,
          ),
          elim (free_page s' (alloc s).0 w.valid (record {
            aligned = t.aligned;
            nonzero = t.nonzero;
            in_range = rw (w.same_total, t.same_total) t.in_range;
          })) [
            | inr (_, again) ↦ again
            | inl (u, _, _, _) ↦ absurd (ground (arith, w.bits ((alloc s).0 / page_size)))
          ],
        )
      ]
]
