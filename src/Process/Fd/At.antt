-- ===== src/Process/Fd/At.antt =====
-- fd_alloc, fd_alloc_at, fd_get and fd_close keep count of the references.
use my_unix.Base.{ℕ, ◌+◌, ◌*◌, ◌<◌, ◌≢◌, inl, inr, if◌then◌else◌, ◌==◌, leb, arith, Bool-cases}
use my_unix.Base.Int.{ℤ, pos, negsuc}
use my_unix.Process.Fd.{
  FdState, fd_max, atomic_mod, file_get, file_put, fd_get, fd_alloc, fd_alloc_at, fd_close,
}
use my_unix.Process.Fd.Laws.{
  Balanced, slots-set, slots-le, slots-pos, get-refs, put-refs, fd_alloc_lem, fd_close_lem,
}

-- one holder more of `f`
abbrev pub and_holder : (ℕ → ℕ) → ℕ → ℕ → ℕ
and_holder other f g = other g + (if f == g then 1 else 0)

-- No count can come near the end of its range.
abbrev pub Room : (ℕ → ℕ) → Type 0
Room other = (f : ℕ) → other f + 2 * fd_max + 2 < atomic_mod

module _ (other : ℕ → ℕ) (room : Room other) where
  pub file_get-Balanced :
      (s : FdState) (f : ℕ)
      → Balanced s other
      → Balanced (record s { files = file_get s.files f }) (and_holder other f)
  file_get-Balanced s f v = record {
    held = λ g nz.
        let e = v.held g nz in
        let b = slots-le s.table.fds g fd_max in
        let d = get-refs s.files f g nz (omega (arith, e, b, v.small g)) in ground (arith, e, d);
    small = λ g. ground (arith, room g);
  }

  pub file_put-Balanced :
      (s : FdState) (f : ℕ)
      → Balanced s (and_holder other f)
      → Balanced (record s { files = file_put s.files f }) other
  file_put-Balanced s f v = record {
    held = λ g nz.
        let e = v.held g nz in
        let b = slots-le s.table.fds g fd_max in
        let d =
          put-refs s.files f g nz (ground (arith, e, b, room g))
            (λ same. ground (arith, e, same)) in
        ground (arith, e, d);
    small = λ g. omega (arith, room g);
  }

  -- the file of a descriptor, held once more, or none
  pub fd_get-Balanced :
      (s : FdState) (fd : ℤ)
      → Balanced s other
      → Balanced (fd_get s fd).1 (and_holder other (fd_get s fd).0)
  unfolding fd_get
  fd_get-Balanced s (negsuc n) v = record {
    held = λ g nz. ground (arith, v.held g nz);
    small = λ g. ground (arith, room g);
  }
  fd_get-Balanced s (pos i) v = elim (Bool-cases (leb fd_max i)) [
    | inl out ↦
        rw out (record {
          held = λ g nz. ground (arith, v.held g nz);
          small = λ g. ground (arith, room g);
        })
    | inr inside ↦ rw inside (file_get-Balanced s (s.table.fds i) v)
  ]

module _ (s : FdState) (other : ℕ → ℕ) (v : Balanced s other) where
  pub fd_alloc-Balanced : (f : ℕ) → f ≢ 0 → Balanced (fd_alloc s f).1 other
  fd_alloc-Balanced f nz = elim (fd_alloc_lem s f other v nz) [
    | inl (full, _) ↦ rw full v
    | inr (i, _, _, _, _, _, _, b) ↦ b
  ]

  -- What the slot held is put, the slot is filled and `f` is got.
  pub fd_alloc_at-Balanced : (fd : ℤ) (f : ℕ) → Balanced (fd_alloc_at s fd f).1 other
  unfolding fd_alloc_at
  fd_alloc_at-Balanced (negsuc n) f = v
  fd_alloc_at-Balanced (pos i) f = elim (Bool-cases (leb fd_max i)) [
    | inl out ↦ rw out v
    | inr inside ↦ rw inside (record {
      held = λ g nz.
          let e = v.held g nz in
          let b = slots-le s.table.fds g fd_max in
          let c = slots-set s.table.fds g i f fd_max (ground arith) in
          let put =
            put-refs s.files (s.table.fds i) g nz (omega (arith, e, b, v.small g))
              (λ same. omega (arith, e, slots-pos s.table.fds g i fd_max (ground arith) same)) in
          let got =
            get-refs (file_put s.files (s.table.fds i)) f g nz
              (ground (arith, e, b, v.small g, put)) in
          ground (arith, e, c, put, got);
      small = v.small;
    })
  ]

  pub fd_close-Balanced : (fd : ℤ) → Balanced (fd_close s fd).1 other
  fd_close-Balanced fd = elim (fd_close_lem s fd other v) [
    | inl (bad, _) ↦ rw bad v
    | inr (i, _, _, _, _, _, _, b) ↦ b
  ]
