-- ===== src/Process/Fd/Laws.antt =====
-- Descriptors and the references they hold.
use my_unix.Base.{
  ℕ, zero, suc, ◌+◌, ◌*◌, ◌≤◌, ◌<◌, ◌≡◌, refl, ◌≢◌, ◌⊎◌, inl, inr, true, if◌then◌else◌, ◌==◌, leb,
  ◌∷◌, none, some, arith, Bool-cases, Option-cases,
}
use my_unix.Base.Errno.{ebadf, emfile}
use my_unix.Base.Int.{ℤ, pos, negsuc, neg}
use my_unix.Base.Maps.{update}
use my_unix.Process.Fd.{
  Files, FdState, fd_max, atomic_mod, file_get, file_put, set_fd, lowest_free, fd_alloc,
  fd_alloc_found, fd_close,
}

-- How many of the first `n` slots hold `f`.
pub slots : (ℕ → ℕ) → ℕ → ℕ → ℕ
slots fds f zero = 0
slots fds f (suc n) = (if fds n == f then 1 else 0) + slots fds f n

pub slots-set :
    (fds : ℕ → ℕ) (f i v n : ℕ)
    → i < n
    → slots (update fds i v) f n + (if fds i == f then 1 else 0)
      ≡ slots fds f n + (if v == f then 1 else 0)
unfolding slots
slots-set fds f i v zero h = absurd (omega arith)
slots-set fds f i v (suc n) h = elim (Bool-cases (i == n)) [
  | inl last ↦ ground (arith, slots-past fds f i v n)
  | inr before ↦ ground (arith, slots-set fds f i v n)
]
  where
    slots-past : (fds : ℕ → ℕ) (f i v n : ℕ) → n ≤ i → slots (update fds i v) f n ≡ slots fds f n
    slots-past fds f i v zero h = refl
    slots-past fds f i v (suc n) h = ground (arith, slots-past fds f i v n)

-- Every reference to a file is a slot of the table or one of `other` holders, and no count is near
-- the end of its range.
pub record Balanced (s : FdState) (other : ℕ → ℕ) : Type 0 where
  pub held : (f : ℕ) → f ≢ 0 → s.files.refs f ≡ slots s.table.fds f fd_max + other f
  pub small : (f : ℕ) → other f + 2 * fd_max < atomic_mod

pub slots-le : (fds : ℕ → ℕ) (f n : ℕ) → slots fds f n ≤ n
unfolding slots
slots-le fds f zero = omega arith
slots-le fds f (suc n) = ground (arith, slots-le fds f n)

pub slots-pos : (fds : ℕ → ℕ) (f i n : ℕ) → i < n → fds i ≡ f → 0 < slots fds f n
unfolding slots
slots-pos fds f i zero h e = absurd (omega arith)
slots-pos fds f i (suc n) h e = elim (Bool-cases (i == n)) [
  | inl same ↦ let eq : fds n ≡ f = rw (← (the_same same)) e in ground (arith, eq)
  | inr other ↦ ground (arith, slots-pos fds f i n (ground arith) e)
]
  where
    the_same : (i == n) ≡ true → i ≡ n
    the_same h = ground arith

pub slots-none : (fds : ℕ → ℕ) (f n : ℕ) → f ≢ 0 → ((j : ℕ) → j < n → fds j ≡ 0) → slots fds f n ≡ 0
unfolding slots
slots-none fds f zero nz h = refl
slots-none fds f (suc n) nz h =
    ground (arith, h n (omega arith), slots-none fds f n nz (λ j k. h j (omega arith)))

-- What the first empty slot is.
lowest_free-none :
    (fds : ℕ → ℕ) (i n : ℕ) → lowest_free fds i n ≡ none → (j : ℕ) → i ≤ j → j < i + n → fds j ≢ 0
unfolding lowest_free
lowest_free-none fds i zero e j l m = absurd (omega arith)
lowest_free-none fds i (suc n) e j l m = elim (Bool-cases (i == j)) [
  | inl same ↦ let eq : i ≡ j = ground arith in rw (← eq) (ground arith)
  | inr other ↦ lowest_free-none fds (i + 1) n (ground arith) j (ground arith) (omega arith)
]

lowest_free-some :
    (fds : ℕ → ℕ) (i n r : ℕ)
    → lowest_free fds i n ≡ some r
    → (i ≤ r) × (r < i + n) × (fds r ≡ 0) × ((j : ℕ) → i ≤ j → j < r → fds j ≢ 0)
unfolding lowest_free
lowest_free-some fds i zero r e = absurd (ground arith)
lowest_free-some fds i (suc n) r e = elim (Bool-cases (fds i == 0)) [
  | inl vacant ↦ (ground arith, ground arith, ground arith, λ j l m. absurd (ground arith))
  | inr taken ↦
      let (l, m, vacant, first) = lowest_free-some fds (i + 1) n r (ground arith) in
      (
        omega arith,
        omega arith,
        vacant,
        λ j k h. elim (Bool-cases (i == j)) [
          | inl same ↦ let eq : i ≡ j = ground arith in rw (← eq) (ground arith)
          | inr other ↦ first j (ground arith) h
        ],
      )
]

-- The counts after one reference is taken or dropped.
pub get-refs :
    (s : Files) (g f : ℕ)
    → f ≢ 0
    → s.refs f + 1 < atomic_mod
    → (file_get s g).refs f ≡ s.refs f + (if g == f then 1 else 0)
unfolding file_get
get-refs s g f nz h = ground arith

pub put-refs :
    (s : Files) (g f : ℕ)
    → f ≢ 0
    → s.refs f < atomic_mod
    → (g ≡ f → 0 < s.refs f)
    → (file_put s g).refs f + (if g == f then 1 else 0) ≡ s.refs f
unfolding file_put
put-refs s g f nz h k = ground arith

-- An empty slot takes a file and a reference.
pub Balanced-take :
    (s : FdState) (i f flags : ℕ) (other : ℕ → ℕ)
    → Balanced s other
    → i < fd_max
    → s.table.fds i ≡ 0
    → Balanced (record { table = set_fd s.table i f flags; files = file_get s.files f }) other
Balanced-take s i f flags other v h vacant = record {
  held = λ g nz.
      let e = v.held g nz in
      let b = slots-le s.table.fds g fd_max in
      let c = slots-set s.table.fds g i f fd_max h in
      let d = get-refs s.files f g nz (omega (arith, e, b, v.small g)) in
      ground (arith, e, c, d, vacant);
  small = v.small;
}

-- fd_alloc gives the file to the lowest empty slot, with its flags cleared and one reference more, or
-- returns -EMFILE, the state unchanged, if every slot is taken.
pub fd_alloc_lem :
    (s : FdState) (f : ℕ) (other : ℕ → ℕ)
    → Balanced s other
    → f ≢ 0
    → ((fd_alloc s f ≡ (neg emfile, s)) × ((i : ℕ) → i < fd_max → s.table.fds i ≢ 0))
      ⊎ ((i : ℕ) × ((fd_alloc s f).0 ≡ pos i)
          × (i < fd_max)
          × (s.table.fds i ≡ 0)
          × ((j : ℕ) → j < i → s.table.fds j ≢ 0)
          × ((fd_alloc s f).1.table ≡ set_fd s.table i f 0)
          × ((fd_alloc s f).1.files.closed ≡ s.files.closed)
          × Balanced (fd_alloc s f).1 other)
unfolding fd_alloc fd_alloc_found
fd_alloc_lem s f other v nz = elim (Option-cases (lowest_free s.table.fds 0 fd_max)) [
  | inl e ↦ inl (rw e refl, λ i h. lowest_free-none s.table.fds 0 fd_max e i (omega arith) h)
  | inr (i, e) ↦
      let (_, l, vacant, first) = lowest_free-some s.table.fds 0 fd_max i e in
      inr (
        i,
        rw e refl,
        l,
        vacant,
        λ j m. first j (omega arith) m,
        rw e refl,
        rw e (unfold file_get in ground arith),
        rw e (Balanced-take s i f 0 other v l vacant),
      )
]

-- A full slot gives its file and the reference up.
pub Balanced-drop :
    (s : FdState) (i : ℕ) (flags : ℕ → ℕ) (other : ℕ → ℕ)
    → Balanced s other
    → i < fd_max
    → Balanced
        (record {
          table = record { fds = update s.table.fds i 0; flags = flags };
          files = file_put s.files (s.table.fds i);
        })
        other
Balanced-drop s i flags other v h = record {
  held = λ g nz.
      let e = v.held g nz in
      let b = slots-le s.table.fds g fd_max in
      let c = slots-set s.table.fds g i 0 fd_max h in
      let d =
        put-refs s.files (s.table.fds i) g nz (omega (arith, e, b, v.small g))
          (λ same. omega (arith, e, slots-pos s.table.fds g i fd_max h same)) in
      ground (arith, e, c, d);
  small = v.small;
}

put-closed :
    (s : Files) (f : ℕ)
    → f ≢ 0
    → s.refs f < atomic_mod
    → (file_put s f).closed ≡ (if s.refs f == 1 then f ∷ s.closed else s.closed)
unfolding file_put
put-closed s f nz h = ground arith

in_range :
    (s : FdState) (f : ℕ) (other : ℕ → ℕ) → Balanced s other → f ≢ 0 → s.files.refs f < atomic_mod
in_range s f other v nz = omega (arith, v.held f nz, slots-le s.table.fds f fd_max, v.small f)

-- fd_close empties a slot in use and gives up its reference: the file is closed exactly if that was
-- the last one. Any other descriptor is -EBADF and changes nothing.
pub fd_close_lem :
    (s : FdState) (fd : ℤ) (other : ℕ → ℕ)
    → Balanced s other
    → ((fd_close s fd ≡ (neg ebadf, s)) × ((i : ℕ) → fd ≡ pos i → i < fd_max → s.table.fds i ≡ 0))
      ⊎ ((i : ℕ) × (fd ≡ pos i)
          × (i < fd_max)
          × (s.table.fds i ≢ 0)
          × ((fd_close s fd).0 ≡ pos 0)
          × ((fd_close s fd).1.table ≡ set_fd s.table i 0 0)
          × ((fd_close s fd).1.files.closed ≡ (
              if s.files.refs (s.table.fds i) == 1
              then s.table.fds i ∷ s.files.closed
              else s.files.closed))
          × Balanced (fd_close s fd).1 other)
unfolding fd_close
fd_close_lem s (negsuc n) other v = inl (refl, λ i e h. absurd (ground arith))
fd_close_lem s (pos n) other v = elim (Bool-cases (leb fd_max n)) [
  | inl out ↦ inl (rw out refl, λ i e h. absurd (ground arith))
  | inr inside ↦ elim (Bool-cases (s.table.fds n == 0)) [
    | inl vacant ↦
        inl (
          rw (inside, vacant) refl,
          λ i e h. let k : n ≡ i = ground arith in rw (← k) (ground arith),
        )
    | inr taken ↦ inr (
      n,
      refl,
      ground arith,
      ground arith,
      rw (inside, taken) refl,
      rw (inside, taken) refl,
      rw (inside, taken)
          (put-closed s.files (s.table.fds n) (ground arith)
            (in_range s (s.table.fds n) other v (ground arith))),
      rw (inside, taken) (Balanced-drop s n (update s.table.flags n 0) other v (ground arith)),
    )
  ]
]
