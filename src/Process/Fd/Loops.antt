-- ===== src/Process/Fd/Loops.antt =====
-- The loops over a whole descriptor table: exec, exit and fork.
use my_unix.Base.{
  ℕ, zero, suc, ◌+◌, ◌*◌, ◌≤◌, ◌<◌, ◌≡◌, refl, ap, ◌∙◌, ◌≢◌, ◌⊎◌, inl, inr, Bool, true, false, not,
  none, some, ◌&&◌, if◌then◌else◌, ◌==◌, ltb, leb, arith, Bool-cases,
}
use my_unix.Base.Bits.{test_bit}
use my_unix.Base.Maps.{update}
use my_unix.Process.Fd.{
  Files, FdTable, FdState, fd_max, atomic_mod, file_get, each_fd, exec_slot, fd_close_on_exec,
  destroy_slot, fd_table_destroy, clone_slot, no_fds, fd_table_clone,
}
use my_unix.Process.Fd.Laws.{slots, slots-le, slots-none, Balanced, Balanced-drop, Balanced-take}

-- What closing on exec leaves in slot `j`.
abbrev pub kept : FdTable → ℕ → ℕ
kept t j = if test_bit (t.flags j) 0 then 0 else t.fds j

exec_slot-Balanced :
    (s : FdState) (i : ℕ) (other : ℕ → ℕ)
    → Balanced s other
    → i < fd_max
    → Balanced (exec_slot s i) other
unfolding exec_slot
exec_slot-Balanced s i other v h =
    elim (Bool-cases (not (s.table.fds i == 0) && test_bit (s.table.flags i) 0)) [
      | inl close ↦ rw close (Balanced-drop s i (update s.table.flags i 0) other v h)
      | inr keep ↦ rw keep v
    ]

exec_slot-fds :
    (s : FdState) (i j : ℕ)
    → ((exec_slot s i).table.fds j ≡ (if i == j then kept s.table j else s.table.fds j))
      × (i ≢ j → (exec_slot s i).table.flags j ≡ s.table.flags j)
unfolding exec_slot
exec_slot-fds s i j = (ground arith, λ ne. ground arith)

-- One round joined to the rounds after it, at slot `j`.
exec_shift :
    {x y : ℕ} (later here old i j n : ℕ)
    → x ≡ (if leb (i + 1) j && ltb j (i + 1 + n) then later else y)
    → y ≡ (if i == j then here else old)
    → (i ≢ j → later ≡ here)
    → x ≡ (if leb i j && ltb j (i + suc n) then here else old)
exec_shift later here old i j n e f g = ground arith

kept-eq :
    (s t : FdTable) (i j : ℕ)
    → i ≢ j
    → t.fds j ≡ (if i == j then kept s j else s.fds j)
    → t.flags j ≡ s.flags j
    → kept t j ≡ kept s j
kept-eq s t i j ne e f = rw f (ground arith)

exec_loop :
    (n i : ℕ) (s : FdState) (other : ℕ → ℕ)
    → Balanced s other
    → i + n ≤ fd_max
    → Balanced (each_fd exec_slot n i s) other
      × ((j : ℕ)
          → (each_fd exec_slot n i s).table.fds j
            ≡ (if leb i j && ltb j (i + n) then kept s.table j else s.table.fds j))
unfolding each_fd
exec_loop zero i s other v h = (v, λ j. ground arith)
exec_loop (suc n) i s other v h =
    let (w, e) =
      exec_loop n (i + 1) (exec_slot s i) other (exec_slot-Balanced s i other v (omega arith))
        (omega arith) in
    (
      w,
      λ j.
          let (fd, flag) = exec_slot-fds s i j in
          exec_shift (kept (exec_slot s i).table j) (kept s.table j) (s.table.fds j) i j n (e j) fd
            (λ ne. kept-eq s.table (exec_slot s i).table i j ne fd (flag ne)),
    )

-- fd_close_on_exec empties exactly the slots marked close-on-exec, giving up one reference for each.
pub fd_close_on_exec_lem :
    (s : FdState) (other : ℕ → ℕ)
    → Balanced s other
    → Balanced (fd_close_on_exec s) other
      × ((j : ℕ)
          → j < fd_max
          → (fd_close_on_exec s).table.fds j
            ≡ (if test_bit (s.table.flags j) 0 then 0 else s.table.fds j))
unfolding fd_close_on_exec
fd_close_on_exec_lem s other v =
    let (w, e) = exec_loop fd_max 0 s other v (omega arith) in (w, λ j h. ground (arith, e j))

destroy_slot-Balanced :
    (s : FdState) (i : ℕ) (other : ℕ → ℕ)
    → Balanced s other
    → i < fd_max
    → Balanced (destroy_slot s i) other
      × ((j : ℕ) → (destroy_slot s i).table.fds j ≡ (if i == j then 0 else s.table.fds j))
unfolding destroy_slot
destroy_slot-Balanced s i other v h = elim (Bool-cases (s.table.fds i == 0)) [
  | inl vacant ↦ rw vacant (v, λ j. ground arith)
  | inr taken ↦ rw taken (Balanced-drop s i s.table.flags other v h, λ j. refl)
]

destroy_loop :
    (n i : ℕ) (s : FdState) (other : ℕ → ℕ)
    → Balanced s other
    → i + n ≤ fd_max
    → Balanced (each_fd destroy_slot n i s) other
      × ((j : ℕ)
          → (each_fd destroy_slot n i s).table.fds j
            ≡ (if leb i j && ltb j (i + n) then 0 else s.table.fds j))
unfolding each_fd
destroy_loop zero i s other v h = (v, λ j. ground arith)
destroy_loop (suc n) i s other v h =
    let (a, b) = destroy_slot-Balanced s i other v (omega arith) in
    let (w, e) = destroy_loop n (i + 1) (destroy_slot s i) other a (omega arith) in
    (w, λ j. ground (arith, e j, b j))

-- Destroying a table leaves every slot empty and every file with exactly the references of its other holders.
fd_table_destroy_lem :
    (s : FdState) (other : ℕ → ℕ)
    → Balanced s other
    → ((j : ℕ) → j < fd_max → (fd_table_destroy s).table.fds j ≡ 0)
      × ((f : ℕ) → f ≢ 0 → (fd_table_destroy s).files.refs f ≡ other f)
unfolding fd_table_destroy
fd_table_destroy_lem s other v =
    let (w, e) = destroy_loop fd_max 0 s other v (omega arith) in
    let empty : (j : ℕ) → j < fd_max → (each_fd destroy_slot fd_max 0 s).table.fds j ≡ 0 =
      λ j h. ground (arith, e j) in
    (
      empty,
      λ f nz. omega (
        arith,
        w.held f nz,
        slots-none (each_fd destroy_slot fd_max 0 s).table.fds f fd_max nz empty,
      ),
    )

clone_slot-Balanced :
    (src : FdTable) (s : FdState) (i : ℕ) (other : ℕ → ℕ)
    → Balanced s other
    → i < fd_max
    → s.table.fds i ≡ 0
    → Balanced (clone_slot src s i) other
      × ((j : ℕ) → (clone_slot src s i).table.fds j ≡ (if i == j then src.fds i else s.table.fds j))
      × ((j : ℕ)
          → (clone_slot src s i).table.flags j
            ≡ (if i == j && not (src.fds i == 0) then src.flags i else s.table.flags j))
      × ((clone_slot src s i).files.closed ≡ s.files.closed)
unfolding clone_slot
clone_slot-Balanced src s i other v h vacant = elim (Bool-cases (src.fds i == 0)) [
  | inl none_there ↦ rw none_there (v, λ j. nothing none_there j, λ j. ground arith, refl)
  | inr there ↦ rw there (
    Balanced-take s i (src.fds i) (src.flags i) other v h vacant,
    λ j. refl,
    λ j. ground arith,
    unfold file_get in ground arith,
  )
]
  where
    nothing :
        (src.fds i == 0) ≡ true
        → (j : ℕ) → s.table.fds j ≡ (if i == j then src.fds i else s.table.fds j)
    nothing e j = elim (Bool-cases (i == j)) [
      | inl same ↦ let eq : i ≡ j = ground arith in rw (same, ← eq) (ground (arith, vacant))
      | inr other ↦ rw other refl
    ]

clone_loop :
    (src : FdTable) (n i : ℕ) (s : FdState) (other : ℕ → ℕ)
    → Balanced s other
    → i + n ≤ fd_max
    → ((j : ℕ) → i ≤ j → s.table.fds j ≡ 0)
    → Balanced (each_fd (clone_slot src) n i s) other
      × ((j : ℕ)
          → (each_fd (clone_slot src) n i s).table.fds j
            ≡ (if leb i j && ltb j (i + n) then src.fds j else s.table.fds j))
      × ((j : ℕ)
          → (each_fd (clone_slot src) n i s).table.flags j ≡ (
              if leb i j && ltb j (i + n) && not (src.fds j == 0)
              then src.flags j
              else s.table.flags j))
      × ((each_fd (clone_slot src) n i s).files.closed ≡ s.files.closed)
unfolding each_fd
clone_loop src zero i s other v h vacant = (v, λ j. ground arith, λ j. ground arith, refl)
clone_loop src (suc n) i s other v h vacant =
    let (a, b, fl, c) =
      clone_slot-Balanced src s i other v (omega arith) (vacant i (omega arith)) in
    let (w, e, g, d) =
      clone_loop src n (i + 1) (clone_slot src s i) other a (omega arith)
        (λ j k. ground (arith, b j, vacant j)) in
    (w, λ j. shift j (e j) (b j), λ j. shift_flags j (g j) (fl j), d ∙ c)
  where
    shift :
        {x y : ℕ} (j : ℕ)
        → x ≡ (if leb (i + 1) j && ltb j (i + 1 + n) then src.fds j else y)
        → y ≡ (if i == j then src.fds i else s.table.fds j)
        → x ≡ (if leb i j && ltb j (i + suc n) then src.fds j else s.table.fds j)
    shift {x} {y} j e b = elim (Bool-cases (i == j)) [
      | inl same ↦ let eq : i ≡ j = ground arith in ground (arith, ap src.fds eq)
      | inr other ↦ ground arith
    ]

    shift_flags :
        {x y : ℕ} (j : ℕ)
        → x
          ≡ (if leb (i + 1) j && ltb j (i + 1 + n) && not (src.fds j == 0) then src.flags j else y)
        → y ≡ (if i == j && not (src.fds i == 0) then src.flags i else s.table.flags j)
        → x ≡ (
            if leb i j && ltb j (i + suc n) && not (src.fds j == 0)
            then src.flags j
            else s.table.flags j)
    shift_flags {x} {y} j e b = elim (Bool-cases (i == j)) [
      | inl same ↦ let eq : i ≡ j = ground arith in ground (arith, ap src.fds eq, ap src.flags eq)
      | inr other ↦ ground arith
    ]

-- fork gets no table if there is no memory for one. Otherwise the new table has the files of the old one slot by slot, with
-- the close-on-exec flags of each slot that is taken and none elsewhere; every file then has a reference for each slot of
-- both tables and each other holder, and no file is closed. The references of the old table and of other holders are
-- counted right before, and no count can come near the end of its range.
pub fd_table_clone_lem :
    (has_memory : Bool) (src : FdTable) (files : Files) (other : ℕ → ℕ)
    → Balanced (record { table = src; files = files }) other
    → ((f : ℕ) → other f + 3 * fd_max < atomic_mod)
    → ((has_memory ≡ false) × (fd_table_clone has_memory src files ≡ none))
      ⊎ ((has_memory ≡ true)
          × (dst : FdState) × (fd_table_clone has_memory src files ≡ some dst)
          × ((j : ℕ) → j < fd_max → dst.table.fds j ≡ src.fds j)
          × ((j : ℕ) → j < fd_max → dst.table.flags j ≡ (if src.fds j == 0 then 0 else src.flags j))
          × ((f : ℕ)
              → f ≢ 0
              → dst.files.refs f ≡ slots src.fds f fd_max + slots dst.table.fds f fd_max + other f)
          × (dst.files.closed ≡ files.closed))
unfolding fd_table_clone no_fds
fd_table_clone_lem has_memory src files other v small = elim (Bool-cases has_memory) [
  | inr no_memory ↦ inl (no_memory, rw no_memory refl)
  | inl memory ↦
      let (w, e, g, d) =
        clone_loop src fd_max 0 start (λ f. slots src.fds f fd_max + other f) start-Balanced
          (omega arith) (λ j h. refl) in
      inr (
        memory,
        each_fd (clone_slot src) fd_max 0 start,
        rw memory refl,
        λ j h. ground (arith, e j),
        λ j h. ground (arith, g j),
        λ f nz. omega (arith, w.held f nz),
        d,
      )
]
  where
    start : FdState
    start = record { table = no_fds; files = files }

    start-Balanced : Balanced start (λ f. slots src.fds f fd_max + other f)
    start-Balanced = record {
      held =
          λ f nz. omega (arith, v.held f nz, slots-none start.table.fds f fd_max nz (λ j h. refl));
      small = λ f. omega (arith, small f, slots-le src.fds f fd_max);
    }
