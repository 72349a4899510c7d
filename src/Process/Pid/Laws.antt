-- ===== src/Process/Pid/Laws.antt =====
-- pid_alloc ends, and finds a number whenever one is free.
use my_unix.Base.{
  ℕ, zero, suc, ◌+◌, ◌-◌, ◌≤◌, ◌<◌, ◌≡◌, refl, ap, ◌≢◌, ◌⊎◌, inl, inr, Bool, true, false, ◌||◌,
  ◌&&◌, if◌then◌else◌, ◌==◌, ltb, leb, some, arith, Bool-cases,
}
use my_unix.Base.Int.{ℤ, pos, negsuc}
use my_unix.Process.Pid.{
  Pids, pid_max, wrap_pid, pid_loop, pid_alloc, pid_set, pid_free, pid_to_proc, pids_init,
  with_next,
}

-- The cursor is in range; and while it has not passed 2, nothing at or above it is taken.
pub record Inv (s : Pids) : Type 0 where
  pub low : 1 ≤ s.next
  pub high : s.next ≤ pid_max
  pub fresh : s.next ≤ 2 → (q : ℕ) → s.next ≤ q → q < pid_max → s.table q ≡ 0

-- The rounds that are left until the cursor `next` meets `start`, and the numbers they look at.
abbrev rounds_left : ℕ → ℕ → ℕ
rounds_left start next = if ltb next start then start - next else pid_max - next + (start - 2)

abbrev looked_at : ℕ → ℕ → ℕ → Bool
looked_at start next q =
    if ltb next start
    then leb next q && ltb q start
    else (leb next q && ltb q pid_max) || (leb 2 q && ltb q start)

-- What pid_alloc may come to.
abbrev pub LoopResult : (ℕ → ℕ) → (ℕ → Bool) → ℕ → ℤ × ℕ → Type 0
LoopResult table looked start r =
    ((p : ℕ) × (r ≡ (pos p, p + 1)) × (table p ≡ 0) × (2 ≤ p) × (p < pid_max))
    ⊎ ((r ≡ (negsuc 0, start)) × ((q : ℕ) → looked q ≡ true → table q ≢ 0))

loop_lem :
    (rounds : ℕ) (table : ℕ → ℕ) (start next : ℕ)
    → 3 ≤ start
    → start ≤ pid_max
    → 2 ≤ next
    → next ≤ pid_max
    → rounds_left start next ≤ rounds
    → 0 < rounds
    → (r : ℤ × ℕ) × (pid_loop rounds table start next ≡ some r)
      × LoopResult table (looked_at start next) start r
unfolding pid_loop
loop_lem zero table start next a b c d e f = absurd (omega arith)
loop_lem (suc rounds) table start next a b c d e f =
    elim (Bool-cases (table (wrap_pid next) == 0)) [
      | inl vacant ↦ (
        (pos (wrap_pid next), wrap_pid next + 1),
        rw vacant refl,
        inl (wrap_pid next, refl, ground arith, ground arith, ground arith),
      )
      | inr taken ↦ elim (Bool-cases (wrap_pid next + 1 == start)) [
        | inl back ↦ (
          (negsuc 0, wrap_pid next + 1),
          rw (taken, back) refl,
          inr (ground arith, λ q l. ground arith),
        )
        | inr on ↦
            let (r, eq, w) =
              loop_lem rounds table start (wrap_pid next + 1) a b (ground arith) (ground arith)
                (ground arith) (ground arith) in
            (
              r,
              rw (taken, on) eq,
              elim w [
                | inl found ↦ inl found
                | inr (none_left, all) ↦ inr (none_left, λ q l. all_but taken q l (all q))
              ],
            )
      ]
    ]
  where
    all_but :
        (table (wrap_pid next) == 0) ≡ false
        → (q : ℕ) → looked_at start next q ≡ true
        → (looked_at start (wrap_pid next + 1) q ≡ true → table q ≢ 0)
        → table q ≢ 0
    all_but taken q l rest = elim (Bool-cases (q == wrap_pid next)) [
      | inl same ↦ let e : q ≡ wrap_pid next = ground arith in rw e (ground arith)
      | inr other ↦ rest (ground arith)
    ]

past_two :
    (next : ℕ)
    → leb next 2 ≡ false
    → next ≤ pid_max
    → (3 ≤ next) × (rounds_left next next ≤ pid_max)
past_two next h k = (ground arith, ground arith)

first_round :
    (rounds : ℕ) (table : ℕ → ℕ) (start next : ℕ)
    → next ≤ 2
    → table next ≡ 0
    → pid_loop (suc rounds) table start next ≡ some (pos next, next + 1)
unfolding pid_loop
first_round rounds table start next early vacant =
    let w : wrap_pid next ≡ next = ground arith in rw (w, vacant) refl

-- What pid_alloc may come to, once it has moved the cursor.
abbrev pub AllocResult : Pids → ℤ × Pids → Type 0
AllocResult s r =
    Inv r.1
    × ((q : ℕ) → r.1.table q ≡ s.table q)
    × (((p : ℕ) × (r.0 ≡ pos p) × (s.table p ≡ 0) × (1 ≤ p) × (p < pid_max) × (r.1.next ≡ p + 1))
        ⊎ ((r.0 ≡ negsuc 0) × ((q : ℕ) → 2 ≤ q → q < pid_max → s.table q ≢ 0)))

loop_result :
    (s : Pids) (r : ℤ × ℕ)
    → 3 ≤ s.next
    → s.next ≤ pid_max
    → LoopResult s.table (looked_at s.next s.next) s.next r
    → AllocResult s (r.0, record s { next = r.1 })
loop_result s r late top (inl (p, e, vacant, l, m)) =
    let n : r.1 ≡ p + 1 = ap (λ (x : ℤ × ℕ). x.1) e in
    (
      record {
        low = omega (arith, n);
        high = omega (arith, n, m);
        fresh = λ k. absurd (omega (arith, n, l, k));
      },
      λ q. refl,
      inl (p, ap (λ (x : ℤ × ℕ). x.0) e, vacant, omega (arith, l), m, n),
    )
loop_result s r late top (inr (e, all)) =
    let n : r.1 ≡ s.next = ap (λ (x : ℤ × ℕ). x.1) e in
    (
      record {
        low = omega (arith, n, late);
        high = omega (arith, n, top);
        fresh = λ k. absurd (omega (arith, n, late, k));
      },
      λ q. refl,
      inr (ap (λ (x : ℤ × ℕ). x.0) e, λ q l m. all q (ground arith)),
    )

-- pid_alloc ends, keeps the table and the invariant, and returns a number between 1 and 65535 whose
-- entry is empty; it returns -1 only if every number from 2 to 65535 is taken.
pub pid_alloc_lem : (s : Pids) → Inv s → (r : ℤ × Pids) × (pid_alloc s ≡ some r) × AllocResult s r
unfolding pid_alloc with_next
pid_alloc_lem s v = elim (Bool-cases (leb s.next 2)) [
  | inl early ↦
      let l : s.next ≤ 2 = ground arith in
      let vacant : s.table s.next ≡ 0 = v.fresh l s.next (omega arith) (omega (arith, l)) in
      (
        (pos s.next, record s { next = s.next + 1 }),
        rw (first_round 65535 s.table s.next s.next l vacant) refl,
        (
          record {
            low = omega arith;
            high = omega (arith, l);
            fresh = λ m q k h. v.fresh l q (omega (arith, k)) h;
          },
          λ q. refl,
          inl (s.next, refl, vacant, v.low, omega (arith, l), refl),
        ),
      )
  | inr late ↦
      let (l, m) = past_two s.next late v.high in
      let (r, e, w) =
        loop_lem pid_max s.table s.next s.next l v.high (omega (arith, l)) v.high m (omega arith) in
      ((r.0, record s { next = r.1 }), rw e refl, loop_result s r l v.high w)
]

-- The state proc_init sets up satisfies the invariant; registering a process under a number below the cursor, and
-- freeing any number, keep it.
pub pids_init-Inv : Inv pids_init
unfolding pids_init
pids_init-Inv = record { low = omega arith; high = omega arith; fresh = λ l q m k. refl }

pub pid_set-Inv :
    (s : Pids) (pid proc : ℕ) → Inv s → (pid < s.next) ⊎ (3 ≤ s.next) → Inv (pid_set s pid proc)
unfolding pid_set
pid_set-Inv s pid proc v h = record {
  low = v.low;
  high = v.high;
  fresh = λ l q m k. ground (arith, v.fresh l q m k);
}

pub pid_free-Inv : (s : Pids) (pid : ℤ) → Inv s → Inv (pid_free s pid)
unfolding pid_free
pid_free-Inv s (negsuc n) v = v
pid_free-Inv s (pos n) v = elim (Bool-cases (n == 0 || leb pid_max n)) [
  | inl out ↦ rw out v
  | inr inside ↦
      rw inside
        (record { low = v.low; high = v.high; fresh = λ l q m k. ground (arith, v.fresh l q m k) })
]

-- A process registered under the number that pid_alloc gave is what pid_to_proc finds there, with a
-- reference more, and no other number's process changes; once the number is freed, pid_to_proc finds nothing.
pub register_lem :
    (s : Pids) (refs : ℕ → ℕ) (p proc : ℕ)
    → 1 ≤ p
    → p < pid_max
    → proc ≢ 0
    → ((pid_to_proc (pid_set s p proc) refs (pos p)).0 ≡ proc)
      × ((pid_to_proc (pid_set s p proc) refs (pos p)).1 proc ≡ refs proc + 1)
      × ((q : ℕ)
          → q ≢ p
          → (pid_to_proc (pid_set s p proc) refs (pos q)).0 ≡ (pid_to_proc s refs (pos q)).0)
      × ((pid_to_proc (pid_free (pid_set s p proc) (pos p)) refs (pos p)).0 ≡ 0)
unfolding pid_to_proc pid_set pid_free
register_lem s refs p proc l h nz = (ground arith, ground arith, λ q ne. ground arith, ground arith)
