-- ===== src/Sched/Runq/Laws.antt =====
-- The run queue of proc/sched.c against the order in which it serves its processes.
use my_unix.Base.{
  ℕ, ◌+◌, ◌-◌, ◌≤◌, ◌<◌, ◌≡◌, ◌≢◌, ◌∙◌, refl, sym, ap, ◌⊎◌, true, false, not, ◌==◌, leb, List, [],
  ◌∷◌, ◌++◌, length, length-append, arith, Bool-cases, inl, inr, none, some,
}
use my_unix.Base.Bits.{
  test_bit, ctz, test-set_bit, test-clear_bit, set_bit-lt, clear_bit-le, ctz-lt, test-ctz,
  test_below_ctz, test-zero,
}
use my_unix.Base.Int.{ℤ, pos, negsuc}
use my_unix.Base.Word.{word_mod}
use my_unix.Sched.Runq.{RunQueue, prio_max, is_empty, clamp_prio, empty, push, pop_best, pop_from}
use my_unix.Sched.Runq.Order.{ready, ready-empty, ready_at, ready-update}

-- A list has its bit set exactly if it is not empty, and the total counts the processes.
pub record Inv (rq : RunQueue) : Type 0 where
  pub bits : (p : ℕ) → p < prio_max → test_bit rq.bitmap p ≡ not (is_empty (rq.queues p))
  pub high : (p : ℕ) → prio_max ≤ p → p < 64 → test_bit rq.bitmap p ≡ false
  pub word : rq.bitmap < word_mod
  pub counted : rq.total ≡ length (ready rq.queues 0 prio_max)

abbrev pub order : RunQueue → List ℕ
order rq = ready rq.queues 0 prio_max

pub clamp_prio-lt : (z : ℤ) → clamp_prio z < prio_max
unfolding clamp_prio
clamp_prio-lt (pos p) = ground arith
clamp_prio-lt (negsuc p) = omega arith

is_empty-snoc : (xs : List ℕ) (x : ℕ) → is_empty (xs ++ (x ∷ [])) ≡ false
is_empty-snoc [] x = refl
is_empty-snoc (y ∷ ys) x = refl

-- Three parts of the order measured.
length-parts : (a b c : List ℕ) → length (a ++ (b ++ c)) ≡ length a + length b + length c
length-parts a b c = omega (arith, length-append a (b ++ c), length-append b c)

-- runq_push puts a process behind those of its (clamped) priority and better ones, and before all
-- worse ones; it keeps the bitmap and the count in step.
pub push_lem :
    (rq : RunQueue) (proc : ℕ) (priority : ℤ)
    → Inv rq
    → rq.total + 1 < word_mod
    → let c = clamp_prio priority in
      Inv (push rq proc priority)
      × (order (push rq proc priority)
          ≡ ready rq.queues 0 c
            ++ ((rq.queues c ++ (proc ∷ [])) ++ ready rq.queues (c + 1) (prio_max - 1 - c)))
      × (order rq
          ≡ ready rq.queues 0 c ++ (rq.queues c ++ ready rq.queues (c + 1) (prio_max - 1 - c)))
unfolding push
push_lem rq proc priority v h =
    let c = clamp_prio priority in
    let lt = clamp_prio-lt priority in
    let after = ready-update rq.queues c prio_max (rq.queues c ++ (proc ∷ [])) lt in
    let before = ready_at rq.queues c prio_max lt in
    (
      record {
        bits = λ p k.
            ground
              (arith, test-set_bit rq.bitmap c p, v.bits p k, is_empty-snoc (rq.queues p) proc);
        high = λ p k m. ground (arith, test-set_bit rq.bitmap c p, v.high p k m);
        word = set_bit-lt 64 rq.bitmap c v.word (omega arith);
        counted = omega (
          arith,
          v.counted,
          ap length after,
          ap length before,
          length-parts (ready rq.queues 0 c) (rq.queues c ++ (proc ∷ []))
              (ready rq.queues (c + 1) (prio_max - 1 - c)),
          length-parts (ready rq.queues 0 c) (rq.queues c)
              (ready rq.queues (c + 1) (prio_max - 1 - c)),
          length-append (rq.queues c) (proc ∷ []),
        );
      },
      after,
      before,
    )

eq-nil : (l : List ℕ) → is_empty l ≡ true → l ≡ []
eq-nil [] e = refl
eq-nil (x ∷ xs) e = cc

module _ (rq : RunQueue) (v : Inv rq) where
  no_bits : rq.bitmap ≡ 0 → rq.total ≡ 0
  no_bits z = omega (
    arith,
    v.counted,
    ap length (
        ready-empty rq.queues 0 prio_max
          λ q k m. eq-nil (rq.queues q) (ground (arith, v.bits q, test-zero q))),
  )

  -- A run queue with processes has a best priority, and no process is of a better one.
  module _ (h : 0 < rq.total) where
    best_bit : (ctz 64 rq.bitmap < 64) × (test_bit rq.bitmap (ctz 64 rq.bitmap) ≡ true)
    best_bit =
        let pos : 0 < rq.bitmap = ground (arith, no_bits) in
        (ctz-lt 64 rq.bitmap v.word pos, test-ctz 64 rq.bitmap v.word pos)

    best-lt : ctz 64 rq.bitmap < prio_max
    best-lt = ground (arith, best_bit, v.high (ctz 64 rq.bitmap))

    best_full : is_empty (rq.queues (ctz 64 rq.bitmap)) ≡ false
    best_full = ground (arith, best_bit, best-lt, v.bits (ctz 64 rq.bitmap))

    better_empty : ready rq.queues 0 (ctz 64 rq.bitmap) ≡ []
    better_empty = ready-empty rq.queues 0 (ctz 64 rq.bitmap) λ q k m.
        eq-nil (rq.queues q)
          (ground (arith, v.bits q, test_below_ctz 64 rq.bitmap q (omega arith), best-lt))

-- Taking the head of list `c`, the first that is not empty.
pop_from_lem :
    (rq : RunQueue) (c : ℕ) (x : ℕ) (rest : List ℕ)
    → Inv rq
    → c < prio_max
    → ready rq.queues 0 c ≡ []
    → rq.queues c ≡ x ∷ rest
    → (order rq ≡ x ∷ order (pop_from rq c (x ∷ rest)).1) × Inv (pop_from rq c (x ∷ rest)).1
unfolding pop_from
pop_from_lem rq c x rest v lt before e =
    let at = ready_at rq.queues c prio_max lt in
    let at' = ready-update rq.queues c prio_max rest lt in
    let eq : order rq ≡ x ∷ order (pop_from rq c (x ∷ rest)).1 = rw (at, at', before, e) refl in
    (
      eq,
      record {
        bits = λ p k. ground (arith, test-clear_bit rq.bitmap c p, v.bits p k, v.bits c lt, e);
        high = λ p k m. ground (arith, test-clear_bit rq.bitmap c p, v.high p k m);
        word = ground (arith, clear_bit-le rq.bitmap c, v.word);
        counted = omega (arith, v.counted, ap length eq);
      },
    )

pop_from-some : (rq : RunQueue) (c x : ℕ) (rest : List ℕ) → (pop_from rq c (x ∷ rest)).0 ≡ some x
unfolding pop_from
pop_from-some rq c x rest = refl

-- runq_pop_best returns the first process in the order of service and leaves the rest in order, the
-- invariant kept; on a queue with no process it returns nothing and changes nothing.
pub pop_best_lem :
    (rq : RunQueue)
    → Inv rq
    → ((order rq ≡ []) × (pop_best rq ≡ (none, rq)))
      ⊎ ((x : ℕ) × ((pop_best rq).0 ≡ some x)
          × (order rq ≡ x ∷ order (pop_best rq).1)
          × Inv (pop_best rq).1)
unfolding pop_best
pop_best_lem rq v = elim (Bool-cases (rq.total == 0)) [
  | inl z ↦ inl (length-nil (order rq) (ground (arith, v.counted)), rw z)
  | inr nz ↦
      let h : 0 < rq.total = ground arith in
      let small : leb prio_max (ctz 64 rq.bitmap) ≡ false = ground (arith, best-lt rq v h) in
      rw (nz, small) (at_best (rq.queues (ctz 64 rq.bitmap)) (best_full rq v h) refl h)
]
  where
    length-nil : (l : List ℕ) → length l ≡ 0 → l ≡ []
    length-nil [] e = refl
    length-nil (x ∷ xs) e = absurd (omega arith)

    at_best :
        (l : List ℕ)
        → is_empty l ≡ false
        → rq.queues (ctz 64 rq.bitmap) ≡ l
        → 0 < rq.total
        → let r = pop_from rq (ctz 64 rq.bitmap) l in
          ((order rq ≡ []) × (r ≡ (none, rq)))
          ⊎ ((x : ℕ) × (r.0 ≡ some x) × (order rq ≡ x ∷ order r.1) × Inv r.1)
    at_best [] f e h = cc
    at_best (x ∷ rest) f e h =
        let (o, w) =
          pop_from_lem rq (ctz 64 rq.bitmap) x rest v (best-lt rq v h) (better_empty rq v h) e in
        inr (x, pop_from-some rq (ctz 64 rq.bitmap) x rest, o, w)

-- The list that runq_pop_best takes from loses its first process, and no other list changes.
pub pop_best-queues :
    (rq : RunQueue) (x : ℕ)
    → (pop_best rq).0 ≡ some x
    → (best : ℕ) × (rq.queues best ≡ x ∷ (pop_best rq).1.queues best)
      × ((c : ℕ) → c ≢ best → (pop_best rq).1.queues c ≡ rq.queues c)
unfolding pop_best
pop_best-queues rq x found = elim (Bool-cases (rq.total == 0)) [
  | inl z ↦ absurd (ground (arith, rw z at found))
  | inr nz ↦ elim (Bool-cases (leb prio_max (ctz 64 rq.bitmap))) [
    | inl high ↦ absurd (ground (arith, rw (nz, high) at found))
    | inr small ↦
        rw (nz, small) (at_best (rq.queues (ctz 64 rq.bitmap)) refl (rw (nz, small) at found))
  ]
]
  where
    at_best :
        (l : List ℕ)
        → rq.queues (ctz 64 rq.bitmap) ≡ l
        → (pop_from rq (ctz 64 rq.bitmap) l).0 ≡ some x
        → (best : ℕ) × (rq.queues best ≡ x ∷ (pop_from rq (ctz 64 rq.bitmap) l).1.queues best)
          × ((c : ℕ) → c ≢ best → (pop_from rq (ctz 64 rq.bitmap) l).1.queues c ≡ rq.queues c)
    at_best [] e f = absurd (unfold pop_from in ground (arith, f))
    at_best (y ∷ rest) e f =
        let same : y ≡ x = unfold pop_from in ground (arith, f) in
        (
          ctz 64 rq.bitmap,
          unfold pop_from in e ∙ rw same (ground arith),
          λ c ne. unfold pop_from in ground arith,
        )

pub empty-Inv : Inv empty
unfolding empty
empty-Inv = record {
  bits = λ p k. test-zero p;
  high = λ p k m. test-zero p;
  word = omega arith;
  counted = sym (ap length (ready-empty (λ _. []) 0 prio_max (λ q k m. refl)));
}
