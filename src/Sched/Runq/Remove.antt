-- ===== src/Sched/Runq/Remove.antt =====
-- Removal from the run queue of proc/sched.c.
use my_unix.Base.{
  ℕ, zero, suc, ◌+◌, ◌-◌, ◌≤◌, ◌<◌, ◌≡◌, refl, sym, ap, ◌∙◌, ◌≢◌, Bool, true, false, not,
  if◌then◌else◌, ◌==◌, ltb, List, [], ◌∷◌, ◌++◌, length, arith, Bool-cases, inl, inr,
}
use my_unix.Base.Bits.{test_bit, clear_bit, test-clear_bit, clear_bit-le}
use my_unix.Base.Int.{pos}
use my_unix.Base.Word.{word_mod}
use my_unix.Sched.Runq.{RunQueue, prio_max, is_empty, contains, delete, is_queued, remove, drop_bit}
use my_unix.Sched.Runq.Laws.{Inv, order}
use my_unix.Sched.Runq.Order.{ready, ready-ext, ready_at}

delete_absent : (p : ℕ) (l : List ℕ) → contains p l ≡ false → delete p l ≡ l
unfolding contains delete
delete_absent p [] e = refl
delete_absent p (x ∷ xs) e = ground (arith, delete_absent p xs)

delete-append :
    (p : ℕ) (a b : List ℕ)
    → delete p (a ++ b) ≡ (if contains p a then delete p a ++ b else a ++ delete p b)
unfolding contains delete
delete-append p [] b = refl
delete-append p (x ∷ xs) b = ground (arith, delete-append p xs b)

length-delete : (p : ℕ) (l : List ℕ) → contains p l ≡ true → length (delete p l) + 1 ≡ length l
unfolding contains delete
length-delete p [] e = cc
length-delete p (x ∷ xs) e = ground (arith, length-delete p xs)

module _ (proc : ℕ) where
  contains-append_left : (a b : List ℕ) → contains proc a ≡ true → contains proc (a ++ b) ≡ true
  unfolding contains
  contains-append_left [] b h = cc
  contains-append_left (x ∷ xs) b h = ground (arith, contains-append_left xs b)

  contains-append_right : (a b : List ℕ) → contains proc b ≡ true → contains proc (a ++ b) ≡ true
  unfolding contains
  contains-append_right [] b h = h
  contains-append_right (x ∷ xs) b h = ground (arith, contains-append_right xs b h)

  full_of_contains : (l : List ℕ) → contains proc l ≡ true → is_empty l ≡ false
  unfolding contains
  full_of_contains [] h = cc
  full_of_contains (x ∷ xs) h = refl

contains-ready :
    (f : ℕ → List ℕ) (proc p n : ℕ)
    → ((q : ℕ) → p ≤ q → q < p + n → contains proc (f q) ≡ false)
    → contains proc (ready f p n) ≡ false
unfolding ready contains
contains-ready f proc p zero h = refl
contains-ready f proc p (suc n) h =
    contains-append (f p) (ready f (p + 1) n) (h p (omega arith) (omega arith))
      (contains-ready f proc (p + 1) n (λ q k m. h q (omega arith) (omega arith)))
  where
    contains-append :
        (a b : List ℕ)
        → contains proc a ≡ false
        → contains proc b ≡ false
        → contains proc (a ++ b) ≡ false
    contains-append [] b h k = k
    contains-append (x ∷ xs) b h k = ground (arith, contains-append xs b)

-- `proc` is on no list but `c`.
abbrev pub OnlyOn : RunQueue → ℕ → ℕ → Type 0
OnlyOn rq proc c = (q : ℕ) → q < prio_max → q ≢ c → contains proc (rq.queues q) ≡ false

module _ (rq : RunQueue) (proc c : ℕ) (v : Inv rq) (lt : c < prio_max)
    (only : OnlyOn rq proc c) where
  queued-eq :
      (n : ℕ)
      → n ≤ prio_max
      → is_queued rq.queues proc n ≡ (if ltb c n then contains proc (rq.queues c) else false)
  unfolding is_queued
  queued-eq zero h = ground arith
  queued-eq (suc n) h = elim (Bool-cases (n == c)) [
    | inl same ↦
        let e : n ≡ c = ground arith in
        ground (arith, queued-eq n, ap (λ q. contains proc (rq.queues q)) e)
    | inr other ↦ ground (arith, queued-eq n, only n)
  ]

  abbrev deleted : ℕ → List ℕ
  deleted q = delete proc (rq.queues q)

  order-deleted : ready deleted 0 prio_max ≡ delete proc (order rq)
  order-deleted =
      let before =
        contains-ready rq.queues proc 0 c (λ q k m. only q (omega arith) (λ e. omega arith)) in
      let after =
        contains-ready rq.queues proc (c + 1) (prio_max - 1 - c)
          (λ q k m. only q (omega arith) (λ e. omega arith)) in
      ready_at deleted c prio_max lt
      ∙ rw
          (
            ready-ext deleted rq.queues 0 c (λ q k m.
                delete_absent proc (rq.queues q) (only q (omega arith) (λ e. omega arith))),
            ready-ext deleted rq.queues (c + 1) (prio_max - 1 - c) (λ q k m.
                delete_absent proc (rq.queues q) (only q (omega arith) (λ e. omega arith))),
            ready_at rq.queues c prio_max lt,
            delete-append proc (ready rq.queues 0 c),
            before,
            delete-append proc (rq.queues c),
          )
          (ground (
            arith,
            delete_absent proc (rq.queues c),
            delete_absent proc (ready rq.queues (c + 1) (prio_max - 1 - c)) after,
          ))

  -- What is on no list is not in the order; what is on list `c` is.
  nowhere : contains proc (rq.queues c) ≡ false → contains proc (order rq) ≡ false
  nowhere absent = contains-ready rq.queues proc 0 prio_max λ q k m. elim (Bool-cases (q == c)) [
    | inl same ↦
        let e : q ≡ c = ground arith in ground (arith, ap (λ r. contains proc (rq.queues r)) e)
    | inr other ↦ only q (omega arith) (λ e. ground arith)
  ]

  somewhere : contains proc (rq.queues c) ≡ true → contains proc (order rq) ≡ true
  somewhere here = rw (ready_at rq.queues c prio_max lt) (
      contains-append_right proc (ready rq.queues 0 c) _
        (contains-append_left proc (rq.queues c) _ here))

  abbrev dropped : ℕ
  dropped = if is_empty (delete proc (rq.queues c)) then clear_bit rq.bitmap c else rq.bitmap

  drop_bit-eq : drop_bit deleted rq.bitmap (pos c) ≡ dropped
  unfolding drop_bit
  drop_bit-eq = let e : ltb c prio_max ≡ true = ground arith in rw e refl

  dropped_bits :
      contains proc (rq.queues c) ≡ true
      → (p : ℕ) → p < prio_max
      → test_bit dropped p ≡ not (is_empty (delete proc (rq.queues p)))
  dropped_bits here p k = elim (Bool-cases (p == c)) [
    | inl same ↦
        let eq : p ≡ c = ground arith in
        rw eq (at_c (full_of_contains proc (rq.queues c) here) (v.bits c lt))
    | inr other ↦
        rw (delete_absent proc (rq.queues p) (only p k (λ eq. ground arith)), ← v.bits p k)
          (elsewhere other)
  ]
    where
      at_c :
          is_empty (rq.queues c) ≡ false
          → test_bit rq.bitmap c ≡ not (is_empty (rq.queues c))
          → test_bit dropped c ≡ not (is_empty (delete proc (rq.queues c)))
      at_c full bit = ground (arith, test-clear_bit rq.bitmap c c)

      elsewhere : (p == c) ≡ false → test_bit dropped p ≡ test_bit rq.bitmap p
      elsewhere other = ground (arith, test-clear_bit rq.bitmap c p)

  dropped_high : (p : ℕ) → prio_max ≤ p → p < 64 → test_bit dropped p ≡ false
  dropped_high p k m = elim (Bool-cases (is_empty (delete proc (rq.queues c)))) [
    | inl gone ↦ rw gone (ground (arith, test-clear_bit rq.bitmap c p, v.high p k m))
    | inr left ↦ rw left (v.high p k m)
  ]

  dropped-lt : dropped < word_mod
  dropped-lt = elim (Bool-cases (is_empty (delete proc (rq.queues c)))) [
    | inl gone ↦ rw gone (omega (arith, clear_bit-le rq.bitmap c, v.word))
    | inr left ↦ rw left v.word
  ]

  one_less :
      contains proc (rq.queues c) ≡ true
      → (if ltb 0 rq.total then rq.total - 1 else rq.total) ≡ length (ready deleted 0 prio_max)
  one_less here =
      let fewer : length (ready deleted 0 prio_max) + 1 ≡ rq.total =
        rw order-deleted (length-delete proc (order rq) (somewhere here) ∙ sym v.counted) in
      less fewer
    where
      less : {m : ℕ} → m + 1 ≡ rq.total → (if ltb 0 rq.total then rq.total - 1 else rq.total) ≡ m
      less e = ground arith

  -- runq_remove of a process with a priority in range deletes it from the order of service, if it is
  -- there, and keeps the bitmap and the count in step.
  remove_lem :
      Inv (remove rq proc (pos c)) × (order (remove rq proc (pos c)) ≡ delete proc (order rq))
  unfolding remove
  remove_lem = elim (Bool-cases (contains proc (rq.queues c))) [
    | inr absent ↦
        let e : is_queued rq.queues proc prio_max ≡ false = is_queued-eq absent in
        rw e (v, sym (delete_absent proc (order rq) (nowhere absent)))
    | inl here ↦
        let e : is_queued rq.queues proc prio_max ≡ true = is_queued-eq here in
        rw (e, drop_bit-eq)
          (
            record {
              bits = dropped_bits here;
              high = dropped_high;
              word = dropped-lt;
              counted = one_less here;
            },
            order-deleted,
          )
  ]
    where
      is_queued-eq :
          {b : Bool} → contains proc (rq.queues c) ≡ b → is_queued rq.queues proc prio_max ≡ b
      is_queued-eq e = ground (arith, queued-eq prio_max)
