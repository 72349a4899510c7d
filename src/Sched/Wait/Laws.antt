-- ===== src/Sched/Wait/Laws.antt =====
-- Waking: who is made ready, in which order, and what goes wrong when a sleeper is unlinked twice.
use my_unix.Base.{
  ℕ, zero, suc, ◌+◌, ◌<◌, ◌≡◌, refl, ap, ◌∙◌, ◌≢◌, ◌⊎◌, inl, inr, Bool, true, false, not, ◌&&◌,
  if◌then◌else◌, ◌==◌, List, [], ◌∷◌, ◌++◌, length, arith, Bool-cases,
}
use my_unix.Base.Maps.{update}
use my_unix.Base.Word.{word_mod}
use my_unix.Kernel.{Kernel, ready}
use my_unix.Sched.Runq.{RunQueue, push, is_queued, contains, prio_max, clamp_prio}
use my_unix.Sched.Runq.Laws.{Inv, order, push_lem}
use my_unix.Sched.Laws.{count, count-push}
use my_unix.Sched.Wait.{
  linked, corrupted, then_link, link_ready, set_state, wq_enter, wq_leave, wake, wake_first,
  wq_wake_one, wake_each, wq_wake_all,
}

-- `k'` is `k` with the sleepers `ps` made ready and put on the run queue.
pub record Woke (k : Kernel) (ps : List ℕ) (k' : Kernel) : Type 0 where
  pub valid : Inv k'.runq
  pub total : k'.runq.total ≡ k.runq.total + length ps
  pub queued : (p : ℕ) → count p (order k'.runq) ≡ count p (order k.runq) + count p ps
  pub states : (p : ℕ) → (k'.procs p).state ≡ (if contains p ps then ready else (k.procs p).state)
  pub same_current : k'.current ≡ k.current

-- A list of processes none of which is NULL, twice in it, or queued to run.
unfoldable pub wakeable : (ℕ → List ℕ) → List ℕ → Bool
wakeable queues [] = true
wakeable queues (p ∷ ps) =
    not (p == 0)
    && (not (contains p ps) && (not (is_queued queues p prio_max) && wakeable queues ps))

-- What `wake` leaves.
abbrev woken : Kernel → ℕ → ℕ → List ℕ → Kernel
woken k wq p rest = record (set_state k p ready) {
  waitqs = update k.waitqs wq rest;
  runq = push k.runq p (k.procs p).priority;
}

wake-eq :
    (k : Kernel) (wq p : ℕ) (rest : List ℕ)
    → p ≢ 0
    → is_queued k.runq.queues p prio_max ≡ false
    → wake k wq p rest ≡ linked (woken k wq p rest)
unfolding wake link_ready
wake-eq k wq p rest nz free =
    let z : (p == 0) ≡ false = ground arith in
    let e : (p == p) ≡ true = ground arith in rw (z, e, free) refl

push-total :
    (rq : RunQueue) (p : ℕ) (z : _) → rq.total + 1 < word_mod → (push rq p z).total ≡ rq.total + 1
unfolding push
push-total rq p z h = omega (arith, h)

wake-Woke :
    (k : Kernel) (wq p : ℕ) (rest : List ℕ)
    → Inv k.runq
    → k.runq.total + 1 < word_mod
    → Woke k (p ∷ []) (woken k wq p rest)
unfolding count contains
wake-Woke k wq p rest v room = record {
  valid = (push_lem k.runq p (k.procs p).priority v room).0;
  total = push-total k.runq p (k.procs p).priority room;
  queued = λ q. ground (arith, count-push k.runq p (k.procs p).priority q v room);
  states = λ q. ground arith;
  same_current = refl;
}

-- wq_wake_one makes the process that has slept longest ready, puts it on the run queue at its priority and takes it
-- off the wait queue; on an empty wait queue it does nothing.
wq_wake_one_lem :
    (k : Kernel) (wq : ℕ)
    → Inv k.runq
    → k.runq.total + 1 < word_mod
    → wakeable k.runq.queues (k.waitqs wq) ≡ true
    → ((k.waitqs wq ≡ []) × (wq_wake_one k wq ≡ linked k))
      ⊎ ((p : ℕ) × (rest : List ℕ) × (k' : Kernel) × (k.waitqs wq ≡ p ∷ rest)
          × (wq_wake_one k wq ≡ linked k')
          × Woke k (p ∷ []) k'
          × (k'.waitqs wq ≡ rest))
unfolding wq_wake_one
wq_wake_one_lem k wq v room ok = by_queue (k.waitqs wq) ok
  where
    by_queue :
        (q : List ℕ)
        → wakeable k.runq.queues q ≡ true
        → ((q ≡ []) × (wake_first k wq q ≡ linked k))
          ⊎ ((p : ℕ) × (rest : List ℕ) × (k' : Kernel) × (q ≡ p ∷ rest)
              × (wake_first k wq q ≡ linked k')
              × Woke k (p ∷ []) k'
              × (k'.waitqs wq ≡ rest))
    by_queue [] h = inl (refl, unfold wake_first in refl)
    by_queue (p ∷ rest) h = inr (
      p,
      rest,
      woken k wq p rest,
      refl,
      unfold wake_first in
          wake-eq k wq p rest (unfold wakeable in ground arith) (unfold wakeable in ground arith),
      wake-Woke k wq p rest v room,
      ground arith,
    )

contains-snoc : (q p : ℕ) (l : List ℕ) → q ≢ p → contains q (l ++ (p ∷ [])) ≡ contains q l
unfolding contains
contains-snoc q p [] ne = ground arith
contains-snoc q p (x ∷ l) ne = ground (arith, contains-snoc q p l ne)

is_queued-push :
    (rq : RunQueue) (p : ℕ) (z : _) (q n : ℕ)
    → q ≢ p
    → is_queued (push rq p z).queues q n ≡ is_queued rq.queues q n
unfolding is_queued push
is_queued-push rq p z q zero ne = refl
is_queued-push rq p z q (suc n) ne = elim (Bool-cases (clamp_prio z == n)) [
  | inl here ↦
      let e : clamp_prio z ≡ n = ground arith in
      ground (
        arith,
        is_queued-push rq p z q n ne,
        contains-snoc q p (rq.queues (clamp_prio z)) ne,
        ap rq.queues e,
      )
  | inr other ↦ ground (arith, is_queued-push rq p z q n ne)
]

wakeable-push :
    (rq : RunQueue) (p : ℕ) (z : _) (ps : List ℕ)
    → contains p ps ≡ false
    → wakeable rq.queues ps ≡ true
    → wakeable (push rq p z).queues ps ≡ true
unfolding wakeable contains
wakeable-push rq p z [] out h = refl
wakeable-push rq p z (x ∷ ps) out h =
    let ne : x ≢ p = ground arith in
    ground (arith, is_queued-push rq p z x prio_max ne, wakeable-push rq p z ps)

Woke-cons :
    {k k1 k2 : Kernel} {p : ℕ} {rest : List ℕ}
    → Woke k (p ∷ []) k1
    → Woke k1 rest k2
    → Woke k (p ∷ rest) k2
unfolding count contains
Woke-cons a b = record {
  valid = b.valid;
  total = omega (arith, a.total, b.total);
  queued = λ q. ground (arith, a.queued q, b.queued q);
  states = λ q. ground (arith, a.states q, b.states q);
  same_current = b.same_current ∙ a.same_current;
}

wake_each_lem :
    (ps : List ℕ) (k : Kernel) (wq : ℕ)
    → Inv k.runq
    → k.runq.total + length ps < word_mod
    → wakeable k.runq.queues ps ≡ true
    → k.waitqs wq ≡ ps
    → (k' : Kernel) × (wake_each k wq ps ≡ linked k') × Woke k ps k' × (k'.waitqs wq ≡ [])
unfolding wake_each wakeable count contains
wake_each_lem [] k wq v room ok e = (
  k,
  refl,
  record {
    valid = v;
    total = omega arith;
    queued = λ p. omega arith;
    states = λ p. refl;
    same_current = refl;
  },
  e,
)
wake_each_lem (p ∷ rest) k wq v room ok e =
    let one = wake-Woke k wq p rest v (omega (arith, room)) in
    let (k', f, w, none_left) =
      wake_each_lem rest (woken k wq p rest) wq one.valid (omega (arith, room, one.total))
        (wakeable-push k.runq p (k.procs p).priority rest (ground arith) (ground arith))
        (ground arith) in
    (k', rw (wake-eq k wq p rest (ground arith) (ground arith)) f, Woke-cons one w, none_left)

-- If no sleeper is NULL, on the wait queue twice or on the run queue already, and the run queue is valid with a count that
-- the sleepers do not bring to the end of its range, wq_wake_all makes every sleeper ready, puts each on the run queue once
-- and leaves the wait queue empty; it touches the state of no other process.
pub wq_wake_all_lem :
    (k : Kernel) (wq : ℕ)
    → Inv k.runq
    → k.runq.total + length (k.waitqs wq) < word_mod
    → wakeable k.runq.queues (k.waitqs wq) ≡ true
    → (k' : Kernel) × (wq_wake_all k wq ≡ linked k') × Woke k (k.waitqs wq) k' × (k'.waitqs wq ≡ [])
unfolding wq_wake_all
wq_wake_all_lem k wq v room ok = wake_each_lem (k.waitqs wq) k wq v room ok refl

-- The running process goes to sleep on an empty wait queue, is woken by wq_wake_one and runs again: wq_wait then unlinks a
-- node that the wake-up has unlinked.
woken_twice_unlinked :
    (k : Kernel) (wq : ℕ)
    → k.waitqs wq ≡ []
    → k.current ≢ 0
    → is_queued k.runq.queues k.current prio_max ≡ false
    → then_link (wq_wake_one (wq_enter k wq) wq) (λ k'. wq_leave k' wq) ≡ corrupted
woken_twice_unlinked k wq e nz free = rw one leaves
  where
    entered : (wq_enter k wq).waitqs wq ≡ k.current ∷ []
    entered = unfold wq_enter in let s : (wq == wq) ≡ true = ground arith in rw (s, e) refl

    one : wq_wake_one (wq_enter k wq) wq ≡ linked (woken (wq_enter k wq) wq k.current [])
    one =
        unfold wq_wake_one wake_first in
        rw entered (wake-eq (wq_enter k wq) wq k.current [] nz (unfold wq_enter in free))

    leaves : wq_leave (woken (wq_enter k wq) wq k.current []) wq ≡ corrupted
    leaves = unfold wq_leave contains in let s : (wq == wq) ≡ true = ground arith in rw s refl
