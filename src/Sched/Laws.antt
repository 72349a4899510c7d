-- ===== src/Sched/Laws.antt =====
-- Where `schedule` puts the old process, and which one it picks.
use my_unix.Base.{
  ℕ, ◌+◌, ◌-◌, ◌<◌, ◌≡◌, refl, ap, ◌≢◌, ◌⊎◌, Bool, true, false, not, ◌&&◌, if◌then◌else◌, ◌==◌,
  List, [], ◌∷◌, ◌++◌, length, arith, Bool-cases, inl, inr,
}
use my_unix.Base.Word.{word_mod}
use my_unix.Kernel.{Kernel, running, is_running}
use my_unix.Sched.Runq.{RunQueue, push, pop_best, prio_max, clamp_prio}
use my_unix.Sched.Runq.Order.{ready as ready_lists}
use my_unix.Sched.Runq.Laws.{Inv, order, push_lem, pop_best_lem, pop_best-queues}
use my_unix.Sched.{choose, start_proc, requeue, switch_to, run_next, schedule, timeslice}

-- How often a process stands in the run queue.
unfoldable pub count : ℕ → List ℕ → ℕ
count p [] = 0
count p (x ∷ xs) = (if x == p then 1 else 0) + count p xs

count-append : (p : ℕ) (a b : List ℕ) → count p (a ++ b) ≡ count p a + count p b
unfolding count
count-append p [] b = omega arith
count-append p (x ∷ xs) b = omega (arith, count-append p xs b)

count-head : (p : ℕ) (x : ℕ) (xs : List ℕ) → x ≡ p → count p (x ∷ xs) ≡ 1 + count p xs
unfolding count
count-head p x xs e = ground arith

-- Pushing adds one.
pub count-push :
    (rq : RunQueue) (x : ℕ) (z : _) (p : ℕ)
    → Inv rq
    → rq.total + 1 < word_mod
    → count p (order (push rq x z)) ≡ count p (order rq) + (if x == p then 1 else 0)
unfolding count
count-push rq x z p v h =
    let c = clamp_prio z in
    let (_, after, before) = push_lem rq x z v h in
    let a = ready_lists rq.queues 0 c in
    let q = rq.queues c in
    let r = ready_lists rq.queues (c + 1) (prio_max - 1 - c) in
    omega (
      arith,
      ap (count p) after,
      ap (count p) before,
      count-append p a ((q ++ (x ∷ [])) ++ r),
      count-append p a (q ++ r),
      count-append p (q ++ (x ∷ [])) r,
      count-append p q (x ∷ []),
      count-append p q r,
    )

-- The old process goes back to the run queue.
abbrev pub goes_back : Kernel → Bool
goes_back k = not (k.current == 0) && is_running (k.procs k.current).state

-- The old process's place in the order of service.
abbrev pub old_class : Kernel → ℕ
old_class k = clamp_prio (k.procs k.current).priority

-- `k'` is `k` handed over from `k.current` to `next`, which runs with a fresh slice, on its own kernel stack and, if the page
-- table of the old process was loaded, in its own address space. The run queue has the lists `lists` and, if it was still
-- running, the old process at the end of the list of its priority: in the order of service that is behind all processes of
-- its own and better priorities and before all of worse ones.
pub record Switched (k : Kernel) (next : ℕ) (lists : ℕ → List ℕ) (k' : Kernel) : Type 0 where
  pub valid : Inv k'.runq
  pub is_current : k'.current ≡ next
  pub runs : (k'.procs next).state ≡ running
  pub slice : (k'.procs next).time_slice ≡ timeslice
  pub queues :
      (c : ℕ)
      → k'.runq.queues c
        ≡ (if goes_back k && c == old_class k then lists c ++ (k.current ∷ []) else lists c)
  pub served : order k'.runq ≡ (
      if goes_back k
      then ready_lists lists 0 (old_class k)
        ++ ((lists (old_class k) ++ (k.current ∷ []))
            ++ ready_lists lists (old_class k + 1) (prio_max - 1 - old_class k))
      else ready_lists lists 0 prio_max)
  pub stack : (k'.tss_rsp0 ≡ (k.procs next).tss_rsp0) × (k'.kernel_stack ≡ (k.procs next).tss_rsp0)
  pub space :
      k.current ≢ 0 → k.cr3 ≡ (k.procs k.current).vm_space → k'.cr3 ≡ (k.procs next).vm_space

module _ (k : Kernel) (next : ℕ) (ne : next ≢ k.current) (v : Inv k.runq)
    (h : k.runq.total + 1 < word_mod) where
  abbrev started : Kernel
  started = start_proc k next

  prev_same : started.procs k.current ≡ k.procs k.current
  unfolding start_proc
  prev_same = ground arith

  prev_requeued :
      (not (k.current == 0) && is_running (k.procs k.current).state) ≡ true
      → Switched k next k.runq.queues (switch_to (requeue started k.current) k.current next)
  unfolding switch_to requeue start_proc
  prev_requeued on =
      rw (prev_same, on)
        (record {
          valid = (push_lem k.runq k.current (k.procs k.current).priority v h).0;
          is_current = refl;
          runs = ground arith;
          slice = ground arith;
          queues = λ c. unfold push in ground arith;
          served = rw on (push_lem k.runq k.current (k.procs k.current).priority v h).1;
          stack = ground arith;
          space = λ nz same. ground arith;
        })

  prev_left :
      (not (k.current == 0) && is_running (k.procs k.current).state) ≡ false
      → Switched k next k.runq.queues (switch_to (requeue started k.current) k.current next)
  unfolding switch_to requeue start_proc
  prev_left off =
      rw (prev_same, off)
        (record {
          valid = v;
          is_current = refl;
          runs = ground arith;
          slice = ground arith;
          queues = λ c. rw off refl;
          served = rw off refl;
          stack = ground arith;
          space = λ nz same. ground arith;
        })

  switched : Switched k next k.runq.queues (switch_to (requeue started k.current) k.current next)
  switched = elim (Bool-cases (not (k.current == 0) && is_running (k.procs k.current).state)) [
    | inl on ↦ prev_requeued on
    | inr off ↦ prev_left off
  ]

run_next-same : (k : Kernel) (next : ℕ) → next ≡ k.current → run_next k next ≡ k
unfolding run_next
run_next-same k next e = ground arith

run_next-other :
    (k : Kernel) (next : ℕ)
    → next ≢ k.current
    → run_next k next ≡ switch_to (requeue (start_proc k next) k.current) k.current next
unfolding run_next
run_next-other k next ne = let e : (next == k.current) ≡ false = ground arith in rw e refl

-- What became of the run queue before the hand-over does not matter to the account.
Switched-runq :
    {k k' : Kernel} {rq : RunQueue} {next : ℕ} {lists : ℕ → List ℕ}
    → Switched (record k { runq = rq }) next lists k'
    → Switched k next lists k'
Switched-runq w = record {
  valid = w.valid;
  is_current = w.is_current;
  runs = w.runs;
  slice = w.slice;
  queues = w.queues;
  served = w.served;
  stack = w.stack;
  space = w.space;
}

-- `lists` are those of `rq` without `next`, the first process in the order of service.
abbrev pub Popped : RunQueue → (next : ℕ) → (lists : ℕ → List ℕ) → Type 0
Popped rq next lists =
    (order rq ≡ next ∷ ready_lists lists 0 prio_max)
    × ((best : ℕ) × (rq.queues best ≡ next ∷ lists best)
        × ((c : ℕ) → c ≢ best → lists c ≡ rq.queues c))

-- What `schedule` does: nothing if no process is ready and the idle process runs already; otherwise it
-- hands over to the first process in the order of service, or to the idle process if none is ready.
abbrev pub Scheduled : Kernel → Kernel → Type 0
Scheduled k k' =
    ((order k.runq ≡ []) × (k.idle ≡ k.current) × (k' ≡ k))
    ⊎ ((next : ℕ) × (lists : ℕ → List ℕ) × (Popped k.runq next lists
          ⊎ ((order k.runq ≡ []) × (lists ≡ k.runq.queues) × (next ≡ k.idle)))
        × Switched k next lists k')

-- With a valid run queue whose count is not at the end of its range and that the running process is not on, `schedule` does
-- nothing if no process is ready and the idle process runs already. Otherwise the first ready process, or the idle process
-- if none is ready, gets the processor with a fresh time slice and leaves its list; the old process goes, exactly if it was
-- still running, to the end of the list of its priority; every list is otherwise as before, in its order.
pub schedule_lem :
    (k : Kernel)
    → Inv k.runq
    → k.runq.total + 1 < word_mod
    → count k.current (order k.runq) ≡ 0
    → Scheduled k (schedule k)
unfolding schedule
schedule_lem k v h out = elim (pop_best_lem k.runq v) [
  | inl (none_ready, popped) ↦ elim (Bool-cases (k.idle == k.current)) [
    | inl same ↦ inl (none_ready, ground arith, rw popped (run_next-same k k.idle (ground arith)))
    | inr other ↦
        inr (
          k.idle,
          k.runq.queues,
          inr (none_ready, refl, refl),
          rw popped (idle_next (ground arith)),
        )
  ]
  | inr (x, found, eq, valid) ↦
      let ne : x ≢ k.current = λ same. absurd (front (order (pop_best k.runq).1) same eq) in
      inr (
        x,
        (pop_best k.runq).1.queues,
        inl (eq, pop_best-queues k.runq x found),
        rw (ap (choose k.idle) found, run_next-other (record k { runq = (pop_best k.runq).1 }) x ne)
            (Switched-runq
              (switched (record k { runq = (pop_best k.runq).1 }) x ne valid (room eq valid))),
      )
]
  where
    front : {x : ℕ} (xs : List ℕ) → x ≡ k.current → order k.runq ≡ x ∷ xs → ⊥
    front {x} xs same e = omega (arith, ap (count k.current) e, count-head k.current x xs same)

    room :
        {x : ℕ}
        → order k.runq ≡ x ∷ order (pop_best k.runq).1
        → Inv (pop_best k.runq).1
        → (pop_best k.runq).1.total + 1 < word_mod
    room e w = omega (arith, ap length e, v.counted, w.counted)

    idle_next : k.idle ≢ k.current → Switched k k.idle k.runq.queues (run_next k k.idle)
    idle_next ne = rw (run_next-other k k.idle ne) (switched k k.idle ne v h)
