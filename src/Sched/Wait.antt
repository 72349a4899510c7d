-- ===== src/Sched/Wait.antt =====
-- The wait queues of proc/sched.c, and proc_wake of proc/process.c. Linking a node that is linked already, or unlinking
-- one that is not linked, leaves the intrusive lists corrupt or dereferences NULL: `corrupted`.
pub mod Laws
mod Tests
use my_unix.Base.{
  ℕ, ◌+◌, ◌-◌, Bool, true, false, not, ◌&&◌, if◌then◌else◌, ◌==◌, ltb, leb, List, [], ◌∷◌, ◌++◌,
}
use my_unix.Base.Maps.{update}
use my_unix.Base.Word.{add64}
use my_unix.Kernel.{
  Kernel, Proc, ProcState, ready, running, sleeping, is_runnable, is_sleeping, set_proc,
}
use my_unix.Sched.{get_time_ms}
use my_unix.Sched.Runq.{push, is_queued, contains, delete, prio_max}

pub data Links {ℓ} (A : Type ℓ) : Type ℓ where
  linked : A → Links A
  corrupted : Links A

abbrev pub then_link {ℓ} : {A B : Type ℓ} → Links A → (A → Links B) → Links B
then_link (linked a) f = f a
then_link corrupted f = corrupted

-- `sched_add`, whose process must not be on a run queue
pub link_ready : Kernel → ℕ → Links Kernel
link_ready k p =
    if p == 0
    then linked k
    else if not (is_runnable (k.procs p).state)
    then linked k
    else if is_queued k.runq.queues p prio_max
    then corrupted
    else linked (record k { runq = push k.runq p (k.procs p).priority })

abbrev pub set_state : Kernel → ℕ → ProcState → Kernel
set_state k p st = set_proc k p (record (k.procs p) { state = st })

-- `wq_wait` before it calls `schedule`, and after that returns.
pub wq_enter : Kernel → ℕ → Kernel
wq_enter k wq = record (set_state k k.current sleeping) {
  waitqs = update k.waitqs wq (k.waitqs wq ++ (k.current ∷ []));
}

pub wq_leave : Kernel → ℕ → Links Kernel
wq_leave k wq =
    if contains k.current (k.waitqs wq)
    then linked (record k { waitqs = update k.waitqs wq (delete k.current (k.waitqs wq)) })
    else corrupted

-- A sleeper is taken off its queue, made ready and put on the run queue.
pub wake : Kernel → ℕ → ℕ → List ℕ → Links Kernel
unfolding link_ready
wake k wq p rest = link_ready (record (set_state k p ready) { waitqs = update k.waitqs wq rest }) p

-- `wq_wake_one`, by what the queue holds
pub wake_first : Kernel → ℕ → List ℕ → Links Kernel
unfolding wake
wake_first k wq [] = linked k
wake_first k wq (p ∷ rest) = wake k wq p rest

pub wq_wake_one : Kernel → ℕ → Links Kernel
unfolding wake_first
wq_wake_one k wq = wake_first k wq (k.waitqs wq)

-- `wq_wake_all`
pub wake_each : Kernel → ℕ → List ℕ → Links Kernel
unfolding wake
wake_each k wq [] = linked k
wake_each k wq (p ∷ rest) = then_link (wake k wq p rest) (λ k'. wake_each k' wq rest)

pub wq_wake_all : Kernel → ℕ → Links Kernel
unfolding wake_each
wq_wake_all k wq = wake_each k wq (k.waitqs wq)

-- `proc_wake`
pub proc_wake : Kernel → ℕ → Links Kernel
unfolding link_ready wq_wake_one
proc_wake k p =
    let k' = set_state k p ready in
    if is_sleeping (k.procs p).state
    then then_link
        (if (k.procs p).wait_channel == 0
          then linked k'
          else wq_wake_one k' (k.procs p).wait_channel)
        (λ k''. link_ready k'' p)
    else linked k
