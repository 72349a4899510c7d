-- ===== src/Sched/Runq.antt =====
-- The run queue of proc/sched.c: forty lists of processes and a bitmap of those that are not empty.
-- An intrusive list is the list of the processes that are linked on it, oldest first.
pub mod Order
pub mod Laws
pub mod Remove
use my_unix.Base.{
  ℕ, zero, suc, ◌+◌, ◌-◌, ◌≤◌, ◌<◌, ◌≡◌, Bool, true, false, ◌||◌, if◌then◌else◌, ◌==◌, ltb, leb,
  List, [], ◌∷◌, ◌++◌, Option, none, some, arith,
}
use my_unix.Base.Bits.{set_bit, clear_bit, ctz}
use my_unix.Base.Int.{ℤ, pos, negsuc}
use my_unix.Base.Maps.{update}
use my_unix.Base.Word.{add64}

abbrev pub prio_max : ℕ
prio_max = 40

-- `run_queue_t`
pub record RunQueue : Type 0 where
  pub queues : ℕ → List ℕ
  pub bitmap : ℕ
  pub total : ℕ

-- `list_empty`
abbrev pub is_empty : List ℕ → Bool
is_empty [] = true
is_empty (x ∷ xs) = false

-- The priority of a process, brought into range.
unfoldable pub clamp_prio : ℤ → ℕ
clamp_prio (pos p) = if leb prio_max p then prio_max - 1 else p
clamp_prio (negsuc p) = 0

-- What `sched_init` sets up.
unfoldable pub empty : RunQueue
empty = record { queues = λ _. []; bitmap = 0; total = 0 }

-- `runq_push`
unfoldable pub push : RunQueue → ℕ → ℤ → RunQueue
push rq proc priority =
    let prio = clamp_prio priority in
    record rq {
      queues = update rq.queues prio (rq.queues prio ++ (proc ∷ []));
      bitmap = set_bit rq.bitmap prio;
      total = add64 rq.total 1;
    }

-- The end of `runq_pop_best`, at the list of the best priority.
pub pop_from : RunQueue → ℕ → List ℕ → Option ℕ × RunQueue
pop_from rq prio [] = (none, record rq { bitmap = clear_bit rq.bitmap prio })
pop_from rq prio (proc ∷ rest) = (
  some proc,
  record rq {
    queues = update rq.queues prio rest;
    bitmap = if is_empty rest then clear_bit rq.bitmap prio else rq.bitmap;
    total = rq.total - 1;
  },
)

-- `runq_pop_best`; `total--` runs only where `total` is not zero. The scan of an all-zero bitmap,
-- which is undefined in C, gives 64 here, and is not in range.
pub pop_best : RunQueue → Option ℕ × RunQueue
unfolding pop_from
pop_best rq =
    let prio = ctz 64 rq.bitmap in
    if rq.total == 0
    then (none, rq)
    else if leb prio_max prio
    then (none, rq)
    else pop_from rq prio (rq.queues prio)

unfoldable pub contains : ℕ → List ℕ → Bool
contains p [] = false
contains p (x ∷ xs) = x == p || contains p xs

-- `list_del` of the process's node from the list that it is on.
pub delete : ℕ → List ℕ → List ℕ
delete p [] = []
delete p (x ∷ xs) = if x == p then xs else x ∷ delete p xs

-- Whether the process's `run_list` is linked: whether it is on one of the first `n` lists.
unfoldable pub is_queued : (ℕ → List ℕ) → ℕ → ℕ → Bool
unfolding contains
is_queued queues p zero = false
is_queued queues p (suc n) = contains p (queues n) || is_queued queues p n

-- `runq_remove`: the bit is cleared only for a priority in range.
pub drop_bit : (ℕ → List ℕ) → ℕ → ℤ → ℕ
drop_bit queues bitmap (negsuc p) = bitmap
drop_bit queues bitmap (pos p) =
    if ltb p prio_max then if is_empty (queues p) then clear_bit bitmap p else bitmap else bitmap

pub remove : RunQueue → ℕ → ℤ → RunQueue
unfolding is_queued delete drop_bit
remove rq proc priority =
    let queues = λ (q : ℕ). delete proc (rq.queues q) in
    if is_queued rq.queues proc prio_max
    then record rq {
      queues = queues;
      bitmap = drop_bit queues rq.bitmap priority;
      total = if ltb 0 rq.total then rq.total - 1 else rq.total;
    }
    else rq
