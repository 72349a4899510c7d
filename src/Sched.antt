-- ===== src/Sched.antt =====
-- proc/sched.c: the scheduler's entry points over the run queue. Spinlocks and the interrupt flag
-- make each routine one step; `context_switch` hands the processor over, which is `current` here.
pub mod Runq
pub mod Wait
pub mod Laws
mod Tests
use my_unix.Base.{
  ℕ, ◌+◌, ◌-◌, ◌*◌, ◌/◌, Bool, true, false, not, ◌&&◌, if◌then◌else◌, ◌==◌, Option, none, some,
}
use my_unix.Base.Maps.{update}
use my_unix.Base.Word.{add64}
use my_unix.Kernel.{Kernel, Proc, ProcState, ready, running, is_running, is_runnable, set_proc}
use Runq.{push, pop_best, remove}

abbrev pub hz : ℕ
hz = 1000

-- `SCHED_TIMESLICE`
abbrev pub timeslice : ℕ
timeslice = hz / 10

-- `sched_add`
pub add : Kernel → ℕ → Kernel
add k p =
    if p == 0
    then k
    else if is_runnable (k.procs p).state
    then record k { runq = push k.runq p (k.procs p).priority }
    else k

-- `sched_remove`
pub remove_proc : Kernel → ℕ → Kernel
remove_proc k p = if p == 0 then k else record k { runq = remove k.runq p (k.procs p).priority }

-- The process that `schedule` picks: the idle process if none is ready.
abbrev pub choose : ℕ → Option ℕ → ℕ
choose idle none = idle
choose idle (some p) = p

-- `next->time_slice = …; next->state = PROC_RUNNING; next->sched_time = g_ticks;`
pub start_proc : Kernel → ℕ → Kernel
start_proc k next =
    set_proc k next
      (record (k.procs next) { time_slice = timeslice; state = running; sched_time = k.ticks })

-- A process that was still running goes back to the run queue.
pub requeue : Kernel → ℕ → Kernel
requeue k prev =
    if not (prev == 0) && is_running (k.procs prev).state
    then record k {
      procs = update k.procs prev (record (k.procs prev) { state = ready });
      runq = push k.runq prev (k.procs prev).priority;
    }
    else k

-- The hand-over: the TSS stack, the address space if it differs, the per-CPU stack.
pub switch_to : Kernel → ℕ → ℕ → Kernel
switch_to k prev next = record k {
  current = next;
  context_switches = add64 k.context_switches 1;
  sched_count = add64 k.sched_count 1;
  tss_rsp0 = (k.procs next).tss_rsp0;
  kernel_stack = (k.procs next).tss_rsp0;
  cr3 =
      if not (prev == 0) && not ((k.procs prev).vm_space == (k.procs next).vm_space)
      then (k.procs next).vm_space
      else k.cr3;
}

-- The rest of `schedule` once the next process is chosen.
pub run_next : Kernel → ℕ → Kernel
run_next k next =
    if next == k.current
    then k
    else switch_to (requeue (start_proc k next) k.current) k.current next

-- `schedule`
pub schedule : Kernel → Kernel
schedule k =
    let (found, runq) = pop_best k.runq in run_next (record k { runq = runq }) (choose k.idle found)

-- `sched_yield`
pub yield_cpu : Kernel → Kernel
yield_cpu k = schedule (set_proc k k.current (record (k.procs k.current) { time_slice = 0 }))

-- `get_time_ms`
pub get_time_ms : Kernel → ℕ
get_time_ms k = k.ticks * (1000 / hz)
