-- ===== src/Kernel.antt =====
-- The process control block of include/process.h and the globals of proc/sched.c and proc/process.c
-- that the scheduler, the wait queues and the signals share. A pointer to a process or a wait queue
-- is a number, and 0 is NULL.
pub mod Examples
use my_unix.Base.{ℕ, Bool, true, false, List}
use my_unix.Base.Int.{ℤ}
use my_unix.Base.Maps.{update}
use my_unix.Sched.Runq.{RunQueue}

-- `proc_state_t`
pub data ProcState : Type 0 where
  created running ready sleeping stopped zombie dead : ProcState

-- tests `state == PROC_…`
abbrev pub is_running : ProcState → Bool
is_running running = true
is_running _ = false

abbrev pub is_runnable : ProcState → Bool
is_runnable running = true
is_runnable ready = true
is_runnable _ = false

abbrev pub is_sleeping : ProcState → Bool
is_sleeping sleeping = true
is_sleeping _ = false

-- `PROC_ZOMBIE` or `PROC_DEAD`
abbrev pub is_gone : ProcState → Bool
is_gone zombie = true
is_gone dead = true
is_gone _ = false

-- `struct sigaction`; handlers 0 and 1 are SIG_DFL and SIG_IGN.
pub record SigAction : Type 0 where
  pub sa_handler : ℕ
  pub sa_mask : ℕ
  pub sa_flags : ℕ

-- The fields of `process_t` that the modelled code reads or writes.
pub record Proc : Type 0 where
  pub pid : ℕ
  pub ppid : ℕ
  pub pgid : ℕ
  pub state : ProcState
  pub exit_code : ℕ
  pub killed : Bool
  pub vm_space : ℕ
  pub tss_rsp0 : ℕ
  pub sig_handlers : ℕ → SigAction
  pub sig_pending : ℕ
  pub sig_blocked : ℕ
  pub sig_saved_mask : ℕ
  pub priority : ℤ
  pub time_slice : ℕ
  pub total_time : ℕ
  pub sched_time : ℕ
  pub wait_channel : ℕ
  pub wait_child : ℕ
  pub alarm_time : ℕ
  pub parent : ℕ
  pub children : List ℕ
  pub refcount : ℕ

-- `waitqs` maps a wait queue to the sleepers whose nodes are linked on it, oldest first.
pub record Kernel : Type 0 where
  pub procs : ℕ → Proc
  pub current : ℕ
  pub idle : ℕ
  pub init_proc : ℕ
  pub runq : RunQueue
  pub waitqs : ℕ → List ℕ
  pub all_procs : List ℕ
  pub ticks : ℕ
  pub sched_count : ℕ
  pub context_switches : ℕ
  pub tss_rsp0 : ℕ
  pub kernel_stack : ℕ
  pub cr3 : ℕ

-- `p->… = …`: process `p` is replaced.
abbrev pub set_proc : Kernel → ℕ → Proc → Kernel
set_proc k p r = record k { procs = update k.procs p r }
