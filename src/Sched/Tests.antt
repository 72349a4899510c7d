-- ===== src/Sched/Tests.antt =====
-- The scheduler with one process ready and one running.
use my_unix.Base.{ℕ, ◌<◌, ◌≡◌, refl, ◌≢◌, false, if◌then◌else◌, ◌==◌, [], ◌∷◌, arith}
use my_unix.Base.Int.{pos}
use my_unix.Kernel.{Proc, Kernel, running, ready as is_ready}
use my_unix.Sched.{schedule}
use my_unix.Sched.Runq.{RunQueue, empty, push, clamp_prio, prio_max, contains}
use my_unix.Sched.Runq.Order.{ready}
use my_unix.Sched.Runq.Laws.{Inv, order, empty-Inv, push_lem}
use my_unix.Sched.Laws.{Scheduled, schedule_lem, count}

empty-total : empty.total ≡ 0
unfolding empty
empty-total = refl

-- Process 7, at priority 20, is ready.
abbrev one_ready : RunQueue
one_ready = push empty 7 (pos 20)

one_ready-Inv : Inv one_ready
one_ready-Inv = (push_lem empty 7 (pos 20) empty-Inv (omega (arith, empty-total))).0

on_20 : (p : ℕ) → p < prio_max → p ≢ 20 → contains 7 (one_ready.queues p) ≡ false
unfolding push empty contains clamp_prio
on_20 p h ne = ground arith

-- Process 3 runs and process 7 is ready.
abbrev proc_3 : Proc
proc_3 = record {
  pid = 3;
  ppid = 1;
  pgid = 3;
  state = running;
  exit_code = 0;
  killed = false;
  vm_space = 100;
  tss_rsp0 = 200;
  sig_handlers = λ _. record { sa_handler = 0; sa_mask = 0; sa_flags = 0 };
  sig_pending = 0;
  sig_blocked = 0;
  sig_saved_mask = 0;
  priority = pos 20;
  time_slice = 0;
  total_time = 0;
  sched_time = 0;
  wait_channel = 0;
  wait_child = 0;
  alarm_time = 0;
  parent = 0;
  children = [];
  refcount = 1;
}

abbrev two_procs : Kernel
two_procs = record {
  procs = λ p. if p == 7 then record proc_3 { pid = 7; state = is_ready } else proc_3;
  current = 3;
  idle = 1;
  init_proc = 2;
  runq = one_ready;
  waitqs = λ _. [];
  all_procs = 3 ∷ 7 ∷ [];
  ticks = 10;
  sched_count = 0;
  context_switches = 0;
  tss_rsp0 = 200;
  kernel_stack = 200;
  cr3 = 100;
}

one_ready-total : one_ready.total ≡ 1
unfolding push empty
one_ready-total = refl

not_queued : count 3 (order one_ready) ≡ 0
unfolding push empty count ready clamp_prio
not_queued = refl

schedule_example : Scheduled two_procs (schedule two_procs)
schedule_example = schedule_lem two_procs one_ready-Inv (omega (arith, one_ready-total)) not_queued
