-- ===== src/Kernel/Examples.antt =====
-- A process and a machine for the examples: one process, with nothing pending, runs alone.
use my_unix.Base.{false, [], ◌∷◌}
use my_unix.Base.Int.{pos}
use my_unix.Kernel.{Proc, Kernel, running}

abbrev pub plain_proc : Proc
plain_proc = record {
  pid = 3;
  ppid = 1;
  pgid = 3;
  state = running;
  exit_code = 0;
  killed = false;
  vm_space = 100;
  tss_rsp0 = 200;
  sig_handlers = λ _. record { sa_handler = 0; sa_mask = 0; sa_flags = 0 };
  sig_pending = 0;
  sig_blocked = 0;
  sig_saved_mask = 0;
  priority = pos 20;
  time_slice = 5;
  total_time = 0;
  sched_time = 0;
  wait_channel = 0;
  wait_child = 0;
  alarm_time = 0;
  parent = 0;
  children = [];
  refcount = 1;
}

abbrev pub plain_kernel : Kernel
plain_kernel = record {
  procs = λ _. plain_proc;
  current = 3;
  idle = 1;
  init_proc = 2;
  runq = record { queues = λ _. []; bitmap = 0; total = 0 };
  waitqs = λ _. [];
  all_procs = 3 ∷ [];
  ticks = 10;
  sched_count = 0;
  context_switches = 0;
  tss_rsp0 = 200;
  kernel_stack = 200;
  cr3 = 100;
}
