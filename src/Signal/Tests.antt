-- ===== src/Signal/Tests.antt =====
-- A process with signals 2 and 10 pending, 2 of them blocked, and a handler for signal 10.
use my_unix.Base.{
  ℕ, ◌≤◌, ◌+◌, ◌<◌, ◌≡◌, refl, ◌⊎◌, true, false, not, ◌&&◌, if◌then◌else◌, ◌==◌, arith,
}
use my_unix.Base.Bits.{test_bit}
use my_unix.Base.Int.{pos}
use my_unix.Kernel.{Kernel, Proc}
use my_unix.Kernel.Examples.{plain_proc, plain_kernel}
use my_unix.Vmm.Access.{vmm_user_end}
use my_unix.Signal.{
  CpuContext, sig_segv, signal_send, signal_handle, no_signal, act_on, block_for, enter_handler,
  bad_stack, enters, sigframe_size,
}
use my_unix.Signal.Laws.{frame_at, Framed, signal_handle_lem, enter_handler_lem}

abbrev signalled : Proc
signalled = record plain_proc {
  sig_pending = 2 + 512;
  sig_blocked = 2;
  alarm_time = 7;
  sig_handlers = λ s.
      if s == 10
      then record { sa_handler = 0x40_0000; sa_mask = 4; sa_flags = 0 }
      else record { sa_handler = 0; sa_mask = 0; sa_flags = 0 };
}

abbrev machine : Kernel
machine = record plain_kernel { procs = λ _. signalled }

abbrev user_regs : CpuContext
user_regs = record { rip = 0x40_1000; rsp = 0x7fff_0000; cs = 0x2b; rdi = 0; rsi = 0; rdx = 0 }

abbrev target : ℕ
target = 5

abbrev sig_term : ℕ
sig_term = 15

signal_handle_example :
    (((i : ℕ)
        → i < 64
        → (test_bit signalled.sig_pending i && not (test_bit signalled.sig_blocked i)) ≡ false)
      × (signal_handle machine user_regs ≡ no_signal))
    ⊎ ((i : ℕ) × (k' : Kernel) × (i < 64)
        × ((test_bit signalled.sig_pending i && not (test_bit signalled.sig_blocked i)) ≡ true)
        × ((j : ℕ)
            → j < i
            → (test_bit signalled.sig_pending j && not (test_bit signalled.sig_blocked j)) ≡ false)
        × (signal_handle machine user_regs ≡ act_on k' 3 (i + 1) user_regs)
        × ((j : ℕ)
            → test_bit (k'.procs 3).sig_pending j
              ≡ (if i == j then false else test_bit signalled.sig_pending j)))
signal_handle_example = signal_handle_lem machine user_regs (λ e. absurd (omega (arith, e)))

enter_handler_example :
    ((vmm_user_end < frame_at user_regs.rsp + sigframe_size)
      × (enter_handler machine 3 10 user_regs ≡ bad_stack (signal_send machine 3 (pos sig_segv))))
    ⊎ ((k' : Kernel) × (regs : CpuContext) × (sp : ℕ) × (sp ≡ frame_at user_regs.rsp)
        × (sp + sigframe_size ≤ vmm_user_end)
        × (enter_handler machine 3 10 user_regs ≡ enters k' regs sp)
        × (k'.procs 3 ≡ block_for (machine.procs 3) 10)
        × Framed user_regs regs 10 ((machine.procs 3).sig_handlers 10).sa_handler sp)
enter_handler_example = enter_handler_lem machine 3 10 user_regs refl (omega arith)
