-- ===== src/Signal.antt =====
-- Signals in proc/process.c, and the timer tick of proc/sched.c that sends SIGALRM.
pub mod Laws
mod Tests
use my_unix.Base.{
  ℕ, ◌+◌, ◌-◌, ◌*◌, ◌/◌, ◌%◌, ◌^◌, Bool, true, false, not, ◌&&◌, ◌||◌, if◌then◌else◌, ◌==◌, ltb,
  leb, List, [], ◌∷◌,
}
use my_unix.Base.Bits.{test_bit, set_bit, clear_bit, or_bits, and_not_bits, ctz}
use my_unix.Base.Errno.{einval, esrch}
use my_unix.Base.Int.{ℤ, pos, negsuc, neg}
use my_unix.Base.Maps.{update}
use my_unix.Base.Word.{word_mod, add64, sub64}
use my_unix.Vmm.Access.{access_ok}
use my_unix.Kernel.{
  Kernel, Proc, ProcState, SigAction, running, stopped, is_sleeping, is_gone, set_proc,
}
use my_unix.Sched.{get_time_ms}
use my_unix.Sched.Wait.{Links, linked, corrupted, then_link, proc_wake}

abbrev pub nsig : ℕ
nsig = 64

abbrev pub sig_chld : ℕ
sig_chld = 17

abbrev pub sig_alrm : ℕ
sig_alrm = 14

abbrev pub sig_cont : ℕ
sig_cont = 18

abbrev pub sig_segv : ℕ
sig_segv = 11

abbrev pub with_result {ℓ} : {A : Type ℓ} → ℤ → Links A → Links (ℤ × A)
with_result r (linked a) = linked (r, a)
with_result r corrupted = corrupted

-- `target->sig_pending |= BIT(signo - 1)`
pub mark_pending : Kernel → ℕ → ℕ → Kernel
mark_pending k p signo =
    set_proc k p (record (k.procs p) { sig_pending = set_bit (k.procs p).sig_pending (signo - 1) })

pub signal_send : Kernel → ℕ → ℤ → Links (ℤ × Kernel)
unfolding mark_pending
signal_send k target (negsuc n) = linked (neg einval, k)
signal_send k target (pos signo) =
    let k' = mark_pending k target signo in
    if target == 0 || (signo == 0 || ltb nsig signo)
    then linked (neg einval, k)
    else if is_gone (k.procs target).state
    then linked (neg esrch, k)
    else if is_sleeping (k.procs target).state
    then with_result (pos 0) (proc_wake k' target)
    else linked (pos 0, k')

-- `signal_send_group` over the list of all processes
pub send_each : Kernel → ℕ → ℤ → List ℕ → Links Kernel
unfolding signal_send
send_each k pgid signo [] = linked k
send_each k pgid signo (p ∷ ps) =
    then_link
      (if (k.procs p).pgid == pgid
        then then_link (signal_send k p signo) (λ r. linked r.1)
        else linked k)
      (λ k'. send_each k' pgid signo ps)

pub signal_send_group : Kernel → ℕ → ℤ → Links (ℤ × Kernel)
unfolding send_each
signal_send_group k pgid signo = with_result (pos 0) (send_each k pgid signo k.all_procs)

-- The registers that `signal_handle` reads or writes.
pub record CpuContext : Type 0 where
  pub rip : ℕ
  pub rsp : ℕ
  pub cs : ℕ
  pub rdi : ℕ
  pub rsi : ℕ
  pub rdx : ℕ

-- `sizeof(sigframe_t)`: the return address, 22 registers, and 40 bytes of siginfo_t.
abbrev pub sigframe_size : ℕ
sigframe_size = 8 + 22 * 8 + 40

-- What `signal_handle` comes to: no signal to handle; a signal ignored or with no effect; the process stopped, and
-- `schedule` called; continued; ended by `proc_exit`; a signal left alone in kernel mode; no room for the frame, and SIGSEGV
-- sent; or the handler entered, with the frame at `sp`.
pub data Handled : Type 0 where
  no_signal : Handled
  ignored : Kernel → Handled
  stops : Kernel → Handled
  continues : Kernel → Handled
  exits : ℕ → Kernel → Handled
  in_kernel_mode : Kernel → Handled
  bad_stack : Links (ℤ × Kernel) → Handled
  enters : Kernel → CpuContext → ℕ → Handled

-- `sig_pending & ~sig_blocked`
abbrev pub deliverable : Proc → ℕ
deliverable p = and_not_bits 64 p.sig_pending p.sig_blocked

abbrev pub is_ignored_by_default : ℕ → Bool
is_ignored_by_default signo = signo == 17 || (signo == 23 || signo == 28)

abbrev pub is_stop : ℕ → Bool
is_stop signo = signo == 19 || (signo == 20 || (signo == 21 || signo == 22))

-- The default action of a signal on process `p`.
pub default_action : Kernel → ℕ → ℕ → Handled
default_action k p signo =
    if is_ignored_by_default signo
    then ignored k
    else if is_stop signo
    then stops (set_proc k p (record (k.procs p) { state = stopped }))
    else if signo == sig_cont
    then continues (set_proc k p (record (k.procs p) { state = running }))
    else exits signo (set_proc k p (record (k.procs p) { exit_code = signo }))

-- `sa->sa_flags & SA_RESETHAND`, which is bit 31: the action goes back to the default.
pub reset_hand : SigAction → SigAction
reset_hand sa = if test_bit sa.sa_flags 31 then record sa { sa_handler = 0; sa_flags = 0 } else sa

-- The masks while a handler runs. The action's mask is read after it may have been reset, which leaves the mask.
pub block_for : Proc → ℕ → Proc
unfolding reset_hand
block_for p signo =
    let sa = reset_hand (p.sig_handlers signo) in
    record p {
      sig_handlers = update p.sig_handlers signo sa;
      sig_saved_mask = p.sig_blocked;
      sig_blocked = or_bits 64 p.sig_blocked (set_bit sa.sa_mask (signo - 1));
    }

-- Entering a user handler.
pub enter_handler : Kernel → ℕ → ℕ → CpuContext → Handled
unfolding access_ok block_for signal_send
enter_handler k p signo ctx =
    let sp = sub64 (sub64 ctx.rsp sigframe_size) 128 / 16 * 16 in
    if not (ctx.cs % 4 == 3)
    then in_kernel_mode k
    else if not (access_ok sp sigframe_size)
    then bad_stack (signal_send k p (pos sig_segv))
    else enters (set_proc k p (block_for (k.procs p) signo))
        (record ctx {
          rip = ((k.procs p).sig_handlers signo).sa_handler;
          rsp = sp;
          rdi = signo;
          rsi = 0;
          rdx = 0;
        })
        sp

-- `proc->sig_pending &= ~BIT(signo - 1)`
pub take_pending : Kernel → ℕ → ℕ → Kernel
take_pending k p signo =
    set_proc k p
      (record (k.procs p) { sig_pending = clear_bit (k.procs p).sig_pending (signo - 1) })

pub act_on : Kernel → ℕ → ℕ → CpuContext → Handled
unfolding default_action enter_handler
act_on k p signo ctx =
    let handler = ((k.procs p).sig_handlers signo).sa_handler in
    if handler == 1
    then ignored k
    else if handler == 0
    then default_action k p signo
    else enter_handler k p signo ctx

pub signal_handle : Kernel → CpuContext → Handled
unfolding take_pending act_on
signal_handle k ctx =
    let p = k.current in
    let pending = deliverable (k.procs p) in
    let signo = ctz 64 pending + 1 in
    if p == 0
    then no_signal
    else if pending == 0
    then no_signal
    else act_on (take_pending k p signo) p signo ctx

-- `signal_blocked`, for a signal number that is in range
pub signal_blocked : Proc → ℕ → Bool
signal_blocked p signo = test_bit p.sig_blocked (signo - 1)

pub signal_restore_mask : Proc → Proc
signal_restore_mask p = record p { sig_blocked = p.sig_saved_mask }

pub signal_init_proc : Proc → Proc
signal_init_proc p = record p {
  sig_handlers = λ _. record { sa_handler = 0; sa_mask = 0; sa_flags = 0 };
  sig_pending = 0;
  sig_blocked = 0;
  sig_saved_mask = 0;
}

-- `sched_tick`
pub count_tick : Proc → Proc
count_tick p = record p {
  total_time = add64 p.total_time 1;
  time_slice = if ltb 0 p.time_slice then p.time_slice - 1 else p.time_slice;
}

abbrev pub alarm_due : Kernel → Proc → Bool
alarm_due k p = not (p.alarm_time == 0) && leb p.alarm_time (get_time_ms k)

pub sched_tick : Kernel → Links Kernel
unfolding count_tick signal_send
sched_tick k =
    let p = k.current in
    let k' = set_proc k p (count_tick (k.procs p)) in
    if p == 0
    then linked k
    else if alarm_due k (k.procs p)
    then then_link
        (signal_send (set_proc k' p (record (k'.procs p) { alarm_time = 0 })) p (pos sig_alrm))
        (λ r. linked r.1)
    else linked k'
