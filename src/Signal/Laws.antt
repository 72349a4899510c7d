-- ===== src/Signal/Laws.antt =====
-- Signals: who is marked, which one is handled first, what a handler's mask blocks and where its frame lies.
use my_unix.Base.{
  ℕ, ◌+◌, ◌-◌, ◌*◌, ◌/◌, ◌%◌, ◌≤◌, ◌<◌, ◌≡◌, refl, sym, ◌∙◌, ◌≢◌, ◌⊎◌, inl, inr, true, false, not,
  ◌&&◌, ◌||◌, if◌then◌else◌, ◌==◌, ltb, arith, Bool-cases,
}
use my_unix.Base.Bits.{
  test_bit, set_bit, or_bits, ctz, test-set_bit, test-clear_bit, test-or_bits, test-and_not_bits,
  and_not_bits-lt, ctz-lt, test-ctz, test_below_ctz, test-zero,
}
use my_unix.Base.Errno.{einval, esrch}
use my_unix.Base.Int.{pos, neg}
use my_unix.Base.Word.{word_mod, add64, sub64}
use my_unix.Kernel.{Kernel, Proc, SigAction, is_sleeping, is_gone, set_proc}
use my_unix.Sched.Wait.{linked}
use my_unix.Vmm.Access.{vmm_user_end, access_ok}
use my_unix.Signal.{
  nsig, sig_alrm, sig_segv, mark_pending, signal_send, CpuContext, sigframe_size, no_signal,
  bad_stack, enters, deliverable, reset_hand, block_for, enter_handler, take_pending, act_on,
  signal_handle, signal_restore_mask, count_tick, alarm_due, sched_tick,
}

-- `k'` is `k` with signal `signo` pending for `target`.
pub record Marked (k : Kernel) (target signo : ℕ) (k' : Kernel) : Type 0 where
  pub pending :
      (i : ℕ)
      → test_bit (k'.procs target).sig_pending i
        ≡ (if signo - 1 == i then true else test_bit (k.procs target).sig_pending i)
  pub others : (p : ℕ) → p ≢ target → k'.procs p ≡ k.procs p
  pub same_state : (k'.procs target).state ≡ (k.procs target).state
  pub same_runq : k'.runq ≡ k.runq

mark_pending-Marked :
    (k : Kernel) (target signo : ℕ) → Marked k target signo (mark_pending k target signo)
unfolding mark_pending
mark_pending-Marked k target signo =
    let e : (target == target) ≡ true = ground arith in
    record {
      pending = λ i. rw e (test-set_bit (k.procs target).sig_pending (signo - 1) i);
      others = λ p ne. ground arith;
      same_state = rw e refl;
      same_runq = refl;
    }

-- signal_send to a process that is not asleep: -EINVAL for no process or a number that is not 1 to 64, -ESRCH for a
-- process that has ended, both without a change; otherwise it marks that one signal as pending and changes nothing else.
signal_send_lem :
    (k : Kernel) (target signo : ℕ)
    → is_sleeping (k.procs target).state ≡ false
    → (((target ≡ 0) ⊎ ((signo ≡ 0) ⊎ (nsig < signo)))
        × (signal_send k target (pos signo) ≡ linked (neg einval, k)))
      ⊎ (((is_gone (k.procs target).state ≡ true)
            × (signal_send k target (pos signo) ≡ linked (neg esrch, k)))
          ⊎ ((k' : Kernel) × (signal_send k target (pos signo) ≡ linked (pos 0, k'))
              × Marked k target signo k'))
unfolding signal_send
signal_send_lem k target signo awake =
    elim (Bool-cases (target == 0 || (signo == 0 || ltb nsig signo))) [
      | inl bad ↦ inl (ground arith, rw bad refl)
      | inr good ↦ elim (Bool-cases (is_gone (k.procs target).state)) [
        | inl gone ↦ inr (inl (gone, rw (good, gone) refl))
        | inr alive ↦ inr (
            inr (
              mark_pending k target signo,
              rw (good, alive, awake) refl,
              mark_pending-Marked k target signo,
            ))
      ]
    ]

-- signal_handle acts on the lowest signal that is pending and not blocked, after it has taken that signal, and only that one, off the
-- pending set; if there is none it does nothing.
pub signal_handle_lem :
    (k : Kernel) (ctx : CpuContext)
    → k.current ≢ 0
    → let p = k.procs k.current in
      (((i : ℕ) → i < 64 → (test_bit p.sig_pending i && not (test_bit p.sig_blocked i)) ≡ false)
        × (signal_handle k ctx ≡ no_signal))
      ⊎ ((i : ℕ) × (k' : Kernel) × (i < 64)
          × ((test_bit p.sig_pending i && not (test_bit p.sig_blocked i)) ≡ true)
          × ((j : ℕ) → j < i → (test_bit p.sig_pending j && not (test_bit p.sig_blocked j)) ≡ false)
          × (signal_handle k ctx ≡ act_on k' k.current (i + 1) ctx)
          × ((j : ℕ)
              → test_bit (k'.procs k.current).sig_pending j
                ≡ (if i == j then false else test_bit p.sig_pending j)))
unfolding signal_handle
signal_handle_lem k ctx nz =
    let p = k.procs k.current in
    let c : (k.current == 0) ≡ false = ground arith in
    elim (Bool-cases (deliverable p == 0)) [
      | inl none_there ↦ inl (λ i h. empty p i h none_there, rw (c, none_there) refl)
      | inr some_there ↦
          let i = ctz 64 (deliverable p) in
          let small = and_not_bits-lt 64 p.sig_pending p.sig_blocked in
          let l : i < 64 = ctz-lt 64 (deliverable p) small (ground arith) in
          inr (
            i,
            take_pending k k.current (i + 1),
            l,
            sym (test-and_not_bits 64 p.sig_pending p.sig_blocked i l)
                ∙ test-ctz 64 (deliverable p) small (ground arith),
            λ j m.
                sym (test-and_not_bits 64 p.sig_pending p.sig_blocked j (omega (arith, m, l)))
                ∙ test_below_ctz 64 (deliverable p) j m,
            rw (c, some_there) refl,
            taken i,
          )
    ]
  where
    empty :
        (p : Proc) (i : ℕ)
        → i < 64
        → (deliverable p == 0) ≡ true
        → (test_bit p.sig_pending i && not (test_bit p.sig_blocked i)) ≡ false
    empty p i h e =
        let z : deliverable p ≡ 0 = ground arith in
        sym (test-and_not_bits 64 p.sig_pending p.sig_blocked i h) ∙ (rw z (test-zero i))

    taken :
        (i j : ℕ)
        → test_bit ((take_pending k k.current (i + 1)).procs k.current).sig_pending j
          ≡ (if i == j then false else test_bit (k.procs k.current).sig_pending j)
    taken i j =
        unfold take_pending in
        let e : (k.current == k.current) ≡ true = ground arith in
        let f : i + 1 - 1 ≡ i = omega arith in
        rw (e, f) (test-clear_bit (k.procs k.current).sig_pending i j)

-- While a handler runs, exactly the signals blocked before, those of its mask and the signal itself are blocked, and
-- signal_restore_mask brings the old mask back.
pub block_for_lem :
    (p : Proc) (signo : ℕ)
    → 1 ≤ signo
    → signo ≤ nsig
    → ((i : ℕ)
        → i < 64
        → test_bit (block_for p signo).sig_blocked i ≡ (
            test_bit p.sig_blocked i
            || (if signo - 1 == i then true else test_bit (p.sig_handlers signo).sa_mask i)))
      × ((signal_restore_mask (block_for p signo)).sig_blocked ≡ p.sig_blocked)
      × ((block_for p signo).sig_pending ≡ p.sig_pending)
unfolding block_for signal_restore_mask
block_for_lem p signo low high = (bits, refl, refl)
  where
    mask : (sa : SigAction) → (reset_hand sa).sa_mask ≡ sa.sa_mask
    mask sa =
        unfold reset_hand in
        elim (Bool-cases (test_bit sa.sa_flags 31)) [ inl e ↦ rw e refl | inr e ↦ rw e refl ]

    bits :
        (i : ℕ)
        → i < 64
        → test_bit
            (or_bits 64 p.sig_blocked
              (set_bit (reset_hand (p.sig_handlers signo)).sa_mask (signo - 1)))
            i
          ≡ (test_bit p.sig_blocked i
              || (if signo - 1 == i then true else test_bit (p.sig_handlers signo).sa_mask i))
    bits i h = rw (mask (p.sig_handlers signo)) (
        rw
          (
            test-or_bits 64 p.sig_blocked (set_bit (p.sig_handlers signo).sa_mask (signo - 1)) i h,
            test-set_bit (p.sig_handlers signo).sa_mask (signo - 1) i,
          )
          refl)

-- Where the frame of a handler lies: below the interrupted code's red zone of 128 bytes, in user memory.
pub record Framed (ctx regs : CpuContext) (signo handler sp : ℕ) : Type 0 where
  pub aligned : sp % 16 ≡ 0
  pub below : sp + sigframe_size + 128 ≤ ctx.rsp
  pub in_user : sp + sigframe_size ≤ vmm_user_end
  pub starts : (regs.rip ≡ handler) × (regs.rsp ≡ sp) × (regs.rdi ≡ signo) × (regs.cs ≡ ctx.cs)

abbrev pub frame_at : ℕ → ℕ
frame_at rsp = sub64 (sub64 rsp sigframe_size) 128 / 16 * 16

frame_bounds :
    (rsp : ℕ)
    → rsp < word_mod
    → access_ok (frame_at rsp) sigframe_size ≡ true
    → (frame_at rsp + sigframe_size + 128 ≤ rsp) × (frame_at rsp + sigframe_size ≤ vmm_user_end)
unfolding access_ok
frame_bounds rsp h ok = (ground arith, ground arith)

frame_too_high :
    (rsp : ℕ)
    → rsp < word_mod
    → access_ok (frame_at rsp) sigframe_size ≡ false
    → vmm_user_end < frame_at rsp + sigframe_size
unfolding access_ok
frame_too_high rsp h bad = ground arith

-- Entering a handler from user mode, with the place for the frame taken below the red zone of 128 bytes and rounded down to
-- 16 bytes, modulo 2^64: exactly if the frame there does not end within user memory SIGSEGV is sent; otherwise the frame
-- lies at that place, aligned to 16 bytes, in user memory and below the red zone of the interrupted code, the process has
-- the masks of the handler, and the registers start the handler with the signal number.
pub enter_handler_lem :
    (k : Kernel) (p signo : ℕ) (ctx : CpuContext)
    → ctx.cs % 4 ≡ 3
    → ctx.rsp < word_mod
    → ((vmm_user_end < frame_at ctx.rsp + sigframe_size)
        × (enter_handler k p signo ctx ≡ bad_stack (signal_send k p (pos sig_segv))))
      ⊎ ((k' : Kernel) × (regs : CpuContext) × (sp : ℕ) × (sp ≡ frame_at ctx.rsp)
          × (sp + sigframe_size ≤ vmm_user_end)
          × (enter_handler k p signo ctx ≡ enters k' regs sp)
          × (k'.procs p ≡ block_for (k.procs p) signo)
          × Framed ctx regs signo ((k.procs p).sig_handlers signo).sa_handler sp)
unfolding enter_handler
enter_handler_lem k p signo ctx user small =
    let u : (ctx.cs % 4 == 3) ≡ true = ground arith in
    let e : (p == p) ≡ true = ground arith in
    elim (Bool-cases (access_ok (frame_at ctx.rsp) sigframe_size)) [
      | inr bad ↦ inl (frame_too_high ctx.rsp small bad, rw (u, bad) refl)
      | inl ok ↦
          let (b, c) = frame_bounds ctx.rsp small ok in
          inr (
            set_proc k p (block_for (k.procs p) signo),
            record ctx {
              rip = ((k.procs p).sig_handlers signo).sa_handler;
              rsp = frame_at ctx.rsp;
              rdi = signo;
              rsi = 0;
              rdx = 0;
            },
            frame_at ctx.rsp,
            refl,
            c,
            rw (u, ok) refl,
            rw e refl,
            record {
              aligned = omega arith;
              below = b;
              in_user = c;
              starts = (refl, refl, refl, refl);
            },
          )
    ]

-- One tick of a running process: its time is counted, its slice runs down to 0, and an alarm that is due is cleared and makes
-- SIGALRM pending; nothing else is pending that was not.
pub sched_tick_lem :
    (k : Kernel)
    → k.current ≢ 0
    → is_sleeping (k.procs k.current).state ≡ false
    → is_gone (k.procs k.current).state ≡ false
    → (k' : Kernel) × (sched_tick k ≡ linked k')
      × ((k'.procs k.current).total_time ≡ add64 (k.procs k.current).total_time 1)
      × ((k'.procs k.current).time_slice ≡ (k.procs k.current).time_slice - 1)
      × ((k'.procs k.current).alarm_time
          ≡ (if alarm_due k (k.procs k.current) then 0 else (k.procs k.current).alarm_time))
      × ((i : ℕ)
          → test_bit (k'.procs k.current).sig_pending i ≡ (
              (alarm_due k (k.procs k.current) && sig_alrm - 1 == i)
              || test_bit (k.procs k.current).sig_pending i))
unfolding sched_tick count_tick signal_send mark_pending
sched_tick_lem k nz awake alive =
    let c : (k.current == 0) ≡ false = ground arith in
    let e : (k.current == k.current) ≡ true = ground arith in
    elim (Bool-cases (alarm_due k (k.procs k.current))) [
      | inr quiet ↦ (
        counted,
        rw (c, quiet) refl,
        rw e refl,
        rw e (ground arith),
        rw (e, quiet) refl,
        λ i. rw (e, quiet) refl,
      )
      | inl due ↦ (
        rung,
        rw (c, due, e, alive, awake) refl,
        rw e refl,
        rw e (ground arith),
        rw (e, due) refl,
        λ i.
            rw (e, due)
              (ground (arith, test-set_bit (k.procs k.current).sig_pending (sig_alrm - 1) i)),
      )
    ]
  where
    counted : Kernel
    counted = set_proc k k.current (count_tick (k.procs k.current))

    rung : Kernel
    rung =
        mark_pending
          (set_proc counted k.current (record (counted.procs k.current) { alarm_time = 0 }))
          k.current sig_alrm
