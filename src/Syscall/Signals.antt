-- ===== src/Syscall/Signals.antt =====
-- rt_sigaction and rt_sigprocmask. User memory is a memory of bytes; a word in it stands with its lowest byte first.
use my_unix.Base.{
  ℕ, zero, suc, ◌+◌, ◌-◌, ◌*◌, ◌/◌, ◌%◌, ◌^◌, ◌<◌, ◌≡◌, refl, ◌∙◌, Bool, true, false, not, ◌&&◌,
  ◌||◌, if◌then◌else◌, ◌==◌, ltb, Option, none, some, arith, inl, inr, ◌⊎◌, ◌≤◌,
}
use my_unix.Base.Bits.{
  test_bit, clear_bit, or_bits, and_not_bits, test-clear_bit, test-or_bits, test-and_not_bits,
}
use my_unix.Base.Errno.{efault, einval}
use my_unix.Base.Int.{ℤ, pos, negsuc, neg}
use my_unix.Base.Maps.{update}
use my_unix.Kernel.{Proc, SigAction}
use my_unix.Signal.{nsig}
use my_unix.Strings.{Mem}
use my_unix.Syscall.{as_word, as_int}
use my_unix.Vmm.Access.{access_ok}

-- the word of `n` bytes at an address
pub load : Mem → (a n : ℕ) → ℕ
load m a zero = 0
load m a (suc n) = m a % 256 + 256 * load m (a + 1) n

pub store : Mem → (a w n : ℕ) → Mem
store m a w zero = m
store m a w (suc n) = store (update m a (w % 256)) (a + 1) (w / 256) n

-- `copy_to_user(ptr, &word, 8)`, the result passed over
pub give_word : Mem → (ptr w : ℕ) → Mem
unfolding store
give_word m ptr w = if access_ok ptr 8 then store m ptr w 8 else m

-- struct sigaction: handler, mask and flags, and four bytes of padding that nothing reads.
abbrev pub sigaction_size : ℕ
sigaction_size = 24

pub give_action : Mem → (ptr : ℕ) → SigAction → Mem
unfolding store
give_action m ptr sa =
    if access_ok ptr sigaction_size
    then store (store (store m ptr sa.sa_handler 8) (ptr + 8) sa.sa_mask 8) (ptr + 16) sa.sa_flags 4
    else m

pub take_action : Mem → (ptr : ℕ) → SigAction
unfolding load
take_action m ptr = record {
  sa_handler = load m ptr 8;
  sa_mask = load m (ptr + 8) 8;
  sa_flags = load m (ptr + 16) 4;
}

abbrev pub sig_kill : ℕ
sig_kill = 9

abbrev pub sig_stop : ℕ
sig_stop = 19

-- `PROC->sig_handlers[signo] = sa;`
abbrev pub set_handler : Proc → (signo : ℕ) → SigAction → Proc
set_handler p signo sa = record p { sig_handlers = update p.sig_handlers signo sa }

pub sys_rt_sigaction : Mem → Proc → (signo act_ptr oldact_ptr : ℕ) → ℕ × Mem × Proc
unfolding give_action take_action
sys_rt_sigaction m p signo act_ptr oldact_ptr =
    if signo == 0 || ltb nsig signo
    then (as_word (neg einval), m, p)
    else if signo == sig_kill || signo == sig_stop
    then (as_word (neg einval), m, p)
    else let m' = if oldact_ptr == 0 then m else give_action m oldact_ptr (p.sig_handlers signo) in
      if act_ptr == 0
      then (0, m', p)
      else if not (access_ok act_ptr sigaction_size)
      then (as_word (neg efault), m', p)
      else (0, m', set_handler p signo (take_action m' act_ptr))

abbrev pub set_blocked : Proc → ℕ → Proc
set_blocked p blocked = record p { sig_blocked = blocked }

-- SIG_BLOCK, SIG_UNBLOCK and SIG_SETMASK
pub change_mask : Proc → (how : ℤ) → (mask : ℕ) → Option Proc
change_mask p (negsuc n) mask = none
change_mask p (pos zero) mask = some (set_blocked p (or_bits 64 p.sig_blocked mask))
change_mask p (pos (suc zero)) mask = some (set_blocked p (and_not_bits 64 p.sig_blocked mask))
change_mask p (pos (suc (suc zero))) mask = some (set_blocked p mask)
change_mask p (pos (suc (suc (suc n)))) mask = none

-- `new_mask & ~(BIT(SIGKILL-1) | BIT(SIGSTOP-1))`
abbrev pub blockable : ℕ → ℕ
blockable mask = clear_bit (clear_bit mask (sig_kill - 1)) (sig_stop - 1)

pub sys_rt_sigprocmask : Mem → Proc → (how set_ptr oldset_ptr : ℕ) → ℕ × Mem × Proc
unfolding give_word load change_mask
sys_rt_sigprocmask m p how set_ptr oldset_ptr =
    let m' = if oldset_ptr == 0 then m else give_word m oldset_ptr p.sig_blocked in
    if set_ptr == 0
    then (0, m', p)
    else if not (access_ok set_ptr 8)
    then (as_word (neg efault), m', p)
    else elim (change_mask p (as_int how) (blockable (load m' set_ptr 8))) [
      | none ↦ (as_word (neg einval), m', p)
      | some p' ↦ (0, m', p')
    ]

test-blockable :
    (mask i : ℕ)
    → test_bit (blockable mask) i
      ≡ (not (i == sig_kill - 1 || i == sig_stop - 1) && test_bit mask i)
test-blockable mask i =
    test-clear_bit (clear_bit mask (sig_kill - 1)) (sig_stop - 1) i
    ∙ ground (arith, test-clear_bit mask (sig_kill - 1) i)

-- The bit of a signal in the mask after `how`, from its bits in the mask before and in the set given.
abbrev pub mask_bit : (how : ℕ) → (old given fixed : Bool) → Bool
mask_bit zero old given fixed = old || (not fixed && given)
mask_bit (suc zero) old given fixed = old && not (not fixed && given)
mask_bit (suc (suc n)) old given fixed = not fixed && given

-- What a change of the mask by `how` with the set `given` comes to.
pub record Masked (p : Proc) (how given : ℕ) (p' : Proc) : Type 0 where
  pub only_mask : p' ≡ set_blocked p p'.sig_blocked
  pub bits :
      (i : ℕ)
      → i < 64
      → test_bit p'.sig_blocked i
        ≡ mask_bit how
            (test_bit p.sig_blocked i)
            (test_bit given i)
            (i == sig_kill - 1 || i == sig_stop - 1)

change_mask_lem :
    (p : Proc) (how given : ℕ)
    → ((how < 3)
        × (p' : Proc) × (change_mask p (pos how) (blockable given) ≡ some p')
        × Masked p how given p')
      ⊎ ((3 ≤ how) × (change_mask p (pos how) (blockable given) ≡ none))
unfolding change_mask
change_mask_lem p zero given = inl (
  omega arith,
  set_blocked p (or_bits 64 p.sig_blocked (blockable given)),
  refl,
  record {
    only_mask = refl;
    bits = λ i l.
        rw (test-or_bits 64 p.sig_blocked (blockable given) i l, test-blockable given i) refl;
  },
)
change_mask_lem p (suc zero) given = inl (
  omega arith,
  set_blocked p (and_not_bits 64 p.sig_blocked (blockable given)),
  refl,
  record {
    only_mask = refl;
    bits = λ i l.
        rw (test-and_not_bits 64 p.sig_blocked (blockable given) i l, test-blockable given i) refl;
  },
)
change_mask_lem p (suc (suc zero)) given = inl (
  omega arith,
  set_blocked p (blockable given),
  refl,
  record { only_mask = refl; bits = λ i l. test-blockable given i },
)
change_mask_lem p (suc (suc (suc n))) given = inr (omega arith, refl)

-- rt_sigprocmask with a set that can be read and no place for the old one, `how` below 2^31: SIG_BLOCK adds the signals
-- of the set, SIG_UNBLOCK takes them away and SIG_SETMASK puts them in place of the mask, but in none of the three is
-- SIGKILL or SIGSTOP taken from the set; the mask is all that changes. Any other `how` is -EINVAL and changes nothing.
pub sys_rt_sigprocmask_lem :
    (m : Mem) (p : Proc) (how set_ptr : ℕ)
    → how < 2 ^ 31
    → (set_ptr == 0) ≡ false
    → access_ok set_ptr 8 ≡ true
    → ((how < 3)
        × (p' : Proc) × (sys_rt_sigprocmask m p how set_ptr 0 ≡ (0, m, p'))
        × Masked p how (load m set_ptr 8) p')
      ⊎ ((3 ≤ how) × (sys_rt_sigprocmask m p how set_ptr 0 ≡ (as_word (neg einval), m, p)))
unfolding sys_rt_sigprocmask
sys_rt_sigprocmask_lem m p how set_ptr small there ok =
    let int : as_int how ≡ pos how = ground arith in
    elim (change_mask_lem p how (load m set_ptr 8)) [
      | inl (l, p', e, masked) ↦ inl (l, p', rw (there, ok, int) (rw e refl), masked)
      | inr (l, e) ↦ inr (l, rw (there, ok, int) (rw e refl))
    ]
