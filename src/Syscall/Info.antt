-- ===== src/Syscall/Info.antt =====
-- The table of system calls, and the calls that tell the time and the memory there is.
use my_unix.Base.{
  List, [], ◌∷◌, ℕ, ◌*◌, ◌/◌, ◌%◌, ◌<◌, ◌≡◌, refl, ◌∙◌, ap, ◌⊎◌, inl, inr, ◌≤◌, ◌-◌, Option-cases,
  if◌then◌else◌, ◌==◌, ltb, leb, Option, none, some, arith, Bool-cases,
}
use my_unix.Base.Errno.{enosys}
use my_unix.Base.Int.{ℤ, pos, negsuc, neg, eq_ℤ}
use my_unix.Base.Maps.{update}
use my_unix.Base.Word.{word_mod, add64}
use my_unix.Syscall.{as_word}

abbrev pub nr_syscalls : ℕ
nr_syscalls = 400

-- A table of functions from a state and six arguments to a result and a state; `none` is NULL.
module _ {ℓ} (State : Type ℓ) where
  abbrev pub Args : Type 0
  Args = ℕ × ℕ × ℕ × ℕ × ℕ × ℕ

  abbrev pub Handler : Type ℓ
  Handler = State → Args → ℕ × State

  abbrev pub Table : Type ℓ
  Table = ℕ → Option Handler

  pub syscall_register : Table → (nr : ℤ) → Handler → Table
  syscall_register table (negsuc n) f = table
  syscall_register table (pos nr) f = if ltb nr nr_syscalls then update table nr (some f) else table

  pub call_entry : Option Handler → State → Args → ℕ × State
  call_entry none s args = (as_word (neg enosys), s)
  call_entry (some f) s args = f s args

  pub syscall_dispatch : Table → State → (nr : ℕ) → Args → ℕ × State
  unfolding call_entry
  syscall_dispatch table s nr args =
      if leb nr_syscalls nr then (as_word (neg enosys), s) else call_entry (table nr) s args

  -- the registrations of syscall_init, in turn
  pub register_all : Table → List (ℤ × Handler) → Table
  unfolding syscall_register
  register_all table [] = table
  register_all table ((nr, f) ∷ entries) = register_all (syscall_register table nr f) entries

  -- What the last entry for the number `nr` registers, or else what is there.
  abbrev pub last_entry : Option Handler → List (ℤ × Handler) → (nr : ℕ) → Option Handler
  last_entry old [] nr = old
  last_entry old ((n, f) ∷ entries) nr =
      last_entry (if eq_ℤ n (pos nr) then some f else old) entries nr

  register_all-entry :
      (table : Table) (entries : List (ℤ × Handler)) (nr : ℕ)
      → nr < nr_syscalls
      → register_all table entries nr ≡ last_entry (table nr) entries nr
  unfolding register_all syscall_register
  register_all-entry table [] nr h = refl
  register_all-entry table ((negsuc n, f) ∷ entries) nr h = register_all-entry table entries nr h
  register_all-entry table ((pos n, f) ∷ entries) nr h =
      register_all-entry (if ltb n nr_syscalls then update table n (some f) else table) entries nr h
      ∙ ap (λ old. last_entry old entries nr) (entry n f)
    where
      entry :
          (n : ℕ) (f : Handler)
          → (if ltb n nr_syscalls then update table n (some f) else table) nr
            ≡ (if n == nr then some f else table nr)
      entry n f = ground (arith, h)

  -- After any registrations, a system call goes to the function registered last under its number, with the state and
  -- all its arguments; it is -ENOSYS, which is 2^64 - 38, with the state unchanged if there is none or the number is not below NR_SYSCALLS.
  -- Registrations under other numbers, negative ones and those from NR_SYSCALLS on have no effect on it.
  pub syscall_dispatch_lem :
      (table : Table) (entries : List (ℤ × Handler)) (s : State) (nr : ℕ) (args : Args)
      → ((nr < nr_syscalls)
          × (f : Handler) × (last_entry (table nr) entries nr ≡ some f)
          × (syscall_dispatch (register_all table entries) s nr args ≡ f s args))
        ⊎ (((nr_syscalls ≤ nr) ⊎ (last_entry (table nr) entries nr ≡ none))
            × (syscall_dispatch (register_all table entries) s nr args ≡ (word_mod - 38, s)))
  unfolding syscall_dispatch call_entry
  syscall_dispatch_lem table entries s nr args = elim (Bool-cases (leb nr_syscalls nr)) [
    | inl out ↦ inr (inl (ground arith), rw out (refl))
    | inr inside ↦
        let small : nr < nr_syscalls = ground arith in
        let entry = register_all-entry table entries nr small in
        elim (Option-cases (last_entry (table nr) entries nr)) [
          | inl nothing ↦ inr (inr nothing, rw (inside, entry ∙ nothing) (refl))
          | inr (f, there) ↦ inl (small, f, there, rw (inside, entry ∙ there) refl)
        ]
  ]

-- tv_sec and tv_nsec of clock_gettime
pub clock_time : (ms : ℕ) → ℕ × ℕ
clock_time ms = (ms / 1000, ms % 1000 * 1000000)

-- tv_sec and tv_usec of gettimeofday
pub time_of_day : (ms : ℕ) → ℕ × ℕ
time_of_day ms = (ms / 1000, ms % 1000 * 1000)

-- the milliseconds that nanosleep waits
pub sleep_ms : (tv_sec tv_nsec : ℕ) → ℕ
sleep_ms tv_sec tv_nsec = add64 (tv_sec * 1000 % word_mod) (tv_nsec / 1000000)
