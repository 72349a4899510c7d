-- ===== src/Process/Pid.antt =====
-- The process numbers of proc/process.c: the table `g_pid_table` and the cursor `g_next_pid`.
pub mod Laws
use my_unix.Base.{
  ℕ, zero, suc, ◌+◌, Bool, true, false, ◌||◌, if◌then◌else◌, ◌==◌, leb, Option, none, some,
}
use my_unix.Base.Int.{ℤ, pos, negsuc}
use my_unix.Base.Maps.{update}

-- `PID_MAX`
abbrev pub pid_max : ℕ
pid_max = 65536

-- `table` holds a process, or 0 for NULL.
pub record Pids : Type 0 where
  pub table : ℕ → ℕ
  pub next : ℕ

-- `g_next_pid` brought back to 2 at the end of the table.
abbrev pub wrap_pid : ℕ → ℕ
wrap_pid next = if leb pid_max next then 2 else next

-- The loop of `pid_alloc`: the number, or -1 once the cursor is back at `start`; none if the fuel,
-- the number of rounds, runs out. The cursor is returned beside it.
pub pid_loop : ℕ → (ℕ → ℕ) → ℕ → ℕ → Option (ℤ × ℕ)
pid_loop zero table start next = none
pid_loop (suc rounds) table start next =
    let cur = wrap_pid next in
    let again = pid_loop rounds table start (cur + 1) in
    if table cur == 0
    then some (pos cur, cur + 1)
    else if cur + 1 == start
    then some (negsuc 0, cur + 1)
    else again

with_next : Pids → Option (ℤ × ℕ) → Option (ℤ × Pids)
with_next s none = none
with_next s (some (pid, next)) = some (pid, record s { next = next })

-- `pid_alloc`
pub pid_alloc : Pids → Option (ℤ × Pids)
unfolding with_next
pid_alloc s = with_next s (pid_loop pid_max s.table s.next s.next)

-- `g_pid_table[proc->pid] = proc` of `proc_create` and `proc_fork`
pub pid_set : Pids → ℕ → ℕ → Pids
pid_set s pid proc = record s { table = update s.table pid proc }

-- `pid_free`
pub pid_free : Pids → ℤ → Pids
pid_free s (negsuc n) = s
pid_free s (pos pid) =
    if pid == 0 || leb pid_max pid then s else record s { table = update s.table pid 0 }

-- `pid_to_proc` takes a reference: the process's `refcount` goes up.
pub pid_to_proc : Pids → (ℕ → ℕ) → ℤ → ℕ × (ℕ → ℕ)
pid_to_proc s refs (negsuc n) = (0, refs)
pid_to_proc s refs (pos pid) =
    let p = s.table pid in
    if pid == 0 || leb pid_max pid
    then (0, refs)
    else if p == 0
    then (0, refs)
    else (p, update refs p (refs p + 1))

-- `proc_init`
pub pids_init : Pids
pids_init = record { table = λ _. 0; next = 1 }
