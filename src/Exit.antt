-- ===== src/Exit.antt =====
-- proc_exit and proc_wait of proc/process.c. The memory, the stack and the process number that proc_destroy gives back
-- belong to other components; here the reaped process leaves the family and the list of all processes.
pub mod Laws
mod Tests
use my_unix.Base.{
  ℕ, zero, suc, ◌+◌, ◌*◌, ◌%◌, ◌/◌, Bool, true, false, not, ◌&&◌, ◌||◌, if◌then◌else◌, ◌==◌, List,
  [], ◌∷◌, ◌++◌, Option, none, some,
}
use my_unix.Base.Bits.{test_bit}
use my_unix.Base.Errno.{echild, eintr}
use my_unix.Base.Int.{ℤ, pos, negsuc, neg}
use my_unix.Base.Maps.{update}
use my_unix.Kernel.{Kernel, Proc, ProcState, zombie, is_gone, set_proc}
use my_unix.Process.Fd.{FdState, fd_close, each_fd, fd_max}
use my_unix.Sched.{remove_proc, schedule}
use my_unix.Sched.Runq.{delete}
use my_unix.Sched.Wait.{Links, linked, corrupted, then_link, wq_wake_all}
use my_unix.Signal.{signal_send, sig_chld}

-- `(code & 0xFF) << 8`, and the macros that take it apart
pub exit_status : ℕ → ℕ
exit_status code = code % 256 * 256

pub is_exited : ℕ → Bool
is_exited status = status % 128 == 0

pub status_code : ℕ → ℕ
status_code status = status / 256 % 256

-- `for (i = 0; i < FD_MAX; i++) fd_close(proc->fd_table, i);`
pub close_slot : FdState → ℕ → FdState
close_slot s i = (fd_close s (pos i)).1

-- One child is handed to init.
pub adopt : Kernel → ℕ → Kernel
adopt k child =
    let init = k.init_proc in
    let k' =
      set_proc k child (record (k.procs child) { parent = init; ppid = (k.procs init).pid }) in
    set_proc k' init
      (record (k'.procs init) { children = (k'.procs init).children ++ (child ∷ []) })

-- The loop over the children of `p`; without an init process, or for init itself, they only leave the list.
pub reparent : Kernel → ℕ → List ℕ → Kernel
unfolding adopt
reparent k p [] = k
reparent k p (child ∷ rest) =
    reparent (if not (k.init_proc == 0) && not (p == k.init_proc) then adopt k child else k) p rest

-- The list of `p` is empty after it.
pub leave_children : Kernel → ℕ → Kernel
unfolding reparent
leave_children k p =
    let k' =
      reparent (set_proc k p (record (k.procs p) { children = [] })) p (k.procs p).children in
    k'

pub become_zombie : Kernel → ℕ → ℕ → Kernel
unfolding exit_status
become_zombie k p code =
    set_proc k p (record (k.procs p) { exit_code = exit_status code; state = zombie })

-- The parent gets SIGCHLD and is woken from its wait for children.
pub tell_parent : Kernel → ℕ → Links Kernel
tell_parent k parent =
    if parent == 0
    then linked k
    else then_link (signal_send k parent (pos sig_chld))
        (λ r. wq_wake_all r.1 ((r.1).procs parent).wait_child)

pub proc_exit : Kernel → FdState → ℕ → Links (Kernel × FdState)
unfolding become_zombie close_slot leave_children tell_parent
proc_exit k fds code =
    let p = k.current in
    let k' = leave_children (become_zombie k p code) p in
    then_link (tell_parent k' (k'.procs p).parent)
      (λ k''. linked (schedule (remove_proc k'' p), each_fd close_slot fd_max 0 fds))

abbrev pub is_zombie : ProcState → Bool
is_zombie zombie = true
is_zombie _ = false

-- Whether a child is one that `proc_wait` was asked for.
pub matches : ℤ → Proc → Proc → Bool
matches (pos zero) proc child = child.pgid == proc.pgid
matches (pos (suc n)) proc child = child.pid == suc n
matches (negsuc zero) proc child = true
matches (negsuc (suc n)) proc child = child.pgid == suc (suc n)

-- The scan of the children: the first that is asked for and has ended.
pub find_zombie : (ℕ → Proc) → ℤ → Proc → List ℕ → Option ℕ
unfolding matches
find_zombie procs target proc [] = none
find_zombie procs target proc (child ∷ rest) =
    let later = find_zombie procs target proc rest in
    if matches target proc (procs child) && is_zombie (procs child).state then some child else later

-- What one pass of the loop of `proc_wait` comes to: an error, or 0 for WNOHANG; a child reaped, with its number and its
-- status; or the caller sleeps until a child ends.
pub data WaitStep : Type 0 where
  returns : ℤ → WaitStep
  reaps : ℕ → ℕ → Kernel → WaitStep
  sleeps : WaitStep

-- The child leaves the children of `p` and the list of all processes.
pub reap : Kernel → ℕ → ℕ → Kernel
reap k p child =
    record (set_proc k p (record (k.procs p) { children = delete child (k.procs p).children })) {
      all_procs = delete child k.all_procs;
    }

wait_found : Kernel → ℕ → Bool → Option ℕ → WaitStep
unfolding reap
wait_found k p no_hang (some child) =
    reaps (k.procs child).pid (k.procs child).exit_code (reap k p child)
wait_found k p no_hang none = if no_hang then returns (pos 0) else sleeps

wait_among : Kernel → ℕ → ℤ → Bool → List ℕ → WaitStep
unfolding wait_found find_zombie
wait_among k p target no_hang [] = returns (neg echild)
wait_among k p target no_hang (c ∷ cs) =
    wait_found k p no_hang (find_zombie k.procs target (k.procs p) (c ∷ cs))

pub wait_step : Kernel → ℤ → Bool → WaitStep
unfolding wait_among
wait_step k target no_hang = wait_among k k.current target no_hang (k.procs k.current).children

-- After the sleep: a killed process gives up.
pub wait_woken : Proc → Option ℤ
wait_woken p = if p.killed then some (neg eintr) else none
