-- ===== src/Syscall/Init.antt =====
-- The system calls that syscall_init of proc/syscall_impl.c registers, with the numbers of include/syscall.h.
use my_unix.Base.{List, [], ◌∷◌, map, none}
use my_unix.Base.Int.{ℤ, pos}
use my_unix.Syscall.Info.{Handler, Table, register_all}

-- the functions sys_read and so on
pub data Name : Type 0 where
  call_read call_write call_open call_close call_stat call_fstat call_lseek call_mmap : Name
  call_mprotect call_munmap call_brk call_rt_sigaction call_rt_sigprocmask call_ioctl : Name
  call_pipe call_sched_yield call_dup call_dup2 call_nanosleep call_getpid call_fork : Name
  call_execve call_exit call_wait4 call_kill call_uname call_fcntl call_getdents64 : Name
  call_getcwd call_chdir call_mkdir call_unlink call_getuid call_getgid call_geteuid : Name
  call_getegid call_getppid call_getpgrp call_gettid call_arch_prctl call_exit_group : Name
  call_clock_gettime call_gettimeofday call_set_tid_address call_openat call_getrandom : Name
  call_access call_sysinfo : Name

abbrev pub init_entries : List (ℤ × Name)
init_entries =
    (pos 0, call_read)
    ∷ (pos 1, call_write)
    ∷ (pos 2, call_open)
    ∷ (pos 3, call_close)
    ∷ (pos 4, call_stat)
    ∷ (pos 5, call_fstat)
    ∷ (pos 6, call_stat)
    ∷ (pos 8, call_lseek)
    ∷ (pos 9, call_mmap)
    ∷ (pos 10, call_mprotect)
    ∷ (pos 11, call_munmap)
    ∷ (pos 12, call_brk)
    ∷ (pos 13, call_rt_sigaction)
    ∷ (pos 14, call_rt_sigprocmask)
    ∷ (pos 16, call_ioctl)
    ∷ (pos 22, call_pipe)
    ∷ (pos 24, call_sched_yield)
    ∷ (pos 32, call_dup)
    ∷ (pos 33, call_dup2)
    ∷ (pos 35, call_nanosleep)
    ∷ (pos 39, call_getpid)
    ∷ (pos 57, call_fork)
    ∷ (pos 59, call_execve)
    ∷ (pos 60, call_exit)
    ∷ (pos 61, call_wait4)
    ∷ (pos 62, call_kill)
    ∷ (pos 63, call_uname)
    ∷ (pos 72, call_fcntl)
    ∷ (pos 217, call_getdents64)
    ∷ (pos 79, call_getcwd)
    ∷ (pos 80, call_chdir)
    ∷ (pos 83, call_mkdir)
    ∷ (pos 87, call_unlink)
    ∷ (pos 102, call_getuid)
    ∷ (pos 104, call_getgid)
    ∷ (pos 107, call_geteuid)
    ∷ (pos 108, call_getegid)
    ∷ (pos 110, call_getppid)
    ∷ (pos 111, call_getpgrp)
    ∷ (pos 186, call_gettid)
    ∷ (pos 158, call_arch_prctl)
    ∷ (pos 231, call_exit_group)
    ∷ (pos 228, call_clock_gettime)
    ∷ (pos 96, call_gettimeofday)
    ∷ (pos 218, call_set_tid_address)
    ∷ (pos 257, call_openat)
    ∷ (pos 318, call_getrandom)
    ∷ (pos 21, call_access)
    ∷ (pos 99, call_sysinfo)
    ∷ (pos 78, call_getdents64)
    ∷ (pos 262, call_fstat)
    ∷ []

module _ {ℓ} (State : Type ℓ) (handler : Name → Handler State) where
  pub syscall_init : Table State
  syscall_init = register_all State (λ nr. none) (map (λ (n, name). (n, handler name)) init_entries)
