-- ===== src/Syscall/Tests.antt =====
-- Calls of a process whose descriptor 0 is the file 9.
use my_unix.Base.{
  ◌+◌, ◌-◌, ◌<◌, none, ◌⊎◌, ◌≤◌, if◌then◌else◌, ◌==◌, true, ℕ, ◌≡◌, ◌≢◌, refl, List, [], ◌∷◌, some,
  arith,
}
use my_unix.Base.Int.{ℤ, pos, neg, negsuc}
use my_unix.Base.Errno.{einval}
use my_unix.Base.Outcome.{done}
use my_unix.Base.Word.{page_up, word_mod}
use my_unix.Kernel.{Proc}
use my_unix.Kernel.Examples.{plain_proc}
use my_unix.Pmm.{Pmm}
use my_unix.Vmm.{Space}
use my_unix.Vmm.Access.{access_ok}
use my_unix.Vmm.Tables.{pml4_page}
use my_unix.Vmm.Tables.Laws.{IsTree}
use my_unix.Vmm.Tables.Tests.{memory, shape, empty_space, memory-Wf}
use my_unix.Syscall.{as_word, as_int}
use my_unix.Syscall.Info.{
  Handler, Table, register_all, last_entry, syscall_dispatch, nr_syscalls, syscall_dispatch_lem,
}
use my_unix.Syscall.Memory.{sys_brk}
use my_unix.Syscall.Memory.Extend.{Extended}
use my_unix.Syscall.Memory.Served.{Filled}
use my_unix.Syscall.Memory.Heap.{sys_brk_lem}
use my_unix.Syscall.Signals.{load, Masked, sys_rt_sigprocmask, sys_rt_sigprocmask_lem}
use my_unix.Process.Fd.{FdState, fd_get, fd_max, no_fds, set_fd, file_get}
use my_unix.Process.Fd.Laws.{Balanced, Balanced-take, slots-none}
use my_unix.Syscall.Fd.{Sys, by_vnode, sys_fcntl, sys_pipe}
use my_unix.Syscall.Fd.Laws.{Call, close, dup, dup2, lseek, read, after_calls, after_calls-Balanced}
use my_unix.Syscall.Fd.Fcntl.{sys_fcntl-Balanced}
use my_unix.Syscall.Fd.Fresh.{sys_pipe-Balanced}

abbrev none_open : FdState
none_open = record { table = no_fds; files = record { refs = λ f. 0; closed = [] } }

abbrev one_open : FdState
one_open = record { table = set_fd none_open.table 0 9 0; files = file_get none_open.files 9 }

abbrev some_sys : Sys
some_sys = record {
  fd = one_open;
  open_files = λ f. record { offset = 4; flags = 2; vnode_size = some 100 };
}

abbrev no_others : ℕ → ℕ
no_others f = 0

one_open-Balanced : Balanced one_open no_others
unfolding no_fds
one_open-Balanced =
    Balanced-take none_open 0 9 0 no_others
      (record {
        held = λ f nz. omega (arith, slots-none none_open.table.fds f fd_max nz (λ j h. refl));
        small = λ f. omega arith;
      })
      (omega arith) refl

abbrev some_calls : List Call
some_calls =
    dup 0
    ∷ dup2 0 5
    ∷ lseek 5 10 2
    ∷ read (λ f. by_vnode (λ offset. pos 3)) 1 4096 8
    ∷ close 0
    ∷ close 77
    ∷ []

after_calls-Balanced_example : Balanced (after_calls some_sys some_calls).fd no_others
after_calls-Balanced_example =
    after_calls-Balanced some_sys some_calls no_others (λ f. omega arith) one_open-Balanced

sys_fcntl-Balanced_example :
    ((r : ℕ × Sys) × (sys_fcntl some_sys 0 1030 0 ≡ some r) × Balanced r.1.fd no_others)
    ⊎ ((fd_max ≤ 0)
        × ((as_int 1030 ≡ pos 1) ⊎ (as_int 1030 ≡ pos 2))
        × ((fd_get some_sys.fd (as_int 0)).0 ≢ 0)
        × (sys_fcntl some_sys 0 1030 0 ≡ none))
sys_fcntl-Balanced_example =
    sys_fcntl-Balanced some_sys 0 1030 0 no_others (λ f. omega arith) one_open-Balanced

sys_pipe-Balanced_example : Balanced (sys_pipe (some (3, 4)) some_sys 8192).2.fd no_others
unfolding no_fds file_get
sys_pipe-Balanced_example =
    sys_pipe-Balanced some_sys 3 4 8192 no_others (ground arith) (ground arith) (ground arith) refl
      refl (λ f. omega arith) one_open-Balanced

empty_space-IsTree : IsTree memory (pml4_page empty_space)
unfolding IsTree
empty_space-IsTree = (shape, memory-Wf)

sys_brk_example :
    (r : ℕ) × (space' : Space) × (s' : Pmm) × (sys_brk empty_space memory 4194304 4200000
      ≡ done (r, r, space', s'))
    × ((((r ≡ 4194304) ⊎ (r ≡ page_up 4200000)) × (s'.free_pages ≡ 0))
        ⊎ ((r ≡ page_up 4200000) × Filled 4194304 (page_up 4200000) space' s'))
    × Extended empty_space memory 4194304 (page_up 4200000) space' s'
sys_brk_example =
    sys_brk_lem empty_space memory 4194304 4200000 empty_space-IsTree refl (omega arith)
      (omega arith) refl

-- SIGHUP, SIGKILL and SIGTERM
abbrev set_in_memory : ℕ → ℕ
set_in_memory a = if a == 4096 then 1 else if a == 4097 then 65 else 0

readable : access_ok 4096 8 ≡ true
unfolding access_ok
readable = refl

sys_rt_sigprocmask_example :
    ((0 < 3)
      × (p' : Proc) × (sys_rt_sigprocmask set_in_memory plain_proc 0 4096 0
          ≡ (0, set_in_memory, p'))
      × Masked plain_proc 0 (load set_in_memory 4096 8) p')
    ⊎ ((3 ≤ 0)
        × (sys_rt_sigprocmask set_in_memory plain_proc 0 4096 0
            ≡ (as_word (neg einval), set_in_memory, plain_proc)))
sys_rt_sigprocmask_example =
    sys_rt_sigprocmask_lem set_in_memory plain_proc 0 4096 (omega arith) refl readable

abbrev add_args : Handler ℕ
add_args s (a, b, a3, a4, a5, a6) = (a + b, s + 1)

abbrev no_handlers : Table ℕ
no_handlers nr = none

abbrev some_entries : List (ℤ × Handler ℕ)
some_entries = (pos 39, add_args) ∷ (pos 400, add_args) ∷ (negsuc 0, add_args) ∷ []

syscall_dispatch_example :
    ((39 < nr_syscalls)
      × (f : Handler ℕ) × (last_entry ℕ (no_handlers 39) some_entries 39 ≡ some f)
      × (syscall_dispatch ℕ (register_all ℕ no_handlers some_entries) 7 39 (1, 2, 3, 4, 5, 6)
          ≡ f 7 (1, 2, 3, 4, 5, 6)))
    ⊎ (((nr_syscalls ≤ 39) ⊎ (last_entry ℕ (no_handlers 39) some_entries 39 ≡ none))
        × (syscall_dispatch ℕ (register_all ℕ no_handlers some_entries) 7 39 (1, 2, 3, 4, 5, 6)
            ≡ (word_mod - 38, 7)))
syscall_dispatch_example = syscall_dispatch_lem ℕ no_handlers some_entries 7 39 (1, 2, 3, 4, 5, 6)
