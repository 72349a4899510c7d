-- ===== src/Process/Tests.antt =====
-- Process numbers on an empty table; a descriptor table in which slots 0 and 1 hold file 9, slot 1 close-on-exec.
use my_unix.Base.{
  true, false, none, ◌⊎◌, if◌then◌else◌, ◌==◌, ℕ, ◌+◌, ◌<◌, ◌≡◌, refl, ◌≢◌, [], some, arith,
}
use my_unix.Base.Int.{ℤ}
use my_unix.Process.Pid.{Pids, pids_init, pid_alloc}
use my_unix.Process.Pid.Laws.{AllocResult, pid_alloc_lem, pids_init-Inv}
use my_unix.Process.Fd.{FdState, fd_max, no_fds, file_get, set_fd, fd_table_clone}
use my_unix.Process.Fd.Laws.{Balanced, Balanced-take, slots, slots-none}
use my_unix.Process.Fd.Loops.{fd_table_clone_lem}

pid_alloc_example : (r : ℤ × Pids) × (pid_alloc pids_init ≡ some r) × AllocResult pids_init r
pid_alloc_example = pid_alloc_lem pids_init pids_init-Inv

abbrev no_others : ℕ → ℕ
no_others f = 0

abbrev fresh : FdState
fresh = record { table = no_fds; files = record { refs = λ _. 0; closed = [] } }

abbrev one_open : FdState
one_open = record { table = set_fd fresh.table 0 9 0; files = file_get fresh.files 9 }

abbrev two_open : FdState
two_open = record { table = set_fd one_open.table 1 9 1; files = file_get one_open.files 9 }

fresh-Balanced : Balanced fresh no_others
unfolding no_fds
fresh-Balanced = record {
  held = λ f nz. omega (arith, slots-none fresh.table.fds f fd_max nz (λ j h. refl));
  small = λ f. omega arith;
}

two_open-Balanced : Balanced two_open no_others
unfolding no_fds
two_open-Balanced =
    Balanced-take one_open 1 9 1 no_others
      (Balanced-take fresh 0 9 0 no_others fresh-Balanced (omega arith) refl) (omega arith) refl

fd_table_clone_example :
    ((true ≡ false) × (fd_table_clone true two_open.table two_open.files ≡ none))
    ⊎ ((true ≡ true)
        × (dst : FdState) × (fd_table_clone true two_open.table two_open.files ≡ some dst)
        × ((j : ℕ) → j < fd_max → dst.table.fds j ≡ two_open.table.fds j)
        × ((j : ℕ)
            → j < fd_max
            → dst.table.flags j ≡ (if two_open.table.fds j == 0 then 0 else two_open.table.flags j))
        × ((f : ℕ)
            → f ≢ 0
            → dst.files.refs f
              ≡ slots two_open.table.fds f fd_max + slots dst.table.fds f fd_max + no_others f)
        × (dst.files.closed ≡ two_open.files.closed))
fd_table_clone_example =
    fd_table_clone_lem true two_open.table two_open.files no_others two_open-Balanced
      (λ f. omega arith)
