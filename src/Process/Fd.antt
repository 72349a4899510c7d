-- ===== src/Process/Fd.antt =====
-- The descriptor tables of proc/process.c, with the reference counts of the open files that
-- `file_get` and `file_put` of fs/vfs.c keep.
pub mod Laws
pub mod Loops
pub mod At
use my_unix.Base.{
  ℕ, zero, suc, ◌+◌, ◌-◌, ◌%◌, ◌^◌, Bool, true, false, not, ◌&&◌, if◌then◌else◌, ◌==◌, leb, List,
  [], ◌∷◌, Option, none, some,
}
use my_unix.Base.Bits.{test_bit}
use my_unix.Base.Errno.{ebadf, emfile}
use my_unix.Base.Int.{ℤ, pos, negsuc, neg}
use my_unix.Base.Maps.{update}

-- `FD_MAX`
abbrev pub fd_max : ℕ
fd_max = 1024

abbrev pub atomic_mod : ℕ
atomic_mod = 2 ^ 32

-- A file is a number, 0 for NULL. `closed` holds the files that `file_put` closed and freed, the
-- latest first.
pub record Files : Type 0 where
  pub refs : ℕ → ℕ
  pub closed : List ℕ

pub record FdTable : Type 0 where
  pub fds : ℕ → ℕ
  pub flags : ℕ → ℕ

-- One table and the files.
pub record FdState : Type 0 where
  pub table : FdTable
  pub files : Files

-- `file_get`
unfoldable pub file_get : Files → ℕ → Files
file_get s f =
    if f == 0 then s else record s { refs = update s.refs f ((s.refs f + 1) % atomic_mod) }

-- `file_put`
pub file_put : Files → ℕ → Files
file_put s f =
    let left = (s.refs f + atomic_mod - 1) % atomic_mod in
    if f == 0 then s else record s {
      refs = update s.refs f left;
      closed = if left == 0 then f ∷ s.closed else s.closed;
    }

-- `fdt->fds[fd] = f; fdt->flags[fd] = flags;`
abbrev pub set_fd : FdTable → ℕ → ℕ → ℕ → FdTable
set_fd t fd f flags = record t { fds = update t.fds fd f; flags = update t.flags fd flags }

-- The first empty slot among the `n` from `i` on.
pub lowest_free : (ℕ → ℕ) → ℕ → ℕ → Option ℕ
lowest_free fds i zero = none
lowest_free fds i (suc n) =
    let rest = lowest_free fds (i + 1) n in if fds i == 0 then some i else rest

fd_alloc_found : FdState → ℕ → Option ℕ → ℤ × FdState
fd_alloc_found s f none = (neg emfile, s)
fd_alloc_found s f (some i) =
    (pos i, record { table = set_fd s.table i f 0; files = file_get s.files f })

pub fd_alloc : FdState → ℕ → ℤ × FdState
unfolding fd_alloc_found
fd_alloc s f = fd_alloc_found s f (lowest_free s.table.fds 0 fd_max)

pub fd_alloc_at : FdState → ℤ → ℕ → ℤ × FdState
fd_alloc_at s (negsuc n) f = (neg ebadf, s)
fd_alloc_at s (pos fd) f = if leb fd_max fd then (neg ebadf, s) else (
  pos fd,
  record { table = set_fd s.table fd f 0; files = file_get (file_put s.files (s.table.fds fd)) f },
)

pub fd_get : FdState → ℤ → ℕ × FdState
fd_get s (negsuc n) = (0, s)
fd_get s (pos fd) =
    if leb fd_max fd
    then (0, s)
    else (s.table.fds fd, record s { files = file_get s.files (s.table.fds fd) })

pub fd_close : FdState → ℤ → ℤ × FdState
fd_close s (negsuc n) = (neg ebadf, s)
fd_close s (pos fd) =
    if leb fd_max fd then (neg ebadf, s) else if s.table.fds fd == 0 then (neg ebadf, s) else (
      pos 0,
      record { table = set_fd s.table fd 0 0; files = file_put s.files (s.table.fds fd) },
    )

-- `for (int i = 0; i < FD_MAX; i++)`, the `n` slots from `i` on.
pub each_fd : (FdState → ℕ → FdState) → ℕ → ℕ → FdState → FdState
each_fd body zero i s = s
each_fd body (suc n) i s = each_fd body n (i + 1) (body s i)

-- The body of the loop of `fd_close_on_exec`; FD_FLAG_CLOEXEC is bit 0.
pub exec_slot : FdState → ℕ → FdState
exec_slot s i =
    if not (s.table.fds i == 0) && test_bit (s.table.flags i) 0
    then record { table = set_fd s.table i 0 0; files = file_put s.files (s.table.fds i) }
    else s

pub fd_close_on_exec : FdState → FdState
fd_close_on_exec s = each_fd exec_slot fd_max 0 s

-- The body of the loop of `fd_table_destroy`; it leaves the flags.
pub destroy_slot : FdState → ℕ → FdState
destroy_slot s i = if s.table.fds i == 0 then s else record {
  table = record (s.table) { fds = update s.table.fds i 0 };
  files = file_put s.files (s.table.fds i);
}

-- The last reference to the table is gone.
pub fd_table_destroy : FdState → FdState
fd_table_destroy s = each_fd destroy_slot fd_max 0 s

-- The loop of `fd_table_clone` from the table `src`.
pub clone_slot : FdTable → FdState → ℕ → FdState
clone_slot src s i = if src.fds i == 0 then s else record {
  table = set_fd s.table i (src.fds i) (src.flags i);
  files = file_get s.files (src.fds i);
}

-- `fd_table_create`, on memory that `kzalloc` cleared
unfoldable pub no_fds : FdTable
no_fds = record { fds = λ _. 0; flags = λ _. 0 }

-- The new table and the files, `none` for NULL when `kzalloc` has no memory for a table.
pub fd_table_clone : (has_memory : Bool) → FdTable → Files → Option FdState
fd_table_clone has_memory src files =
    if has_memory
    then some (each_fd (clone_slot src) fd_max 0 (record { table = no_fds; files = files }))
    else none
