-- ===== src/Syscall/Fd.antt =====
-- The system calls on descriptors: close, dup, dup2, fcntl, lseek, read, write, open and pipe. What the operations of a
-- file give is an argument, as are the results of vfs_open and pipe_create.
pub mod Laws
pub mod Fcntl
pub mod Fresh
use my_unix.Base.{
  ℕ, zero, suc, ◌+◌, ◌-◌, ◌%◌, ◌^◌, ◌<◌, Bool, true, false, not, ◌&&◌, ◌||◌, if◌then◌else◌, ◌==◌,
  ltb, leb, Option, none, some,
}
use my_unix.Base.Bits.{test_bit, set_bit, clear_bit}
use my_unix.Base.Errno.{ebadf, efault, einval, emfile, enomem}
use my_unix.Base.Int.{ℤ, pos, negsuc, neg, is_neg, eq_ℤ}
use my_unix.Base.Maps.{update}
use my_unix.Base.Word.{add64}
use my_unix.Process.Fd.{
  Files, FdTable, FdState, fd_max, file_get, file_put, fd_alloc, fd_alloc_at, fd_get, fd_close,
}
use my_unix.Syscall.{as_word, as_int, is_neg64}
use my_unix.Vmm.Access.{access_ok}

-- What the calls use of a file_t besides its references: `offset` and `flags`, and the size of its vnode, `none` if it
-- has no vnode.
pub record File : Type 0 where
  pub offset : ℕ
  pub flags : ℕ
  pub vnode_size : Option ℕ

-- the descriptor table of the process, and the files
pub record Sys : Type 0 where
  pub fd : FdState
  pub open_files : ℕ → File

-- `file_put(f)`
abbrev pub put_file : Sys → ℕ → Sys
put_file s f = record s { fd = record (s.fd) { files = file_put s.fd.files f } }

-- `get_file((int)fd)`
abbrev pub get_file : Sys → ℕ → ℕ × Sys
get_file s fd = let (f, d) = fd_get s.fd (as_int fd) in (f, record s { fd = d })

abbrev pub error : ℕ → Sys → ℕ × Sys
error e s = (as_word (neg e), s)

-- The call on the file of the descriptor `fd`, which is -EBADF if there is none; the file is put back.
pub on_file : Sys → (fd : ℕ) → (Sys → ℕ → ℕ × Sys) → ℕ × Sys
on_file s fd call =
    let (f, s1) = get_file s fd in
    let (r, s2) = call s1 f in if f == 0 then error ebadf s1 else (r, put_file s2 f)

pub sys_close : Sys → (fd : ℕ) → ℕ × Sys
sys_close s fd = let (r, d) = fd_close s.fd (as_int fd) in (as_word r, record s { fd = d })

-- `fd_alloc(FDT, f)`
abbrev pub alloc : Sys → ℕ → ℤ × Sys
alloc s f = let (r, d) = fd_alloc s.fd f in (r, record s { fd = d })

abbrev pub dup_file : Sys → ℕ → ℕ × Sys
dup_file s f = let (r, s') = alloc s f in (as_word r, s')

pub sys_dup : Sys → (fd : ℕ) → ℕ × Sys
unfolding on_file
sys_dup s fd = on_file s fd dup_file

-- What fd_alloc_at returns is passed over.
abbrev pub dup_file_at : (newfd : ℕ) → Sys → ℕ → ℕ × Sys
dup_file_at newfd s f = (newfd, record s { fd = (fd_alloc_at s.fd (as_int newfd) f).1 })

pub sys_dup2 : Sys → (oldfd newfd : ℕ) → ℕ × Sys
unfolding on_file
sys_dup2 s oldfd newfd =
    if eq_ℤ (as_int oldfd) (as_int newfd) then (newfd, s) else on_file s oldfd (dup_file_at newfd)

-- what `lseek` takes for the new offset, `none` for another `whence`
pub new_offset : File → (offset : ℕ) → (whence : ℤ) → Option ℕ
new_offset f offset (negsuc n) = none
new_offset f offset (pos zero) = some offset
new_offset f offset (pos (suc zero)) = some (add64 f.offset offset)
new_offset f offset (pos (suc (suc zero))) = elim f.vnode_size [
  | none ↦ some (add64 0 offset)
  | some size ↦ some (add64 size offset)
]
new_offset f offset (pos (suc (suc (suc n)))) = none

abbrev pub set_offset : Sys → ℕ → ℕ → Sys
set_offset s f offset = record s {
  open_files = update s.open_files f (record (s.open_files f) { offset = offset });
}

pub seek_to : Sys → ℕ → Option ℕ → ℕ × Sys
seek_to s f none = error einval s
seek_to s f (some offset) =
    if is_neg64 offset then error einval s else (offset, set_offset s f offset)

abbrev pub seek_file : (offset : ℕ) → (whence : ℕ) → Sys → ℕ → ℕ × Sys
seek_file offset whence s f = seek_to s f (new_offset (s.open_files f) offset (as_int whence))

pub sys_lseek : Sys → (fd offset whence : ℕ) → ℕ × Sys
unfolding on_file new_offset seek_to
sys_lseek s fd offset whence = on_file s fd (seek_file offset whence)

-- Which operation of a file reads or writes it, with its result: that of the file itself, or that of its vnode, which is
-- given the offset.
pub data Transfer : Type 0 where
  by_file : ℤ → Transfer
  by_vnode : (ℕ → ℤ) → Transfer
  no_operation : Transfer

abbrev pub advance : Sys → ℕ → ℤ → Sys
advance s f (negsuc n) = s
advance s f (pos n) = if n == 0 then s else set_offset s f (add64 (s.open_files f).offset n)

pub transfer_file : Transfer → Sys → ℕ → ℕ × Sys
transfer_file (by_file n) s f = (as_word n, s)
transfer_file (by_vnode at_offset) s f =
    let n = at_offset (s.open_files f).offset in (as_word n, advance s f n)
transfer_file no_operation s f = error einval s

-- read
pub sys_read : (read : ℕ → Transfer) → Sys → (fd buf len : ℕ) → ℕ × Sys
unfolding on_file transfer_file
sys_read read s fd buf len =
    if not (access_ok buf len)
    then error efault s
    else on_file s fd (λ s' f. transfer_file (read f) s' f)

-- write
pub sys_write : (write : ℕ → Transfer) → Sys → (fd buf len : ℕ) → ℕ × Sys
unfolding on_file transfer_file
sys_write write s fd buf len =
    if not (access_ok buf len)
    then error efault s
    else on_file s fd (λ s' f. transfer_file (write f) s' f)

-- What vfs_open comes to: an error number, or a new file with one reference.
pub data Opened : Type 0 where
  not_opened : ℕ → Opened
  opened : ℕ → Opened

-- a new file, with a reference count of 1
abbrev pub add_file : Sys → ℕ → Sys
add_file s f = record s {
  fd = record (s.fd) { files = record (s.fd.files) { refs = update s.fd.files.refs f 1 } };
}

-- The part of open behind vfs_open.
pub install : Opened → Sys → ℕ × Sys
install (not_opened e) s = error e s
install (opened f) s = let (fd, s') = alloc (add_file s f) f in (as_word fd, put_file s' f)

-- open; `copied` is what strncpy_from_user returns.
pub sys_open : (copied : ℤ) → Opened → Sys → ℕ × Sys
unfolding install
sys_open copied file s = if is_neg copied then (as_word copied, s) else install file s

abbrev pub close_new : ℤ → Sys → Sys
close_new fd s = if is_neg fd then s else record s { fd = (fd_close s.fd fd).1 }

-- Both ends have descriptors, or whatever one of them has is closed again.
pub check_ends : (pipefd_ptr : ℕ) → (fd0 fd1 : ℤ) → Sys → ℕ × Option (ℤ × ℤ) × Sys
check_ends pipefd_ptr fd0 fd1 s =
    if is_neg fd0 || is_neg fd1
    then (as_word (neg emfile), none, close_new fd1 (close_new fd0 s))
    else if access_ok pipefd_ptr 8
    then (0, some (fd0, fd1), s)
    else (as_word (neg efault), none, s)

-- pipe, with what is copied to the user; the argument is what pipe_create gives, the read end and the write end.
pub sys_pipe : Option (ℕ × ℕ) → Sys → (pipefd_ptr : ℕ) → ℕ × Option (ℤ × ℤ) × Sys
unfolding check_ends
sys_pipe none s pipefd_ptr = (as_word (neg enomem), none, s)
sys_pipe (some (read_f, write_f)) s pipefd_ptr =
    let (fd0, s1) = alloc (add_file (add_file s read_f) write_f) read_f in
    let (fd1, s2) = alloc s1 write_f in
    check_ends pipefd_ptr fd0 fd1 (put_file (put_file s2 read_f) write_f)

abbrev pub set_flags : Sys → ℕ → ℕ → Sys
set_flags s fd flags = record s {
  fd = record (s.fd) { table = record (s.fd.table) { flags = update s.fd.table.flags fd flags } };
}

-- `FDT->flags[fd]`, with all 64 bits of `fd`; `none` is an access outside the table.
abbrev pub at_slot : ℕ → ℕ × Sys → Option (ℕ × Sys)
at_slot fd r = if leb fd_max fd then none else some r

abbrev pub f_dupfd_cloexec : ℕ
f_dupfd_cloexec = 1030

-- `if (new_fd >= 0) FDT->flags[new_fd] |= FD_FLAG_CLOEXEC;`, with `new_fd` as the result
abbrev pub set_cloexec : ℤ → Sys → Option (ℕ × Sys)
set_cloexec (negsuc n) s = some (as_word (negsuc n), s)
set_cloexec (pos fd) s =
    at_slot fd (as_word (pos fd), set_flags s fd (set_bit (s.fd.table.flags fd) 0))

-- F_DUPFD and F_DUPFD_CLOEXEC
pub dup_with : (cmd : ℕ) → Sys → ℕ → Option (ℕ × Sys)
dup_with cmd s f =
    let (new_fd, s') = alloc s f in
    if cmd == f_dupfd_cloexec then set_cloexec new_fd s' else some (as_word new_fd, s')

pub fcntl_file : (fd cmd arg : ℕ) → Sys → ℕ → Option (ℕ × Sys)
unfolding dup_with
fcntl_file fd cmd arg s f =
    let c = as_int cmd in
    let flags = s.fd.table.flags fd in
    if eq_ℤ c (pos 1)
    then at_slot fd (if test_bit flags 0 then 1 else 0, s)
    else if eq_ℤ c (pos 2)
    then at_slot fd
        (0, set_flags s fd (if test_bit arg 0 then set_bit flags 0 else clear_bit flags 0))
    else if eq_ℤ c (pos 3)
    then some (as_word (as_int (s.open_files f).flags), s)
    else if eq_ℤ c (pos 4)
    then some (
      0,
      record s {
        open_files = update s.open_files f (record (s.open_files f) { flags = arg % 2 ^ 32 });
      },
    )
    else if eq_ℤ c (pos 0) || eq_ℤ c (pos f_dupfd_cloexec)
    then dup_with cmd s f
    else some (error einval s)

pub sys_fcntl : Sys → (fd cmd arg : ℕ) → Option (ℕ × Sys)
unfolding fcntl_file
sys_fcntl s fd cmd arg =
    let (f, s1) = get_file s fd in
    if f == 0
    then some (error ebadf s1)
    else elim (fcntl_file fd cmd arg s1 f) [ none ↦ none | some (r, s2) ↦ some (r, put_file s2 f) ]
