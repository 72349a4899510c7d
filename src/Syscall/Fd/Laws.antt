-- ===== src/Syscall/Fd/Laws.antt =====
-- The references that the calls on descriptors take and give back.
use my_unix.Base.{ℕ, ◌≡◌, ◌≢◌, inl, inr, ◌==◌, List, [], ◌∷◌, Option, none, some, arith, Bool-cases}
use my_unix.Base.Int.{ℤ, pos, negsuc, eq_ℤ}
use my_unix.Process.Fd.{FdState, fd_get}
use my_unix.Process.Fd.Laws.{Balanced}
use my_unix.Process.Fd.At.{
  and_holder, Room, file_put-Balanced, fd_get-Balanced, fd_alloc-Balanced, fd_alloc_at-Balanced,
  fd_close-Balanced,
}
use my_unix.Syscall.{as_int, is_neg64}
use my_unix.Syscall.Fd.{
  Sys, Transfer, by_file, by_vnode, no_operation, on_file, dup_file, dup_file_at, seek_file,
  seek_to, transfer_file, sys_close, sys_dup, sys_dup2, sys_lseek, sys_read, sys_write, new_offset,
  advance,
}
use my_unix.Vmm.Access.{access_ok}

pub no_holder :
    (s : FdState) (other : ℕ → ℕ) → Room other → Balanced s (and_holder other 0) → Balanced s other
no_holder s other room v = record {
  held = λ g nz. ground (arith, v.held g nz);
  small = λ g. omega (arith, room g);
}

-- A call that keeps the counts while it holds the file keeps them.
pub on_file-Balanced :
    (s : Sys) (fd : ℕ) (call : Sys → ℕ → ℕ × Sys) (other : ℕ → ℕ)
    → Room other
    → Balanced s.fd other
    → ((s1 : Sys) (f : ℕ)
        → f ≢ 0
        → Balanced s1.fd (and_holder other f)
        → Balanced (call s1 f).1.fd (and_holder other f))
    → Balanced (on_file s fd call).1.fd other
unfolding on_file
on_file-Balanced s fd call other room v keeps =
    let (f, d) = fd_get s.fd (as_int fd) in
    let got = fd_get-Balanced other room s.fd (as_int fd) v in
    elim (Bool-cases ((fd_get s.fd (as_int fd)).0 == 0)) [
      | inl null ↦
          let e : (fd_get s.fd (as_int fd)).0 ≡ 0 = ground arith in
          rw null (no_holder _ other room (rw e at got))
      | inr file ↦ rw file (
          file_put-Balanced other room _ (fd_get s.fd (as_int fd)).0 (
            keeps (record s { fd = (fd_get s.fd (as_int fd)).1 }) (fd_get s.fd (as_int fd)).0
              (ground arith) got))
    ]

module _ (s : Sys) (f : ℕ) (other : ℕ → ℕ) (v : Balanced s.fd other) where
  seek_to-Balanced : (o : Option ℕ) → Balanced (seek_to s f o).1.fd other
  unfolding seek_to
  seek_to-Balanced none = v
  seek_to-Balanced (some offset) = elim (Bool-cases (is_neg64 offset)) [
    | inl negative ↦ rw negative v
    | inr fine ↦ rw fine v
  ]

  advance-Balanced : (n : ℤ) → Balanced (advance s f n).fd other
  advance-Balanced (negsuc n) = v
  advance-Balanced (pos n) = elim (Bool-cases (n == 0)) [
    | inl nothing ↦ rw nothing v
    | inr some_bytes ↦ rw some_bytes v
  ]

  transfer-Balanced : (t : Transfer) → Balanced (transfer_file t s f).1.fd other
  unfolding transfer_file
  transfer-Balanced (by_file n) = v
  transfer-Balanced (by_vnode at_offset) = advance-Balanced (at_offset (s.open_files f).offset)
  transfer-Balanced no_operation = v

-- The calls on descriptors that make no new file.
pub data Call : Type 0 where
  close : (fd : ℕ) → Call
  dup : (fd : ℕ) → Call
  dup2 : (oldfd newfd : ℕ) → Call
  lseek : (fd offset whence : ℕ) → Call
  read : (ℕ → Transfer) → (fd buf len : ℕ) → Call
  write : (ℕ → Transfer) → (fd buf len : ℕ) → Call

pub perform : Sys → Call → ℕ × Sys
perform s (close fd) = sys_close s fd
perform s (dup fd) = sys_dup s fd
perform s (dup2 oldfd newfd) = sys_dup2 s oldfd newfd
perform s (lseek fd offset whence) = sys_lseek s fd offset whence
perform s (read op fd buf len) = sys_read op s fd buf len
perform s (write op fd buf len) = sys_write op s fd buf len

pub after_calls : Sys → List Call → Sys
unfolding perform
after_calls s [] = s
after_calls s (c ∷ cs) = after_calls (perform s c).1 cs

perform-Balanced :
    (s : Sys) (c : Call) (other : ℕ → ℕ)
    → Room other
    → Balanced s.fd other
    → Balanced (perform s c).1.fd other
unfolding perform sys_close sys_dup sys_dup2 sys_lseek sys_read sys_write
perform-Balanced s (close fd) other room v = fd_close-Balanced s.fd other v (as_int fd)
perform-Balanced s (dup fd) other room v =
    on_file-Balanced s fd dup_file other room v
      (λ s1 f nz v1. fd_alloc-Balanced s1.fd (and_holder other f) v1 f nz)
perform-Balanced s (dup2 oldfd newfd) other room v =
    elim (Bool-cases (eq_ℤ (as_int oldfd) (as_int newfd))) [
      | inl same ↦ rw same v
      | inr other_fd ↦ rw other_fd (
          on_file-Balanced s oldfd (dup_file_at newfd) other room v
            (λ s1 f nz v1. fd_alloc_at-Balanced s1.fd (and_holder other f) v1 (as_int newfd) f))
    ]
perform-Balanced s (lseek fd offset whence) other room v =
    on_file-Balanced s fd (seek_file offset whence) other room v (λ s1 f nz v1.
      seek_to-Balanced s1 f (and_holder other f) v1
        (new_offset (s1.open_files f) offset (as_int whence)))
perform-Balanced s (read op fd buf len) other room v = elim (Bool-cases (access_ok buf len)) [
  | inr bad ↦ rw bad v
  | inl good ↦ rw good (
      on_file-Balanced s fd (λ s' f. transfer_file (op f) s' f) other room v
        (λ s1 f nz v1. transfer-Balanced s1 f (and_holder other f) v1 (op f)))
]
perform-Balanced s (write op fd buf len) other room v = elim (Bool-cases (access_ok buf len)) [
  | inr bad ↦ rw bad v
  | inl good ↦ rw good (
      on_file-Balanced s fd (λ s' f. transfer_file (op f) s' f) other room v
        (λ s1 f nz v1. transfer-Balanced s1 f (and_holder other f) v1 (op f)))
]

-- Through every sequence of close, dup, dup2, lseek, read and write, failing ones included, the count of each file stays
-- the number of slots that hold it and of its other holders: no reference leaks and none is put twice, whatever the
-- operations of the files return. Counts must not be near the end of their range.
pub after_calls-Balanced :
    (s : Sys) (calls : List Call) (other : ℕ → ℕ)
    → Room other
    → Balanced s.fd other
    → Balanced (after_calls s calls).fd other
unfolding after_calls
after_calls-Balanced s [] other room v = v
after_calls-Balanced s (c ∷ calls) other room v =
    after_calls-Balanced (perform s c).1 calls other room (perform-Balanced s c other room v)
