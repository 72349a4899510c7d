-- ===== src/Syscall/Fd/Fresh.antt =====
-- The calls that make new files, open and pipe, and the references of those.
use my_unix.Base.{ℕ, ◌+◌, ◌*◌, ◌<◌, ◌≡◌, ◌≢◌, inl, inr, ◌||◌, some, arith, Bool-cases}
use my_unix.Base.Int.{ℤ, pos, negsuc, is_neg}
use my_unix.Process.Fd.{FdState, fd_max, atomic_mod}
use my_unix.Process.Fd.Laws.{Balanced}
use my_unix.Process.Fd.At.{
  and_holder, Room, file_put-Balanced, fd_alloc-Balanced, fd_close-Balanced,
}
use my_unix.Syscall.Fd.{Sys, add_file, alloc, put_file, close_new, check_ends, sys_pipe}
use my_unix.Vmm.Access.{access_ok}

Balanced-cong : (s : FdState) (o o' : ℕ → ℕ) → ((g : ℕ) → o g ≡ o' g) → Balanced s o → Balanced s o'
Balanced-cong s o o' e v = record {
  held = λ g nz. ground (arith, v.held g nz, e g);
  small = λ g. ground (arith, v.small g, e g);
}

add_file-Balanced :
    (s : Sys) (f : ℕ) (other : ℕ → ℕ)
    → Room other
    → f ≢ 0
    → s.fd.files.refs f ≡ 0
    → Balanced s.fd other
    → Balanced (add_file s f).fd (and_holder other f)
add_file-Balanced s f other room nz fresh v = record {
  held = λ g gnz. ground (arith, v.held g gnz, v.held f nz, fresh);
  small = λ g. ground (arith, room g);
}

close_new-Balanced :
    (fd : ℤ) (s : Sys) (other : ℕ → ℕ) → Balanced s.fd other → Balanced (close_new fd s).fd other
close_new-Balanced (negsuc n) s other v = v
close_new-Balanced (pos n) s other v = fd_close-Balanced s.fd other v (pos n)

check_ends-Balanced :
    (ptr : ℕ) (fd0 fd1 : ℤ) (s : Sys) (other : ℕ → ℕ)
    → Balanced s.fd other
    → Balanced (check_ends ptr fd0 fd1 s).2.fd other
unfolding check_ends
check_ends-Balanced ptr fd0 fd1 s other v = elim (Bool-cases (is_neg fd0 || is_neg fd1)) [
  | inl full ↦
      rw full (close_new-Balanced fd1 (close_new fd0 s) other (close_new-Balanced fd0 s other v))
  | inr both ↦ elim (Bool-cases (access_ok ptr 8)) [
    | inl copied ↦ rw (both, copied) v
    | inr bad ↦ rw (both, bad) v
  ]
]

-- pipe, with two new files that nothing refers to yet: whether it gives two descriptors, finds no slot for one of the ends,
-- or cannot copy the numbers out, the count of each file is then the number of slots that hold it and of its other
-- holders, so that an end without a slot is closed. Counts must not be near the end of their range.
pub sys_pipe-Balanced :
    (s : Sys) (read_f write_f ptr : ℕ) (other : ℕ → ℕ)
    → read_f ≢ 0
    → write_f ≢ 0
    → read_f ≢ write_f
    → s.fd.files.refs read_f ≡ 0
    → s.fd.files.refs write_f ≡ 0
    → ((f : ℕ) → other f + 2 * fd_max + 3 < atomic_mod)
    → Balanced s.fd other
    → Balanced (sys_pipe (some (read_f, write_f)) s ptr).2.fd other
unfolding sys_pipe
sys_pipe-Balanced s r w ptr other rnz wnz differ rfresh wfresh room v =
    let one : ℕ → ℕ = and_holder other r in
    let two : ℕ → ℕ = and_holder one w in
    let room0 : Room other = λ f. omega (arith, room f) in
    let room1 : Room one = λ f. ground (arith, room f) in
    let roomw : Room (and_holder other w) = λ f. ground (arith, room f) in
    let a = add_file-Balanced s r other room0 rnz rfresh v in
    let b = add_file-Balanced (add_file s r) w one room1 wnz (ground (arith, wfresh, differ)) a in
    let s1 : Sys = add_file (add_file s r) w in
    let c = fd_alloc-Balanced s1.fd two b r rnz in
    let s2 : Sys = (alloc s1 r).1 in
    let d = fd_alloc-Balanced s2.fd two c w wnz in
    let s3 : Sys = (alloc s2 w).1 in
    let e =
      file_put-Balanced (and_holder other w) roomw s3.fd r
        (Balanced-cong s3.fd two (and_holder (and_holder other w) r) (λ g. ground arith) d) in
    check_ends-Balanced ptr (alloc s1 r).0 (alloc s2 w).0 (put_file (put_file s3 r) w) other
      (file_put-Balanced other room0 (put_file s3 r).fd w e)
