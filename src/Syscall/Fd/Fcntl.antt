-- ===== src/Syscall/Fd/Fcntl.antt =====
-- fcntl: which commands stay within the descriptor table.
use my_unix.Base.{
  ℕ, ◌≤◌, ◌<◌, ◌≡◌, refl, ap, ◌≢◌, ◌⊎◌, inl, inr, true, false, ◌||◌, ◌==◌, leb, Option, none, some,
  arith, Bool-cases,
}
use my_unix.Base.Bits.{set_bit}
use my_unix.Base.Errno.{ebadf}
use my_unix.Base.Int.{ℤ, pos, negsuc, eq_ℤ}
use my_unix.Process.Fd.{fd_max, fd_get, fd_alloc}
use my_unix.Process.Fd.Laws.{Balanced, fd_alloc_lem}
use my_unix.Process.Fd.At.{and_holder, Room, file_put-Balanced, fd_get-Balanced, fd_alloc-Balanced}
use my_unix.Syscall.{as_int, as_word}
use my_unix.Syscall.Fd.{
  Sys, set_flags, set_cloexec, dup_with, fcntl_file, sys_fcntl, f_dupfd_cloexec, error, put_file,
}
use my_unix.Syscall.Fd.Laws.{no_holder}

eq_ℤ-pos : (z : ℤ) (n : ℕ) → eq_ℤ z (pos n) ≡ true → z ≡ pos n
eq_ℤ-pos (pos m) n h = let e : m ≡ n = ground arith in ap pos e
eq_ℤ-pos (negsuc m) n h = absurd (ground arith)

module _ (other : ℕ → ℕ) where
  set_flags-Balanced :
      (s : Sys) (fd flags : ℕ) → Balanced s.fd other → Balanced (set_flags s fd flags).fd other
  set_flags-Balanced s fd flags v = record { held = v.held; small = v.small }

  -- There is a result, and it keeps the counts.
  abbrev Fine : Option (ℕ × Sys) → Type 0
  Fine o = (r : ℕ × Sys) × (o ≡ some r) × Balanced r.1.fd other

  set_cloexec-Fine :
      (z : ℤ) (fd : ℕ) (s : Sys)
      → z ≡ pos fd
      → fd < fd_max
      → Balanced s.fd other
      → Fine (set_cloexec z s)
  set_cloexec-Fine z fd s e small v =
      let inside : leb fd_max fd ≡ false = ground arith in
      let flags = set_bit (s.fd.table.flags fd) 0 in
      rw e
        ((as_word (pos fd), set_flags s fd flags), rw inside refl, set_flags-Balanced s fd flags v)

  -- The descriptor that fd_alloc gives lies in the table.
  dup_with-Fine :
      (cmd : ℕ) (s : Sys) (f : ℕ) → f ≢ 0 → Balanced s.fd other → Fine (dup_with cmd s f)
  unfolding dup_with
  dup_with-Fine cmd s f nz v =
      let made = fd_alloc-Balanced s.fd other v f nz in
      elim (Bool-cases (cmd == f_dupfd_cloexec)) [
        | inr plain ↦ rw plain (_, refl, made)
        | inl cloexec ↦ rw cloexec (elim (fd_alloc_lem s.fd f other v nz) [
          | inl (full, _) ↦ rw full (_, refl, v)
          | inr (i, e, small, _, _, _, _, _) ↦
              set_cloexec-Fine (fd_alloc s.fd f).0 i (record s { fd = (fd_alloc s.fd f).1 }) e small
                made
        ])
      ]

  -- The command reads or writes the flags of a slot outside the table.
  abbrev Escapes : (fd cmd : ℕ) → Option (ℕ × Sys) → Type 0
  Escapes fd cmd o = (fd_max ≤ fd) × ((as_int cmd ≡ pos 1) ⊎ (as_int cmd ≡ pos 2)) × (o ≡ none)

  fcntl_file_lem :
      (fd cmd arg : ℕ) (s : Sys) (f : ℕ)
      → f ≢ 0
      → Balanced s.fd other
      → Fine (fcntl_file fd cmd arg s f) ⊎ Escapes fd cmd (fcntl_file fd cmd arg s f)
  unfolding fcntl_file
  fcntl_file_lem fd cmd arg s f nz v = elim (Bool-cases (eq_ℤ (as_int cmd) (pos 1))) [
    | inl getfd ↦ elim (Bool-cases (leb fd_max fd)) [
      | inl out ↦ inr (ground arith, inl (eq_ℤ-pos (as_int cmd) 1 getfd), rw (getfd, out) refl)
      | inr inside ↦ inl (rw (getfd, inside) (_, refl, v))
    ]
    | inr a ↦ elim (Bool-cases (eq_ℤ (as_int cmd) (pos 2))) [
      | inl setfd ↦ elim (Bool-cases (leb fd_max fd)) [
        | inl out ↦ inr (ground arith, inr (eq_ℤ-pos (as_int cmd) 2 setfd), rw (a, setfd, out) refl)
        | inr inside ↦ inl (rw (a, setfd, inside) (_, refl, set_flags-Balanced s fd _ v))
      ]
      | inr b ↦ inl (elim (Bool-cases (eq_ℤ (as_int cmd) (pos 3))) [
        | inl getfl ↦ rw (a, b, getfl) (_, refl, v)
        | inr c ↦ elim (Bool-cases (eq_ℤ (as_int cmd) (pos 4))) [
          | inl setfl ↦ rw (a, b, c, setfl) (_, refl, v)
          | inr d ↦
              elim (Bool-cases
                (eq_ℤ (as_int cmd) (pos 0) || eq_ℤ (as_int cmd) (pos f_dupfd_cloexec))) [
                  | inl dups ↦ rw (a, b, c, d, dups) (dup_with-Fine cmd s f nz v)
                  | inr bad ↦ rw (a, b, c, d, bad) (_, refl, v)
                ]
        ]
      ])
    ]
  ]

-- If no count can come near the end of its range, fcntl with any command on any descriptor stays within the descriptor
-- table and keeps the count of each file equal to the slots that hold it and its other holders, with one exception: F_GETFD
-- and F_SETFD with a number from FD_MAX on whose low 32 bits are an open descriptor reach outside the table.
pub sys_fcntl-Balanced :
    (s : Sys) (fd cmd arg : ℕ) (other : ℕ → ℕ)
    → Room other
    → Balanced s.fd other
    → ((r : ℕ × Sys) × (sys_fcntl s fd cmd arg ≡ some r) × Balanced r.1.fd other)
      ⊎ ((fd_max ≤ fd)
          × ((as_int cmd ≡ pos 1) ⊎ (as_int cmd ≡ pos 2))
          × ((fd_get s.fd (as_int fd)).0 ≢ 0)
          × (sys_fcntl s fd cmd arg ≡ none))
unfolding sys_fcntl
sys_fcntl-Balanced s fd cmd arg other room v =
    let f : ℕ = (fd_get s.fd (as_int fd)).0 in
    let s1 : Sys = record s { fd = (fd_get s.fd (as_int fd)).1 } in
    let got = fd_get-Balanced other room s.fd (as_int fd) v in
    elim (Bool-cases (f == 0)) [
      | inl null ↦
          let e : f ≡ 0 = ground arith in
          inl (error ebadf s1, rw null refl, no_holder s1.fd other room (rw e at got))
      | inr file ↦
          let nz : f ≢ 0 = ground arith in
          elim (fcntl_file_lem (and_holder other f) fd cmd arg s1 f nz got) [
            | inl ((r, s2), e, b) ↦
                inl
                  ((r, put_file s2 f), rw file (rw e refl), file_put-Balanced other room s2.fd f b)
            | inr (out, which, e) ↦ inr (out, which, nz, rw file (rw e refl))
          ]
    ]
