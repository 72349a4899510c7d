-- ===== src/Pipe/Ring.antt =====
-- The ring of a pipe against the queue of bytes that it stands for.
use mathlib.Core.List.{append-nil, append_assoc}
use my_unix.Base.{
  ℕ, zero, suc, ◌+◌, ◌-◌, ◌%◌, ◌≤◌, ◌<◌, ◌≡◌, refl, sym, ap, ◌∙◌, ◌≢◌, ◌⊎◌, inl, inr, if◌then◌else◌,
  ltb, List, [], ◌∷◌, ◌++◌, length, take, some, min, arith, Bool-cases,
}
use my_unix.Base.Maps.{update}
use my_unix.Base.Word.{add64}
use my_unix.Pipe.{
  Pipe, pipe_buf_size, copy_out, copy_in, got_bytes, end_of_file, wait_for_data, read_avail,
  read_step, all_written, wrote, wait_for_room, write_step, new_pipe,
}

-- The `n` bytes of the ring from position `at` on.
unfoldable pub window : (ℕ → ℕ) → ℕ → ℕ → List ℕ
window buf at zero = []
window buf at (suc n) = buf (at % pipe_buf_size) ∷ window buf (add64 at 1) n

-- The bytes that wait in a pipe, the oldest first.
abbrev pub contents : Pipe → List ℕ
contents p = window p.buf p.read_pos p.avail

-- The write position lies `avail` bytes after the read position, and no more bytes wait than there is room for.
pub record Inv (p : Pipe) : Type 0 where
  pub fits : p.avail ≤ pipe_buf_size
  pub ahead : p.write_pos % pipe_buf_size ≡ (p.read_pos + p.avail) % pipe_buf_size

length-window : (buf : ℕ → ℕ) (at n : ℕ) → length (window buf at n) ≡ n
unfolding window
length-window buf at zero = refl
length-window buf at (suc n) = omega (arith, length-window buf (add64 at 1) n)

window-mod :
    (buf : ℕ → ℕ) (a b n : ℕ)
    → a % pipe_buf_size ≡ b % pipe_buf_size
    → window buf a n ≡ window buf b n
unfolding window
window-mod buf a b zero e = refl
window-mod buf a b (suc n) e =
    let next : add64 a 1 % pipe_buf_size ≡ add64 b 1 % pipe_buf_size = omega arith in
    rw (e, window-mod buf (add64 a 1) (add64 b 1) n next) refl

length-take : (n : ℕ) (xs : List ℕ) → n ≤ length xs → length (take n xs) ≡ n
length-take zero xs h = refl
length-take (suc n) [] h = absurd (omega arith)
length-take (suc n) (x ∷ xs) h = omega (arith, length-take n xs (omega arith))

-- What copy_out returns and leaves.
copy_out_lem :
    (n : ℕ) (p : Pipe)
    → ((copy_out n p).0 ≡ window p.buf p.read_pos n)
      × ((copy_out n p).1.buf ≡ p.buf)
      × ((copy_out n p).1.read_pos % pipe_buf_size ≡ (p.read_pos + n) % pipe_buf_size)
      × ((copy_out n p).1.write_pos ≡ p.write_pos)
unfolding copy_out window
copy_out_lem zero p = (refl, refl, ap (λ (x : ℕ). x % pipe_buf_size) (omega arith), refl)
copy_out_lem (suc n) p =
    let (a, b, c, d) = copy_out_lem n (record p { read_pos = add64 p.read_pos 1 }) in
    (ap (λ (xs : List ℕ). p.buf (p.read_pos % pipe_buf_size) ∷ xs) a, b, omega (arith, c), d)

window-append :
    (buf : ℕ → ℕ) (at m n : ℕ) → window buf at (m + n) ≡ window buf at m ++ window buf (at + m) n
unfolding window
window-append buf at zero n =
    let e : 0 + n ≡ n = omega arith in
    rw e (window-mod buf at (at + 0) n (ap (λ (x : ℕ). x % pipe_buf_size) (omega arith)))
window-append buf at (suc m) n =
    let e : suc m + n ≡ suc (m + n) = omega arith in
    rw e (
      ap (λ (xs : List ℕ). buf (at % pipe_buf_size) ∷ xs)
        (window-append buf (add64 at 1) m n
          ∙ ap (λ (xs : List ℕ). window buf (add64 at 1) m ++ xs)
              (window-mod buf (add64 at 1 + m) (at + suc m) n (omega arith))))

-- A byte written outside a window does not show in it.
window-update :
    (buf : ℕ → ℕ) (k v at n : ℕ)
    → ((i : ℕ) → i < n → (at + i) % pipe_buf_size ≢ k)
    → window (update buf k v) at n ≡ window buf at n
unfolding window
window-update buf k v at zero out = refl
window-update buf k v at (suc n) out =
    rw (window-update buf k v (add64 at 1) n λ i h e. out (suc i) (omega arith) (omega (arith, e)))
      (ap (λ (b : ℕ). b ∷ window buf (add64 at 1) n) (outside (out 0 (omega arith))))
  where
    outside :
        (at + 0) % pipe_buf_size ≢ k
        → update buf k v (at % pipe_buf_size) ≡ buf (at % pipe_buf_size)
    outside ne = ground arith

-- One byte more at the end of a window that is not the whole ring.
window-snoc :
    (buf : ℕ → ℕ) (at n w b : ℕ)
    → n < pipe_buf_size
    → w % pipe_buf_size ≡ (at + n) % pipe_buf_size
    → window (update buf (w % pipe_buf_size) b) at (n + 1) ≡ window buf at n ++ (b ∷ [])
unfolding window
window-snoc buf at n w b room e =
    window-append (update buf (w % pipe_buf_size) b) at n 1
    ∙ (rw (window-update buf (w % pipe_buf_size) b at n λ i h same. omega (arith, same, e, h, room))
        (ap (λ (c : ℕ). window buf at n ++ (c ∷ [])) hit))
  where
    hit : update buf (w % pipe_buf_size) b ((at + n) % pipe_buf_size) ≡ b
    hit = ground (arith, e)

-- What copy_in leaves of a ring in which `n` bytes wait.
copy_in_lem :
    (src : List ℕ) (p : Pipe) (n : ℕ)
    → n + length src ≤ pipe_buf_size
    → p.write_pos % pipe_buf_size ≡ (p.read_pos + n) % pipe_buf_size
    → (window (copy_in src p).buf p.read_pos (n + length src) ≡ window p.buf p.read_pos n ++ src)
      × ((copy_in src p).read_pos ≡ p.read_pos)
      × ((copy_in src p).write_pos % pipe_buf_size
          ≡ (p.read_pos + (n + length src)) % pipe_buf_size)
unfolding copy_in
copy_in_lem [] p n h e =
    let z : n + 0 ≡ n = omega arith in rw z (sym (append-nil (window p.buf p.read_pos n)), refl, e)
copy_in_lem (b ∷ src) p n h e =
    let k : n + suc (length src) ≡ n + 1 + length src = omega arith in
    let one = window-snoc p.buf p.read_pos n p.write_pos b (omega (arith, h)) e in
    let (x, y, z) =
      copy_in_lem src
        (record p {
          buf = update p.buf (p.write_pos % pipe_buf_size) b;
          write_pos = add64 p.write_pos 1;
        })
        (n + 1) (omega (arith, h)) (omega (arith, e)) in
    rw k (
      x
          ∙ (ap (λ (xs : List ℕ). xs ++ src) one
              ∙ append_assoc (window p.buf p.read_pos n) (b ∷ []) src),
      y,
      z,
    )

-- What one pass of a read does: from a pipe in which bytes wait it returns the oldest ones, as many as fit, and
-- leaves the others in order; from an empty pipe it returns 0 if no writer is left and waits otherwise.
pub read_step_lem :
    (p : Pipe) (len : ℕ)
    → Inv p
    → ((0 < p.avail)
        × (bytes : List ℕ) × (p' : Pipe) × (read_step (some p) len ≡ got_bytes bytes p')
        × (length bytes ≡ min len p.avail)
        × (contents p ≡ bytes ++ contents p')
        × Inv p')
      ⊎ ((p.avail ≡ 0)
          × (contents p ≡ [])
          × (read_step (some p) len ≡ (if p.write_closed then end_of_file else wait_for_data)))
unfolding read_step read_avail window
read_step_lem p len v = elim (Bool-cases (ltb 0 p.avail)) [
  | inr empty ↦ let e : p.avail ≡ 0 = ground arith in inr (e, rw e refl, rw empty refl)
  | inl some_there ↦
      let n = min len p.avail in
      let (a, b, c, d) = copy_out_lem n p in
      let le : n ≤ p.avail = omega arith in
      let split : p.avail ≡ n + (p.avail - n) = omega (arith, le) in
      inl (
        ground arith,
        (copy_out n p).0,
        record (copy_out n p).1 { avail = p.avail - n },
        rw some_there refl,
        ap length a ∙ length-window p.buf p.read_pos n,
        ap (λ (k : ℕ). window p.buf p.read_pos k) split
            ∙ (window-append p.buf p.read_pos n (p.avail - n)
                ∙ rw (a, b)
                    (ap (λ (xs : List ℕ). window p.buf p.read_pos n ++ xs)
                      (window-mod p.buf (p.read_pos + n) (copy_out n p).1.read_pos (p.avail - n)
                        (sym c)))),
        record {
          fits = omega (arith, v.fits);
          ahead = omega (arith, v.ahead, ap (λ (x : ℕ). x % pipe_buf_size) d, c, le);
        },
      )
]

-- What one pass of a write does: nothing if nothing is left to write; otherwise it appends the next bytes, as many as
-- there is room for, and waits exactly if there is none.
pub write_step_lem :
    (p : Pipe) (rest : List ℕ)
    → Inv p
    → ((rest ≡ []) × (write_step p rest ≡ all_written))
      ⊎ (((rest ≢ []) × (p.avail ≡ pipe_buf_size) × (write_step p rest ≡ wait_for_room))
          ⊎ ((0 < length rest)
              × (n : ℕ) × (p' : Pipe) × (write_step p rest ≡ wrote n p')
              × (n ≡ min (length rest) (pipe_buf_size - p.avail))
              × (0 < n)
              × (contents p' ≡ contents p ++ take n rest)
              × Inv p'))
unfolding write_step
write_step_lem p [] v = inl (refl, refl)
write_step_lem p (b ∷ rest) v = elim (Bool-cases (ltb 0 (pipe_buf_size - p.avail))) [
  | inr full ↦ inr (inl (λ e. absurd (ground arith), ground (arith, v.fits), rw full refl))
  | inl room ↦
      let n = min (length (b ∷ rest)) (pipe_buf_size - p.avail) in
      let l = length-take n (b ∷ rest) (omega arith) in
      let (x, y, z) =
        copy_in_lem (take n (b ∷ rest)) p p.avail (omega (arith, l, v.fits)) v.ahead in
      inr (
        inr (
          omega arith,
          n,
          record (copy_in (take n (b ∷ rest)) p) { avail = p.avail + n },
          rw room refl,
          refl,
          ground arith,
          rw y (rw l at x),
          record { fits = omega (arith, v.fits); ahead = rw y (rw l at z) },
        ))
]

pub new_pipe_lem : Inv new_pipe × (contents new_pipe ≡ [])
unfolding new_pipe window
new_pipe_lem = (record { fits = omega arith; ahead = refl }, refl)
