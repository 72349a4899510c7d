-- ===== src/Pipe/Flow.antt =====
-- A writer and a reader of one pipe, in any interleaving of their passes and of the closing of the two ends.
use mathlib.Core.List.{append-nil, append_assoc}
use my_unix.Base.{
  ℕ, zero, suc, ◌+◌, ◌≤◌, ◌≡◌, refl, sym, ap, ◌∙◌, inl, inr, Bool, true, false, if◌then◌else◌, List,
  [], ◌∷◌, ◌++◌, length, take, drop, some, arith,
}
use my_unix.Pipe.{
  Pipe, ReadStep, got_bytes, end_of_file, wait_for_data, read_step, WriteStep, wrote, write_step,
  new_pipe,
}
use my_unix.Pipe.Ring.{Inv, contents, read_step_lem, write_step_lem, new_pipe_lem}

-- `rest` is what a call of pipe_write_fn has still to write and `written` what it has counted; `received` is what
-- all reads have returned so far.
pub record Flow : Type 0 where
  pub pipe : Pipe
  pub rest : List ℕ
  pub written : ℕ
  pub received : List ℕ

pub data Step : Flow → Flow → Type 0 where
  writes :
      (s : Flow) (n : ℕ) (p : Pipe)
      → write_step s.pipe s.rest ≡ wrote n p
      → Step s (record s { pipe = p; rest = drop n s.rest; written = s.written + n })
  reads :
      (s : Flow) (len : ℕ) (bytes : List ℕ) (p : Pipe)
      → read_step (some s.pipe) len ≡ got_bytes bytes p
      → Step s (record s { pipe = p; received = s.received ++ bytes })
  closes_read : (s : Flow) → Step s (record s { pipe = record (s.pipe) { read_closed = true } })
  closes_write : (s : Flow) → Step s (record s { pipe = record (s.pipe) { write_closed = true } })

pub data Reach : Flow → Flow → Type 0 where
  here : (s : Flow) → Reach s s
  onward : {s t u : Flow} → Step s t → Reach t u → Reach s u

-- All the bytes, in order: received, in the ring, still to be written.
abbrev pub stream : Flow → List ℕ
stream s = s.received ++ (contents s.pipe ++ s.rest)

take-drop : (n : ℕ) (xs : List ℕ) → take n xs ++ drop n xs ≡ xs
take-drop zero xs = refl
take-drop (suc n) [] = refl
take-drop (suc n) (x ∷ xs) = ap (λ (ys : List ℕ). x ∷ ys) (take-drop n xs)

length-drop : (n : ℕ) (xs : List ℕ) → n ≤ length xs → length (drop n xs) + n ≡ length xs
length-drop zero xs h = omega arith
length-drop (suc n) [] h = absurd (omega arith)
length-drop (suc n) (x ∷ xs) h = omega (arith, length-drop n xs (omega arith))

-- What a pass carries, to compare two of them.
abbrev wrote_or : ℕ × Pipe → WriteStep → ℕ × Pipe
wrote_or d (wrote n p) = (n, p)
wrote_or d _ = d

abbrev bytes_or : List ℕ × Pipe → ReadStep → List ℕ × Pipe
bytes_or d (got_bytes bytes p) = (bytes, p)
bytes_or d _ = d

no_bytes :
    {bytes : List ℕ} {p : Pipe} (closed : Bool)
    → got_bytes bytes p ≡ (if closed then end_of_file else wait_for_data)
    → ⊥
no_bytes true e = absurd (ground (arith, e))
no_bytes false e = absurd (ground (arith, e))

-- What no pass changes.
abbrev pub Kept : Flow → Flow → Type 0
Kept s t =
    Inv t.pipe × (stream t ≡ stream s) × (t.written + length t.rest ≡ s.written + length s.rest)

Step-Kept : {s t : Flow} → Inv s.pipe → Step s t → Kept s t
Step-Kept v (writes s n p e) = elim (write_step_lem s.pipe s.rest v) [
  | inl (_, f) ↦ absurd (ground (arith, e, f))
  | inr (inl (_, _, f)) ↦ absurd (ground (arith, e, f))
  | inr (inr (_, m, q, f, n_eq, _, cont, w)) ↦
      let both = ap (wrote_or (m, q)) (sym e ∙ f) in
      let same_n : n ≡ m = ap (λ (x : ℕ × Pipe). x.0) both in
      let same_p : p ≡ q = ap (λ (x : ℕ × Pipe). x.1) both in
      let le : m ≤ length s.rest = omega (arith, n_eq) in
      rw (same_n, same_p)
        (
          w,
          ap (λ (xs : List ℕ). s.received ++ xs)
              (ap (λ (xs : List ℕ). xs ++ drop m s.rest) cont
                ∙ (append_assoc (contents s.pipe) (take m s.rest) (drop m s.rest)
                    ∙ ap (λ (xs : List ℕ). contents s.pipe ++ xs) (take-drop m s.rest))),
          omega (arith, length-drop m s.rest le),
        )
]
Step-Kept v (reads s len bytes p e) = elim (read_step_lem s.pipe len v) [
  | inl (_, bs, q, f, _, cont, w) ↦
      let both = ap (bytes_or (bs, q)) (sym e ∙ f) in
      let same_bytes : bytes ≡ bs = ap (λ (x : List ℕ × Pipe). x.0) both in
      let same_p : p ≡ q = ap (λ (x : List ℕ × Pipe). x.1) both in
      rw (same_bytes, same_p)
        (
          w,
          append_assoc s.received bs (contents q ++ s.rest)
              ∙ ap (λ (xs : List ℕ). s.received ++ xs)
                  (sym (append_assoc bs (contents q) s.rest)
                    ∙ ap (λ (xs : List ℕ). xs ++ s.rest) (sym cont)),
          refl,
        )
  | inr (_, _, f) ↦ absurd (no_bytes s.pipe.write_closed (sym e ∙ f))
]
Step-Kept v (closes_read s) = (record { fits = v.fits; ahead = v.ahead }, refl, refl)
Step-Kept v (closes_write s) = (record { fits = v.fits; ahead = v.ahead }, refl, refl)

-- However the passes of a writer and of readers interleave, and whenever the ends are closed: no byte is lost, repeated or
-- overtaken. What was received, then what waits in the ring, then what is left to write is one and the
-- same sequence, and the writer's count of bytes written is right.
pub Reach-Kept : {s t : Flow} → Inv s.pipe → Reach s t → Kept s t
Reach-Kept v (here s) = (v, refl, refl)
Reach-Kept v (onward a r) =
    let (w, e, c) = Step-Kept v a in let (x, f, d) = Reach-Kept w r in (x, f ∙ e, d ∙ c)

-- From a new pipe, a writer of `src` that has finished and a reader that has emptied the ring: the reader has
-- received `src`.
pub delivered :
    (src : List ℕ) (t : Flow)
    → Reach (record { pipe = new_pipe; rest = src; written = 0; received = [] }) t
    → t.rest ≡ []
    → contents t.pipe ≡ []
    → (t.received ≡ src) × (t.written ≡ length src)
delivered src t r done_writing empty =
    let (v, nothing) = new_pipe_lem in
    let (_, e, c) = Reach-Kept v r in
    (
      sym (append-nil t.received)
          ∙ (ap (λ (xs : List ℕ). t.received ++ xs)
                (sym (both_empty (contents t.pipe) t.rest empty done_writing))
              ∙ (e ∙ ap (λ (xs : List ℕ). xs ++ src) nothing)),
      omega (arith, c, ap length done_writing),
    )
  where
    both_empty : (xs ys : List ℕ) → xs ≡ [] → ys ≡ [] → xs ++ ys ≡ []
    both_empty xs ys a b = rw (a, b) refl
