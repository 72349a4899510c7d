-- ===== src/Strings/Compare.antt =====
-- strlen, strcmp and strchr on the strings that a list of bytes spells.
use my_unix.Base.{
  ℕ, ◌≡◌, refl, ap, ◌≢◌, inl, inr, ◌↔◌, Bool, true, not, ◌&&◌, ◌==◌, List, [], ◌∷◌, ◌++◌, length,
  some, arith, Bool-cases,
}
use my_unix.Base.Int.{ℤ, pos}
use my_unix.Strings.{strlen, strcmp, byte_diff}

-- A byte string without a terminator.
abbrev pub no_zero : List ℕ → Bool
no_zero [] = true
no_zero (x ∷ xs) = not (x == 0) && no_zero xs

-- How `text` stands in memory: its bytes, the terminator, and whatever follows.
abbrev pub stored : List ℕ → List ℕ → List ℕ
stored text after = text ++ (0 ∷ after)

pub strlen_lem :
    (text after : List ℕ) → no_zero text ≡ true → strlen (stored text after) ≡ some (length text)
unfolding strlen
strlen_lem [] after h = refl
strlen_lem (x ∷ text) after h = ground (arith, strlen_lem text after)

head_or : ℕ → List ℕ → ℕ
head_or d [] = d
head_or d (x ∷ xs) = x

tail_of : List ℕ → List ℕ
tail_of [] = []
tail_of (x ∷ xs) = xs

diff-zero : (x y : ℕ) → x ≢ y → byte_diff x y ≢ pos 0
unfolding byte_diff
diff-zero x y ne e = ground arith

-- strcmp of two terminated strings reads no byte past their terminators, and is 0 exactly if they are the same.
strcmp_lem :
    (a b after_a after_b : List ℕ)
    → no_zero a ≡ true
    → no_zero b ≡ true
    → (d : ℤ) × (strcmp (stored a after_a) (stored b after_b) ≡ some d) × ((d ≡ pos 0) ↔ (a ≡ b))
unfolding strcmp tail_of head_or
strcmp_lem [] [] s t h k = (pos 0, unfold byte_diff in refl, (λ _. refl, λ _. refl))
strcmp_lem [] (y ∷ b) s t h k = (
  byte_diff 0 y,
  refl,
  (λ e. absurd (diff-zero 0 y (ground arith) e), λ e. absurd (ground arith)),
)
strcmp_lem (x ∷ a) [] s t h k = (
  byte_diff x 0,
  ground arith,
  (λ e. absurd (diff-zero x 0 (ground arith) e), λ e. absurd (ground arith)),
)
strcmp_lem (x ∷ a) (y ∷ b) s t h k = elim (Bool-cases (x == y)) [
  | inl same ↦
      let (d, e, (f, g)) = strcmp_lem a b s t (ground arith) (ground arith) in
      let x_eq : x ≡ y = ground arith in
      (d, ground (arith, e), (λ z. rw (x_eq, f z) refl, λ z. g (ap tail_of z)))
  | inr differ ↦ (
    byte_diff x y,
    ground arith,
    (λ e. absurd (diff-zero x y (ground arith) e), λ e. absurd (ground (arith, ap (head_or 0) e))),
  )
]
