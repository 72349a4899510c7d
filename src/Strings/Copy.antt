-- ===== src/Strings/Copy.antt =====
-- strcpy, strncpy, strcat and strncat: what they write, and when they write past the end.
use my_unix.Base.{
  ℕ, zero, suc, ◌-◌, ◌≤◌, ◌<◌, ◌≡◌, refl, ◌⊎◌, inl, inr, true, false, ◌==◌, List, [], ◌∷◌, ◌++◌,
  length, take, drop, none, some, min, arith,
}
use my_unix.Strings.{strcpy, fill_zero, strncpy, strcat, strncat_end, strncat}
use my_unix.Strings.Compare.{no_zero, stored}

-- `n` zero bytes
abbrev zeros : ℕ → List ℕ
zeros zero = []
zeros (suc n) = 0 ∷ zeros n

-- strcpy copies the string and its terminator and leaves the rest of the destination, exactly if there is room for both;
-- otherwise it writes past the end.
strcpy_lem :
    (dst text after : List ℕ)
    → no_zero text ≡ true
    → ((length text < length dst)
        × (strcpy dst (stored text after) ≡ some (stored text (drop (suc (length text)) dst))))
      ⊎ ((length dst ≤ length text) × (strcpy dst (stored text after) ≡ none))
unfolding strcpy
strcpy_lem [] text after h = inr (omega arith, refl)
strcpy_lem (d ∷ dst) [] after h = inl (omega arith, refl)
strcpy_lem (d ∷ dst) (c ∷ text) after h =
    let nz : (c == 0) ≡ false = ground arith in
    elim (strcpy_lem dst text after (ground arith)) [
      | inl (l, e) ↦ inl (omega (arith, l), rw (nz, e) refl)
      | inr (l, e) ↦ inr (omega (arith, l), rw (nz, e) refl)
    ]

fill_zero_lem :
    (dst : List ℕ) (n : ℕ) → n ≤ length dst → fill_zero dst n ≡ some (zeros n ++ drop n dst)
unfolding fill_zero
fill_zero_lem dst zero h = refl
fill_zero_lem [] (suc n) h = absurd (omega arith)
fill_zero_lem (d ∷ dst) (suc n) h = rw (fill_zero_lem dst n (omega arith)) refl

-- strncpy writes exactly `n` bytes: the first `n` of the string, then zeros; a string of `n` bytes or more is left without
-- a terminator.
strncpy_lem :
    (dst text after : List ℕ) (n : ℕ)
    → no_zero text ≡ true
    → n ≤ length dst
    → strncpy dst (stored text after) n
      ≡ some (take n text ++ (zeros (n - length text) ++ drop n dst))
unfolding strncpy
strncpy_lem dst text after zero h k = let e : 0 - length text ≡ 0 = omega arith in rw e refl
strncpy_lem [] text after (suc n) h k = absurd (omega arith)
strncpy_lem (d ∷ dst) [] after (suc n) h k =
    let e : suc n - 0 ≡ suc n = omega arith in rw e (fill_zero_lem (d ∷ dst) (suc n) k)
strncpy_lem (d ∷ dst) (c ∷ text) after (suc n) h k =
    let nz : (c == 0) ≡ false = ground arith in
    let e : suc n - suc (length text) ≡ n - length text = omega arith in
    rw (nz, strncpy_lem dst text after n (ground arith) (omega arith), e) refl

-- strcat appends the string to the one that the destination holds, if there is room.
strcat_lem :
    (front room text after : List ℕ)
    → no_zero front ≡ true
    → no_zero text ≡ true
    → length text ≤ length room
    → strcat (stored front room) (stored text after)
      ≡ some (front ++ stored text (drop (length text) room))
unfolding strcat
strcat_lem [] room text after f h k = elim (strcpy_lem (0 ∷ room) text after h) [
  | inl (_, e) ↦ e
  | inr (l, _) ↦ absurd (omega (arith, l))
]
strcat_lem (d ∷ front) room text after f h k =
    let nz : (d == 0) ≡ false = ground arith in
    rw (nz, strcat_lem front room text after (ground arith) h k) refl

strncat_end_lem :
    (dst text after : List ℕ) (n : ℕ)
    → no_zero text ≡ true
    → min n (length text) < length dst
    → strncat_end dst (stored text after) n
      ≡ some (stored (take n text) (drop (suc (length (take n text))) dst))
unfolding strncat_end
strncat_end_lem [] text after n h k = absurd (omega arith)
strncat_end_lem (d ∷ dst) text after zero h k = refl
strncat_end_lem (d ∷ dst) [] after (suc n) h k = refl
strncat_end_lem (d ∷ dst) (c ∷ text) after (suc n) h k =
    let nz : (c == 0) ≡ false = ground arith in
    rw (nz, strncat_end_lem dst text after n (ground arith) (omega arith)) refl

-- strncat appends at most `n` bytes of the string and always a terminator, if there is room.
strncat_lem :
    (front room text after : List ℕ) (n : ℕ)
    → no_zero front ≡ true
    → no_zero text ≡ true
    → min n (length text) ≤ length room
    → strncat (stored front room) (stored text after) n
      ≡ some (front ++ stored (take n text) (drop (length (take n text)) room))
unfolding strncat
strncat_lem [] room text after n f h k = strncat_end_lem (0 ∷ room) text after n h (omega arith)
strncat_lem (d ∷ front) room text after n f h k =
    let nz : (d == 0) ≡ false = ground arith in
    rw (nz, strncat_lem front room text after n (ground arith) h k) refl
