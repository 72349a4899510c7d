-- ===== src/Strings/Memory.antt =====
-- memset, memcpy, memmove and memcmp.
use my_unix.Base.{
  ℕ, zero, suc, ◌+◌, ◌-◌, ◌%◌, ◌≤◌, ◌<◌, ◌≡◌, refl, ◌∙◌, ◌≢◌, ◌⊎◌, inl, inr, ◌↔◌, Bool, ◌&&◌,
  if◌then◌else◌, ◌==◌, ltb, leb, arith, Bool-cases,
}
use my_unix.Base.Int.{pos}
use my_unix.Base.Maps.{update}
use my_unix.Strings.{Mem, memset, memcpy, move_back, memmove, memcmp, byte_diff}

abbrev pub in_block : ℕ → ℕ → ℕ → Bool
in_block dst n a = leb dst a && ltb a (dst + n)

pub memcpy_lem :
    (m : Mem) (dst src n a : ℕ)
    → (dst ≤ src) ⊎ (src + n ≤ dst)
    → memcpy m dst src n a ≡ (if in_block dst n a then m (src + (a - dst)) else m a)
unfolding memcpy
memcpy_lem m dst src zero a h = ground arith
memcpy_lem m dst src (suc n) a h =
    let r = memcpy_lem (update m dst (m src)) (dst + 1) (src + 1) n a (shift h) in
    elim (Bool-cases (a == dst)) [
      | inl first ↦ let e : a ≡ dst = ground arith in rw e (rw e at r ∙ at_first)
      | inr other ↦ r ∙ at_other (ground arith)
    ]
  where
    shift : (dst ≤ src) ⊎ (src + suc n ≤ dst) → (dst + 1 ≤ src + 1) ⊎ (src + 1 + n ≤ dst + 1)
    shift (inl k) = inl (omega arith)
    shift (inr k) = inr (omega arith)

    at_first :
        (if in_block (dst + 1) n dst
          then update m dst (m src) (src + 1 + (dst - (dst + 1)))
          else update m dst (m src) dst)
        ≡ (if in_block dst (suc n) dst then m (src + (dst - dst)) else m dst)
    at_first = let e : src + (dst - dst) ≡ src = omega arith in rw e (ground arith)

    at_other :
        a ≢ dst
        → (if in_block (dst + 1) n a
            then update m dst (m src) (src + 1 + (a - (dst + 1)))
            else update m dst (m src) a)
          ≡ (if in_block dst (suc n) a then m (src + (a - dst)) else m a)
    at_other ne = elim (Bool-cases (in_block (dst + 1) n a)) [
      | inl inside ↦
          let e : src + 1 + (a - (dst + 1)) ≡ src + (a - dst) = ground arith in
          rw (inside, e) (ground (arith, h))
      | inr outside ↦ rw outside (ground arith)
    ]

move_back_lem :
    (m : Mem) (dst src n a : ℕ)
    → src ≤ dst
    → move_back m dst src n a ≡ (if in_block dst n a then m (src + (a - dst)) else m a)
unfolding move_back
move_back_lem m dst src zero a h = ground arith
move_back_lem m dst src (suc n) a h =
    move_back_lem (update m (dst + n) (m (src + n))) dst src n a h
    ∙ elim (Bool-cases (a == dst + n)) [
      | inl last ↦ let e : a ≡ dst + n = ground arith in rw e at_last
      | inr other ↦ at_other (ground arith)
    ]
  where
    at_last :
        (if in_block dst n (dst + n)
          then update m (dst + n) (m (src + n)) (src + (dst + n - dst))
          else update m (dst + n) (m (src + n)) (dst + n))
        ≡ (if in_block dst (suc n) (dst + n) then m (src + (dst + n - dst)) else m (dst + n))
    at_last = let e : src + (dst + n - dst) ≡ src + n = omega arith in rw e (ground arith)

    at_other :
        a ≢ dst + n
        → (if in_block dst n a
            then update m (dst + n) (m (src + n)) (src + (a - dst))
            else update m (dst + n) (m (src + n)) a)
          ≡ (if in_block dst (suc n) a then m (src + (a - dst)) else m a)
    at_other ne = ground (arith, h)

-- memmove copies `n` bytes as they were before, whether or not the two blocks overlap, and changes no byte
-- outside the destination.
pub memmove_lem :
    (m : Mem) (dst src n a : ℕ)
    → memmove m dst src n a ≡ (if in_block dst n a then m (src + (a - dst)) else m a)
unfolding memmove
memmove_lem m dst src n a = elim (Bool-cases (ltb dst src)) [
  | inl before ↦ rw before (memcpy_lem m dst src n a (inl (ground arith)))
  | inr after ↦ rw after (move_back_lem m dst src n a (ground arith))
]

memset_lem :
    (m : Mem) (dst c n a : ℕ) → memset m dst c n a ≡ (if in_block dst n a then c % 256 else m a)
unfolding memset
memset_lem m dst c zero a = ground arith
memset_lem m dst c (suc n) a = ground (arith, memset_lem (update m dst (c % 256)) (dst + 1) c n a)

byte_diff-zero : (x y : ℕ) → byte_diff x y ≡ pos 0 → x ≡ y
unfolding byte_diff
byte_diff-zero x y e = ground arith

all_suc :
    (m : Mem) (a b n : ℕ)
    → m a ≡ m b
    → ((i : ℕ) → i < n → m (a + 1 + i) ≡ m (b + 1 + i))
    → (i : ℕ) → i < suc n
    → m (a + i) ≡ m (b + i)
all_suc m a b n e f zero h =
    let x : a + 0 ≡ a = omega arith in let y : b + 0 ≡ b = omega arith in rw (x, y) e
all_suc m a b n e f (suc i) h =
    let x : a + suc i ≡ a + 1 + i = omega arith in
    let y : b + suc i ≡ b + 1 + i = omega arith in rw (x, y) (f i (omega arith))

all_pred :
    (m : Mem) (a b n : ℕ)
    → ((i : ℕ) → i < suc n → m (a + i) ≡ m (b + i))
    → (i : ℕ) → i < n
    → m (a + 1 + i) ≡ m (b + 1 + i)
all_pred m a b n f i h =
    let x : a + 1 + i ≡ a + suc i = omega arith in
    let y : b + 1 + i ≡ b + suc i = omega arith in rw (x, y) (f (suc i) (omega arith))

-- memcmp is 0 exactly on equal blocks.
pub memcmp_lem :
    (m : Mem) (a b n : ℕ) → (memcmp m a b n ≡ pos 0) ↔ ((i : ℕ) → i < n → m (a + i) ≡ m (b + i))
unfolding memcmp
memcmp_lem m a b zero = (λ _ i h. absurd (omega arith), λ _. refl)
memcmp_lem m a b (suc n) = elim (Bool-cases (m a == m b)) [
  | inl same ↦
      let (f, g) = memcmp_lem m (a + 1) (b + 1) n in
      rw same (λ e. all_suc m a b n (ground arith) (f e), λ k. g (all_pred m a b n k))
  | inr differ ↦ rw differ (
    λ e. absurd (ground (arith, byte_diff-zero (m a) (m b) e)),
    λ k. absurd (ground (arith, k 0)),
  )
]
