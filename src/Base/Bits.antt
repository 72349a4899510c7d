-- ===== src/Base/Bits.antt =====
-- Bits of unsigned words, by recursion on the bit's position: the macros BIT, SET_BIT, CLR_BIT and
-- TST_BIT of include/types.h, the masks `a | b` and `a & ~b`, and `__builtin_ctzll`.
use native.Mathlib.Nat.{pow-suc}
use my_unix.Base.{
  ℕ, zero, suc, ◌+◌, ◌-◌, ◌*◌, ◌/◌, ◌%◌, ◌^◌, ◌≤◌, ◌<◌, ◌≡◌, refl, ◌≢◌, Bool, true, false, not,
  ◌&&◌, ◌||◌, if◌then◌else◌, ◌==◌, arith,
}

-- `(w & BIT(i)) != 0`
unfoldable pub test_bit : ℕ → ℕ → Bool
test_bit w zero = w % 2 == 1
test_bit w (suc i) = test_bit (w / 2) i

-- `w | BIT(i)`
unfoldable pub set_bit : ℕ → ℕ → ℕ
set_bit w zero = w / 2 * 2 + 1
set_bit w (suc i) = set_bit (w / 2) i * 2 + w % 2

-- `w & ~BIT(i)`
pub clear_bit : ℕ → ℕ → ℕ
clear_bit w zero = w / 2 * 2
clear_bit w (suc i) = clear_bit (w / 2) i * 2 + w % 2

pub bool_bit : Bool → ℕ
bool_bit b = if b then 1 else 0

-- `a | b` and `a & ~b` on words of `n` bits
pub or_bits : ℕ → ℕ → ℕ → ℕ
unfolding bool_bit
or_bits zero a b = 0
or_bits (suc n) a b = or_bits n (a / 2) (b / 2) * 2 + bool_bit (a % 2 == 1 || b % 2 == 1)

pub and_not_bits : ℕ → ℕ → ℕ → ℕ
unfolding bool_bit
and_not_bits zero a b = 0
and_not_bits (suc n) a b =
    and_not_bits n (a / 2) (b / 2) * 2 + bool_bit (a % 2 == 1 && not (b % 2 == 1))

-- `~w` on words of `n` bits
abbrev pub not_bits : ℕ → ℕ → ℕ
not_bits n w = 2 ^ n - 1 - w

-- the number of trailing zeros of a word of `n` bits, `n` if it is zero
pub ctz : ℕ → ℕ → ℕ
ctz zero w = 0
ctz (suc n) w = if w % 2 == 1 then 0 else suc (ctz n (w / 2))

pub test-set_bit : (w i j : ℕ) → test_bit (set_bit w i) j ≡ (if i == j then true else test_bit w j)
unfolding test_bit set_bit
test-set_bit w zero zero = ground arith
test-set_bit w zero (suc j) = ground arith
test-set_bit w (suc i) zero = ground arith
test-set_bit w (suc i) (suc j) = ground (arith, test-set_bit (w / 2) i j)

pub test-clear_bit :
    (w i j : ℕ) → test_bit (clear_bit w i) j ≡ (if i == j then false else test_bit w j)
unfolding test_bit clear_bit
test-clear_bit w zero zero = ground arith
test-clear_bit w zero (suc j) = ground arith
test-clear_bit w (suc i) zero = ground arith
test-clear_bit w (suc i) (suc j) = ground (arith, test-clear_bit (w / 2) i j)

pub set_bit-lt : (n w i : ℕ) → w < 2 ^ n → i < n → set_bit w i < 2 ^ n
unfolding set_bit
set_bit-lt zero w i h k = absurd (omega arith)
set_bit-lt (suc n) w zero h k = omega (arith, pow-suc 2 n)
set_bit-lt (suc n) w (suc i) h k =
    omega (arith, pow-suc 2 n, set_bit-lt n (w / 2) i (omega (arith, pow-suc 2 n)) (omega arith))

pub clear_bit-le : (w i : ℕ) → clear_bit w i ≤ w
unfolding clear_bit
clear_bit-le w zero = omega arith
clear_bit-le w (suc i) = omega (arith, clear_bit-le (w / 2) i)

pub test-zero : (i : ℕ) → test_bit 0 i ≡ false
unfolding test_bit
test-zero zero = refl
test-zero (suc i) = test-zero i

pub test-not_bits : (n w i : ℕ) → w < 2 ^ n → i < n → test_bit (not_bits n w) i ≡ not (test_bit w i)
unfolding test_bit
test-not_bits zero w i h k = absurd (omega arith)
test-not_bits (suc n) w zero h k = ground (arith, pow-suc 2 n)
test-not_bits (suc n) w (suc i) h k = rw half (test-not_bits n (w / 2) i small (omega arith))
  where
    half : not_bits (suc n) w / 2 ≡ not_bits n (w / 2)
    half = omega (arith, pow-suc 2 n)

    small : w / 2 < 2 ^ n
    small = omega (arith, pow-suc 2 n)

-- `~w` has a bit only if `w` is not all ones.
pub not_bits-pos : (n w : ℕ) → w < 2 ^ n → w ≢ 2 ^ n - 1 → 0 < not_bits n w
not_bits-pos n w h k = omega arith

pub test-or_bits :
    (n a b i : ℕ) → i < n → test_bit (or_bits n a b) i ≡ (test_bit a i || test_bit b i)
unfolding test_bit or_bits bool_bit
test-or_bits zero a b i k = absurd (omega arith)
test-or_bits (suc n) a b zero k = ground arith
test-or_bits (suc n) a b (suc i) k = ground (arith, test-or_bits n (a / 2) (b / 2) i)

pub test-and_not_bits :
    (n a b i : ℕ) → i < n → test_bit (and_not_bits n a b) i ≡ (test_bit a i && not (test_bit b i))
unfolding test_bit and_not_bits bool_bit
test-and_not_bits zero a b i k = absurd (omega arith)
test-and_not_bits (suc n) a b zero k = ground arith
test-and_not_bits (suc n) a b (suc i) k = ground (arith, test-and_not_bits n (a / 2) (b / 2) i)

pub or_bits-lt : (n a b : ℕ) → or_bits n a b < 2 ^ n
unfolding or_bits bool_bit
or_bits-lt zero a b = omega arith
or_bits-lt (suc n) a b = ground (arith, pow-suc 2 n, or_bits-lt n (a / 2) (b / 2))

pub and_not_bits-lt : (n a b : ℕ) → and_not_bits n a b < 2 ^ n
unfolding and_not_bits bool_bit
and_not_bits-lt zero a b = omega arith
and_not_bits-lt (suc n) a b = ground (arith, pow-suc 2 n, and_not_bits-lt n (a / 2) (b / 2))

-- `ctz` of a word that is not zero is the position of its lowest bit.
pub ctz-lt : (n w : ℕ) → w < 2 ^ n → 0 < w → ctz n w < n
unfolding ctz
ctz-lt zero w h k = absurd (omega arith)
ctz-lt (suc n) w h k = ground (arith, pow-suc 2 n, ctz-lt n (w / 2))

pub test-ctz : (n w : ℕ) → w < 2 ^ n → 0 < w → test_bit w (ctz n w) ≡ true
unfolding ctz test_bit
test-ctz zero w h k = absurd (omega arith)
test-ctz (suc n) w h k = ground (arith, pow-suc 2 n, test-ctz n (w / 2))

pub test_below_ctz : (n w j : ℕ) → j < ctz n w → test_bit w j ≡ false
unfolding ctz test_bit
test_below_ctz zero w j h = absurd (omega arith)
test_below_ctz (suc n) w zero h = ground arith
test_below_ctz (suc n) w (suc j) h = ground (arith, test_below_ctz n (w / 2) j)

-- OR with zero, and with an even number.
pub or_bits-zero : (n b : ℕ) → b < 2 ^ n → or_bits n 0 b ≡ b
unfolding or_bits bool_bit
or_bits-zero zero b h = ground arith
or_bits-zero (suc n) b h = ground (arith, pow-suc 2 n, or_bits-zero n (b / 2))

pub or_bits-even : (n a b : ℕ) → or_bits (suc n) (a * 2) b ≡ or_bits n a (b / 2) * 2 + b % 2
unfolding or_bits bool_bit
or_bits-even n a b = let e : a * 2 / 2 ≡ a = omega arith in rw e (ground arith)

pub or_bits-even_right : (n a b : ℕ) → or_bits (suc n) a (b * 2) ≡ or_bits n (a / 2) b * 2 + a % 2
unfolding or_bits bool_bit
or_bits-even_right n a b = let e : b * 2 / 2 ≡ b = omega arith in rw e (ground arith)
