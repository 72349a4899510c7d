-- ===== src/Pmm/Bitmap.antt =====
-- The bitmap of mm/pmm.c: one bit for each page frame, in 64-bit words, 1 for a used page.
use my_unix.Base.{
  ℕ, zero, suc, ◌+◌, ◌/◌, ◌%◌, ◌≤◌, ◌<◌, ◌≡◌, refl, inl, inr, Bool, Bool-cases, true, false,
  if◌then◌else◌, ◌==◌, arith,
}
use my_unix.Base.Bits.{
  test_bit, set_bit, clear_bit, test-set_bit, test-clear_bit, set_bit-lt, clear_bit-le,
}
use my_unix.Base.Maps.{update}
use my_unix.Base.Word.{word_mod}

-- `uint64_t *g_bitmap`
abbrev pub Bitmap : Type 0
Bitmap = ℕ → ℕ

pub bitmap_set : Bitmap → ℕ → Bitmap
bitmap_set b page = update b (page / 64) (set_bit (b (page / 64)) (page % 64))

pub bitmap_clear : Bitmap → ℕ → Bitmap
bitmap_clear b page = update b (page / 64) (clear_bit (b (page / 64)) (page % 64))

unfoldable pub bitmap_test : Bitmap → ℕ → Bool
bitmap_test b page = test_bit (b (page / 64)) (page % 64)

-- Each word of the array is a 64-bit word.
abbrev pub IsWords : Bitmap → Type 0
IsWords b = (w : ℕ) → b w < word_mod

pub test-bitmap_set :
    (b : Bitmap) (p q : ℕ)
    → bitmap_test (bitmap_set b p) q ≡ (if p == q then true else bitmap_test b q)
unfolding bitmap_test bitmap_set
test-bitmap_set b p q = ground (arith, test-set_bit (b (p / 64)) (p % 64) (q % 64))

pub test-bitmap_clear :
    (b : Bitmap) (p q : ℕ)
    → bitmap_test (bitmap_clear b p) q ≡ (if p == q then false else bitmap_test b q)
unfolding bitmap_test bitmap_clear
test-bitmap_clear b p q = ground (arith, test-clear_bit (b (p / 64)) (p % 64) (q % 64))

pub bitmap_set-IsWords : (b : Bitmap) (p : ℕ) → IsWords b → IsWords (bitmap_set b p)
unfolding bitmap_set
bitmap_set-IsWords b p h w = ground (arith, h w, h (p / 64), set_bit-lt 64 (b (p / 64)) (p % 64))

pub bitmap_clear-IsWords : (b : Bitmap) (p : ℕ) → IsWords b → IsWords (bitmap_clear b p)
unfolding bitmap_clear
bitmap_clear-IsWords b p h w = ground (arith, h w, h (p / 64), clear_bit-le (b (p / 64)) (p % 64))

-- How many of the pages below `n` are free.
unfoldable pub count_free : Bitmap → ℕ → ℕ
count_free b zero = 0
count_free b (suc n) = count_free b n + (if bitmap_test b n then 0 else 1)

pub count_free-le : (b : Bitmap) (n : ℕ) → count_free b n ≤ n
unfolding count_free
count_free-le b zero = omega arith
count_free-le b (suc n) = ground (arith, count_free-le b n)

-- The count depends on the bits only.
pub count_free-ext :
    (b c : Bitmap) (n : ℕ)
    → ((q : ℕ) → q < n → bitmap_test b q ≡ bitmap_test c q)
    → count_free b n ≡ count_free c n
unfolding count_free
count_free-ext b c zero h = refl
count_free-ext b c (suc n) h =
    ground (arith, count_free-ext b c n (λ q l. h q (omega arith)), h n (omega arith))

count_free-set_above :
    (b : Bitmap) (p n : ℕ) → n ≤ p → count_free (bitmap_set b p) n ≡ count_free b n
count_free-set_above b p n h =
    count_free-ext (bitmap_set b p) b n (λ q l. ground (arith, test-bitmap_set b p q))

count_free-clear_above :
    (b : Bitmap) (p n : ℕ) → n ≤ p → count_free (bitmap_clear b p) n ≡ count_free b n
count_free-clear_above b p n h =
    count_free-ext (bitmap_clear b p) b n (λ q l. ground (arith, test-bitmap_clear b p q))

-- Taking a free page lowers the count by one; giving a used one back raises it.
pub count_free-set :
    (b : Bitmap) (p n : ℕ)
    → p < n
    → bitmap_test b p ≡ false
    → count_free (bitmap_set b p) n + 1 ≡ count_free b n
unfolding count_free
count_free-set b p zero h e = absurd (omega arith)
count_free-set b p (suc n) h e =
    ground (arith, count_free-set b p n, count_free-set_above b p n, test-bitmap_set b p n)

pub count_free-clear :
    (b : Bitmap) (p n : ℕ)
    → p < n
    → bitmap_test b p ≡ true
    → count_free (bitmap_clear b p) n ≡ count_free b n + 1
unfolding count_free
count_free-clear b p zero h e = absurd (omega arith)
count_free-clear b p (suc n) h e =
    ground (arith, count_free-clear b p n, count_free-clear_above b p n, test-bitmap_clear b p n)

-- With every page used the count is zero.
pub count_free-full :
    (b : Bitmap) (n : ℕ) → ((q : ℕ) → q < n → bitmap_test b q ≡ true) → count_free b n ≡ 0
unfolding count_free
count_free-full b zero h = refl
count_free-full b (suc n) h =
    ground (arith, count_free-full b n (λ q l. h q (omega arith)), h n (omega arith))

-- Pages `from ≤ q < from + n` are all free.
abbrev pub IsRun : Bitmap → ℕ → ℕ → Type 0
IsRun b from n = (q : ℕ) → from ≤ q → q < from + n → bitmap_test b q ≡ false

-- A run counts among the free pages.
pub count_free-run :
    (b : Bitmap) (from n m : ℕ) → IsRun b from n → from + n ≤ m → n ≤ count_free b m
unfolding count_free
count_free-run b from n zero run h = omega arith
count_free-run b from zero (suc m) run h = omega arith
count_free-run b from (suc n) (suc m) run h = elim (Bool-cases (from + suc n == suc m)) [
  | inl last ↦ ground (arith, run m, count_free-run b from n m (λ q k l. run q k (omega arith)))
  | inr more ↦ ground (arith, count_free-run b from (suc n) m run)
]
