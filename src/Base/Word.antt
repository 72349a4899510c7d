-- ===== src/Base/Word.antt =====
-- 64-bit unsigned arithmetic, and the alignment macros of include/types.h at PAGE_SIZE.
use my_unix.Base.{ℕ, ◌+◌, ◌-◌, ◌*◌, ◌/◌, ◌%◌, ◌^◌, Bool, ◌==◌}

abbrev pub word_mod : ℕ
word_mod = 2 ^ 64

abbrev pub page_size : ℕ
page_size = 4096

-- Sums and differences of `uint64_t` wrap.
abbrev pub add64 : ℕ → ℕ → ℕ
add64 a b = (a + b) % word_mod

abbrev pub sub64 : ℕ → ℕ → ℕ
sub64 a b = (a + word_mod - b) % word_mod

-- `ALIGN_DOWN(x, PAGE_SIZE)`: clearing the low twelve bits.
abbrev pub page_down : ℕ → ℕ
page_down x = x / page_size * page_size

-- `ALIGN_UP(x, PAGE_SIZE)`, whose sum wraps.
abbrev pub page_up : ℕ → ℕ
page_up x = page_down (add64 x (page_size - 1))

-- `IS_ALIGNED(x, PAGE_SIZE)`
abbrev pub is_page_aligned : ℕ → Bool
is_page_aligned x = x % page_size == 0
