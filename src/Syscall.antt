-- ===== src/Syscall.antt =====
-- The system calls of proc/syscall_impl.c. Arguments and results are uint64_t, numbers below 2^64; an error number is
-- returned as 2^64 - e.
pub mod Fd
pub mod Signals
pub mod Memory
pub mod Info
pub mod Init
mod Tests
use my_unix.Base.{ℕ, ◌+◌, ◌-◌, ◌%◌, ◌^◌, ◌<◌, Bool, true, false, if◌then◌else◌, ltb}
use my_unix.Base.Int.{ℤ, pos, negsuc}
use my_unix.Base.Word.{word_mod}

-- `(uint64_t)x`
abbrev pub as_word : ℤ → ℕ
as_word (pos n) = n % word_mod
as_word (negsuc n) = word_mod - 1 - n

-- `(int)x`, the low 32 bits with a sign
abbrev pub as_int : ℕ → ℤ
as_int x =
    let low = x % 2 ^ 32 in if ltb low 0x8000_0000 then pos low else negsuc (2 ^ 32 - 1 - low)

-- `x < 0` of an int64_t
abbrev pub is_neg64 : ℕ → Bool
is_neg64 x = if ltb x 0x8000_0000_0000_0000 then false else true
