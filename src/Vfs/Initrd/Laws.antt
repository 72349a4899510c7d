-- ===== src/Vfs/Initrd/Laws.antt =====
-- Numbers are read as they are printed, and the loop over the archive ends.
use my_unix.Base.{
  ℕ, zero, suc, ◌+◌, ◌-◌, ◌*◌, ◌/◌, ◌%◌, ◌^◌, ◌≤◌, ◌<◌, ◌≡◌, refl, ◌∙◌, Bool, true, false,
  if◌then◌else◌, ltb, List, [], ◌∷◌, some, arith, Bool-cases, length, inl, inr,
}
use native.Mathlib.Nat.{pow-suc}
use my_unix.Strings.{Mem}
use my_unix.Vfs.Initrd.{
  parse_hex, cpio_parse_hex, add_digit, digit_value, entries_from, initrd_entries, next_offset,
  good_magic, stands_at, trailer, header_len, Entry, entry_at,
}

module _ (m : Mem) (base size : ℕ) (has_memory : ℕ → Bool) where
  next_offset-after : (o : ℕ) → o + header_len ≤ next_offset m base size has_memory o
  next_offset-after o = omega arith

  -- Each round goes on behind a header.
  entries_from-some :
      (fuel o ino : ℕ)
      → 0 < fuel
      → size < o + header_len * fuel
      → (es : List Entry) × (entries_from m base size has_memory fuel o ino ≡ some es)
        × (length es * header_len ≤ size - o)
  unfolding entries_from
  entries_from-some zero o ino some_fuel h = absurd (omega arith)
  entries_from-some (suc fuel) o ino some_fuel h = elim (Bool-cases (ltb size (o + header_len))) [
    | inl past ↦ ([], rw past refl, omega arith)
    | inr room ↦ elim (Bool-cases (good_magic m base size has_memory o)) [
      | inr bad ↦ ([], rw (room, bad) refl, omega arith)
      | inl good ↦ elim (Bool-cases (stands_at m (base + o + header_len) trailer)) [
        | inl end ↦ ([], rw (room, good, end) refl, omega arith)
        | inr more ↦
            let step = next_offset-after o in
            elim (Bool-cases (has_memory o)) [
              | inr none_left ↦
                  let (es, e, few) =
                    entries_from-some fuel (next_offset m base size has_memory o) ino
                      (ground (arith, h, room)) (omega (arith, h, step)) in
                  (es, rw (room, good, more, none_left) e, omega (arith, few, step))
              | inl got ↦
                  let (es, e, few) =
                    entries_from-some fuel (next_offset m base size has_memory o) (ino + 1)
                      (ground (arith, h, room)) (omega (arith, h, step)) in
                  (
                    entry_at m base size has_memory o ino ∷ es,
                    rw (room, good, more, got) (rw e refl),
                    ground (arith, few, step, room),
                  )
            ]
      ]
    ]
  ]

-- The loop of initrd_init over any bytes ends within one round for each header that there is room for, and one more: it
-- makes a list of entries, of which there are no more than headers fit into the archive.
pub initrd_entries_lem :
    (m : Mem) (base size : ℕ) (has_memory : ℕ → Bool)
    → (es : List Entry) × (initrd_entries m base size has_memory ≡ some es)
      × (length es * header_len ≤ size)
unfolding initrd_entries
initrd_entries_lem m base size has_memory =
    let (es, e, few) =
      entries_from-some m base size has_memory (size / header_len + 1) 0 1 (omega arith)
        (omega arith) in
    (es, e, omega (arith, few))

-- A digit as it is printed, in small or in capital letters.
abbrev pub hex_char : (capital : Bool) → ℕ → ℕ
hex_char capital d = if ltb d 10 then b'0' + d else (if capital then b'A' else b'a') + d - 10

-- The `n` characters from `a` on are the last digits of `v`.
abbrev pub Shows : Mem → (capital : Bool) → (a n v : ℕ) → Type 0
Shows m capital a zero v = Unit
Shows m capital a (suc n) v = (m (a + n) ≡ hex_char capital (v % 16)) × Shows m capital a n (v / 16)

digit-hex_char : (capital : Bool) (d : ℕ) → d < 16 → digit_value (hex_char capital d) ≡ d
digit-hex_char true d h = ground arith
digit-hex_char false d h = ground arith

parse_hex-last :
    (m : Mem) (val a n : ℕ)
    → parse_hex m val a (suc n) ≡ add_digit (parse_hex m val a n) (m (a + n))
unfolding parse_hex
parse_hex-last m val a zero = let e : a + 0 ≡ a = omega arith in rw e refl
parse_hex-last m val a (suc n) =
    let e : a + 1 + n ≡ a + suc n = omega arith in
    parse_hex-last m (add_digit val (m a)) (a + 1) n ∙ rw e refl

-- cpio_parse_hex of `n` characters that show a number below 2^32 with `n` digits, in small or in capital letters, gives
-- that number.
pub cpio_parse_hex_lem :
    (m : Mem) (capital : Bool) (a n v : ℕ)
    → v < 16 ^ n
    → v < 2 ^ 32
    → Shows m capital a n v
    → cpio_parse_hex m a n ≡ v
unfolding cpio_parse_hex
cpio_parse_hex_lem m capital a zero v h small shows = omega (arith, h)
cpio_parse_hex_lem m capital a (suc n) v h small (here, shows) =
    let ih =
      cpio_parse_hex_lem m capital a n (v / 16) (omega (arith, h, pow-suc 16 n)) (omega arith)
        shows in
    let digit = digit-hex_char capital (v % 16) (omega arith) in
    parse_hex-last m 0 a n ∙ rw (ih, here, digit) (omega arith)
