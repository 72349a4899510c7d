-- ===== src/Vmm/Tables/Entry.antt =====
-- Page table entries: what `phys | flags` holds when the two use different bits.
use my_unix.Base.{ℕ, zero, suc, ◌+◌, ◌*◌, ◌/◌, ◌%◌, ◌<◌, ◌≡◌, refl, true, false, arith}
use my_unix.Base.Bits.{or_bits, or_bits-zero, or_bits-even, or_bits-even_right}
use my_unix.Vmm.Tables.{is_present, is_huge, pte_page, table_entry}

-- `x << k`, and `n + k`, in a form that computes at a numeral `k`
abbrev shl : ℕ → ℕ → ℕ
shl zero x = x
shl (suc k) x = shl k x * 2

abbrev wider : ℕ → ℕ → ℕ
wider zero n = n
wider (suc k) n = suc (wider k n)

or_low :
    (k n a h l : ℕ)
    → l < shl k 1
    → or_bits (wider k n) (shl k a) (shl k h + l) ≡ shl k (or_bits n a h) + l
or_low zero n a h l lt = let e : h + l ≡ h = omega arith in rw e (omega arith)
or_low (suc k) n a h l lt =
    let e : (shl k h * 2 + l) / 2 ≡ shl k h + l / 2 = omega arith in
    rw (or_bits-even (wider k n) (shl k a) (shl k h * 2 + l), e)
      (omega (arith, or_low k n a h (l / 2)))

or_high :
    (k n a c l : ℕ)
    → l < shl k 1
    → or_bits (wider k n) (shl k a + l) (shl k c) ≡ shl k (or_bits n a c) + l
or_high zero n a c l lt = let e : a + l ≡ a = omega arith in rw e (omega arith)
or_high (suc k) n a c l lt =
    let e : (shl k a * 2 + l) / 2 ≡ shl k a + l / 2 = omega arith in
    rw (or_bits-even_right (wider k n) (shl k a * 2 + l) (shl k c), e)
      (omega (arith, or_high k n a c (l / 2)))

-- Flags use none of the bits of an address: bits 0 to 11, and 52 to 63.
pub record IsFlags (flags : ℕ) : Type 0 where
  pub word : flags < 18446744073709551616
  pub no_address : flags / 4096 % 1099511627776 ≡ 0

or_fields :
    (p c l : ℕ)
    → p < 1099511627776
    → c < 4096
    → l < 4096
    → or_bits 64 (shl 12 p) (shl 12 (shl 40 c) + l) ≡ shl 12 p + (shl 12 (shl 40 c) + l)
or_fields p c l hp hc hl =
    let e : shl 40 0 + p ≡ p = omega arith in
    let high = rw e at (or_high 40 12 0 c p (omega arith)) in
    rw (or_low 12 52 p (shl 40 c) l (omega arith), high, or_bits-zero 12 c (omega arith))
      (omega arith)

-- `phys | flags` of the address of a page is their sum.
pub or_entry :
    (p flags : ℕ)
    → p < 1099511627776
    → IsFlags flags
    → or_bits 64 (p * 4096) flags ≡ p * 4096 + flags
or_entry p flags h f =
    let c : ℕ = flags / 4503599627370496 in
    let l : ℕ = flags % 4096 in
    let e : shl 12 p ≡ p * 4096 = omega arith in
    let split : shl 12 (shl 40 c) + l ≡ flags = omega (arith, f.no_address) in
    rw split at (rw e at (or_fields p c l h (omega (arith, f.word)) (omega arith)))

-- What an entry so made holds.
module _ (p flags : ℕ) (h : p < 1099511627776) (f : IsFlags flags) where
  pub entry-page : pte_page (or_bits 64 (p * 4096) flags) ≡ p
  entry-page = omega (arith, or_entry p flags h f, f.no_address)

  pub entry-present : is_present (or_bits 64 (p * 4096) flags) ≡ is_present flags
  entry-present =
      let e : (p * 4096 + flags) % 2 ≡ flags % 2 = omega arith in rw (or_entry p flags h f, e) refl

pub table_entry_lem :
    (p flags : ℕ)
    → p < 1099511627776
    → (is_present (table_entry (p * 4096) flags) ≡ true)
      × (is_huge (table_entry (p * 4096) flags) ≡ false)
      × (pte_page (table_entry (p * 4096) flags) ≡ p)
unfolding table_entry
table_entry_lem p flags h =
    let u : ℕ = 3 + flags / 4 % 2 * 4 in
    let small : u < 8 = omega arith in
    let f : IsFlags u = record { word = omega arith; no_address = omega arith } in
    let e = or_entry p u h f in (rw e (ground arith), rw e (ground arith), rw e (omega arith))
