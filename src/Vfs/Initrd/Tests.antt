-- ===== src/Vfs/Initrd/Tests.antt =====
-- A small archive, and a number of two digits.
use my_unix.Base.{
  ◌*◌, ◌≤◌, ◌||◌, length, ◌≡◌, refl, true, false, if◌then◌else◌, ◌==◌, List, some, arith,
}
use my_unix.Strings.{Mem}
use my_unix.Vfs.Initrd.{header_len, Entry, cpio_parse_hex, initrd_entries}
use my_unix.Vfs.Initrd.Laws.{cpio_parse_hex_lem, initrd_entries_lem}

-- `2f` at address 8
abbrev two_digits : Mem
two_digits a = if a == 8 then b'2' else if a == 9 then b'f' else 0

cpio_parse_hex_example : cpio_parse_hex two_digits 8 2 ≡ 47
cpio_parse_hex_example =
    cpio_parse_hex_lem two_digits false 8 2 47 (omega arith) (omega arith) (refl, (refl, tt))

-- One entry whose numbers are all 0, and no second header.
abbrev archive : Mem
archive a = if a == 1 || a == 3 then b'7' else if a == 5 then b'1' else b'0'

initrd_entries_example :
    (es : List Entry) × (initrd_entries archive 0 300 (λ o. true) ≡ some es)
    × (length es * header_len ≤ 300)
initrd_entries_example = initrd_entries_lem archive 0 300 (λ o. true)
