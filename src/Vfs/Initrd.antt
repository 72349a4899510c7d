-- ===== src/Vfs/Initrd.antt =====
-- The initrd archive of fs/vfs.c: cpio_parse_hex and the loop of initrd_init over the entries. Memory is a function from
-- addresses to bytes; `o` is an offset from the start of the archive.
pub mod Laws
mod Tests
use my_unix.Base.{
  ℕ, zero, suc, ◌+◌, ◌-◌, ◌*◌, ◌/◌, ◌%◌, ◌^◌, ◌≤◌, ◌<◌, Bool, true, false, not, ◌&&◌, ◌||◌,
  if◌then◌else◌, ◌==◌, ltb, leb, List, [], ◌∷◌, Option, none, some,
}
use my_unix.Strings.{Mem}

-- the value of one digit, 0 for any other character
abbrev pub digit_value : ℕ → ℕ
digit_value c =
    if leb b'0' c && leb c b'9'
    then c - b'0'
    else if leb b'a' c && leb c b'f'
    then c - b'a' + 10
    else if leb b'A' c && leb c b'F'
    then c - b'A' + 10
    else 0

-- `(val << 4) | d` in 32 bits
abbrev pub add_digit : (val c : ℕ) → ℕ
add_digit val c = (val * 16 + digit_value c) % 2 ^ 32

-- the loop over the `n` characters from `a` on
pub parse_hex : Mem → (val a n : ℕ) → ℕ
parse_hex m val a zero = val
parse_hex m val a (suc n) = parse_hex m (add_digit val (m a)) (a + 1) n

pub cpio_parse_hex : Mem → (s n : ℕ) → ℕ
unfolding parse_hex
cpio_parse_hex m s n = parse_hex m 0 s n

-- whether these bytes stand at `a`: `memcmp(…) == 0`, or with the terminator `strcmp(…) == 0`
pub stands_at : Mem → (a : ℕ) → List ℕ → Bool
stands_at m a [] = true
stands_at m a (b ∷ bs) = let rest = stands_at m (a + 1) bs in m a == b && rest

abbrev pub cpio_magic : List ℕ
cpio_magic = b'0' ∷ b'7' ∷ b'0' ∷ b'7' ∷ b'0' ∷ b'1' ∷ []

abbrev pub cpio_magic_crc : List ℕ
cpio_magic_crc = b'0' ∷ b'7' ∷ b'0' ∷ b'7' ∷ b'0' ∷ b'2' ∷ []

-- with its terminator
abbrev pub trailer : List ℕ
trailer = b'T' ∷ b'R' ∷ b'A' ∷ b'I' ∷ b'L' ∷ b'E' ∷ b'R' ∷ b'!' ∷ b'!' ∷ b'!' ∷ 0 ∷ []

-- what strncpy copies of a string: the bytes before the terminator, at most `n`
pub copy_name : Mem → (a n : ℕ) → List ℕ
copy_name m a zero = []
copy_name m a (suc n) = let rest = copy_name m (a + 1) n in if m a == 0 then [] else m a ∷ rest

-- PATH_MAX - 1
abbrev pub path_len : ℕ
path_len = 4095

-- `./` in front is taken off, and `.` alone is the empty name.
abbrev pub clean_name : Mem → (name : ℕ) → List ℕ
unfolding copy_name
clean_name m name =
    let start = if m name == b'.' && m (name + 1) == b'/' then name + 2 else name in
    if m start == b'.' && m (start + 1) == 0 then [] else copy_name m start path_len

pub record Entry : Type 0 where
  pub name : List ℕ
  pub mode : ℕ
  pub uid : ℕ
  pub gid : ℕ
  pub size : ℕ
  pub mtime : ℕ
  pub nlink : ℕ
  pub ino : ℕ
  pub data_at : ℕ
  pub is_dir : Bool

-- sizeof(cpio_newc_header_t)
abbrev pub header_len : ℕ
header_len = 110

-- `ALIGN_UP(o, 4)`
abbrev pub align4 : ℕ → ℕ
align4 o = (o + 3) / 4 * 4

-- S_ISDIR
abbrev pub s_isdir : ℕ → Bool
s_isdir mode = mode / 4096 % 16 == 4

module _ (m : Mem) (base size : ℕ) (has_memory : ℕ → Bool) where
  -- the field of eight digits at `at` of the header at `o`
  abbrev pub field : (o at : ℕ) → ℕ
  unfolding cpio_parse_hex
  field o at = cpio_parse_hex m (base + o + at) 8

  -- where the data of the entry at `o` begin, and the next entry
  abbrev pub data_offset : ℕ → ℕ
  data_offset o = align4 (o + header_len + field o 94)

  abbrev pub next_offset : ℕ → ℕ
  next_offset o = align4 (data_offset o + field o 54)

  abbrev pub entry_at : (o ino : ℕ) → Entry
  entry_at o ino = record {
    name = clean_name m (base + o + header_len);
    mode = field o 14;
    uid = field o 22;
    gid = field o 30;
    size = field o 54;
    mtime = field o 46;
    nlink = field o 38;
    ino = ino;
    data_at = base + data_offset o;
    is_dir = s_isdir (field o 14);
  }

  abbrev pub good_magic : ℕ → Bool
  unfolding stands_at
  good_magic o = stands_at m (base + o) cpio_magic || stands_at m (base + o) cpio_magic_crc

  abbrev pub keep : Entry → Option (List Entry) → Option (List Entry)
  keep e none = none
  keep e (some es) = some (e ∷ es)

  -- The entries from `o` on, on fuel; `none` is fuel run out. `has_memory o` tells whether kzalloc has memory for the
  -- entry at `o`.
  pub entries_from : ℕ → (o ino : ℕ) → Option (List Entry)
  unfolding stands_at
  entries_from zero o ino = none
  entries_from (suc fuel) o ino =
      let skipped = entries_from fuel (next_offset o) ino in
      let kept = entries_from fuel (next_offset o) (ino + 1) in
      if ltb size (o + header_len)
      then some []
      else if not (good_magic o)
      then some []
      else if stands_at m (base + o + header_len) trailer
      then some []
      else if has_memory o
      then keep (entry_at o ino) kept
      else skipped

  -- The list that initrd_init makes, with one round for each header that there is room for, and one more.
  pub initrd_entries : Option (List Entry)
  unfolding entries_from
  initrd_entries = entries_from (size / header_len + 1) 0 1
