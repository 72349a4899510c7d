-- ===== src/Strings.antt =====
-- The string and memory functions of main.c. A `const char *` is the list of the bytes from where it points to the
-- end of the object; reading or writing past that end is a fault, `none`. The `mem…` functions work
-- on a memory, a function from addresses to bytes.
pub mod Memory
pub mod Compare
pub mod Copy
use my_unix.Base.{
  ℕ, zero, suc, ◌+◌, ◌-◌, ◌%◌, ◌≤◌, ◌<◌, ◌≡◌, Bool, true, false, not, ◌&&◌, ◌||◌, if◌then◌else◌,
  ◌==◌, ltb, List, [], ◌∷◌, Option, none, some,
}
use my_unix.Base.Int.{ℤ, pos, negsuc}
use my_unix.Base.Maps.{update}

-- The difference of two `unsigned char`.
pub byte_diff : ℕ → ℕ → ℤ
byte_diff a b = if ltb a b then negsuc (b - a - 1) else pos (a - b)

-- one more, if there was no fault
abbrev pub bump : Option ℕ → Option ℕ
bump none = none
bump (some n) = some (n + 1)

abbrev pub push_byte : ℕ → Option (List ℕ) → Option (List ℕ)
push_byte b none = none
push_byte b (some bs) = some (b ∷ bs)

pub strlen : List ℕ → Option ℕ
strlen [] = none
strlen (c ∷ s) = let rest = strlen s in if c == 0 then some 0 else bump rest

pub strcmp : List ℕ → List ℕ → Option ℤ
strcmp [] b = none
strcmp (x ∷ a) [] = none
strcmp (x ∷ a) (y ∷ b) =
    let rest = strcmp a b in if not (x == 0) && x == y then rest else some (byte_diff x y)

pub strncmp : List ℕ → List ℕ → ℕ → Option ℤ
strncmp a b zero = some (pos 0)
strncmp [] b (suc n) = none
strncmp (x ∷ a) [] (suc n) = none
strncmp (x ∷ a) (y ∷ b) (suc n) =
    let rest = strncmp a b n in if not (x == 0) && x == y then rest else some (byte_diff x y)

-- What `dst` holds afterwards, from its start to the end of its object.
pub strcpy : List ℕ → List ℕ → Option (List ℕ)
strcpy [] src = none
strcpy (d ∷ dst) [] = none
strcpy (d ∷ dst) (c ∷ src) =
    let rest = strcpy dst src in if c == 0 then some (0 ∷ dst) else push_byte c rest

-- `while (n--) *d++ = '\0';`
pub fill_zero : List ℕ → ℕ → Option (List ℕ)
fill_zero dst zero = some dst
fill_zero [] (suc n) = none
fill_zero (d ∷ dst) (suc n) = push_byte 0 (fill_zero dst n)

pub strncpy : List ℕ → List ℕ → ℕ → Option (List ℕ)
unfolding fill_zero
strncpy dst src zero = some dst
strncpy [] src (suc n) = none
strncpy (d ∷ dst) [] (suc n) = none
strncpy (d ∷ dst) (c ∷ src) (suc n) =
    let rest = strncpy dst src n in if c == 0 then fill_zero (d ∷ dst) (suc n) else push_byte c rest

pub strcat : List ℕ → List ℕ → Option (List ℕ)
unfolding strcpy
strcat [] src = none
strcat (d ∷ dst) src =
    let rest = strcat dst src in if d == 0 then strcpy (d ∷ dst) src else push_byte d rest

-- The second loop of `strncat`, which writes the byte before it tests it, and the terminator.
pub strncat_end : List ℕ → List ℕ → ℕ → Option (List ℕ)
strncat_end [] src n = none
strncat_end (d ∷ dst) src zero = some (0 ∷ dst)
strncat_end (d ∷ dst) [] (suc n) = none
strncat_end (d ∷ dst) (c ∷ src) (suc n) =
    let rest = strncat_end dst src n in if c == 0 then some (0 ∷ dst) else push_byte c rest

pub strncat : List ℕ → List ℕ → ℕ → Option (List ℕ)
unfolding strncat_end
strncat [] src n = none
strncat (d ∷ dst) src n =
    let rest = strncat dst src n in if d == 0 then strncat_end (d ∷ dst) src n else push_byte d rest

-- A pointer into the string, or NULL.
pub data Found : Type 0 where
  null : Found
  at : ℕ → Found

abbrev pub further : Option Found → Option Found
further (some (at i)) = some (at (i + 1))
further o = o

pub strchr : List ℕ → ℕ → Option Found
strchr [] c = none
strchr (x ∷ s) c =
    let rest = further (strchr s c) in
    if x == 0
    then some (if c == 0 then at 0 else null)
    else if x == c % 256
    then some (at 0)
    else rest

-- `last` is the latest place seen, `i` the place looked at.
pub strrchr_loop : List ℕ → ℕ → ℕ → Found → Option Found
strrchr_loop [] c i last = none
strrchr_loop (x ∷ s) c i last =
    let rest = strrchr_loop s c (i + 1) (if x == c % 256 then at i else last) in
    if x == 0 then some last else rest

pub strrchr : List ℕ → ℕ → Option Found
strrchr s c = strrchr_loop s c 0 null

abbrev pub is_zero : ℤ → Bool
is_zero (pos zero) = true
is_zero _ = false

-- `strncmp(haystack, needle, nlen) == 0` at every place of the haystack in turn
pub strstr_loop : List ℕ → List ℕ → ℕ → Option Found
unfolding strncmp
strstr_loop [] needle nlen = none
strstr_loop (x ∷ haystack) needle nlen =
    let rest = further (strstr_loop haystack needle nlen) in
    if x == 0 then some null else elim (strncmp (x ∷ haystack) needle nlen) [
      | none ↦ none
      | some d ↦ if is_zero d then some (at 0) else rest
    ]

pub strstr : List ℕ → List ℕ → Option Found
unfolding strlen strstr_loop
strstr haystack needle = elim (strlen needle) [
  | none ↦ none
  | some n ↦ if n == 0 then some (at 0) else strstr_loop haystack needle n
]

-- A memory, by address.
abbrev pub Mem : Type 0
Mem = ℕ → ℕ

pub memset : Mem → ℕ → ℕ → ℕ → Mem
memset m dst c zero = m
memset m dst c (suc n) = memset (update m dst (c % 256)) (dst + 1) c n

pub memcpy : Mem → ℕ → ℕ → ℕ → Mem
memcpy m dst src zero = m
memcpy m dst src (suc n) = memcpy (update m dst (m src)) (dst + 1) (src + 1) n

-- The loop of `memmove` from the end.
pub move_back : Mem → ℕ → ℕ → ℕ → Mem
move_back m dst src zero = m
move_back m dst src (suc n) = move_back (update m (dst + n) (m (src + n))) dst src n

pub memmove : Mem → ℕ → ℕ → ℕ → Mem
unfolding memcpy move_back
memmove m dst src n = if ltb dst src then memcpy m dst src n else move_back m dst src n

pub memcmp : Mem → ℕ → ℕ → ℕ → ℤ
unfolding byte_diff
memcmp m a b zero = pos 0
memcmp m a b (suc n) =
    let rest = memcmp m (a + 1) (b + 1) n in if m a == m b then rest else byte_diff (m a) (m b)

-- The address, or 0 for NULL.
pub memchr : Mem → ℕ → ℕ → ℕ → ℕ
memchr m s c zero = 0
memchr m s c (suc n) = let rest = memchr m (s + 1) c n in if m s == c % 256 then s else rest
