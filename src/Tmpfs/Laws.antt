-- ===== src/Tmpfs/Laws.antt =====
-- A file of a tmpfs is a sequence of bytes: what reading, writing and truncating do to it.
use my_unix.Base.{
  ℕ, zero, suc, ◌+◌, ◌-◌, ◌≤◌, ◌<◌, ◌≡◌, refl, ◌∙◌, sym, ◌≢◌, ◌⊎◌, inl, inr, true, false, ◌&&◌,
  ◌||◌, if◌then◌else◌, ◌==◌, ltb, leb, Option, none, some, min, arith, Bool-cases, Option-cases,
}
use my_unix.Base.Errno.{enospc}
use my_unix.Base.Int.{pos, neg}
use my_unix.Base.Maps.{update}
use my_unix.Base.Word.{add64, page_up, word_mod, page_size}
use my_unix.Tmpfs.{
  not_file, Node, copy, clear, off_min, tmpfs_read, enlarge, put, put_grown, tmpfs_write,
}

-- The file as a program sees it: byte `i`, 0 behind the end.
abbrev pub byte_at : Node → ℕ → ℕ
byte_at f i = if ltb i f.size then f.bytes i else 0

-- The size is at most the capacity, and the room behind the end is clear.
pub record Clean (f : Node) : Type 0 where
  pub size_fits : f.size ≤ f.cap
  pub room_clear : (i : ℕ) → f.size ≤ i → i < f.cap → f.bytes i ≡ 0

-- What krealloc gives keeps the bytes of the old buffer.
abbrev pub Keeps : Node → Option (ℕ → ℕ) → Type 0
Keeps f realloc = (d : ℕ → ℕ) → realloc ≡ some d → (i : ℕ) → i < f.cap → d i ≡ f.bytes i

copy_lem :
    (dst : ℕ → ℕ) (d : ℕ) (src : ℕ → ℕ) (s n i : ℕ)
    → copy dst d src s n i ≡ (if leb d i && ltb i (d + n) then src (s + (i - d)) else dst i)
unfolding copy
copy_lem dst d src s zero i = ground arith
copy_lem dst d src s (suc n) i =
    let r = copy_lem (update dst d (src s)) (d + 1) src (s + 1) n i in
    elim (Bool-cases (i == d)) [
      | inl first ↦ let e : i ≡ d = ground arith in rw e (rw e at r ∙ ground arith)
      | inr other ↦ r ∙ later (ground arith)
    ]
  where
    later :
        i ≢ d
        → (if leb (d + 1) i && ltb i (d + 1 + n)
            then src (s + 1 + (i - (d + 1)))
            else update dst d (src s) i)
          ≡ (if leb d i && ltb i (d + suc n) then src (s + (i - d)) else dst i)
    later k = elim (Bool-cases (leb (d + 1) i)) [
      | inl after ↦
          let e : s + 1 + (i - (d + 1)) ≡ s + (i - d) = ground arith in rw e (ground arith)
      | inr before ↦ ground arith
    ]

clear_lem :
    (dst : ℕ → ℕ) (d n i : ℕ) → clear dst d n i ≡ (if leb d i && ltb i (d + n) then 0 else dst i)
unfolding clear
clear_lem dst d zero i = ground arith
clear_lem dst d (suc n) i = ground (arith, clear_lem (update dst d 0) (d + 1) n i)

-- `f'` is `f` with the bytes of `buf` put in at `off`.
pub record Written (f : Node) (buf : ℕ → ℕ) (len off : ℕ) (f' : Node) : Type 0 where
  pub new_size : f'.size ≡ (if ltb f.size (off + len) then off + len else f.size)
  pub at_index :
      (i : ℕ)
      → byte_at f' i ≡ (if leb off i && ltb i (off + len) then buf (i - off) else byte_at f i)
  pub is_file : not_file f' ≡ false
  pub clean : Clean f'

put_lem :
    (f : Node) (buf : ℕ → ℕ) (len off : ℕ)
    → Clean f
    → not_file f ≡ false
    → off + len < word_mod
    → off + len ≤ f.cap
    → (f' : Node) × (put f buf len off ≡ some (pos len, f')) × Written f buf len off f'
unfolding put
put_lem f buf len off c file small fits =
    let fitting : ltb f.cap (off + len) ≡ false = ground arith in
    let sum : add64 off len ≡ off + len = omega arith in
    (
      record f {
        bytes = copy f.bytes off buf 0 len;
        size = if ltb f.size (off + len) then off + len else f.size;
      },
      rw (fitting, sum) refl,
      record {
        new_size = refl;
        at_index = λ i. ground (arith, copy_lem f.bytes off buf 0 len i, c.room_clear i);
        is_file = file;
        clean = record {
          size_fits = ground (arith, c.size_fits);
          room_clear = λ i l k. ground (arith, copy_lem f.bytes off buf 0 len i, c.room_clear i);
        };
      },
    )

pub enlarge-Clean :
    (f : Node) (d : ℕ → ℕ) (new_cap : ℕ)
    → Clean f
    → ((i : ℕ) → i < f.cap → d i ≡ f.bytes i)
    → f.cap ≤ new_cap
    → Clean (enlarge f d new_cap) × ((i : ℕ) → byte_at (enlarge f d new_cap) i ≡ byte_at f i)
unfolding enlarge
enlarge-Clean f d new_cap c kept grows = (
  record {
    size_fits = omega (arith, c.size_fits, grows);
    room_clear = λ i l k.
        ground (arith, clear_lem d f.cap (new_cap - f.cap) i, c.room_clear i, kept i, grows);
  },
  λ i. ground (arith, clear_lem d f.cap (new_cap - f.cap) i, c.size_fits, kept i),
)

pub page_up-bounds : (x : ℕ) → x + page_size ≤ word_mod → x ≤ page_up x
page_up-bounds x h = omega (arith, h)

Written-trans :
    (f g : Node) (buf : ℕ → ℕ) (len off : ℕ) (f' : Node)
    → g.size ≡ f.size
    → ((i : ℕ) → byte_at g i ≡ byte_at f i)
    → Written g buf len off f'
    → Written f buf len off f'
Written-trans f g buf len off f' same e w = record {
  new_size = rw (sym same) w.new_size;
  at_index = λ i. rw (sym (e i)) (w.at_index i);
  is_file = w.is_file;
  clean = w.clean;
}

module _ (f : Node) (buf : ℕ → ℕ) (len off : ℕ) (file : not_file f ≡ false)
    (small : off + len < word_mod) where
  write-put :
      (realloc : Option (ℕ → ℕ))
      → ltb f.cap (off + len) ≡ false
      → tmpfs_write realloc f buf len off ≡ put f buf len off
  unfolding tmpfs_write
  write-put realloc enough =
      let sum : add64 off len ≡ off + len = omega arith in rw (file, sum, enough) refl

  write-grown :
      (realloc : Option (ℕ → ℕ))
      → ltb f.cap (off + len) ≡ true
      → tmpfs_write realloc f buf len off ≡ put_grown f buf len off realloc
  unfolding tmpfs_write
  write-grown realloc more =
      let sum : add64 off len ≡ off + len = omega arith in rw (file, sum, more) refl

  put_grown-some :
      (d : ℕ → ℕ)
      → put_grown f buf len off (some d) ≡ put (enlarge f d (page_up (off + len))) buf len off
  unfolding put_grown
  put_grown-some d = let sum : add64 off len ≡ off + len = omega arith in rw sum refl

  put_grown-none : put_grown f buf len off none ≡ some (neg enospc, f)
  unfolding put_grown
  put_grown-none = refl

-- tmpfs_write on a file whose size fits its buffer and whose room behind the end is clear (Clean, which a tmpfs_truncate to
-- a smaller size breaks), with `off + len` a page below 2^64 and a krealloc that keeps the bytes it copies: it is
-- -ENOSPC and nothing changes, if the buffer is too small and krealloc fails; else it returns `len`, the bytes of `buf`
-- stand from `off` on and every other byte of the file is as before, the size grows to `off + len` if it was less, and
-- the room behind the end is clear again. No byte outside the buffer is written.
pub tmpfs_write_lem :
    (realloc : Option (ℕ → ℕ)) (f : Node) (buf : ℕ → ℕ) (len off : ℕ)
    → Clean f
    → not_file f ≡ false
    → off + len + page_size ≤ word_mod
    → Keeps f realloc
    → ((f.cap < off + len)
        × (realloc ≡ none)
        × (tmpfs_write realloc f buf len off ≡ some (neg enospc, f)))
      ⊎ ((f' : Node) × (tmpfs_write realloc f buf len off ≡ some (pos len, f'))
          × Written f buf len off f')
unfolding enlarge
tmpfs_write_lem realloc f buf len off c file small kept =
    let fits : off + len < word_mod = omega arith in
    elim (Bool-cases (ltb f.cap (off + len))) [
      | inr enough ↦
          let (f', e, w) = put_lem f buf len off c file (omega arith) (ground arith) in
          inr (f', write-put f buf len off file fits realloc enough ∙ e, w)
      | inl more ↦ elim (Option-cases realloc) [
        | inl failed ↦ inl (
          ground arith,
          failed,
          write-grown f buf len off file fits realloc more
              ∙ rw failed (put_grown-none f buf len off file fits),
        )
        | inr (d, got) ↦
            let up = page_up-bounds (off + len) small in
            let (c', same) =
              enlarge-Clean f d (page_up (off + len)) c (kept d got) (ground (arith, up)) in
            let (f', e, w) =
              put_lem (enlarge f d (page_up (off + len))) buf len off c' file (omega arith) up in
            inr (
              f',
              write-grown f buf len off file fits realloc more
                  ∙ rw got (put_grown-some f buf len off file fits d)
                  ∙ e,
              Written-trans f _ buf len off f' refl same w,
            )
      ]
    ]

-- tmpfs_read of a regular file, at an offset below 2^63: it returns the number of bytes from `off` to the end of the file
-- but at most `len`; so many bytes of the file are put at the start of the buffer, and the rest of it is as before.
pub tmpfs_read_lem :
    (f : Node) (buf : ℕ → ℕ) (len off i : ℕ)
    → not_file f ≡ false
    → off < off_min
    → let n = min len (f.size - off) in
      let (result, buf') = tmpfs_read f buf len off in
      (result ≡ pos n) × (buf' i ≡ (if ltb i n then byte_at f (off + i) else buf i))
unfolding tmpfs_read
tmpfs_read_lem f buf len off i file positive =
    elim (Bool-cases (leb off_min off || leb f.size off)) [
      | inl behind ↦ rw (file, behind) (ground arith, ground arith)
      | inr inside ↦
          rw (file, inside)
            (refl, ground (arith, copy_lem buf 0 f.bytes off (min len (f.size - off)) i))
    ]
