-- ===== src/Tmpfs/ReadBack.antt =====
-- What is written to a file of a tmpfs is read back.
use my_unix.Base.{
  ℕ, ◌+◌, ◌-◌, ◌≤◌, ◌<◌, ◌≡◌, ◌⊎◌, inl, inr, false, if◌then◌else◌, ltb, Option, none, some, min,
  arith,
}
use my_unix.Base.Errno.{enospc}
use my_unix.Base.Int.{pos, neg}
use my_unix.Base.Word.{word_mod, page_size}
use my_unix.Tmpfs.{not_file, Node, off_min, tmpfs_read, tmpfs_write}
use my_unix.Tmpfs.Laws.{Clean, Keeps, Written, tmpfs_read_lem, tmpfs_write_lem}

read-Written :
    (f : Node) (buf : ℕ → ℕ) (len off : ℕ) (f' : Node) (dst : ℕ → ℕ) (i : ℕ)
    → off < off_min
    → Written f buf len off f'
    → let (result, dst') = tmpfs_read f' dst len off in
      (result ≡ pos len) × (dst' i ≡ (if ltb i len then buf i else dst i))
read-Written f buf len off f' dst i positive w =
    let whole : min len (f'.size - off) ≡ len = ground (arith, w.new_size) in
    let (result, bytes) = tmpfs_read_lem f' dst len off i w.is_file positive in
    (rw whole at result, ground (arith, rw whole at bytes, w.at_index (off + i)))

-- On a file, not a directory, whose size fits its buffer and whose room behind the end is clear (Clean), with `off` below
-- 2^63, `off + len` a page below 2^64 and a krealloc that keeps the bytes it copies: a tmpfs_write is -ENOSPC, the buffer
-- being too small and krealloc failing, or returns `len`, and a tmpfs_read of `len` bytes at the same offset then returns
-- `len` and puts the bytes written at the start of its buffer and nothing else.
pub tmpfs_read-write :
    (realloc : Option (ℕ → ℕ)) (f : Node) (buf : ℕ → ℕ) (len off : ℕ)
    → Clean f
    → not_file f ≡ false
    → off < off_min
    → off + len + page_size ≤ word_mod
    → Keeps f realloc
    → ((f.cap < off + len)
        × (realloc ≡ none)
        × (tmpfs_write realloc f buf len off ≡ some (neg enospc, f)))
      ⊎ ((f' : Node) × (tmpfs_write realloc f buf len off ≡ some (pos len, f'))
          × ((dst : ℕ → ℕ) (i : ℕ)
              → let (result, dst') = tmpfs_read f' dst len off in
                (result ≡ pos len) × (dst' i ≡ (if ltb i len then buf i else dst i))))
tmpfs_read-write realloc f buf len off c file positive small kept =
    elim (tmpfs_write_lem realloc f buf len off c file small kept) [
      | inl full ↦ inl full
      | inr (f', e, w) ↦ inr (f', e, λ dst i. read-Written f buf len off f' dst i positive w)
    ]
