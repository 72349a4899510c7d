-- ===== src/Tmpfs.antt =====
-- The contents of files in fs/tmpfs_devfs.c: tmpfs_read, tmpfs_write and tmpfs_truncate. The buffer of a node is a function
-- from indices to bytes, and `cap` of them belong to it; a transfer that leaves it is `none`. `off_t` and `size_t` are
-- numbers below 2^64, an `off_t` from 2^63 on being negative. What krealloc gives, with what the new buffer holds, is an
-- argument, `none` for NULL.
pub mod Laws
pub mod Truncate
pub mod ReadBack
pub mod Dir
mod Tests
use my_unix.Base.{
  ℕ, zero, suc, ◌+◌, ◌-◌, ◌%◌, ◌≤◌, ◌<◌, ◌≡◌, Bool, true, false, not, ◌||◌, if◌then◌else◌, ◌==◌,
  ltb, leb, Option, none, some, min,
}
use my_unix.Base.Errno.{eisdir, enospc, enomem, einval}
use my_unix.Base.Int.{ℤ, pos, neg}
use my_unix.Base.Maps.{update}
use my_unix.Base.Word.{add64, sub64, page_up}

-- data (`bytes`), data_cap, and size and type of the vnode
pub record Node : Type 0 where
  pub has_node : Bool
  pub is_dir : Bool
  pub bytes : ℕ → ℕ
  pub cap : ℕ
  pub size : ℕ

-- `!node || node->vn->type == VN_DIR`
abbrev pub not_file : Node → Bool
not_file f = not f.has_node || f.is_dir

-- `memcpy(dst + d, src + s, n)`, from one buffer to another
pub copy : (ℕ → ℕ) → (d : ℕ) → (ℕ → ℕ) → (s n : ℕ) → ℕ → ℕ
copy dst d src s zero = dst
copy dst d src s (suc n) = copy (update dst d (src s)) (d + 1) src (s + 1) n

-- `memset(dst + d, 0, n)`
pub clear : (ℕ → ℕ) → (d n : ℕ) → ℕ → ℕ
clear dst d zero = dst
clear dst d (suc n) = clear (update dst d 0) (d + 1) n

abbrev pub off_min : ℕ
off_min = 0x8000_0000_0000_0000

-- the number returned, and the buffer of the caller
pub tmpfs_read : Node → (buf : ℕ → ℕ) → (len off : ℕ) → ℤ × (ℕ → ℕ)
unfolding copy
tmpfs_read f buf len off =
    if not_file f
    then (neg eisdir, buf)
    else if leb off_min off || leb f.size off
    then (pos 0, buf)
    else let n = min len (f.size - off) in (pos n, copy buf 0 f.bytes off n)

-- The new buffer of `new_cap` bytes, cleared behind the old ones.
pub enlarge : Node → (new_data : ℕ → ℕ) → (new_cap : ℕ) → Node
unfolding clear
enlarge f new_data new_cap = record f {
  bytes = clear new_data f.cap (new_cap - f.cap);
  cap = new_cap;
}

-- The bytes are put into the buffer, which has room for them if `off + len` did not wrap.
pub put : Node → (buf : ℕ → ℕ) → (len off : ℕ) → Option (ℤ × Node)
unfolding copy
put f buf len off =
    let new_end = add64 off len in
    if ltb f.cap (off + len)
    then none
    else some (
      pos len,
      record f {
        bytes = copy f.bytes off buf 0 len;
        size = if ltb f.size new_end then new_end else f.size;
      },
    )

-- Behind krealloc; a `new_cap` that wrapped clears nothing.
pub put_grown : Node → (buf : ℕ → ℕ) → (len off : ℕ) → Option (ℕ → ℕ) → Option (ℤ × Node)
unfolding enlarge put
put_grown f buf len off none = some (neg enospc, f)
put_grown f buf len off (some new_data) =
    put (enlarge f new_data (page_up (add64 off len))) buf len off

pub tmpfs_write : Option (ℕ → ℕ) → Node → (buf : ℕ → ℕ) → (len off : ℕ) → Option (ℤ × Node)
unfolding put_grown put
tmpfs_write realloc f buf len off =
    if not_file f
    then some (neg eisdir, f)
    else if ltb f.cap (add64 off len)
    then put_grown f buf len off realloc
    else put f buf len off

-- Behind krealloc; a `new_cap` that wrapped makes the length of memset wrap too.
pub truncate_grown : Node → (size : ℕ) → Option (ℕ → ℕ) → Option (ℤ × Node)
unfolding enlarge
truncate_grown f size none = some (neg enomem, f)
truncate_grown f size (some new_data) =
    if ltb (page_up size) f.cap
    then none
    else some (pos 0, record (enlarge f new_data (page_up size)) { size = size })

pub tmpfs_truncate : Option (ℕ → ℕ) → Node → (size : ℕ) → Option (ℤ × Node)
unfolding truncate_grown
tmpfs_truncate realloc f size =
    if not f.has_node
    then some (neg einval, f)
    else if ltb f.cap size
    then truncate_grown f size realloc
    else some (pos 0, record f { size = size })
