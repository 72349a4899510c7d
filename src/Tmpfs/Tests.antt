-- ===== src/Tmpfs/Tests.antt =====
-- Writing, reading and cutting a file of three bytes in a buffer of one page.
use my_unix.Base.{
  true, ℕ, ◌+◌, ◌<◌, ◌≡◌, refl, ◌⊎◌, false, if◌then◌else◌, ltb, Option, none, some, arith, ◌∙◌, ap,
  sym,
}
use my_unix.Base.Errno.{enospc, enomem}
use my_unix.Base.Int.{pos, neg}
use my_unix.Tmpfs.{Node, tmpfs_read, tmpfs_write, tmpfs_truncate}
use my_unix.Tmpfs.Laws.{Clean, Written, byte_at, tmpfs_write_lem}
use my_unix.Tmpfs.Truncate.{Resized, tmpfs_truncate_lem, truncated_bytes_return}
use my_unix.Tmpfs.ReadBack.{tmpfs_read-write}

abbrev abc : Node
abc = record {
  has_node = true;
  is_dir = false;
  bytes = λ i. if ltb i 3 then 65 + i else 0;
  cap = 4096;
  size = 3;
}

abc-Clean : Clean abc
abc-Clean = record { size_fits = omega arith; room_clear = λ i l k. ground arith }

-- a larger buffer with the bytes of the old one, and others behind
abbrev copied : Option (ℕ → ℕ)
copied = some (λ i. if ltb i 4096 then abc.bytes i else 7)

abbrev x_only : ℕ → ℕ
x_only i = 88

abbrev byte_of : ℕ → Option (ℕ → ℕ) → ℕ
byte_of i none = 0
byte_of i (some d) = d i

copied-Keeps : (d : ℕ → ℕ) → copied ≡ some d → (i : ℕ) → i < 4096 → d i ≡ abc.bytes i
copied-Keeps d e i l = sym (ap (byte_of i) e) ∙ ground arith

tmpfs_write_example :
    ((abc.cap < 4090 + 10)
      × (copied ≡ none)
      × (tmpfs_write copied abc x_only 10 4090 ≡ some (neg enospc, abc)))
    ⊎ ((f' : Node) × (tmpfs_write copied abc x_only 10 4090 ≡ some (pos 10, f'))
        × Written abc x_only 10 4090 f')
tmpfs_write_example =
    tmpfs_write_lem copied abc x_only 10 4090 abc-Clean refl (omega arith) copied-Keeps

tmpfs_read-write_example :
    ((abc.cap < 4090 + 10)
      × (copied ≡ none)
      × (tmpfs_write copied abc x_only 10 4090 ≡ some (neg enospc, abc)))
    ⊎ ((f' : Node) × (tmpfs_write copied abc x_only 10 4090 ≡ some (pos 10, f'))
        × ((dst : ℕ → ℕ) (i : ℕ)
            → let (result, dst') = tmpfs_read f' dst 10 4090 in
              (result ≡ pos 10) × (dst' i ≡ (if ltb i 10 then x_only i else dst i))))
tmpfs_read-write_example =
    tmpfs_read-write copied abc x_only 10 4090 abc-Clean refl (omega arith) (omega arith)
      copied-Keeps

tmpfs_truncate_example :
    ((abc.cap < 5000) × (copied ≡ none) × (tmpfs_truncate copied abc 5000 ≡ some (neg enomem, abc)))
    ⊎ ((f' : Node) × (tmpfs_truncate copied abc 5000 ≡ some (pos 0, f')) × Resized abc 5000 f')
tmpfs_truncate_example =
    tmpfs_truncate_lem copied abc 5000 abc-Clean refl (omega arith) copied-Keeps

truncated_bytes_return_example :
    (f1 f2 : Node) × (tmpfs_truncate none abc 1 ≡ some (pos 0, f1))
    × (tmpfs_truncate none f1 3 ≡ some (pos 0, f2))
    × ((i : ℕ) → byte_at f2 i ≡ (if ltb i 3 then byte_at abc i else 0))
truncated_bytes_return_example =
    truncated_bytes_return none abc 1 3 refl (omega arith) (omega arith) (omega arith)
