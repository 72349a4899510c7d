-- ===== src/Tmpfs/Truncate.antt =====
-- Setting the size of a file of a tmpfs.
use my_unix.Base.{
  ℕ, ◌+◌, ◌≤◌, ◌<◌, ◌≡◌, refl, sym, ◌⊎◌, inl, inr, true, false, if◌then◌else◌, ltb, Option, none,
  some, arith, Bool-cases, Option-cases,
}
use my_unix.Base.Errno.{enomem}
use my_unix.Base.Int.{pos, neg}
use my_unix.Base.Word.{page_up, word_mod, page_size}
use my_unix.Tmpfs.{Node, enlarge, truncate_grown, tmpfs_truncate}
use my_unix.Tmpfs.Laws.{byte_at, Clean, Keeps, page_up-bounds, enlarge-Clean}

-- `f'` is `f` cut off or filled up with zeros at `n`.
pub record Resized (f : Node) (n : ℕ) (f' : Node) : Type 0 where
  pub new_size : f'.size ≡ n
  pub at_index : (i : ℕ) → byte_at f' i ≡ (if ltb i n then byte_at f i else 0)
  pub size_fits : f'.size ≤ f'.cap
  pub clean : f.size ≤ n → Clean f'

resize : (f : Node) (n : ℕ) → Clean f → n ≤ f.cap → Resized f n (record f { size = n })
resize f n c fits = record {
  new_size = refl;
  at_index = λ i. ground (arith, c.room_clear i, fits);
  size_fits = fits;
  clean = λ grows. record {
    size_fits = fits;
    room_clear = λ i l k. c.room_clear i (omega (arith, grows, l)) k;
  };
}

resize-enlarged :
    (f : Node) (d : ℕ → ℕ) (n cap : ℕ)
    → Clean f
    → ((i : ℕ) → i < f.cap → d i ≡ f.bytes i)
    → f.cap ≤ cap
    → n ≤ cap
    → Resized f n (record (enlarge f d cap) { size = n })
unfolding enlarge
resize-enlarged f d n cap c kept grows fits =
    let (c', same) = enlarge-Clean f d cap c kept grows in
    let r = resize (enlarge f d cap) n c' fits in
    record {
      new_size = refl;
      at_index = λ i. rw (sym (same i)) (r.at_index i);
      size_fits = fits;
      clean = r.clean;
    }

-- tmpfs_truncate of a vnode with a node whose size fits its buffer and whose room behind the end is clear (Clean), to a
-- size a page below 2^64, with a krealloc that keeps the bytes it copies: it is -ENOMEM and nothing changes, if the buffer is too small and krealloc fails; else it returns 0, the file has the new size and the bytes that
-- it had below it, with zeros behind its old end, the size fits the buffer, and if it did not shrink the room behind the
-- end is clear.
pub tmpfs_truncate_lem :
    (realloc : Option (ℕ → ℕ)) (f : Node) (n : ℕ)
    → Clean f
    → f.has_node ≡ true
    → n + page_size ≤ word_mod
    → Keeps f realloc
    → ((f.cap < n) × (realloc ≡ none) × (tmpfs_truncate realloc f n ≡ some (neg enomem, f)))
      ⊎ ((f' : Node) × (tmpfs_truncate realloc f n ≡ some (pos 0, f')) × Resized f n f')
unfolding tmpfs_truncate truncate_grown
tmpfs_truncate_lem realloc f n c node small kept = elim (Bool-cases (ltb f.cap n)) [
  | inr enough ↦ inr (record f { size = n }, rw (node, enough) refl, resize f n c (ground arith))
  | inl more ↦ elim (Option-cases realloc) [
    | inl failed ↦ inl (ground arith, failed, rw (failed, node, more) refl)
    | inr (d, got) ↦
        let up = page_up-bounds n small in
        let no_wrap : ltb (page_up n) f.cap ≡ false = ground (arith, up) in
        inr (
          record (enlarge f d (page_up n)) { size = n },
          rw (got, node, more, no_wrap) refl,
          resize-enlarged f d n (page_up n) c (kept d got) (ground (arith, up)) up,
        )
  ]
]

-- Cut to `m` bytes and set to a size `n` that the old one reaches to, a file has its old bytes below `n` again, where
-- there should be zeros from `m` on: nothing clears the bytes that are cut off.
pub truncated_bytes_return :
    (realloc : Option (ℕ → ℕ)) (f : Node) (m n : ℕ)
    → f.has_node ≡ true
    → f.size ≤ f.cap
    → m ≤ n
    → n ≤ f.size
    → (f1 f2 : Node) × (tmpfs_truncate realloc f m ≡ some (pos 0, f1))
      × (tmpfs_truncate realloc f1 n ≡ some (pos 0, f2))
      × ((i : ℕ) → byte_at f2 i ≡ (if ltb i n then byte_at f i else 0))
unfolding tmpfs_truncate
truncated_bytes_return realloc f m n node fits below within = (
  record f { size = m },
  record f { size = n },
  ground (arith, node, fits, below, within),
  ground (arith, node, fits, below, within),
  λ i. ground (arith, within),
)
