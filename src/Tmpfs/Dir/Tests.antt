-- ===== src/Tmpfs/Dir/Tests.antt =====
-- A root with a file and a directory.
use my_unix.Base.{
  ℕ, ◌≡◌, refl, if◌then◌else◌, ◌==◌, true, false, [], ◌∷◌, none, some, arith, Bool-cases, inl, inr,
}
use my_unix.Vfs.{Vfs, Result, vfs_lookup, same_name}
use my_unix.Vfs.Refs.{Settled}
use my_unix.Tmpfs.Dir.{Dirs, tmpfs_ops, tmpfs_unlink, unlink_child, tmpfs_find_child}
use my_unix.Tmpfs.Dir.Laws.{AllVnodes, vfs_lookup-tmpfs}
use my_unix.Tmpfs.Dir.Unlink.{Distinct, tmpfs_unlink_lem}

-- The vnode 2 is the root, with a file `a`, 5, and a directory `b`, 6; it alone has operations.
abbrev two_children : Dirs
two_children = record {
  has_ops = λ v. v == 2;
  has_node = λ v. true;
  parent = λ v. if v == 2 then 0 else 2;
  children = λ v.
      if v == 2
      then record { name = b'a' ∷ []; vn = 5; is_dir = false }
        ∷ record { name = b'b' ∷ []; vn = 6; is_dir = true }
        ∷ []
      else [];
  nlink = λ v. 3;
}

abbrev vnodes : Vfs
vnodes = record {
  refs = λ v. 1;
  released = [];
  mounted_root = λ v. 0;
  covered = λ v. 0;
  root = 2;
  cwd = 2;
}

two_children-AllVnodes : (d : ℕ) → AllVnodes (two_children.children d)
two_children-AllVnodes d = elim (Bool-cases (d == 2)) [
  | inl root ↦ rw root (ground arith, (ground arith, tt))
  | inr other ↦ rw other tt
]

two_children-Distinct : Distinct (two_children.children 2)
unfolding same_name
two_children-Distinct = ((refl, tt), (tt, tt))

vfs_lookup-tmpfs_example :
    (r : Result) × (vfs_lookup
        (tmpfs_ops two_children)
        vnodes
        0
        (b'b' ∷ b'/' ∷ b'.' ∷ b'.' ∷ b'/' ∷ b'a' ∷ [])
      ≡ some r)
    × Settled vnodes vnodes.refs r
vfs_lookup-tmpfs_example =
    vfs_lookup-tmpfs two_children vnodes 0 (b'b' ∷ b'/' ∷ b'.' ∷ b'.' ∷ b'/' ∷ b'a' ∷ [])
      two_children-AllVnodes (λ u. omega arith)

tmpfs_unlink_example :
    let t' = (tmpfs_unlink two_children vnodes 2 (b'a' ∷ [])).1 in
    (tmpfs_find_child (t'.children 2) (b'a' ∷ []) ≡ none)
    × (tmpfs_find_child (t'.children 2) (b'b' ∷ [])
        ≡ tmpfs_find_child (two_children.children 2) (b'b' ∷ []))
unfolding same_name tmpfs_unlink unlink_child tmpfs_find_child
tmpfs_unlink_example =
    tmpfs_unlink_lem two_children vnodes 2 (b'a' ∷ []) (b'b' ∷ []) two_children-Distinct refl refl
