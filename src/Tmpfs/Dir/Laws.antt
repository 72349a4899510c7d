-- ===== src/Tmpfs/Dir/Laws.antt =====
-- A tmpfs keeps to what vfs_lookup asks of a file system.
use my_unix.Base.{
  ℕ, ◌+◌, ◌<◌, ◌≡◌, refl, ◌≢◌, inl, inr, ◌==◌, List, [], ◌∷◌, some, arith, Bool-cases, Option-cases,
}
use my_unix.Vfs.{Vfs, Result, atomic_mod, same_name, dot, dot_dot, vfs_lookup}
use my_unix.Vfs.Refs.{Settled, Free, get-own, vfs_lookup-Settled}
use my_unix.Tmpfs.Dir.{Child, Dirs, tmpfs_find_child, give_child, tmpfs_lookup, tmpfs_ops}

-- no child without a vnode
abbrev pub AllVnodes : List Child → Type 0
AllVnodes [] = Unit
AllVnodes (c ∷ cs) = (c.vn ≢ 0) × AllVnodes cs

find_child-vnode :
    (cs : List Child) (name : List ℕ) (c : Child)
    → AllVnodes cs
    → tmpfs_find_child cs name ≡ some c
    → c.vn ≢ 0
unfolding tmpfs_find_child
find_child-vnode [] name c all e = absurd (ground arith)
find_child-vnode (d ∷ cs) name c (nz, all) e = elim (Bool-cases (same_name d.name name)) [
  | inl here ↦ let same : d ≡ c = ground (arith, rw here at e) in rw same at nz
  | inr other ↦ find_child-vnode cs name c all (rw other at e)
]

fails-Settled : (s : Vfs) → Free s s s.refs
fails-Settled s = record {
  none_held = λ u. refl;
  same_mounts = refl;
  same_covers = refl;
  same_root = refl;
}

tmpfs_lookup-Settled :
    (t : Dirs) (s : Vfs) (dir : ℕ) (name : List ℕ)
    → ((d : ℕ) → AllVnodes (t.children d))
    → dir ≢ 0
    → ((u : ℕ) → s.refs u + 1 < atomic_mod)
    → Settled s s.refs (tmpfs_lookup t s dir name)
unfolding tmpfs_lookup give_child
tmpfs_lookup-Settled t s dir name all nz small = elim (Bool-cases (t.has_node dir)) [
  | inr gone ↦ rw gone (fails-Settled s)
  | inl there ↦ elim (Bool-cases (same_name name dot_dot)) [
    | inl up ↦ elim (Bool-cases (t.parent dir == 0)) [
      | inl top ↦ rw (there, up, top) (get-own s dir nz small)
      | inr below ↦ rw (there, up, below) (get-own s (t.parent dir) (ground arith) small)
    ]
    | inr other ↦ elim (Bool-cases (same_name name dot)) [
      | inl here ↦ rw (there, other, here) (get-own s dir nz small)
      | inr down ↦ elim (Option-cases (tmpfs_find_child (t.children dir) name)) [
        | inl absent ↦ rw (there, other, down, absent) (fails-Settled s)
        | inr (c, e) ↦
            rw (there, other, down, e)
              (get-own s c.vn (find_child-vnode (t.children dir) name c (all dir) e) small)
      ]
    ]
  ]
]

-- vfs_lookup over a tmpfs in which every child has a vnode, whichever vnodes have operations, ends: it gives a vnode with one reference more than before,
-- every other count being as before, or it fails and every count is as before. Counts must not be near the end of their
-- range.
pub vfs_lookup-tmpfs :
    (t : Dirs) (s : Vfs) (start : ℕ) (path : List ℕ)
    → ((d : ℕ) → AllVnodes (t.children d))
    → ((u : ℕ) → s.refs u + 2 < atomic_mod)
    → (r : Result) × (vfs_lookup (tmpfs_ops t) s start path ≡ some r) × Settled s s.refs r
unfolding tmpfs_ops tmpfs_lookup
vfs_lookup-tmpfs t s start path all small =
    vfs_lookup-Settled (tmpfs_ops t) s start path
      (record {
        lookup_lem = λ s' dir name nz room. tmpfs_lookup-Settled t s' dir name all nz room;
      })
      small
