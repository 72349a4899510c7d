-- ===== src/Tmpfs/Dir/Unlink.antt =====
-- What tmpfs_unlink does to the names of a directory.
use my_unix.Base.{
  ℕ, ◌≡◌, refl, inl, inr, true, false, not, ◌&&◌, ◌==◌, List, [], ◌∷◌, none, arith, Bool-cases,
  Option-cases,
}
use my_unix.Base.Int.{pos}
use my_unix.Vfs.{Vfs, same_name}
use my_unix.Vfs.Refs.{same_name-eq}
use my_unix.Tmpfs.Dir.{
  Child, Dirs, is_empty, tmpfs_find_child, del_child, unlink_child, tmpfs_unlink,
}

-- No child has this name.
abbrev pub Unused : (name : List ℕ) → List Child → Type 0
Unused name [] = Unit
Unused name (c ∷ cs) = (same_name c.name name ≡ false) × Unused name cs

-- All names differ.
abbrev pub Distinct : List Child → Type 0
Distinct [] = Unit
Distinct (c ∷ cs) = Unused c.name cs × Distinct cs

find-Unused : (name : List ℕ) (cs : List Child) → Unused name cs → tmpfs_find_child cs name ≡ none
unfolding tmpfs_find_child
find-Unused name [] h = refl
find-Unused name (c ∷ cs) (ne, h) = rw (ne, find-Unused name cs h) refl

find-del_child :
    (cs : List Child) (name : List ℕ)
    → Distinct cs
    → tmpfs_find_child (del_child cs name) name ≡ none
unfolding tmpfs_find_child del_child
find-del_child [] name h = refl
find-del_child (c ∷ cs) name (u, h) = elim (Bool-cases (same_name c.name name)) [
  | inl here ↦
      let e : c.name ≡ name = same_name-eq c.name name here in
      rw here (find-Unused name cs (rw e at u))
  | inr other ↦ rw other (rw (other, find-del_child cs name h) refl)
]

find-del_child_other :
    (cs : List Child) (name other : List ℕ)
    → same_name name other ≡ false
    → tmpfs_find_child (del_child cs name) other ≡ tmpfs_find_child cs other
unfolding tmpfs_find_child del_child
find-del_child_other [] name other ne = refl
find-del_child_other (c ∷ cs) name other ne = elim (Bool-cases (same_name c.name name)) [
  | inl here ↦
      let e : c.name ≡ name = same_name-eq c.name name here in
      let k : same_name c.name other ≡ false = rw e ne in rw (here, k) refl
  | inr kept ↦ rw kept (rw (find-del_child_other cs name other ne) refl)
]

-- A tmpfs_unlink that returns 0, in a directory whose names all differ, takes the name away and no other: looking it up
-- in the directory finds nothing, and every other name is found as before.
pub tmpfs_unlink_lem :
    (t : Dirs) (s : Vfs) (dir : ℕ) (name other : List ℕ)
    → Distinct (t.children dir)
    → same_name name other ≡ false
    → (tmpfs_unlink t s dir name).0 ≡ pos 0
    → let t' = (tmpfs_unlink t s dir name).1 in
      (tmpfs_find_child (t'.children dir) name ≡ none)
      × (tmpfs_find_child (t'.children dir) other ≡ tmpfs_find_child (t.children dir) other)
unfolding tmpfs_unlink unlink_child
tmpfs_unlink_lem t s dir name other h ne ok = elim (Bool-cases (t.has_node dir)) [
  | inr gone ↦ absurd (ground (arith, rw gone at ok))
  | inl there ↦ elim (Option-cases (tmpfs_find_child (t.children dir) name)) [
    | inl absent ↦ absurd (ground (arith, rw (there, absent) at ok))
    | inr (c, e) ↦ elim (Bool-cases (c.is_dir && not (is_empty (t.children c.vn)))) [
      | inl full ↦ absurd (ground (arith, rw (there, e, full) at ok))
      | inr goes ↦
          let same : (dir == dir) ≡ true = ground arith in
          rw (there, e, goes, same)
            (
              find-del_child (t.children dir) name h,
              find-del_child_other (t.children dir) name other ne,
            )
    ]
  ]
]
