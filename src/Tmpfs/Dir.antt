-- ===== src/Tmpfs/Dir.antt =====
-- The directories of fs/tmpfs_devfs.c: tmpfs_lookup and tmpfs_unlink, over the vnodes of Vfs.
pub mod Laws
pub mod Unlink
mod Tests
use my_unix.Base.{
  ℕ, ◌+◌, ◌-◌, ◌%◌, Bool, true, false, not, ◌&&◌, if◌then◌else◌, ◌==◌, List, [], ◌∷◌, Option, none,
  some,
}
use my_unix.Base.Errno.{einval, enoent, enotempty}
use my_unix.Base.Int.{ℤ, pos, neg}
use my_unix.Base.Maps.{update}
use my_unix.Base.Word.{sub64}
use my_unix.Vfs.{Vfs, Ops, Result, found, fails, vnode_get, vnode_put, same_name, dot, dot_dot}

-- A child's name, its vnode, and whether that is a directory.
pub record Child : Type 0 where
  pub name : List ℕ
  pub vn : ℕ
  pub is_dir : Bool

-- What hangs on the vnodes of a tmpfs: whether the vnode has operations, which tmpfs_mount sets for the root and
-- tmpfs_node_alloc for no vnode, whether there is a node, the vnode of its parent, 0 for none, its children and the link
-- count.
pub record Dirs : Type 0 where
  pub has_ops : ℕ → Bool
  pub has_node : ℕ → Bool
  pub parent : ℕ → ℕ
  pub children : ℕ → List Child
  pub nlink : ℕ → ℕ

pub tmpfs_find_child : List Child → (name : List ℕ) → Option Child
tmpfs_find_child [] name = none
tmpfs_find_child (c ∷ cs) name =
    let rest = tmpfs_find_child cs name in if same_name c.name name then some c else rest

abbrev pub give : Vfs → ℕ → Result
give s v = found v (vnode_get s v)

pub give_child : Vfs → Option Child → Result
give_child s none = fails enoent s
give_child s (some c) = give s c.vn

pub tmpfs_lookup : Dirs → Vfs → (dir : ℕ) → (name : List ℕ) → Result
unfolding give_child tmpfs_find_child
tmpfs_lookup t s dir name =
    if not (t.has_node dir)
    then fails einval s
    else if same_name name dot_dot
    then give s (if t.parent dir == 0 then dir else t.parent dir)
    else if same_name name dot
    then give s dir
    else give_child s (tmpfs_find_child (t.children dir) name)

-- the lookup of g_tmpfs_vnode_ops, on the vnodes that have these operations
abbrev pub tmpfs_ops : Dirs → Ops
unfolding tmpfs_lookup
tmpfs_ops t = record { has_lookup = t.has_ops; lookup = tmpfs_lookup t }

-- `list_del(&child->sibling)` of the child found
pub del_child : List Child → (name : List ℕ) → List Child
del_child [] name = []
del_child (c ∷ cs) name =
    let rest = del_child cs name in if same_name c.name name then cs else c ∷ rest

abbrev pub is_empty : List Child → Bool
is_empty [] = true
is_empty (c ∷ cs) = false

pub unlink_child : Dirs → Vfs → (dir : ℕ) → (name : List ℕ) → Option Child → ℤ × Dirs × Vfs
unfolding del_child
unlink_child t s dir name none = (neg enoent, t, s)
unlink_child t s dir name (some c) =
    if c.is_dir && not (is_empty (t.children c.vn)) then (neg enotempty, t, s) else (
      pos 0,
      record t {
        children = update t.children dir (del_child (t.children dir) name);
        nlink = update t.nlink dir (sub64 (t.nlink dir) 1);
      },
      vnode_put s c.vn,
    )

pub tmpfs_unlink : Dirs → Vfs → (dir : ℕ) → (name : List ℕ) → ℤ × Dirs × Vfs
unfolding unlink_child tmpfs_find_child
tmpfs_unlink t s dir name =
    if not (t.has_node dir)
    then (neg einval, t, s)
    else unlink_child t s dir name (tmpfs_find_child (t.children dir) name)
