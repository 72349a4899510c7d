-- ===== src/Vfs.antt =====
-- The virtual file system of fs/vfs.c: references to vnodes, path lookup over mounts, and opening. A vnode is a number, 0
-- for NULL; a C string is the list of its bytes before the terminator. What a file system offers (its vnode_ops) is a
-- record of functions. The path and the place for the result that vfs_lookup is given are not NULL.
pub mod Path
pub mod Refs
pub mod Open
pub mod Initrd
mod Tests
use my_unix.Base.{
  ℕ, zero, suc, ◌+◌, ◌-◌, ◌%◌, ◌≤◌, ◌<◌, Bool, true, false, not, ◌&&◌, ◌||◌, if◌then◌else◌, ◌==◌,
  ltb, List, [], ◌∷◌, ◌++◌, length, Option, none, some,
}
use my_unix.Base.Bits.{test_bit}
use my_unix.Base.Errno.{enoent, enotdir, enametoolong}
use my_unix.Base.Int.{ℤ, pos, neg}
use my_unix.Base.Maps.{update}

abbrev pub atomic_mod : ℕ
atomic_mod = 4294967296

-- What the lookup reads of a vnode besides its operations: the root of what is mounted on it, and the vnode that it
-- covers.
pub record Vfs : Type 0 where
  pub refs : ℕ → ℕ
  pub released : List ℕ
  pub mounted_root : ℕ → ℕ
  pub covered : ℕ → ℕ
  pub root : ℕ
  pub cwd : ℕ

pub vnode_get : Vfs → ℕ → Vfs
vnode_get s v =
    if v == 0 then s else record s { refs = update s.refs v ((s.refs v + 1) % atomic_mod) }

-- `released` holds the vnodes that were released and freed, the latest first.
pub vnode_put : Vfs → ℕ → Vfs
vnode_put s v =
    let left = (s.refs v + atomic_mod - 1) % atomic_mod in
    if v == 0 then s else record s {
      refs = update s.refs v left;
      released = if left == 0 then v ∷ s.released else s.released;
    }

-- What an operation that looks a name up comes to.
pub data Result : Type 0 where
  found : ℕ → Vfs → Result
  fails : ℕ → Vfs → Result

-- `vn->ops && vn->ops->lookup`, and the operation
pub record Ops : Type 0 where
  pub has_lookup : ℕ → Bool
  pub lookup : Vfs → (dir : ℕ) → (name : List ℕ) → Result

-- `strcmp(a, b) == 0`
unfoldable pub same_name : List ℕ → List ℕ → Bool
same_name [] [] = true
same_name [] (b ∷ bs) = false
same_name (a ∷ rest) [] = false
same_name (a ∷ rest) (b ∷ bs) = a == b && same_name rest bs

abbrev pub slash : ℕ
slash = b'/'

abbrev pub dot : List ℕ
dot = b'.' ∷ []

abbrev pub dot_dot : List ℕ
dot_dot = b'.' ∷ b'.' ∷ []

abbrev pub name_max : ℕ
name_max = 255

-- What `strchr(path, '/')` splits a path into: what stands before the slash, and what behind it, if there is one.
pub split : List ℕ → List ℕ × Option (List ℕ)
split [] = ([], none)
split (c ∷ path) =
    let (before, behind) = split path in
    if c == slash then ([], some path) else (c ∷ before, behind)

-- the file system mounted on the vnode, if there is one
pub cross_mount : Vfs → ℕ → ℕ × Vfs
cross_mount s current =
    if s.mounted_root current == 0
    then (current, s)
    else (s.mounted_root current, vnode_get (vnode_put s current) (s.mounted_root current))

-- what follows a lookup from `current`
pub move_to : ℕ → Result → Result
move_to current (found child s) = found child (vnode_put s current)
move_to current (fails e s) = fails e (vnode_put s current)

-- the end of the path
pub finish : Result → Result
unfolding cross_mount
finish (fails e s) = fails e s
finish (found current s) = let (current', s') = cross_mount s current in found current' s'

-- What follows a component, with more of the path behind it.
abbrev pub go_on : Result → (ℕ → Vfs → Option Result) → Option Result
go_on (fails e s) loop = some (fails e s)
go_on (found next s) loop = loop next s

-- One round, on the piece in front of a slash and the path behind it; an empty piece is passed over.
abbrev pub after_split :
    List ℕ × Option (List ℕ)
    → (take : List ℕ → Result) → (loop : List ℕ → ℕ → Vfs → Option Result) → ℕ
    → Vfs
    → Option Result
after_split (piece, none) take loop current s = some (finish (take piece))
after_split ([], some rest) take loop current s = loop rest current s
after_split (c ∷ piece, some rest) take loop current s = go_on (take (c ∷ piece)) (loop rest)

-- where the lookup starts, and the path from there
pub start_of : Vfs → (start : ℕ) → (path : List ℕ) → ℕ × List ℕ
start_of s start [] = (if start == 0 then s.cwd else start, [])
start_of s start (c ∷ path) =
    if c == slash then (s.root, path) else (if start == 0 then s.cwd else start, c ∷ path)

module _ (ops : Ops) where
  -- One component, from a vnode on which nothing is mounted.
  pub step : Vfs → (current : ℕ) → (component : List ℕ) → Result
  unfolding move_to
  step s current component =
      if same_name component dot
      then found current s
      else if same_name component dot_dot
      then (if not (s.covered current == 0)
          then found (s.covered current) (vnode_get (vnode_put s current) (s.covered current))
          else if ops.has_lookup current
          then move_to current (ops.lookup s current dot_dot)
          else found current s)
      else if not (ops.has_lookup current)
      then fails enotdir (vnode_put s current)
      else move_to current (ops.lookup s current component)

  -- One round of the loop: the name is checked, a mount crossed, and the component looked up.
  pub take_component : Vfs → (current : ℕ) → (component : List ℕ) → Result
  unfolding cross_mount step
  take_component s current component =
      if ltb name_max (length component)
      then fails enametoolong (vnode_put s current)
      else let (current', s') = cross_mount s current in step s' current' component

  -- The loop over the rest of the path, on fuel; `none` is fuel run out.
  pub lookup_loop : ℕ → Vfs → (current : ℕ) → (path : List ℕ) → Option Result
  unfolding split take_component finish
  lookup_loop zero s current path = none
  lookup_loop (suc fuel) s current [] = some (finish (found current s))
  lookup_loop (suc fuel) s current (c ∷ path) =
      after_split (split (c ∷ path)) (take_component s current)
        (λ rest next s'. lookup_loop fuel s' next rest) current s

  pub vfs_lookup : Vfs → (start : ℕ) → (path : List ℕ) → Option Result
  unfolding start_of vnode_get lookup_loop
  vfs_lookup s start path =
      let (current, rest) = start_of s start path in
      if current == 0
      then some (fails enoent s)
      else lookup_loop (length rest + 1) (vnode_get s current) current rest
