-- ===== src/Vfs/Open.antt =====
-- vfs_lookup_parent, file_alloc and vfs_open of fs/vfs.c. Whether kzalloc has memory for the file_t is an argument.
pub mod Laws
use my_unix.Base.{
  ℕ, zero, suc, ◌==◌, Bool, true, false, not, ◌&&◌, ◌||◌, if◌then◌else◌, List, [], ◌∷◌, Option,
  none, some, take,
}
use my_unix.Base.Bits.{test_bit}
use my_unix.Base.Errno.{enoent, enotdir, eexist, eacces, enomem}
use my_unix.Vfs.{
  Vfs, Ops, Result, found, fails, slash, name_max, vnode_get, vnode_put, move_to, vfs_lookup,
}

-- What `strrchr(path, '/')` splits a path into: what stands before the last slash, and what behind it.
pub split_last : List ℕ → Option (List ℕ × List ℕ)
split_last [] = none
split_last (c ∷ path) = elim (split_last path) [
  | some (before, behind) ↦ some (c ∷ before, behind)
  | none ↦ if c == slash then some ([], path) else none
]

-- The path of the parent: the root if the last slash is the first byte.
abbrev pub parent_path : List ℕ → List ℕ
parent_path [] = slash ∷ []
parent_path (c ∷ before) = c ∷ before

-- What a look-up of the parent comes to, and the last name: at most NAME_MAX bytes, the terminator behind them taken for
-- granted.
pub lookup_parent : Ops → Vfs → (start : ℕ) → (path : List ℕ) → Option Result × List ℕ
lookup_parent ops s start path = elim (split_last path) [
  | none ↦
      let cwd = if start == 0 then s.cwd else start in
      (some (found cwd (vnode_get s cwd)), take name_max path)
  | some (before, behind) ↦ (vfs_lookup ops s start (parent_path before), take name_max behind)
]

-- The operations of vnodes that vfs_open uses, each with whether it is there; `open` is an error number or nothing.
pub record OpenOps : Type 0 where
  pub ops : Ops
  pub has_create : ℕ → Bool
  pub create : Vfs → (dir : ℕ) → (name : List ℕ) → (mode : ℕ) → Result
  pub open_error : Vfs → (vn flags mode : ℕ) → Option ℕ
  pub truncate : Vfs → (vn : ℕ) → Vfs
  pub is_dir : ℕ → Bool
  pub is_reg : ℕ → Bool

-- O_CREAT, O_EXCL, O_TRUNC and O_DIRECTORY
abbrev pub o_creat : ℕ → Bool
o_creat flags = test_bit flags 6

abbrev pub o_excl : ℕ → Bool
o_excl flags = test_bit flags 7

abbrev pub o_trunc : ℕ → Bool
o_trunc flags = test_bit flags 9

abbrev pub o_directory : ℕ → Bool
o_directory flags = test_bit flags 16

-- file_alloc, which takes a reference of its own, and the reference of the lookup given back
pub take_file : (has_node : Bool) → (vn : ℕ) → Vfs → Result
take_file true vn s = found vn (vnode_put (vnode_get s vn) vn)
take_file false vn s = fails enomem (vnode_put s vn)

module _ (o : OpenOps) where
  -- The new file is made in its parent.
  pub create_in : (name : List ℕ) → (mode : ℕ) → Result → Result
  create_in name mode (fails e s) = fails e s
  create_in name mode (found parent s) =
      if not (o.has_create parent)
      then fails eacces (vnode_put s parent)
      else move_to parent (o.create s parent name mode)

  -- the rest of vfs_open, from the vnode on
  pub open_vnode : (has_node : Bool) → (flags mode : ℕ) → Result → Result
  open_vnode has_node flags mode (fails e s) = fails e s
  open_vnode has_node flags mode (found vn s) =
      if o_directory flags && not (o.is_dir vn)
      then fails enotdir (vnode_put s vn)
      else elim (o.open_error s vn flags mode) [
        | some e ↦ fails e (vnode_put s vn)
        | none ↦ take_file has_node vn (if o_trunc flags && o.is_reg vn then o.truncate s vn else s)
      ]

  pub after_parent : (mode : ℕ) → Option Result × List ℕ → Option Result
  unfolding create_in
  after_parent mode (none, name) = none
  after_parent mode (some r, name) = some (create_in name mode r)

  -- The vnode to open: the one looked up, or one made if there is none and O_CREAT is set.
  pub make_or_take : Vfs → (path : List ℕ) → (flags mode : ℕ) → Result → Option Result
  unfolding after_parent
  make_or_take s0 path flags mode (found vn s) =
      some (if o_excl flags && o_creat flags then fails eexist (vnode_put s vn) else found vn s)
  make_or_take s0 path flags mode (fails e s) =
      if e == enoent && o_creat flags
      then after_parent mode (lookup_parent o.ops s s.root path)
      else some (fails e s)

  -- `found vn s` stands for the open file, which has one reference to `vn`.
  pub vfs_open : Vfs → (path : List ℕ) → (has_node : Bool) → (flags mode : ℕ) → Option Result
  unfolding make_or_take open_vnode
  vfs_open s path has_node flags mode = elim (vfs_lookup o.ops s s.root path) [
    | none ↦ none
    | some r ↦ elim (make_or_take s path flags mode r) [
      | none ↦ none
      | some r' ↦ some (open_vnode has_node flags mode r')
    ]
  ]
