-- ===== src/Vfs/Tests.antt =====
-- A file system with one file, and looking up and opening in it.
use my_unix.Base.{
  ◌==◌, ℕ, ◌+◌, ◌<◌, ◌≡◌, refl, ◌≢◌, inl, inr, true, false, if◌then◌else◌, List, [], ◌∷◌, none,
  some, arith, Bool-cases,
}
use my_unix.Base.Errno.{enoent, eacces}
use my_unix.Vfs.{Vfs, Ops, Result, found, fails, atomic_mod, vnode_get, same_name}
use my_unix.Vfs.Refs.{Settled, Free, IsLookup}
use my_unix.Vfs.Open.{OpenOps, vfs_open}
use my_unix.Vfs.Open.Laws.{IsLawful, vfs_open-Settled}

-- `x`, the vnode 5, is in every directory.
abbrev one_file : Ops
one_file = record {
  has_lookup = λ v. true;
  lookup =
      λ s dir name. if same_name name (b'x' ∷ []) then found 5 (vnode_get s 5) else fails enoent s;
}

abbrev start_state : Vfs
start_state = record {
  refs = λ v. 1;
  released = [];
  mounted_root = λ v. if v == 2 then 3 else 0;
  covered = λ v. if v == 3 then 2 else 0;
  root = 2;
  cwd = 2;
}

nothing_held : (s : Vfs) → Free s s s.refs
nothing_held s = record {
  none_held = λ u. refl;
  same_mounts = refl;
  same_covers = refl;
  same_root = refl;
}

one_file-IsLookup : IsLookup one_file
unfolding vnode_get
one_file-IsLookup = record { lookup_lem = gives }
  where
    gives :
        (s : Vfs) (dir : ℕ) (name : List ℕ)
        → dir ≢ 0
        → ((u : ℕ) → s.refs u + 1 < atomic_mod)
        → Settled s s.refs
            (if same_name name (b'x' ∷ []) then found 5 (vnode_get s 5) else fails enoent s)
    gives s dir name nz small = elim (Bool-cases (same_name name (b'x' ∷ []))) [
      | inr other ↦ rw other (nothing_held s)
      | inl x ↦ rw x (record {
        vnode = ground arith;
        held = λ u. ground (arith, small u);
        same_mounts = refl;
        same_covers = refl;
        same_root = refl;
      })
    ]

-- No file can be made in it, and a file is emptied without a change that a lookup sees.
abbrev one_file_open : OpenOps
one_file_open = record {
  ops = one_file;
  has_create = λ v. true;
  create = λ s dir name mode. fails eacces s;
  open_error = λ s vn flags mode. none;
  truncate = λ s vn. s;
  is_dir = λ v. if v == 5 then false else true;
  is_reg = λ v. v == 5;
}

one_file_open-IsLawful : IsLawful one_file_open
one_file_open-IsLawful = record {
  lookups = one_file-IsLookup;
  create_lem = λ s dir name mode nz small. nothing_held s;
  truncate_lem = λ s vn. nothing_held s;
}

abbrev slash_x : List ℕ
slash_x = b'/' ∷ b'x' ∷ []

vfs_open-Settled_example :
    (r : Result) × (vfs_open one_file_open start_state slash_x true 512 0 ≡ some r)
    × Settled start_state start_state.refs r
vfs_open-Settled_example =
    vfs_open-Settled one_file_open start_state slash_x true 512 0 one_file_open-IsLawful
      (ground arith) (λ u. omega arith)
