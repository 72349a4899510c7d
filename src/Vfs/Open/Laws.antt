-- ===== src/Vfs/Open/Laws.antt =====
-- The references that opening a file takes and gives back.
use my_unix.Base.{
  ℕ, ◌+◌, ◌<◌, ◌≡◌, refl, ◌∙◌, sym, ◌≢◌, inl, inr, Bool, true, false, not, ◌&&◌, if◌then◌else◌,
  ◌==◌, List, some, take, arith, Bool-cases, Option-cases,
}
use my_unix.Base.Errno.{enoent, eexist}
use my_unix.Vfs.{Vfs, Result, found, fails, atomic_mod, name_max, vnode_get, vnode_put}
use my_unix.Vfs.Refs.{
  Settled, Holds, Free, IsLookup, vfs_lookup-Settled, get-Holds, held-small, put-Free, move-Settled,
  Settled-trans,
}
use my_unix.Vfs.Open.{
  OpenOps, o_creat, o_excl, o_trunc, o_directory, split_last, parent_path, lookup_parent, take_file,
  create_in, after_parent, open_vnode, make_or_take, vfs_open,
}

-- What the file systems keep to: a lookup or a create gives back a vnode with a reference of its own, or fails and takes
-- none; truncating takes none.
pub record IsLawful (o : OpenOps) : Type 0 where
  pub lookups : IsLookup o.ops
  pub create_lem :
      (s : Vfs) (dir : ℕ) (name : List ℕ) (mode : ℕ)
      → dir ≢ 0
      → ((u : ℕ) → s.refs u + 1 < atomic_mod)
      → Settled s s.refs (o.create s dir name mode)
  pub truncate_lem : (s : Vfs) (vn : ℕ) → Free s (o.truncate s vn) s.refs

module _ (o : OpenOps) (lawful : IsLawful o) (s0 : Vfs) (base : ℕ → ℕ)
    (small : (u : ℕ) → base u + 2 < atomic_mod) where
  take_file-Settled :
      (has_node : Bool) (vn : ℕ) (s : Vfs)
      → Holds s0 s base vn
      → Settled s0 base (take_file has_node vn s)
  unfolding take_file vnode_get vnode_put
  take_file-Settled true vn s h = record {
    vnode = h.vnode;
    held = λ u. ground (arith, h.held u, h.held vn, h.vnode, small u, small vn);
    same_mounts = ground (arith, h.same_mounts, h.vnode);
    same_covers = ground (arith, h.same_covers, h.vnode);
    same_root = ground (arith, h.same_root, h.vnode);
  }
  take_file-Settled false vn s h = put-Free s0 s base small vn h

  truncate-Holds :
      (b : Bool) (vn : ℕ) (s : Vfs)
      → Holds s0 s base vn
      → Holds s0 (if b then o.truncate s vn else s) base vn
  truncate-Holds false vn s h = h
  truncate-Holds true vn s h =
      let f = lawful.truncate_lem s vn in
      record {
        vnode = h.vnode;
        held = λ u. f.none_held u ∙ h.held u;
        same_mounts = f.same_mounts ∙ h.same_mounts;
        same_covers = f.same_covers ∙ h.same_covers;
        same_root = f.same_root ∙ h.same_root;
      }

  open_vnode-Settled :
      (has_node : Bool) (flags mode : ℕ) (r : Result)
      → Settled s0 base r
      → Settled s0 base (open_vnode o has_node flags mode r)
  unfolding open_vnode
  open_vnode-Settled has_node flags mode (fails e s) h = h
  open_vnode-Settled has_node flags mode (found vn s) h =
      elim (Bool-cases (o_directory flags && not (o.is_dir vn))) [
        | inl no_dir ↦ rw no_dir (put-Free s0 s base small vn h)
        | inr good ↦ elim (Option-cases (o.open_error s vn flags mode)) [
          | inr (e, failed) ↦ rw (good, failed) (put-Free s0 s base small vn h)
          | inl fine ↦
              rw (good, fine)
                (take_file-Settled has_node vn _
                  (truncate-Holds (o_trunc flags && o.is_reg vn) vn s h))
        ]
      ]

  create_in-Settled :
      (name : List ℕ) (mode : ℕ) (r : Result)
      → Settled s0 base r
      → Settled s0 base (create_in o name mode r)
  unfolding create_in
  create_in-Settled name mode (fails e s) h = h
  create_in-Settled name mode (found parent s) h = elim (Bool-cases (o.has_create parent)) [
    | inr lacks ↦ rw lacks (put-Free s0 s base small parent h)
    | inl has ↦ rw has (
        move-Settled s0 base small s parent (o.create s parent name mode) h
          (lawful.create_lem s parent name mode h.vnode (held-small s0 s base small parent h)))
  ]

  after_parent-Settled :
      (mode : ℕ) (name : List ℕ) (r : Result)
      → Settled s0 base r
      → (r' : Result) × (after_parent o mode (some r, name) ≡ some r') × Settled s0 base r'
  unfolding after_parent
  after_parent-Settled mode name r h =
      (create_in o name mode r, refl, create_in-Settled name mode r h)

  lookup_parent-Settled :
      (s : Vfs) (start : ℕ) (path : List ℕ)
      → start ≢ 0
      → Free s0 s base
      → (r : Result) × (name : List ℕ) × (lookup_parent o.ops s start path ≡ (some r, name))
        × Settled s0 base r
  unfolding lookup_parent
  lookup_parent-Settled s start path nz f = elim (Option-cases (split_last path)) [
    | inl none_there ↦ (
      found start (vnode_get s start),
      take name_max path,
      rw (lookup_parent, none_there) (ground arith),
      get-Holds s0 s base small start nz f,
    )
    | inr ((before, behind), cut) ↦
        let (r, e, h) =
          vfs_lookup-Settled o.ops s start (parent_path before) lawful.lookups
            (λ u. ground (arith, f.none_held u, small u)) in
        (r, take name_max behind, rw (lookup_parent, cut, e) refl, Settled-trans s0 s base r f h)
  ]

  make_or_take-Settled :
      (s : Vfs) (path : List ℕ) (flags mode : ℕ) (r : Result)
      → s0.root ≢ 0
      → Settled s0 base r
      → (r' : Result) × (make_or_take o s path flags mode r ≡ some r') × Settled s0 base r'
  unfolding make_or_take
  make_or_take-Settled s path flags mode (found vn s1) nz h =
      elim (Bool-cases (o_excl flags && o_creat flags)) [
        | inl excluded ↦
            (fails eexist (vnode_put s1 vn), rw excluded refl, put-Free s0 s1 base small vn h)
        | inr taken ↦ (found vn s1, rw taken refl, h)
      ]
  make_or_take-Settled s path flags mode (fails e s1) nz h =
      elim (Bool-cases (e == enoent && o_creat flags)) [
        | inr failed ↦ (fails e s1, rw failed refl, h)
        | inl made ↦
            let (r, name, there, k) =
              lookup_parent-Settled s1 s1.root path (λ z. nz (sym h.same_root ∙ z)) h in
            let (r', result, k') = after_parent-Settled mode name r k in
            (r', rw (made, there) result, k')
      ]

-- vfs_open ends: it gives an open file that has one reference more to its vnode than before, every other count being as
-- before, or it fails and every count is as before, if there is a root and the operations of the file systems do so.
pub vfs_open-Settled :
    (o : OpenOps) (s : Vfs) (path : List ℕ) (has_node : Bool) (flags mode : ℕ)
    → IsLawful o
    → s.root ≢ 0
    → ((u : ℕ) → s.refs u + 2 < atomic_mod)
    → (r : Result) × (vfs_open o s path has_node flags mode ≡ some r) × Settled s s.refs r
unfolding vfs_open open_vnode
vfs_open-Settled o s path has_node flags mode lawful nz small =
    let (r, looked_up, h) = vfs_lookup-Settled o.ops s s.root path lawful.lookups small in
    let (r', made, h') = make_or_take-Settled o lawful s s.refs small s path flags mode r nz h in
    (
      open_vnode o has_node flags mode r',
      rw (vfs_open, looked_up, made) refl,
      open_vnode-Settled o lawful s s.refs small has_node flags mode r' h',
    )
