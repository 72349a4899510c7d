-- ===== src/Vfs/Refs.antt =====
-- The references that a lookup takes and gives back.
use my_unix.Base.{
  true, ℕ, ◌+◌, ◌<◌, ◌≡◌, refl, ◌∙◌, ap, ◌≢◌, inl, inr, not, if◌then◌else◌, ◌==◌, ltb, List, [],
  ◌∷◌, length, some, arith, Bool-cases,
}
use my_unix.Base.Errno.{enoent}
use my_unix.Vfs.{
  Vfs, Ops, Result, found, fails, atomic_mod, vnode_get, vnode_put, same_name, dot, dot_dot,
  name_max, cross_mount, move_to, step, take_component, finish, vfs_lookup,
}
use my_unix.Vfs.Path.{walk, walk_on, components, origin, vfs_lookup-walk}

-- `refs` with one more for `v`
abbrev pub plus_one : (ℕ → ℕ) → ℕ → ℕ → ℕ
plus_one refs v u = refs u + (if u == v then 1 else 0)

-- In `s` there are the references `base`, and one more to `v`, which is a vnode; mounts and covers are those of `s0`.
pub record Holds (s0 s : Vfs) (base : ℕ → ℕ) (v : ℕ) : Type 0 where
  pub vnode : v ≢ 0
  pub held : (u : ℕ) → s.refs u ≡ plus_one base v u
  pub same_mounts : s.mounted_root ≡ s0.mounted_root
  pub same_covers : s.covered ≡ s0.covered
  pub same_root : s.root ≡ s0.root

-- There are just the references `base`.
pub record Free (s0 s : Vfs) (base : ℕ → ℕ) : Type 0 where
  pub none_held : (u : ℕ) → s.refs u ≡ base u
  pub same_mounts : s.mounted_root ≡ s0.mounted_root
  pub same_covers : s.covered ≡ s0.covered
  pub same_root : s.root ≡ s0.root

abbrev pub Settled : Vfs → (ℕ → ℕ) → Result → Type 0
Settled s0 base (found v s) = Holds s0 s base v
Settled s0 base (fails e s) = Free s0 s base

-- What settles from a state with the references `base` settles from the first state.
pub Settled-trans :
    (s0 s : Vfs) (base : ℕ → ℕ) (r : Result)
    → Free s0 s base
    → Settled s s.refs r
    → Settled s0 base r
Settled-trans s0 s base (found v s') f h = record {
  vnode = h.vnode;
  held = λ u. ground (arith, h.held u, f.none_held u);
  same_mounts = h.same_mounts ∙ f.same_mounts;
  same_covers = h.same_covers ∙ f.same_covers;
  same_root = h.same_root ∙ f.same_root;
}
Settled-trans s0 s base (fails e s') f h = record {
  none_held = λ u. h.none_held u ∙ f.none_held u;
  same_mounts = h.same_mounts ∙ f.same_mounts;
  same_covers = h.same_covers ∙ f.same_covers;
  same_root = h.same_root ∙ f.same_root;
}

-- An operation `lookup` gives back the vnode with a reference of its own, or fails and takes none; it makes no mounts. No
-- count may be about to wrap.
pub record IsLookup (ops : Ops) : Type 0 where
  pub lookup_lem :
      (s : Vfs) (dir : ℕ) (name : List ℕ)
      → dir ≢ 0
      → ((u : ℕ) → s.refs u + 1 < atomic_mod)
      → Settled s s.refs (ops.lookup s dir name)

module _ (s0 s : Vfs) (base : ℕ → ℕ) (small : (u : ℕ) → base u + 2 < atomic_mod) where
  pub get-Holds : (v : ℕ) → v ≢ 0 → Free s0 s base → Holds s0 (vnode_get s v) base v
  unfolding vnode_get
  get-Holds v nz f = record {
    vnode = nz;
    held = λ u. ground (arith, f.none_held u, small u);
    same_mounts = ground (arith, f.same_mounts);
    same_covers = ground (arith, f.same_covers);
    same_root = ground (arith, f.same_root);
  }

  pub held-small : (v : ℕ) → Holds s0 s base v → (u : ℕ) → s.refs u + 1 < atomic_mod
  held-small v h u = ground (arith, h.held u, small u)

  pub put-Free : (v : ℕ) → Holds s0 s base v → Free s0 (vnode_put s v) base
  unfolding vnode_put
  put-Free v h = record {
    none_held = λ u. ground (arith, h.held u, h.held v, h.vnode, small u, small v);
    same_mounts = ground (arith, h.same_mounts, h.vnode);
    same_covers = ground (arith, h.same_covers, h.vnode);
    same_root = ground (arith, h.same_root, h.vnode);
  }

module _ (s0 : Vfs) (base : ℕ → ℕ) (small : (u : ℕ) → base u + 2 < atomic_mod) where
  cross-Holds :
      (s : Vfs) (v : ℕ) → Holds s0 s base v → Holds s0 (cross_mount s v).1 base (cross_mount s v).0
  unfolding cross_mount
  cross-Holds s v h = elim (Bool-cases (s.mounted_root v == 0)) [
    | inl plain ↦ rw plain h
    | inr mount ↦ rw mount (
        get-Holds s0 (vnode_put s v) base small (s.mounted_root v) (ground arith)
          (put-Free s0 s base small v h))
  ]

  pub move-Settled :
      (s : Vfs) (current : ℕ) (r : Result)
      → Holds s0 s base current
      → Settled s s.refs r
      → Settled s0 base (move_to current r)
  unfolding move_to vnode_put
  move-Settled s current (found child s1) h k = record {
    vnode = k.vnode;
    held = λ u. ground (
      arith,
      k.held u,
      k.held current,
      h.held u,
      h.held current,
      h.vnode,
      small u,
      small current,
    );
    same_mounts = ground (arith, h.vnode, h.same_mounts, k.same_mounts);
    same_covers = ground (arith, h.vnode, h.same_covers, k.same_covers);
    same_root = ground (arith, h.vnode, h.same_root, k.same_root);
  }
  move-Settled s current (fails e s1) h k = record {
    none_held = λ u. ground (
      arith,
      k.none_held u,
      k.none_held current,
      h.held u,
      h.held current,
      h.vnode,
      small u,
      small current,
    );
    same_mounts = ground (arith, h.vnode, h.same_mounts, k.same_mounts);
    same_covers = ground (arith, h.vnode, h.same_covers, k.same_covers);
    same_root = ground (arith, h.vnode, h.same_root, k.same_root);
  }

  finish-Settled : (r : Result) → Settled s0 base r → Settled s0 base (finish r)
  unfolding finish
  finish-Settled (fails e s) h = h
  finish-Settled (found v s) h = cross-Holds s v h

  module _ (ops : Ops) (lawful : IsLookup ops) where
    parent-Settled :
        (s : Vfs) (v : ℕ)
        → Holds s0 s base v
        → Settled s0 base (
            if not (s.covered v == 0)
            then found (s.covered v) (vnode_get (vnode_put s v) (s.covered v))
            else if ops.has_lookup v
            then move_to v (ops.lookup s v dot_dot)
            else found v s)
    parent-Settled s v h = elim (Bool-cases (s.covered v == 0)) [
      | inr cover ↦ rw cover (
          get-Holds s0 (vnode_put s v) base small (s.covered v) (ground arith)
            (put-Free s0 s base small v h))
      | inl plain ↦ elim (Bool-cases (ops.has_lookup v)) [
        | inr lacks ↦ rw (plain, lacks) h
        | inl has ↦
            rw (plain, has)
              (move-Settled s v (ops.lookup s v dot_dot) h
                (lawful.lookup_lem s v dot_dot h.vnode (held-small s0 s base small v h)))
      ]
    ]

    step-Settled :
        (s : Vfs) (v : ℕ) (component : List ℕ)
        → Holds s0 s base v
        → Settled s0 base (step ops s v component)
    unfolding step
    step-Settled s v component h = elim (Bool-cases (same_name component dot)) [
      | inl here ↦ rw here h
      | inr other ↦ elim (Bool-cases (same_name component dot_dot)) [
        | inl up ↦ rw (other, up) (parent-Settled s v h)
        | inr name ↦ elim (Bool-cases (ops.has_lookup v)) [
          | inr lacks ↦ rw (other, name, lacks) (put-Free s0 s base small v h)
          | inl has ↦
              rw (other, name, has)
                (move-Settled s v (ops.lookup s v component) h
                  (lawful.lookup_lem s v component h.vnode (held-small s0 s base small v h)))
        ]
      ]
    ]

    take-Settled :
        (s : Vfs) (v : ℕ) (component : List ℕ)
        → Holds s0 s base v
        → Settled s0 base (take_component ops s v component)
    unfolding take_component
    take-Settled s v component h = elim (Bool-cases (ltb name_max (length component))) [
      | inl long ↦ rw long (put-Free s0 s base small v h)
      | inr short ↦
          rw short
            (step-Settled (cross_mount s v).1 (cross_mount s v).0 component (cross-Holds s v h))
    ]

    walk-Settled :
        (s : Vfs) (v : ℕ) (cs : List (List ℕ))
        → Holds s0 s base v
        → Settled s0 base (walk ops s v cs)
    unfolding walk
    walk-Settled s v [] h = h
    walk-Settled s v (c ∷ cs) h =
        rest (take_component ops s v c) (take-Settled s v c h)
          (λ s' v' h'. walk-Settled s' v' cs h')
      where
        rest :
            (r : Result)
            → Settled s0 base r
            → ((s' : Vfs) (v' : ℕ) → Holds s0 s' base v' → Settled s0 base (walk ops s' v' cs))
            → Settled s0 base (walk_on r (λ next s'. walk ops s' next cs))
        rest (fails e s') k more = k
        rest (found next s') k more = more s' next k

-- vfs_lookup ends: it gives a vnode with one reference more than before, and every other count is as before, or it fails
-- and every count is as before, if the lookups of the file systems do so.
pub vfs_lookup-Settled :
    (ops : Ops) (s : Vfs) (start : ℕ) (path : List ℕ)
    → IsLookup ops
    → ((u : ℕ) → s.refs u + 2 < atomic_mod)
    → (r : Result) × (vfs_lookup ops s start path ≡ some r) × Settled s s.refs r
vfs_lookup-Settled ops s start path lawful small = elim (Bool-cases (origin s start path == 0)) [
  | inl null ↦ (
    fails enoent s,
    vfs_lookup-walk ops s start path ∙ rw null refl,
    record { none_held = λ u. refl; same_mounts = refl; same_covers = refl; same_root = refl },
  )
  | inr there ↦
      let v : ℕ = origin s start path in
      let cs = components path in
      (
        finish (walk ops (vnode_get s v) v cs),
        vfs_lookup-walk ops s start path ∙ rw there refl,
        finish-Settled s s.refs small (walk ops (vnode_get s v) v cs) (
            walk-Settled s s.refs small ops lawful (vnode_get s v) v cs (
              get-Holds s s s.refs small v (ground arith) (record {
                none_held = λ u. refl;
                same_mounts = refl;
                same_covers = refl;
                same_root = refl;
              }))),
      )
]

-- A vnode with a reference of its own.
pub get-own :
    (s : Vfs) (v : ℕ)
    → v ≢ 0
    → ((u : ℕ) → s.refs u + 1 < atomic_mod)
    → Holds s (vnode_get s v) s.refs v
unfolding vnode_get
get-own s v nz small = record {
  vnode = nz;
  held = λ u. ground (arith, small u);
  same_mounts = ground arith;
  same_covers = ground arith;
  same_root = ground arith;
}

pub same_name-eq : (a b : List ℕ) → same_name a b ≡ true → a ≡ b
unfolding same_name
same_name-eq [] [] h = refl
same_name-eq [] (y ∷ b) h = absurd (ground arith)
same_name-eq (x ∷ a) [] h = absurd (ground arith)
same_name-eq (x ∷ a) (y ∷ b) h =
    let e : x ≡ y = ground arith in rw e (ap (λ l. y ∷ l) (same_name-eq a b (ground arith)))
