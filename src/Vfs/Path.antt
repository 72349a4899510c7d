-- ===== src/Vfs/Path.antt =====
-- vfs_lookup walks the components of a path in turn.
use my_unix.Base.{
  ℕ, zero, suc, ◌+◌, ◌<◌, ◌≡◌, refl, ◌∙◌, sym, ap, inl, inr, Bool, false, not, if◌then◌else◌, ◌==◌,
  List, [], ◌∷◌, length, Option, none, some, arith, Bool-cases,
}
use my_unix.Base.Errno.{enoent}
use my_unix.Vfs.{
  Vfs, Ops, Result, found, fails, slash, split, take_component, finish, lookup_loop, start_of,
  vnode_get, vfs_lookup, after_split, go_on,
}

-- one byte more in front of the first piece
abbrev extend : ℕ → List (List ℕ) → List (List ℕ)
extend c [] = []
extend c (p ∷ ps) = (c ∷ p) ∷ ps

-- The pieces between the slashes, the empty ones too.
pub pieces : List ℕ → List (List ℕ)
pieces [] = [] ∷ []
pieces (c ∷ path) = if c == slash then [] ∷ pieces path else extend c (pieces path)

abbrev pub drop_empty : List (List ℕ) → List (List ℕ)
drop_empty [] = []
drop_empty ([] ∷ ps) = drop_empty ps
drop_empty ((c ∷ p) ∷ ps) = (c ∷ p) ∷ drop_empty ps

-- The components of a path: its pieces that are not empty.
abbrev pub components : List ℕ → List (List ℕ)
components path = drop_empty (pieces path)

split-none : (path : List ℕ) → (split path).1 ≡ none → (split path).0 ≡ path
unfolding split
split-none [] h = refl
split-none (c ∷ path) h = elim (Bool-cases (c == slash)) [
  | inl cut ↦ absurd (ground (arith, rw cut at h))
  | inr in_piece ↦ rw in_piece (ap (λ p. c ∷ p) (split-none path (rw in_piece at h)))
]

pieces-none : (path : List ℕ) → (split path).1 ≡ none → pieces path ≡ path ∷ []
unfolding split pieces
pieces-none [] h = refl
pieces-none (c ∷ path) h = elim (Bool-cases (c == slash)) [
  | inl cut ↦ absurd (ground (arith, rw cut at h))
  | inr in_piece ↦ rw (in_piece, pieces-none path (rw in_piece at h)) refl
]

pieces-some :
    (path rest : List ℕ)
    → (split path).1 ≡ some rest
    → (pieces path ≡ (split path).0 ∷ pieces rest) × (length rest < length path)
unfolding split pieces
pieces-some [] rest h = absurd (ground arith)
pieces-some (c ∷ path) rest h = elim (Bool-cases (c == slash)) [
  | inl cut ↦ let e : path ≡ rest = ground (arith, rw cut at h) in rw (cut, e) (refl, omega arith)
  | inr in_piece ↦
      let (e, l) = pieces-some path rest (rw in_piece at h) in
      rw (in_piece, e) (refl, omega (arith, l))
]

-- The path begins with a slash.
abbrev pub is_absolute : List ℕ → Bool
is_absolute [] = false
is_absolute (c ∷ path) = c == slash

-- Where a lookup starts: at the root, at `start`, or in the current directory.
abbrev pub origin : Vfs → (start : ℕ) → (path : List ℕ) → ℕ
origin s start path = if is_absolute path then s.root else if not (start == 0) then start else s.cwd

start_of-from :
    (s : Vfs) (start : ℕ) (path : List ℕ) → origin s start path ≡ (start_of s start path).0
unfolding start_of
start_of-from s start [] = ground arith
start_of-from s start (c ∷ path) = ground arith

-- The slash in front only adds an empty piece.
start_of-components :
    (s : Vfs) (start : ℕ) (path : List ℕ) → components (start_of s start path).1 ≡ components path
unfolding start_of pieces
start_of-components s start [] = refl
start_of-components s start (c ∷ path) = elim (Bool-cases (c == slash)) [
  | inl absolute ↦ rw absolute refl
  | inr relative ↦ rw relative (rw relative refl)
]

-- what follows a component
abbrev pub walk_on : Result → (ℕ → Vfs → Result) → Result
walk_on (fails e s) more = fails e s
walk_on (found next s) more = more next s

walk_on-found : (r : Result) → walk_on r found ≡ r
walk_on-found (fails e s) = refl
walk_on-found (found next s) = refl

-- The rest of the round, in step with the walk.
one :
    (loop : ℕ → Vfs → Option Result) (more : ℕ → Vfs → Result) (r : Result)
    → ((next : ℕ) (s : Vfs) → loop next s ≡ some (finish (more next s)))
    → go_on r loop ≡ some (finish (walk_on r more))
unfolding finish
one loop more (fails e s) h = refl
one loop more (found next s) h = h next s

module _ (ops : Ops) where
  -- The components in turn, the first failure ending the walk.
  unfoldable pub walk : Vfs → ℕ → List (List ℕ) → Result
  walk s current [] = found current s
  walk s current (c ∷ cs) = walk_on (take_component ops s current c) (λ next s'. walk s' next cs)

  walk-one :
      (s : Vfs) (current : ℕ) (c : List ℕ)
      → walk s current (c ∷ []) ≡ take_component ops s current c
  unfolding walk
  walk-one s current c = walk_on-found (take_component ops s current c)

  lookup_loop-walk :
      (fuel : ℕ) (s : Vfs) (current : ℕ) (path : List ℕ)
      → length path < fuel
      → lookup_loop ops fuel s current path ≡ some (finish (walk s current (components path)))
  unfolding lookup_loop walk pieces
  lookup_loop-walk zero s current path h = absurd (omega arith)
  lookup_loop-walk (suc fuel) s current [] h = refl
  lookup_loop-walk (suc fuel) s current (c ∷ path) h =
      round (split (c ∷ path)) refl (lookup_loop-walk fuel)
    where
      round :
          (r : List ℕ × Option (List ℕ))
          → split (c ∷ path) ≡ r
          → ((s : Vfs) (current : ℕ) (path : List ℕ)
              → length path < fuel
              → lookup_loop ops fuel s current path
                ≡ some (finish (walk s current (components path))))
          → after_split r
              (take_component ops s current)
              (λ rest next s'. lookup_loop ops fuel s' next rest)
              current
              s
            ≡ some (finish (walk s current (drop_empty (pieces (c ∷ path)))))
      round (piece, none) e ih =
          let whole : piece ≡ c ∷ path =
            sym (ap (λ r. r.0) e) ∙ split-none (c ∷ path) (ap (λ r. r.1) e) in
          rw (pieces-none (c ∷ path) (ap (λ r. r.1) e), whole, walk-one s current (c ∷ path)) refl
      round ([], some rest) e ih =
          let (p, l) = pieces-some (c ∷ path) rest (ap (λ r. r.1) e) in
          rw (p, ap (λ r. r.0) e) (ih s current rest (omega (arith, l, h)))
      round (b ∷ piece, some rest) e ih =
          let (p, l) = pieces-some (c ∷ path) rest (ap (λ r. r.1) e) in
          rw (p, ap (λ r. r.0) e)
            (one (λ next s'. lookup_loop ops fuel s' next rest)
              (λ next s'. walk s' next (components rest)) (take_component ops s current (b ∷ piece))
              (λ next s'. ih s' next rest (omega (arith, l, h))))

  pub vfs_lookup-walk :
      (s : Vfs) (start : ℕ) (path : List ℕ)
      → vfs_lookup ops s start path
        ≡ some (
            let current = origin s start path in
            if current == 0
            then fails enoent s
            else finish (walk (vnode_get s current) current (components path)))
  unfolding vfs_lookup
  vfs_lookup-walk s start path =
      rw (start_of-from s start path) (elim (Bool-cases ((start_of s start path).0 == 0)) [
        | inl null ↦ rw null refl
        | inr there ↦
            rw (there, ← start_of-components s start path)
              (lookup_loop-walk (length (start_of s start path).1 + 1) _ _ (start_of s start path).1
                (omega arith))
      ])
