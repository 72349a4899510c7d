-- ===== src/Vmm/Regions.antt =====
-- What creating and destroying a region does to the search for an address.
use my_unix.Base.{
  ℕ, ◌+◌, ◌≡◌, ◌≤◌, ◌<◌, refl, true, false, if◌then◌else◌, ◌==◌, List, [], ◌∷◌, ◌++◌, Option, none,
  some, arith, ◌≢◌, Bool-cases, inl, inr, length, length-append,
}
use my_unix.Base.Word.{word_mod, page_size, add64, sub64}
use my_unix.Vmm.{Vma, Space, covers, find_in, find_vma, new_vma, create_vma, del_node, destroy_vma}

-- No region of the list has this address.
abbrev pub Absent : List Vma → ℕ → Type 0
Absent [] node = Unit
Absent (v ∷ vs) node = (v.node ≢ node) × Absent vs node

-- `n_vmas` counts the list, and is far from the end of its range.
pub record Counted (s : Space) : Type 0 where
  pub count : s.n_vmas ≡ length s.vma_list
  pub small : s.n_vmas + 1 < word_mod

-- the first region of `o`, or else `v` if it covers the address
pub or_else : Option Vma → Vma → ℕ → Option Vma
or_else (some w) v addr = some w
or_else none v addr = if covers v addr then some v else none

find_in-append :
    (vs : List Vma) (v : Vma) (addr : ℕ)
    → find_in (vs ++ (v ∷ [])) addr ≡ or_else (find_in vs addr) v addr
unfolding find_in or_else
find_in-append [] v addr = refl
find_in-append (w ∷ vs) v addr = elim (Bool-cases (covers w addr)) [
  | inl here ↦ rw here refl
  | inr past ↦ rw past (find_in-append vs v addr)
]

del_node-append :
    (vs : List Vma) (v : Vma) → Absent vs v.node → del_node (vs ++ (v ∷ [])) v.node ≡ some vs
unfolding del_node
del_node-append [] v h = let e : (v.node == v.node) ≡ true = ground arith in rw e refl
del_node-append (w ∷ vs) v (ne, h) =
    let e : (w.node == v.node) ≡ false = ground arith in rw (e, del_node-append vs v h) refl

or_else-some :
    (o : Option Vma) (v : Vma) (addr : ℕ) → covers v addr ≡ true → or_else o v addr ≢ none
unfolding or_else
or_else-some none v addr h = rw h (ground arith)
or_else-some (some w) v addr h = ground arith

new_vma-covers :
    (node start size prot map_flags addr : ℕ)
    → start + size + page_size ≤ word_mod
    → start ≤ addr
    → addr < start + size
    → covers (new_vma node start size prot map_flags) addr ≡ true
new_vma-covers node start size prot map_flags addr h l m = ground arith

destroy-last :
    (s : Space) (v : Vma)
    → Counted s
    → Absent s.vma_list v.node
    → destroy_vma (record s { vma_list = s.vma_list ++ (v ∷ []); n_vmas = add64 s.n_vmas 1 }) v.node
      ≡ some s
unfolding destroy_vma
destroy-last s v c h =
    let same_count : sub64 (add64 s.n_vmas 1) 1 ≡ s.n_vmas = omega (arith, c.small) in
    rw (destroy_vma, del_node-append s.vma_list v h, same_count) refl

module _ (s : Space) (node start size prot map_flags : ℕ) where
  abbrev pub after : Space
  after = (create_vma (some node) s start size prot map_flags).1

  -- vmm_create_vma, with memory at `node` for its vma_t that is no region's, puts a region behind the others: every
  -- address that lay in a region is found there as before, every byte of the range asked for lies in a region, the
  -- count stays right, and destroying the new region brings the address space back. (The range ends a page or more
  -- below 2^64.)
  create_vma_lem :
      Counted s
      → Absent s.vma_list node
      → start + size + page_size ≤ word_mod
      → ((addr : ℕ)
          → find_vma after addr
            ≡ or_else (find_vma s addr) (new_vma node start size prot map_flags) addr)
        × ((addr : ℕ) → start ≤ addr → addr < start + size → find_vma after addr ≢ none)
        × (after.n_vmas ≡ length after.vma_list)
        × (destroy_vma after node ≡ some s)
  unfolding create_vma
  create_vma_lem c h fits =
      let v = new_vma node start size prot map_flags in
      (
        find_in-append s.vma_list v,
        λ addr l m. rw (find_in-append s.vma_list v addr) (
            or_else-some (find_in s.vma_list addr) v addr
              (new_vma-covers node start size prot map_flags addr fits l m)),
        omega (arith, c.count, c.small, length-append s.vma_list (v ∷ [])),
        destroy-last s v c h,
      )
