-- ===== src/Vmm/Tables/Tree.antt =====
-- The page tables as a tree: walking down level by level, with no two entries for one table.
use my_unix.Base.{
  ℕ, zero, suc, ◌+◌, ◌%◌, ◌≤◌, ◌<◌, ◌≡◌, inl, inr, Bool, true, false, not, if◌then◌else◌, ◌==◌,
  Option, none, some, arith, Bool-cases,
}
use my_unix.Vmm.Tables.{
  Frames, is_present, is_huge, pte_page, pte_addr, pml4_idx, pdpt_idx, pd_idx, pt_idx, virt_to_phys,
}

-- The index of an address at a level: 0 for page tables, 1 for directories, 2 for pointer tables, 3 for the top.
unfoldable pub idx : ℕ → ℕ → ℕ
idx zero v = pt_idx v
idx (suc zero) v = pd_idx v
idx (suc (suc zero)) v = pdpt_idx v
idx (suc (suc (suc l))) v = pml4_idx v

-- An entry of a directory or a pointer table may be a large page.
abbrev pub big : ℕ → ℕ → Bool
big zero e = false
big (suc zero) e = is_huge e
big (suc (suc zero)) e = is_huge e
big (suc (suc (suc l))) e = false

abbrev pub big_offset : ℕ → ℕ → ℕ
big_offset (suc zero) v = v % 2097152
big_offset l v = v % 1073741824

-- The entry that maps a page of 4 KB, if there is a table for it.
unfoldable pub walk : Frames → (level table v : ℕ) → Option (ℕ × ℕ)
walk f zero p v = some (p, idx 0 v)
walk f (suc l) p v =
    let e = f p (idx (suc l) v) in
    if not (is_present e) then none else if big (suc l) e then none else walk f l (pte_page e) v

unfoldable pub resolve : Frames → (level table v : ℕ) → ℕ
resolve f zero p v =
    let e = f p (idx 0 v) in if not (is_present e) then 0 else pte_addr e + v % 4096
resolve f (suc l) p v =
    let e = f p (idx (suc l) v) in
    if not (is_present e)
    then 0
    else if big (suc l) e
    then pte_addr e + big_offset (suc l) v
    else resolve f l (pte_page e) v

pub virt_to_phys-resolve : (f : Frames) (p v : ℕ) → virt_to_phys f p v ≡ resolve f 3 p v
unfolding virt_to_phys resolve idx
virt_to_phys-resolve f p v = ground arith

-- Which pages are tables (`suc l` for a table of level `l`), and which entry points to each.
pub record Shape : Type 0 where
  pub level : ℕ → ℕ
  pub parent : ℕ → ℕ
  pub slot : ℕ → ℕ

-- Every entry that is present and no large page points to a table of the next level that it alone points to. No entry
-- of a pointer table is a page of 1 GB, which vmm_get_pte would take for a table.
pub record Tree (f : Frames) (t : Shape) : Type 0 where
  pub link :
      (l p i : ℕ)
      → t.level p ≡ suc (suc l)
      → i < 512
      → is_present (f p i) ≡ true
      → big (suc l) (f p i) ≡ false
      → (t.level (pte_page (f p i)) ≡ suc l)
        × (t.parent (pte_page (f p i)) ≡ p)
        × (t.slot (pte_page (f p i)) ≡ i)
  pub no_giant :
      (p i : ℕ) → t.level p ≡ 3 → i < 512 → is_present (f p i) ≡ true → is_huge (f p i) ≡ false

pub idx-lt : (l v : ℕ) → idx l v < 512
unfolding idx
idx-lt zero v = omega arith
idx-lt (suc zero) v = omega arith
idx-lt (suc (suc zero)) v = omega arith
idx-lt (suc (suc (suc l))) v = omega arith

-- One step down.
pub walk-step :
    (f : Frames) (l p v : ℕ) (r : ℕ × ℕ)
    → walk f (suc l) p v ≡ some r
    → (is_present (f p (idx (suc l) v)) ≡ true)
      × (big (suc l) (f p (idx (suc l) v)) ≡ false)
      × (walk f l (pte_page (f p (idx (suc l) v))) v ≡ some r)
unfolding walk
walk-step f l p v r h = elim (Bool-cases (is_present (f p (idx (suc l) v)))) [
  | inr absent ↦ absurd (ground (arith, rw absent at h))
  | inl there ↦ elim (Bool-cases (big (suc l) (f p (idx (suc l) v)))) [
    | inl large ↦ absurd (ground (arith, rw large at (rw there at h)))
    | inr table ↦ (there, table, rw table at (rw there at h))
  ]
]

module _ (f : Frames) (t : Shape) (w : Tree f t) where
  -- A walk ends in a page table, at the address's index.
  pub walk-level :
      (l p v q i : ℕ)
      → t.level p ≡ suc l
      → walk f l p v ≡ some (q, i)
      → (t.level q ≡ 1) × (i ≡ idx 0 v)
  unfolding walk
  walk-level zero p v q i e h = (ground arith, ground arith)
  walk-level (suc l) p v q i e h =
      let (there, table, next) = walk-step f l p v (q, i) h in
      let (e', _, _) = w.link l p (idx (suc l) v) e (idx-lt (suc l) v) there table in
      walk-level l (pte_page (f p (idx (suc l) v))) v q i e' next

  -- Two walks that end in one entry are the same.
  pub walk_unique :
      (l p p' v v' q i : ℕ)
      → t.level p ≡ suc l
      → t.level p' ≡ suc l
      → walk f l p v ≡ some (q, i)
      → walk f l p' v' ≡ some (q, i)
      → (p ≡ p') × ((k : ℕ) → k ≤ l → idx k v ≡ idx k v')
  unfolding walk
  walk_unique zero p p' v v' q i e e' h h' =
      (ground arith, λ k b. let z : k ≡ 0 = omega arith in rw z (ground arith))
  walk_unique (suc l) p p' v v' q i e e' h h' =
      let (there, table, next) = walk-step f l p v (q, i) h in
      let (there', table', next') = walk-step f l p' v' (q, i) h' in
      let (down, up, at) = w.link l p (idx (suc l) v) e (idx-lt (suc l) v) there table in
      let (down', up', at') = w.link l p' (idx (suc l) v') e' (idx-lt (suc l) v') there' table' in
      let (same, below) =
        walk_unique l (pte_page (f p (idx (suc l) v))) (pte_page (f p' (idx (suc l) v'))) v v' q i
          down down' next next' in
      (
        cc (same, up, up'),
        λ k b. elim (Bool-cases (k == suc l)) [
          | inl top ↦ let z : k ≡ suc l = ground arith in rw z (cc (same, at, at'))
          | inr lower ↦ below k (ground arith)
        ],
      )
