-- ===== src/Vmm/Tables/Change.antt =====
-- vmm_unmap and vmm_protect: where every address leads afterwards.
use my_unix.Base.{
  ℕ, zero, suc, ◌+◌, ◌/◌, ◌≡◌, refl, sym, ◌∙◌, inl, inr, true, false, not, ◌&&◌, if◌then◌else◌,
  ◌==◌, ltb, ◌-◌, ◌⊎◌, Option-cases, Option, none, some, arith, Bool-cases,
}
use my_unix.Base.Bits.{or_bits, test_bit, set_bit}
use my_unix.Base.Word.{add64, page_size, page_down, page_up}
use my_unix.Pmm.{Pmm}
use my_unix.Vmm.{Space, pte_flags}
use my_unix.Vmm.Tables.{
  Frames, is_present, pte_page, pte_addr, pml4_idx, pdpt_idx, enter, enter_pd, get_pte, pml4_page,
  unmap, write, unmap_at, translate, protect_at, protect_page, protect_pages, protect,
}
use my_unix.Vmm.Tables.Entry.{IsFlags, entry-page, entry-present}
use my_unix.Vmm.Tables.Tree.{
  idx, idx-lt, big, walk, walk-level, resolve, Shape, virt_to_phys-resolve,
}
use my_unix.Vmm.Tables.Leaf.{page_number, leaf, resolve-write, resolve-walk, walk-page}
use my_unix.Vmm.Tables.Enter.{Wf}
use my_unix.Vmm.Tables.Lookup.{in_large}
use my_unix.Vmm.Tables.Large.{in_large-page}
use my_unix.Vmm.Tables.Laws.{IsTree, write-Wf}

-- Without `create`, vmm_get_pte walks and changes nothing.
get_pte-walk :
    (s : Pmm) (root virt : ℕ) (t : Shape)
    → Wf s root t
    → get_pte s root virt false 0 ≡ (walk s.frames 3 root virt, s)
unfolding get_pte enter enter_pd walk idx
get_pte-walk s root virt t w = elim (Bool-cases (is_present e4)) [
  | inr gone ↦ rw gone refl
  | inl here4 ↦ elim (Bool-cases (is_present e3)) [
    | inr gone ↦ rw (here4, gone) refl
    | inl here3 ↦
        let (level, _, _) = w.tree.link 2 root (pml4_idx virt) w.top (idx-lt 3 virt) here4 refl in
        let small = w.tree.no_giant (pte_page e4) (pdpt_idx virt) level (idx-lt 2 virt) here3 in
        rw (here4, here3, small) (ground arith)
  ]
]
  where
    e4 : ℕ
    e4 = s.frames root (pml4_idx virt)

    e3 : ℕ
    e3 = s.frames (pte_page e4) (pdpt_idx virt)

-- No walk for an address outside large pages: it leads nowhere.
no_walk :
    (f : Frames) (l p v : ℕ) → walk f l p v ≡ none → in_large f l p v ≡ false → resolve f l p v ≡ 0
unfolding walk in_large resolve
no_walk f zero p v h k = absurd (ground arith)
no_walk f (suc l) p v h k = elim (Bool-cases (is_present (f p (idx (suc l) v)))) [
  | inr gone ↦ rw gone refl
  | inl here ↦ elim (Bool-cases (big (suc l) (f p (idx (suc l) v)))) [
    | inl large ↦ absurd (ground (arith, rw (here, large) at k))
    | inr small ↦
        rw (here, small)
          (no_walk f l (pte_page (f p (idx (suc l) v))) v (rw (here, small) at h)
            (rw (here, small) at k))
  ]
]

walk_not_large :
    (f : Frames) (l p v : ℕ) (r : ℕ × ℕ) → walk f l p v ≡ some r → in_large f l p v ≡ false
unfolding walk in_large
walk_not_large f zero p v r h = refl
walk_not_large f (suc l) p v r h = elim (Bool-cases (is_present (f p (idx (suc l) v)))) [
  | inr gone ↦ rw gone refl
  | inl here ↦ elim (Bool-cases (big (suc l) (f p (idx (suc l) v)))) [
    | inl large ↦ absurd (ground (arith, rw (here, large) at h))
    | inr small ↦
        rw (here, small)
          (walk_not_large f l (pte_page (f p (idx (suc l) v))) v r (rw (here, small) at h))
  ]
]

module _ (space : Space) (s : Pmm) (virt : ℕ) (t : Shape) (w : Wf s (pml4_page space) t) where
  abbrev root : ℕ
  root = pml4_page space

  -- where an address leads once the page of `virt` is gone
  abbrev without : ℕ → ℕ
  without v =
      if page_number v == page_number virt && not (in_large s.frames 3 root virt)
      then 0
      else resolve s.frames 3 root v

  same_page :
      (v : ℕ) → (page_number v == page_number virt) ≡ true → page_number v ≡ page_number virt
  same_page v h = ground arith

  without-none : walk s.frames 3 root virt ≡ none → (v : ℕ) → resolve s.frames 3 root v ≡ without v
  without-none h v = elim (Bool-cases (page_number v == page_number virt)) [
    | inr other ↦ rw other refl
    | inl same ↦
        let e = same_page v same in
        elim (Bool-cases (in_large s.frames 3 root virt)) [
          | inl large ↦ rw (same, large) refl
          | inr small ↦
              rw (same, small)
                (no_walk s.frames 3 root v (walk-page s.frames 3 root v virt e ∙ h)
                  (in_large-page s.frames 3 root v virt e ∙ small))
        ]
  ]

  without-some :
      (q i : ℕ)
      → walk s.frames 3 root virt ≡ some (q, i)
      → is_present (s.frames q i) ≡ false
      → (v : ℕ) → resolve s.frames 3 root v ≡ without v
  without-some q i h gone v = elim (Bool-cases (page_number v == page_number virt)) [
    | inr other ↦ rw other refl
    | inl same ↦
        rw
          (
            same,
            walk_not_large s.frames 3 root virt (q, i) h,
            resolve-walk s.frames 3 root v q i
                (walk-page s.frames 3 root v virt (same_page v same) ∙ h),
            gone,
          )
          refl
  ]

  unmap_walk :
      (r : Option (ℕ × ℕ))
      → walk s.frames 3 root virt ≡ r
      → ((v : ℕ) → resolve (unmap_at space (r, s)).1.frames 3 root v ≡ without v)
        × IsTree (unmap_at space (r, s)).1 root
  unfolding unmap_at IsTree
  unmap_walk none h = (without-none h, (t, w))
  unmap_walk (some (q, i)) h = elim (Bool-cases (is_present (s.frames q i))) [
    | inr gone ↦ rw gone (without-some q i h gone, (t, w))
    | inl here ↦
        let level = (walk-level s.frames t w.tree 3 root virt q i w.top h).0 in
        rw here (
          λ v.
              resolve-write s.frames t w.tree q i 0 level root virt v w.top h
              ∙ rw (walk_not_large s.frames 3 root virt (q, i) h) (ground arith),
          (t, write-Wf s root t q i 0 w level),
        )
  ]

-- The walk for an address in a large page ends at none.
large_no_walk : (f : Frames) (p v : ℕ) → in_large f 3 p v ≡ true → walk f 3 p v ≡ none
large_no_walk f p v h = elim (Option-cases (walk f 3 p v)) [
  | inl e ↦ e
  | inr (r, e) ↦ absurd (ground (arith, walk_not_large f 3 p v r e))
]

-- What becomes of the entry at which the walk ends.
unmap_cases :
    (space : Space) (s : Pmm) (virt : ℕ) (r : Option (ℕ × ℕ))
    → walk s.frames 3 (pml4_page space) virt ≡ r
    → ((q i : ℕ) × (walk s.frames 3 (pml4_page space) virt ≡ some (q, i))
        × (is_present (s.frames q i) ≡ true)
        × (unmap_at space (r, s) ≡ (
          record space {
            n_pages = if ltb 0 space.n_pages then space.n_pages - 1 else space.n_pages;
          },
          record s { frames = write s.frames q i 0 },
        )))
      ⊎ (((q i : ℕ)
            → walk s.frames 3 (pml4_page space) virt ≡ some (q, i)
            → is_present (s.frames q i) ≡ false)
          × (unmap_at space (r, s) ≡ (space, s)))
unfolding unmap_at
unmap_cases space s virt none e = inr (λ q i h. absurd (ground (arith, e, h)), refl)
unmap_cases space s virt (some (q, i)) e = elim (Bool-cases (is_present (s.frames q i))) [
  | inl here ↦ inl (q, i, e, here, rw here refl)
  | inr gone ↦ inr (
    λ q' i' h.
        let a : q ≡ q' = ground (arith, e, h) in
        let b : i ≡ i' = ground (arith, e, h) in rw (← a, ← b) gone,
    rw gone refl,
  )
]

-- vmm_unmap on tables that form a tree. Outside large pages, no address of the page leads anywhere any more, and every other
-- address leads where it did; the tables form a tree as before. If the walk ends at an entry that is present, that entry is
-- cleared and the page count falls by one, unless it is 0, and nothing else changes; if it ends at no such entry, and in
-- every case in a large page, neither the address space nor the memory changes at all.
pub unmap_lem :
    (space : Space) (s : Pmm) (virt : ℕ)
    → IsTree s (pml4_page space)
    → ((v : ℕ)
        → translate space (unmap space s virt).1 v ≡ (
            if page_number v == page_number virt && not (in_large s.frames 3 (pml4_page space) virt)
            then 0
            else translate space s v))
      × IsTree (unmap space s virt).1 (pml4_page space)
      × (in_large s.frames 3 (pml4_page space) virt ≡ true → unmap space s virt ≡ (space, s))
      × (((q i : ℕ) × (walk s.frames 3 (pml4_page space) virt ≡ some (q, i))
            × (is_present (s.frames q i) ≡ true)
            × (unmap space s virt ≡ (
              record space {
                n_pages = if ltb 0 space.n_pages then space.n_pages - 1 else space.n_pages;
              },
              record s { frames = write s.frames q i 0 },
            )))
          ⊎ (((q i : ℕ)
                → walk s.frames 3 (pml4_page space) virt ≡ some (q, i)
                → is_present (s.frames q i) ≡ false)
              × (unmap space s virt ≡ (space, s))))
unfolding unmap IsTree
unmap_lem space s virt (t, w) =
    let root = pml4_page space in
    let (leads, tree) = unmap_walk space s virt t w (walk s.frames 3 root virt) refl in
    rw (get_pte-walk s root virt t w) (
      λ v. virt_to_phys-resolve _ root v ∙ leads v ∙ rw (virt_to_phys-resolve s.frames root v) refl,
      tree,
      λ large. unfold unmap_at in rw (large_no_walk s.frames root virt large) refl,
      unmap_cases space s virt (walk s.frames 3 root virt) refl,
    )

pte_flags_lem : (prot : ℕ) → IsFlags (pte_flags prot) × (is_present (pte_flags prot) ≡ true)
unfolding test_bit set_bit
pte_flags_lem prot = elim (Bool-cases (test_bit prot 1)) [
  | inl w ↦ elim (Bool-cases (test_bit prot 2)) [
    | inl x ↦ rw (w, x) (record { word = omega arith; no_address = refl }, refl)
    | inr n ↦ rw (w, n) (record { word = omega arith; no_address = refl }, refl)
  ]
  | inr r ↦ elim (Bool-cases (test_bit prot 2)) [
    | inl x ↦ rw (r, x) (record { word = omega arith; no_address = refl }, refl)
    | inr n ↦ rw (r, n) (record { word = omega arith; no_address = refl }, refl)
  ]
]

-- A page whose flags are replaced leads where it did.
new_flags-leaf :
    (e prot v : ℕ)
    → is_present e ≡ true
    → leaf (or_bits 64 (pte_addr e) (pte_flags prot)) v ≡ leaf e v
new_flags-leaf e prot v h =
    let (f, there) = pte_flags_lem prot in
    rw
      (
        entry-present (pte_page e) (pte_flags prot) (omega arith) f,
        there,
        entry-page (pte_page e) (pte_flags prot) (omega arith) f,
        h,
      )
      refl

module _ (space : Space) where
  -- Every address leads where it did, and the tables form a tree.
  abbrev Leads : Pmm → Pmm → Type 0
  Leads s s' =
      ((v : ℕ) → resolve s'.frames 3 (pml4_page space) v ≡ resolve s.frames 3 (pml4_page space) v)
      × IsTree s' (pml4_page space)

  protect_walk :
      (s : Pmm) (virt prot : ℕ) (t : Shape) (r : Option (ℕ × ℕ))
      → Wf s (pml4_page space) t
      → walk s.frames 3 (pml4_page space) virt ≡ r
      → Leads s (protect_at prot (r, s))
  unfolding protect_at IsTree
  protect_walk s virt prot t none w h = (λ v. refl, (t, w))
  protect_walk s virt prot t (some (q, i)) w h = elim (Bool-cases (is_present (s.frames q i))) [
    | inr gone ↦ rw gone (λ v. refl, (t, w))
    | inl here ↦
        let root = pml4_page space in
        let level = (walk-level s.frames t w.tree 3 root virt q i w.top h).0 in
        let new = or_bits 64 (pte_addr (s.frames q i)) (pte_flags prot) in
        rw here (
          λ v.
              resolve-write s.frames t w.tree q i new level root virt v w.top h
              ∙ kept s q i t virt prot v w h here,
          (t, write-Wf s root t q i new w level),
        )
  ]
    where
      kept :
          (s : Pmm) (q i : ℕ) (t : Shape) (virt prot v : ℕ)
          → Wf s (pml4_page space) t
          → walk s.frames 3 (pml4_page space) virt ≡ some (q, i)
          → is_present (s.frames q i) ≡ true
          → (if page_number v == page_number virt
              then leaf (or_bits 64 (pte_addr (s.frames q i)) (pte_flags prot)) v
              else resolve s.frames 3 (pml4_page space) v)
            ≡ resolve s.frames 3 (pml4_page space) v
      kept s q i t virt prot v w h here = elim (Bool-cases (page_number v == page_number virt)) [
        | inr other ↦ rw other refl
        | inl same ↦
            let at = walk-page s.frames 3 (pml4_page space) v virt (ground arith) ∙ h in
            rw same (
              new_flags-leaf (s.frames q i) prot v here
              ∙ sym (resolve-walk s.frames 3 (pml4_page space) v q i at))
      ]

  protect_page-Leads :
      (s : Pmm) (addr prot : ℕ)
      → IsTree s (pml4_page space)
      → Leads s (protect_page space s addr prot)
  unfolding protect_page IsTree
  protect_page-Leads s addr prot (t, w) =
      rw (get_pte-walk s (pml4_page space) addr t w)
        (protect_walk s addr prot t (walk s.frames 3 (pml4_page space) addr) w refl)

  protect_pages-Leads :
      (s : Pmm) (addr n prot : ℕ)
      → IsTree s (pml4_page space)
      → Leads s (protect_pages space s addr n prot)
  unfolding protect_pages
  protect_pages-Leads s addr zero prot h = (λ v. refl, h)
  protect_pages-Leads s addr (suc n) prot h =
      let (one, h') = protect_page-Leads s addr prot h in
      let (rest, h'') =
        protect_pages-Leads (protect_page space s addr prot) (addr + page_size) n prot h' in
      (λ v. rest v ∙ one v, h'')

-- vmm_protect changes no address's translation, whatever the range, and the tables form a tree as before.
protect_lem :
    (space : Space) (s : Pmm) (virt size prot : ℕ)
    → IsTree s (pml4_page space)
    → ((v : ℕ) → translate space (protect space s virt size prot) v ≡ translate space s v)
      × IsTree (protect space s virt size prot) (pml4_page space)
unfolding protect
protect_lem space s virt size prot h =
    let root = pml4_page space in
    elim (Bool-cases (ltb (page_down virt) (add64 (page_down virt) (page_up size)))) [
      | inr empty ↦ rw empty (λ v. refl, h)
      | inl range ↦
          let (leads, tree) =
            protect_pages-Leads space s (page_down virt) (page_up size / page_size) prot h in
          rw range (
            λ v.
                virt_to_phys-resolve _ root v
                ∙ leads v
                ∙ sym (virt_to_phys-resolve s.frames root v),
            tree,
          )
    ]
