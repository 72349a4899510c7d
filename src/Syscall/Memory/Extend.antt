-- ===== src/Syscall/Memory/Extend.antt =====
-- The loop of brk: each round takes a page and maps it.
use my_unix.Base.{
  ℕ, zero, suc, ◌+◌, ◌*◌, ◌%◌, ◌≤◌, ◌<◌, ◌≡◌, refl, ◌∙◌, sym, ◌⊎◌, inl, inr, false, ◌==◌, arith,
  Bool-cases,
}
use my_unix.Base.Int.{ℤ}
use my_unix.Base.Word.{page_size}
use my_unix.Pmm.{Pmm, alloc}
use my_unix.Pmm.Alloc.{Took, alloc_lem}
use my_unix.Vmm.{Space}
use my_unix.Vmm.Spaces.Fresh.{took-Wf, took-resolve}
use my_unix.Vmm.Tables.{map, translate, pml4_page}
use my_unix.Vmm.Tables.Entry.{IsFlags}
use my_unix.Vmm.Tables.Leaf.{page_number}
use my_unix.Vmm.Tables.Laws.{IsTree, Mapped, no_entry, mapped, map_lem}
use my_unix.Vmm.Tables.Tree.{virt_to_phys-resolve}
use my_unix.Syscall.Memory.{user_rw, extend_heap}

-- The 48 bits that the page tables translate.
abbrev pub user_top : ℕ
user_top = 0x1_0000_0000_0000

-- The tables stand as before, and every address leads where it did or is one from `p` up to `q` that now leads somewhere.
pub record Extended (space : Space) (s : Pmm) (p q : ℕ) (space' : Space) (s' : Pmm) : Type 0 where
  pub same_root : space'.pml4_phys ≡ space.pml4_phys
  pub tree : IsTree s' (pml4_page space)
  pub leads :
      (v : ℕ)
      → v < user_top
      → (translate space' s' v ≡ translate space s v)
        ⊎ ((p ≤ v) × (v < q) × (0 < translate space' s' v))

Extended-trans :
    (space : Space) (s : Pmm) (p q r : ℕ) (space1 : Space) (s1 : Pmm) (space2 : Space) (s2 : Pmm)
    → p ≤ q
    → q ≤ r
    → Extended space s p q space1 s1
    → Extended space1 s1 q r space2 s2
    → Extended space s p r space2 s2
Extended-trans space s p q r space1 s1 space2 s2 h k a b = record {
  same_root = b.same_root ∙ a.same_root;
  tree = rw a.same_root at b.tree;
  leads = λ v l. elim (b.leads v l) [
    | inr (x, y, z) ↦ inr (omega (arith, x, h), y, z)
    | inl e ↦ elim (a.leads v l) [
      | inl e' ↦ inl (e ∙ e')
      | inr (x, y, z) ↦ inr (x, omega (arith, y, k), rw e z)
    ]
  ];
}

module _ (space : Space) (s : Pmm) (p : ℕ) (aligned : p % page_size ≡ 0)
    (low : p + page_size ≤ user_top) where
  map-Extended :
      (phys : ℕ) (s1 : Pmm) (r : ℤ × Space × Pmm)
      → 0 < phys
      → ((v : ℕ) → translate space s1 v ≡ translate space s v)
      → Mapped space s1 p phys user_rw r
      → Extended space s p (p + page_size) r.1 r.2
  map-Extended phys s1 r nz same (no_entry e space_same leads why tree) = record {
    same_root = ground arith;
    tree = tree;
    leads = λ v l. rw space_same (inl (leads v ∙ same v));
  }
  map-Extended phys s1 r nz same (mapped e space_same leads tree) = record {
    same_root = ground arith;
    tree = tree;
    leads = λ v l. rw space_same (elim (Bool-cases (page_number v == page_number p)) [
      | inr other ↦ inl (leads v ∙ rw other (same v))
      | inl here ↦
          let there : translate space r.2 v ≡ phys + v % 4096 = leads v ∙ rw here refl in
          inr (ground (arith, low), ground (arith, low), ground (arith, there))
    ]);
  }

pub user_rw-IsFlags : IsFlags user_rw
user_rw-IsFlags = record { word = omega arith; no_address = refl }

-- The page tables stand, whatever page the allocator gave.
pub alloc-Extended :
    (space : Space) (s : Pmm) (p phys : ℕ) (s1 : Pmm)
    → Took s phys s1
    → IsTree s (pml4_page space)
    → p % page_size ≡ 0
    → p + page_size ≤ user_top
    → Extended space s p
        (p + page_size)
        (map space s1 p phys user_rw).1
        (map space s1 p phys user_rw).2
unfolding IsTree
alloc-Extended space s p phys s1 took (t, w) aligned low =
    let root = pml4_page space in
    let w1 = took-Wf s root t w phys s1 took in
    map-Extended space s p aligned low phys s1 (map space s1 p phys user_rw) took.nonzero
      (λ v.
        virt_to_phys-resolve s1.frames root v
        ∙ took-resolve s root t w phys s1 took v
        ∙ sym (virt_to_phys-resolve s.frames root v))
      (map_lem space s1 p phys user_rw (t, w1) (ground (arith, aligned))
        (ground (arith, took.aligned)) (omega (arith, took.in_range, took.aligned, w.small))
        user_rw-IsFlags)

nothing-Extended :
    (space : Space) (s : Pmm) (p q : ℕ) → IsTree s (pml4_page space) → Extended space s p q space s
nothing-Extended space s p q tree = record {
  same_root = refl;
  tree = tree;
  leads = λ v l. inl refl;
}

pub same-IsTree :
    (space space' : Space) (s : Pmm)
    → space'.pml4_phys ≡ space.pml4_phys
    → IsTree s (pml4_page space)
    → IsTree s (pml4_page space')
same-IsTree space space' s e tree = rw e tree

pub extend_heap-Extended :
    (space : Space) (s : Pmm) (p n : ℕ)
    → IsTree s (pml4_page space)
    → p % page_size ≡ 0
    → p + n * page_size ≤ user_top
    → let (whole, space', s') = extend_heap space s p n in
      Extended space s p (p + n * page_size) space' s'
unfolding extend_heap
extend_heap-Extended space s p zero tree aligned low = nothing-Extended space s p (p + 0) tree
extend_heap-Extended space s p (suc n) tree aligned low =
    elim (alloc_lem s (unfold IsTree in tree.1.inv)) [
      | inl (_, full) ↦ rw full (nothing-Extended space s p (p + suc n * page_size) tree)
      | inr (_, took) ↦
          let r = map space (alloc s).1 p (alloc s).0 user_rw in
          let one =
            alloc-Extended space s p (alloc s).0 (alloc s).1 took tree aligned
              (omega (arith, low)) in
          let more =
            extend_heap-Extended r.1 r.2 (p + page_size) n
              (same-IsTree space r.1 r.2 one.same_root one.tree) (omega (arith, aligned))
              (omega (arith, low)) in
          let got : ((alloc s).0 == 0) ≡ false = ground (arith, took.nonzero) in
          let whole : p + page_size + n * page_size ≡ p + suc n * page_size = omega arith in
          rw got (
            Extended-trans space s p (p + page_size) (p + suc n * page_size) r.1 r.2 _ _
              (omega arith) (omega arith) one (rw whole at more))
    ]

-- The loop stops early only when the allocator has no page.
pub extend_heap-stopped :
    (space : Space) (s : Pmm) (p n : ℕ)
    → IsTree s (pml4_page space)
    → p % page_size ≡ 0
    → p + n * page_size ≤ user_top
    → (extend_heap space s p n).0 ≡ false
    → (extend_heap space s p n).2.free_pages ≡ 0
unfolding extend_heap
extend_heap-stopped space s p zero tree aligned low e = absurd (ground arith)
extend_heap-stopped space s p (suc n) tree aligned low e =
    elim (alloc_lem s (unfold IsTree in tree.1.inv)) [
      | inl (none_left, full) ↦ rw full none_left
      | inr (_, took) ↦
          let r = map space (alloc s).1 p (alloc s).0 user_rw in
          let one =
            alloc-Extended space s p (alloc s).0 (alloc s).1 took tree aligned
              (omega (arith, low)) in
          let got : ((alloc s).0 == 0) ≡ false = ground (arith, took.nonzero) in
          rw got (
            extend_heap-stopped r.1 r.2 (p + page_size) n
              (same-IsTree space r.1 r.2 one.same_root one.tree) (omega (arith, aligned))
              (omega (arith, low)) (rw got at e))
    ]
