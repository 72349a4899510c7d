-- ===== src/Syscall/Memory/Served.antt =====
-- The loop of brk: what the addresses that it went over lead to.
use my_unix.Base.{
  ℕ, zero, suc, ◌+◌, ◌*◌, ◌%◌, ◌≤◌, ◌<◌, ◌≡◌, refl, ◌∙◌, ◌⊎◌, inl, inr, true, false, ◌==◌, ltb,
  arith, Bool-cases,
}
use my_unix.Base.Int.{ℤ}
use my_unix.Base.Word.{page_size}
use my_unix.Pmm.{Pmm, alloc}
use my_unix.Pmm.Inv.{Inv}
use my_unix.Pmm.Alloc.{Took, alloc_lem}
use my_unix.Vmm.{Space}
use my_unix.Vmm.Spaces.Fresh.{took-Wf, tables_kept}
use my_unix.Vmm.Tables.{map, translate, pml4_page}
use my_unix.Vmm.Tables.Leaf.{page_number}
use my_unix.Vmm.Tables.Lookup.{in_large}
use my_unix.Vmm.Tables.Large.{in_large-page, in_large-kept, map-in_large}
use my_unix.Vmm.Tables.Laws.{IsTree, Mapped, no_entry, mapped, map_lem}
use my_unix.Syscall.Memory.{user_rw, extend_heap}
use my_unix.Syscall.Memory.Extend.{
  user_top, user_rw-IsFlags, alloc-Extended, same-IsTree, extend_heap-Extended,
}

-- The address leads somewhere or lies in a large page.
abbrev pub Served : Space → Pmm → ℕ → Type 0
Served space s v = (0 < translate space s v) ⊎ (in_large s.frames 3 (pml4_page space) v ≡ true)

-- That holds of all addresses from `p` up to `q`.
abbrev pub Filled : ℕ → ℕ → Space → Pmm → Type 0
Filled p q space s = (v : ℕ) → p ≤ v → v < q → Served space s v

round-in_large :
    (space : Space) (s : Pmm) (p phys : ℕ) (s1 : Pmm) (v : ℕ)
    → Took s phys s1
    → IsTree s (pml4_page space)
    → in_large s.frames 3 (pml4_page space) v ≡ true
    → in_large (map space s1 p phys user_rw).2.frames 3 (pml4_page space) v ≡ true
unfolding IsTree
round-in_large space s p phys s1 v took (t, w) h =
    let root = pml4_page space in
    map-in_large space s1 p phys user_rw v t (took-Wf s root t w phys s1 took) (
      in_large-kept s.frames s1.frames t w.tree
        (λ l q i a here. tables_kept s root t w phys s1 took q i (λ z. ground (arith, a, z))) 3 root
        v w.top h)

-- One round as a whole.
round_lem :
    (space : Space) (s : Pmm) (p phys : ℕ) (s1 : Pmm) (v : ℕ)
    → Took s phys s1
    → IsTree s (pml4_page space)
    → p % page_size ≡ 0
    → p + page_size ≤ user_top
    → Mapped space s1 p phys user_rw (map space s1 p phys user_rw)
unfolding IsTree
round_lem space s p phys s1 v took (t, w) aligned low =
    map_lem space s1 p phys user_rw (t, took-Wf s (pml4_page space) t w phys s1 took)
      (ground (arith, aligned)) (ground (arith, took.aligned))
      (omega (arith, took.in_range, took.aligned, w.small)) user_rw-IsFlags

same_number :
    (p v : ℕ)
    → p % page_size ≡ 0
    → p + page_size ≤ user_top
    → p ≤ v
    → v < p + page_size
    → page_number v ≡ page_number p
same_number p v aligned low l u = ground arith

-- The page of the round is served, or memory is used up.
round-Served :
    (space : Space) (s1 : Pmm) (p phys : ℕ) (r : ℤ × Space × Pmm)
    → 0 < phys
    → p % page_size ≡ 0
    → p + page_size ≤ user_top
    → Mapped space s1 p phys user_rw r
    → (r.2.free_pages ≡ 0) ⊎ Filled p (p + page_size) r.1 r.2
round-Served space s1 p phys r nz aligned low (no_entry e space_same leads (inl out) tree) = inl out
round-Served space s1 p phys r nz aligned low (no_entry e space_same leads (inr large) tree) =
    rw space_same (
      inr (λ v l u. inr (
        in_large-page r.2.frames 3 (pml4_page space) v p (same_number p v aligned low l u)
        ∙ large)))
round-Served space s1 p phys r nz aligned low (mapped e space_same leads tree) = rw space_same (
    inr (λ v l u.
      let same = same_number p v aligned low l u in
      let here : (page_number v == page_number p) ≡ true = ground (arith, same) in
      let there : translate space r.2 v ≡ phys + v % 4096 = leads v ∙ rw here refl in
      inl (ground (arith, there))))

extend_heap-out :
    (space : Space) (s : Pmm) (p n : ℕ)
    → Inv s
    → s.free_pages ≡ 0
    → (extend_heap space s p n).2.free_pages ≡ 0
unfolding extend_heap
extend_heap-out space s p zero v out = out
extend_heap-out space s p (suc n) v out = elim (alloc_lem s v) [
  | inl (_, full) ↦ rw full out
  | inr (some_left, _) ↦ absurd (omega (arith, some_left, out))
]

extend_heap-in_large :
    (space : Space) (s : Pmm) (p n v : ℕ)
    → IsTree s (pml4_page space)
    → p % page_size ≡ 0
    → p + n * page_size ≤ user_top
    → in_large s.frames 3 (pml4_page space) v ≡ true
    → in_large (extend_heap space s p n).2.frames 3 (pml4_page space) v ≡ true
unfolding extend_heap
extend_heap-in_large space s p zero v tree aligned low h = h
extend_heap-in_large space s p (suc n) v tree aligned low h =
    elim (alloc_lem s (unfold IsTree in tree.1.inv)) [
      | inl (_, full) ↦ rw full h
      | inr (_, took) ↦
          let r = map space (alloc s).1 p (alloc s).0 user_rw in
          let one =
            alloc-Extended space s p (alloc s).0 (alloc s).1 took tree aligned
              (omega (arith, low)) in
          let got : ((alloc s).0 == 0) ≡ false = ground (arith, took.nonzero) in
          let stays = round-in_large space s p (alloc s).0 (alloc s).1 v took tree h in
          rw got (
            rw one.same_root at (
              extend_heap-in_large r.1 r.2 (p + page_size) n v
                (same-IsTree space r.1 r.2 one.same_root one.tree) (omega (arith, aligned))
                (omega (arith, low)) (rw one.same_root stays)))
    ]

-- An address that is served stays so.
extend_heap-Served :
    (space : Space) (s : Pmm) (p n v : ℕ)
    → IsTree s (pml4_page space)
    → p % page_size ≡ 0
    → p + n * page_size ≤ user_top
    → v < user_top
    → Served space s v
    → Served (extend_heap space s p n).1 (extend_heap space s p n).2 v
extend_heap-Served space s p n v tree aligned low inside served =
    let ext = extend_heap-Extended space s p n tree aligned low in
    elim served [
      | inr large ↦
          inr (rw ext.same_root (extend_heap-in_large space s p n v tree aligned low large))
      | inl leads ↦ elim (ext.leads v inside) [
        | inl same ↦ inl (rw same leads)
        | inr (_, _, there) ↦ inl there
      ]
    ]

-- All pages that the loop went over are served, or memory is used up.
pub extend_heap-Filled :
    (space : Space) (s : Pmm) (p n : ℕ)
    → IsTree s (pml4_page space)
    → p % page_size ≡ 0
    → p + n * page_size ≤ user_top
    → ((extend_heap space s p n).2.free_pages ≡ 0)
      ⊎ (((extend_heap space s p n).0 ≡ true)
          × Filled p (p + n * page_size) (extend_heap space s p n).1 (extend_heap space s p n).2)
unfolding extend_heap
extend_heap-Filled space s p zero tree aligned low =
    inr (refl, λ v l u. absurd (omega (arith, l, u)))
extend_heap-Filled space s p (suc n) tree aligned low =
    elim (alloc_lem s (unfold IsTree in tree.1.inv)) [
      | inl (none_left, full) ↦ inl (rw full none_left)
      | inr (_, took) ↦
          let r = map space (alloc s).1 p (alloc s).0 user_rw in
          let one =
            alloc-Extended space s p (alloc s).0 (alloc s).1 took tree aligned
              (omega (arith, low)) in
          let got : ((alloc s).0 == 0) ≡ false = ground (arith, took.nonzero) in
          let tree' = same-IsTree space r.1 r.2 one.same_root one.tree in
          let aligned' : (p + page_size) % page_size ≡ 0 = omega (arith, aligned) in
          let low' : p + page_size + n * page_size ≤ user_top = omega (arith, low) in
          let page =
            round-Served space (alloc s).1 p (alloc s).0 r took.nonzero aligned (omega (arith, low))
              (round_lem space s p (alloc s).0 (alloc s).1 0 took tree aligned
                (omega (arith, low))) in
          let rest = extend_heap-Filled r.1 r.2 (p + page_size) n tree' aligned' low' in
          rw got (elim page [
            | inl out ↦
                inl
                  (extend_heap-out r.1 r.2 (p + page_size) n (unfold IsTree in one.tree.1.inv) out)
            | inr first ↦ elim rest [
              | inl out ↦ inl out
              | inr (whole, filled) ↦ inr (
                whole,
                λ v l u. elim (Bool-cases (ltb v (p + page_size))) [
                  | inl here ↦
                      extend_heap-Served r.1 r.2 (p + page_size) n v tree' aligned' low'
                        (omega (arith, u, low)) (first v l (ground arith))
                  | inr beyond ↦ filled v (ground arith) (omega (arith, u))
                ],
              )
            ]
          ])
    ]
