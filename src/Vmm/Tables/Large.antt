-- ===== src/Vmm/Tables/Large.antt =====
-- vmm_map leaves the large pages of the tables as they are.
use my_unix.Base.{
  ℕ, zero, suc, ◌≡◌, refl, inl, inr, true, not, ◌||◌, Option, none, some, arith, Bool-cases,
}
use my_unix.Base.Bits.{or_bits}
use my_unix.Base.Word.{is_page_aligned}
use my_unix.Pmm.{Pmm}
use my_unix.Vmm.{Space}
use my_unix.Vmm.Tables.{Frames, is_present, pte_page, write, get_pte, pml4_page, map, map_at}
use my_unix.Vmm.Tables.Tree.{idx, idx-lt, big, Shape, Tree}
use my_unix.Vmm.Tables.Leaf.{page_number, page_number-idx}
use my_unix.Vmm.Tables.Enter.{Wf}
use my_unix.Vmm.Tables.Lookup.{in_large, Got, get_pte-Got}

-- One large page for all addresses of a small page.
pub in_large-page :
    (f : Frames) (l p v v' : ℕ)
    → page_number v ≡ page_number v'
    → in_large f l p v ≡ in_large f l p v'
unfolding in_large
in_large-page f zero p v v' h = refl
in_large-page f (suc l) p v v' h =
    rw (page_number-idx v v' h (suc l), in_large-page f l (pte_page (f p (idx (suc l) v'))) v v' h)
      refl

-- A large page stays if the present entries of all tables above the last level do.
pub in_large-kept :
    (f f' : Frames) (t : Shape)
    → Tree f t
    → ((l p i : ℕ) → t.level p ≡ suc (suc l) → is_present (f p i) ≡ true → f' p i ≡ f p i)
    → (l p v : ℕ) → t.level p ≡ suc l
    → in_large f l p v ≡ true
    → in_large f' l p v ≡ true
unfolding in_large
in_large-kept f f' t w same zero p v h k = absurd (ground arith)
in_large-kept f f' t w same (suc l) p v h k = elim (Bool-cases (is_present (f p (idx (suc l) v)))) [
  | inr gone ↦ absurd (ground (arith, rw gone at k))
  | inl here ↦
      rw (same l p (idx (suc l) v) h here, here)
        (elim (Bool-cases (big (suc l) (f p (idx (suc l) v)))) [
          | inl large ↦ rw large refl
          | inr small ↦ rw small (
              in_large-kept f f' t w same l (pte_page (f p (idx (suc l) v))) v
                (w.link l p (idx (suc l) v) h (idx-lt (suc l) v) here small).0
                (rw (here, small) at k))
        ])
]

map_at-in_large :
    (space : Space) (s : Pmm) (virt phys flags v : ℕ) (t : Shape) (r : Option (ℕ × ℕ) × Pmm)
    → Wf s (pml4_page space) t
    → Got (pml4_page space) virt 3 (pml4_page space) s t r
    → in_large s.frames 3 (pml4_page space) v ≡ true
    → in_large (map_at space phys flags r).2.frames 3 (pml4_page space) v ≡ true
unfolding Got map_at
map_at-in_large space s virt phys flags v t (none, s') w (t', w', k, _) h =
    in_large-kept s.frames s'.frames t w.tree
      (λ l p i a here. k.linked p i (λ z. ground (arith, a, z)) here) 3 (pml4_page space) v w.top h
map_at-in_large space s virt phys flags v t (some a, s') w (t', w', k, inl (e, _)) h =
    absurd (ground arith)
map_at-in_large space s virt phys flags v t (some (q, i), s') w (t', w', k, inr (q', e, last, _))
      h =
    let same : q ≡ q' = ground arith in
    let level : t'.level q ≡ 1 = rw same last in
    let stays =
      in_large-kept s.frames s'.frames t w.tree
        (λ l p i a here. k.linked p i (λ z. ground (arith, a, z)) here) 3 (pml4_page space) v w.top
        h in
    in_large-kept s'.frames (write s'.frames q i (or_bits 64 phys flags)) t' w'.tree
      (λ l p j a here. unfold write in ground (arith, a, level)) 3 (pml4_page space) v w'.top stays

-- An address in a large page still lies in one after vmm_map.
pub map-in_large :
    (space : Space) (s : Pmm) (virt phys flags v : ℕ) (t : Shape)
    → Wf s (pml4_page space) t
    → in_large s.frames 3 (pml4_page space) v ≡ true
    → in_large (map space s virt phys flags).2.frames 3 (pml4_page space) v ≡ true
unfolding map
map-in_large space s virt phys flags v t w h =
    elim (Bool-cases (not (is_page_aligned virt) || not (is_page_aligned phys))) [
      | inl bad ↦ rw bad h
      | inr good ↦ rw good (
          map_at-in_large space s virt phys flags v t (get_pte s (pml4_page space) virt true flags)
            w (get_pte-Got (pml4_page space) virt flags s t w) h)
    ]
