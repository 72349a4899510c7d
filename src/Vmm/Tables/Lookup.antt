-- ===== src/Vmm/Tables/Lookup.antt =====
-- vmm_get_pte: the entry it finds or makes room for.
use my_unix.Base.{
  ℕ, zero, suc, ◌≡◌, refl, ◌≢◌, ◌⊎◌, inl, inr, Bool, true, false, not, ◌&&◌, if◌then◌else◌, Option,
  none, some, arith, Bool-cases,
}
use my_unix.Pmm.{Pmm}
use my_unix.Vmm.Tables.{
  Frames, is_present, is_huge, pte_page, pml4_idx, pdpt_idx, pd_idx, pt_idx, enter, enter_pd,
  then_in, get_pte,
}
use my_unix.Vmm.Tables.Tree.{idx, idx-lt, big, walk, Shape}
use my_unix.Vmm.Tables.Enter.{Wf, Kept, Kept-refl, Kept-trans, Link, Entered, enter-Entered}

-- Whether a large page maps the address.
unfoldable pub in_large : Frames → (level table v : ℕ) → Bool
in_large f zero p v = false
in_large f (suc l) p v =
    let e = f p (idx (suc l) v) in
    if not (is_present e)
    then false
    else if big (suc l) e
    then true
    else in_large f l (pte_page e) v

-- What vmm_get_pte with `create` comes to from table `p` of level `l` on: no entry, for want of memory or in a large
-- page, or the entry that the walk for `virt` now ends in.
unfoldable pub Got : (root virt l p : ℕ) (s : Pmm) (t : Shape) (r : Option (ℕ × ℕ) × Pmm) → Type 0
Got root virt l p s t r =
    (t' : Shape) × Wf r.1 root t'
    × Kept s r.1 root t t'
    × (((r.0 ≡ none) × ((r.1.free_pages ≡ 0) ⊎ (in_large r.1.frames l p virt ≡ true)))
        ⊎ ((q : ℕ) × (r.0 ≡ some (q, pt_idx virt))
            × (t'.level q ≡ 1)
            × (walk r.1.frames l p virt ≡ some (q, pt_idx virt))))

then-some :
    {A : Type 0} (r : Option ℕ × Pmm) (f : ℕ → Pmm → Option A × Pmm) (q : ℕ)
    → r.0 ≡ some q
    → then_in r f ≡ f q r.1
then-some (none, s) f q e = absurd (ground arith)
then-some (some x, s) f q e = let h : x ≡ q = ground arith in rw h refl

module _ (root virt l p : ℕ) where
  abbrev at : ℕ
  at = idx (suc l) virt

  -- What follows a link follows from the table above.
  lift-Got :
      {s s1 : Pmm} {t t1 : Shape} {q : ℕ} (r : Option (ℕ × ℕ) × Pmm)
      → t.level p ≡ suc (suc l)
      → Kept s s1 root t t1
      → Link s1 t1 l p at q
      → Got root virt l q s1 t1 r
      → Got root virt (suc l) p s t r
  unfolding Got walk in_large
  lift-Got {s} {s1} {t} {t1} {q} r above k link (t', w, k', result) =
      let nz : t1.level p ≢ 0 = ground (arith, k.levels p (ground arith)) in
      let same = k'.linked p at nz link.there in
      (t', w, Kept-trans k k', rw (same, link.there, link.table, link.points) result)

  -- One level, and what is done with its table.
  then-Got :
      (s : Pmm) (t : Shape) (w : Wf s root t) (flags : ℕ)
      → (above : t.level p ≡ suc (suc l)) → (r : Option ℕ × Pmm)
      → (f : ℕ → Pmm → Option (ℕ × ℕ) × Pmm)
      → Entered s root t w l p at flags above (idx-lt (suc l) virt) r
      → ((q : ℕ) (s1 : Pmm) (t1 : Shape)
          → Wf s1 root t1
          → t1.level q ≡ suc l
          → Got root virt l q s1 t1 (f q s1))
      → Got root virt (suc l) p s t (then_in r f)
  unfolding Got
  then-Got s t w flags above r f (inl (e, z)) next =
      rw e (t, w, Kept-refl s root t, inl (refl, inl z))
  then-Got s t w flags above r f (inr (q, t1, e, w1, k, link)) next =
      rw (then-some r f q e) (lift-Got (f q r.1) above k link (next q r.1 t1 w1 link.level_below))

module _ (root virt flags : ℕ) where
  last-Got :
      (pd : ℕ) (s : Pmm) (t : Shape)
      → Wf s root t
      → t.level pd ≡ 2
      → Got root virt 1 pd s t
          (then_in (enter_pd s pd (pd_idx virt) true flags) (λ pt s1. (some (pt, pt_idx virt), s1)))
  unfolding enter_pd idx
  last-Got pd s t w above =
      elim (Bool-cases
        (is_present (s.frames pd (pd_idx virt)) && is_huge (s.frames pd (pd_idx virt)))) [
          | inl large ↦
              rw large
                (unfold Got in_large in (t, w, Kept-refl s root t, inl (refl, inr (ground arith))))
          | inr small ↦ rw small (
              then-Got root virt 0 pd s t w flags above (enter s pd (pd_idx virt) true flags)
                (λ pt s1. (some (pt, pt_idx virt), s1))
                (enter-Entered s root t w 0 pd (pd_idx virt) flags above (idx-lt 1 virt)
                  (λ here. ground arith))
                (λ q s1 t1 w1 below.
                  unfold Got walk in (t1, w1, Kept-refl s1 root t1, inr (q, refl, below, refl))))
        ]

  pub get_pte-Got :
      (s : Pmm) (t : Shape)
      → Wf s root t
      → Got root virt 3 root s t (get_pte s root virt true flags)
  unfolding get_pte idx
  get_pte-Got s t w =
      then-Got root virt 2 root s t w flags w.top (enter s root (pml4_idx virt) true flags) _
        (enter-Entered s root t w 2 root (pml4_idx virt) flags w.top (idx-lt 3 virt) (λ here. refl))
        (λ pdpt s3 t3 w3 above3.
          then-Got root virt 1 pdpt s3 t3 w3 flags above3 (enter s3 pdpt (pdpt_idx virt) true flags)
            _
            (enter-Entered s3 root t3 w3 1 pdpt (pdpt_idx virt) flags above3 (idx-lt 2 virt)
              (λ here. w3.tree.no_giant pdpt (pdpt_idx virt) above3 (idx-lt 2 virt) here))
            (λ pd s2 t2 w2 above2. last-Got pd s2 t2 w2 above2))
