-- ===== src/Vmm/Tables/Grow.antt =====
-- Hanging a new, empty table into the tree: no address leads elsewhere.
use my_unix.Base.{
  ℕ, zero, suc, ◌<◌, ◌≡◌, refl, ◌≢◌, ◌⊎◌, inl, inr, true, false, ◌==◌, arith, Bool-cases,
}
use my_unix.Base.Maps.{update}
use my_unix.Vmm.Tables.{Frames, is_present, is_huge, pte_page}
use my_unix.Vmm.Tables.Tree.{idx, idx-lt, big, resolve, Shape, Tree}

resolve-empty : (f : Frames) (l q v : ℕ) → ((j : ℕ) → f q j ≡ 0) → resolve f l q v ≡ 0
unfolding resolve
resolve-empty f zero q v h = rw (h (idx 0 v)) refl
resolve-empty f (suc l) q v h = rw (h (idx (suc l) v)) refl

-- Entry `i` of table `p`, absent in `f`, points in `f'` to the empty table `q`, which was none.
pub record Hung (f f' : Frames) (t : Shape) (l p i q : ℕ) : Type 0 where
  pub above : t.level p ≡ suc (suc l)
  pub absent : is_present (f p i) ≡ false
  pub fresh : t.level q ≡ 0
  pub empty : (j : ℕ) → f' q j ≡ 0
  pub there : is_present (f' p i) ≡ true
  pub table : is_huge (f' p i) ≡ false
  pub points : pte_page (f' p i) ≡ q
  pub rest : (p0 j : ℕ) → p0 ≢ q → (p0 ≢ p) ⊎ (j ≢ i) → f' p0 j ≡ f p0 j

abbrev pub hang : Shape → (l p i q : ℕ) → Shape
hang t l p i q = record {
  level = update t.level q (suc l);
  parent = update t.parent q p;
  slot = update t.slot q i;
}

pub not_big : (l e : ℕ) → is_huge e ≡ false → big l e ≡ false
not_big zero e h = refl
not_big (suc zero) e h = h
not_big (suc (suc zero)) e h = h
not_big (suc (suc (suc l))) e h = refl

module _ (f f' : Frames) (t : Shape) (w : Tree f t) (l p i q : ℕ) (g : Hung f f' t l p i q) where
  open g use {above, absent, fresh, empty, there, table, points, rest}

  differ : (p0 n : ℕ) → t.level p0 ≡ suc n → p0 ≢ q
  differ p0 n h same = ground (arith, fresh, h, same)

  -- An entry of an old table is the new link or is as before.
  entry-cases : (p0 n j : ℕ) → t.level p0 ≡ suc n → ((p0 ≡ p) × (j ≡ i)) ⊎ (f' p0 j ≡ f p0 j)
  entry-cases p0 n j h = elim (Bool-cases (p0 == p)) [
    | inr other ↦ inr (rest p0 j (differ p0 n h) (inl (ground arith)))
    | inl same ↦ elim (Bool-cases (j == i)) [
      | inl link ↦ inl (ground arith, ground arith)
      | inr other ↦ inr (rest p0 j (differ p0 n h) (inr (ground arith)))
    ]
  ]

  pub hung-resolve : (n p0 v : ℕ) → t.level p0 ≡ suc n → resolve f' n p0 v ≡ resolve f n p0 v
  unfolding resolve
  hung-resolve zero p0 v h = elim (entry-cases p0 zero (idx 0 v) h) [
    | inr same ↦ rw same refl
    | inl (e, _) ↦ absurd (ground (arith, above, h, e))
  ]
  hung-resolve (suc n) p0 v h = elim (entry-cases p0 (suc n) (idx (suc n) v) h) [
    | inl (e, e') ↦
        rw (e, e', absent, there, not_big (suc n) (f' p i) table, points)
          (resolve-empty f' n q v empty)
    | inr same ↦ rw same (elim (Bool-cases (is_present (f p0 (idx (suc n) v)))) [
      | inr gone ↦ rw gone refl
      | inl here ↦ elim (Bool-cases (big (suc n) (f p0 (idx (suc n) v)))) [
        | inl large ↦ rw (here, large) refl
        | inr small ↦
            rw (here, small)
              (hung-resolve n (pte_page (f p0 (idx (suc n) v))) v
                (w.link n p0 (idx (suc n) v) h (idx-lt (suc n) v) here small).0)
      ]
    ])
  ]

  old_level : (p0 n : ℕ) → p0 ≢ q → (hang t l p i q).level p0 ≡ suc n → t.level p0 ≡ suc n
  old_level p0 n ne h = ground (arith, h)

  pub hung-Tree : Tree f' (hang t l p i q)
  hung-Tree = record { link = linked; no_giant = not_giant }
    where
      linked :
          (l0 p0 i0 : ℕ)
          → (hang t l p i q).level p0 ≡ suc (suc l0)
          → i0 < 512
          → is_present (f' p0 i0) ≡ true
          → big (suc l0) (f' p0 i0) ≡ false
          → ((hang t l p i q).level (pte_page (f' p0 i0)) ≡ suc l0)
            × ((hang t l p i q).parent (pte_page (f' p0 i0)) ≡ p0)
            × ((hang t l p i q).slot (pte_page (f' p0 i0)) ≡ i0)
      linked l0 p0 i0 h k here small = elim (Bool-cases (p0 == q)) [
        | inl new ↦
            let e : p0 ≡ q = ground arith in absurd (ground (arith, rw (e, empty i0) at here))
        | inr old ↦
            let h' = old_level p0 (suc l0) (ground arith) h in
            elim (entry-cases p0 (suc l0) i0 h') [
              | inl (e, e') ↦ rw (e, e', points) (ground (arith, above, h', e))
              | inr same ↦
                  let (a, b, c) = w.link l0 p0 i0 h' k (rw same at here) (rw same at small) in
                  let ne = differ (pte_page (f p0 i0)) l0 a in rw same (ground (arith, a, b, c, ne))
            ]
      ]

      not_giant :
          (p0 i0 : ℕ)
          → (hang t l p i q).level p0 ≡ 3
          → i0 < 512
          → is_present (f' p0 i0) ≡ true
          → is_huge (f' p0 i0) ≡ false
      not_giant p0 i0 h k here = elim (Bool-cases (p0 == q)) [
        | inl new ↦
            let e : p0 ≡ q = ground arith in absurd (ground (arith, rw (e, empty i0) at here))
        | inr old ↦
            let h' = old_level p0 2 (ground arith) h in
            elim (entry-cases p0 2 i0 h') [
              | inl (e, e') ↦ rw (e, e') table
              | inr same ↦ rw same (w.no_giant p0 i0 h' k (rw same at here))
            ]
      ]
