-- ===== src/Vmm/Tables/Leaf.antt =====
-- Writing the entry of a page of 4 KB: it changes where the addresses of that page lead, and nothing else.
use my_unix.Base.{
  ℕ, zero, suc, ◌+◌, ◌/◌, ◌%◌, ◌≤◌, ◌≡◌, refl, ◌∙◌, ◌≢◌, inl, inr, not, if◌then◌else◌, ◌==◌, some,
  arith, Bool-cases,
}
use my_unix.Vmm.Tables.{Frames, is_present, pte_page, pte_addr, write}
use my_unix.Vmm.Tables.Tree.{idx, big, walk, resolve, Shape, Tree, walk-step, walk_unique, idx-lt}

-- The number of the page of an address; the bits above 47 do not matter.
abbrev pub page_number : ℕ → ℕ
page_number v = v / 4096 % 68719476736

-- Where an entry leads the addresses of its page.
abbrev pub leaf : ℕ → ℕ → ℕ
leaf e v = if not (is_present e) then 0 else pte_addr e + v % 4096

pub write-other : (f : Frames) (p i e q j : ℕ) → q ≢ p → write f p i e q j ≡ f q j
unfolding write
write-other f p i e q j h = ground arith

pub write-same : (f : Frames) (p i e : ℕ) → write f p i e p i ≡ e
unfolding write
write-same f p i e = ground arith

write-index : (f : Frames) (p i e j : ℕ) → j ≢ i → write f p i e p j ≡ f p j
unfolding write
write-index f p i e j h = ground arith

pub page_number-idx : (v v' : ℕ) → page_number v ≡ page_number v' → (k : ℕ) → idx k v ≡ idx k v'
unfolding idx
page_number-idx v v' h zero = omega arith
page_number-idx v v' h (suc zero) = omega arith
page_number-idx v v' h (suc (suc zero)) = omega arith
page_number-idx v v' h (suc (suc (suc k))) = omega arith

idx-page_number :
    (v v' : ℕ) → ((k : ℕ) → k ≤ 3 → idx k v ≡ idx k v') → page_number v ≡ page_number v'
unfolding idx
idx-page_number v v' h =
    omega (arith, h 0 (omega arith), h 1 (omega arith), h 2 (omega arith), h 3 (omega arith))

pub walk-page :
    (f : Frames) (l p v v' : ℕ) → page_number v ≡ page_number v' → walk f l p v ≡ walk f l p v'
unfolding walk
walk-page f zero p v v' h = rw (page_number-idx v v' h 0) refl
walk-page f (suc l) p v v' h =
    rw (page_number-idx v v' h (suc l), walk-page f l (pte_page (f p (idx (suc l) v'))) v v' h) refl

-- A walk that ends in an entry says where the address leads.
pub resolve-walk :
    (f : Frames) (l p v q i : ℕ) → walk f l p v ≡ some (q, i) → resolve f l p v ≡ leaf (f q i) v
unfolding resolve walk
resolve-walk f zero p v q i h = ground arith
resolve-walk f (suc l) p v q i h =
    let (there, table, next) = walk-step f l p v (q, i) h in
    rw (there, table) (resolve-walk f l (pte_page (f p (idx (suc l) v))) v q i next)

module _ (f : Frames) (t : Shape) (w : Tree f t) (q j e : ℕ) (leaf_table : t.level q ≡ 1) where
  upper : (l p i : ℕ) → t.level p ≡ suc (suc l) → write f q j e p i ≡ f p i
  upper l p i h = write-other f q j e p i (λ same. ground (arith, leaf_table, h, same))

  pub write-Tree : Tree (write f q j e) t
  write-Tree = record {
    link = λ l p i h k. rw (upper l p i h) (λ a b. w.link l p i h k a b);
    no_giant = λ p i h k. rw (upper 1 p i h) (λ a. w.no_giant p i h k a);
  }

  pub walk-write : (l p v : ℕ) → t.level p ≡ suc l → walk (write f q j e) l p v ≡ walk f l p v
  unfolding walk
  walk-write zero p v h = refl
  walk-write (suc l) p v h =
      rw (upper l p (idx (suc l) v) h) (elim (Bool-cases (is_present (f p (idx (suc l) v)))) [
        | inr absent ↦ rw absent refl
        | inl there ↦ elim (Bool-cases (big (suc l) (f p (idx (suc l) v)))) [
          | inl large ↦ rw (there, large) refl
          | inr table ↦
              rw (there, table)
                (walk-write l (pte_page (f p (idx (suc l) v))) v
                  (w.link l p (idx (suc l) v) h (idx-lt (suc l) v) there table).0)
        ]
      ])

  resolve-other :
      (l p v : ℕ)
      → t.level p ≡ suc l
      → walk f l p v ≢ some (q, j)
      → resolve (write f q j e) l p v ≡ resolve f l p v
  unfolding resolve walk
  resolve-other zero p v h ne = elim (Bool-cases (p == q)) [
    | inr other ↦ rw (write-other f q j e p (idx 0 v) (ground arith)) refl
    | inl same ↦
        let eq : p ≡ q = ground arith in
        rw eq (rw (write-index f q j e (idx 0 v) (λ i. ne (rw (eq, i) refl))) refl)
  ]
  resolve-other (suc l) p v h ne =
      rw (upper l p (idx (suc l) v) h) (elim (Bool-cases (is_present (f p (idx (suc l) v)))) [
        | inr absent ↦ rw absent refl
        | inl there ↦ elim (Bool-cases (big (suc l) (f p (idx (suc l) v)))) [
          | inl large ↦ rw (there, large) refl
          | inr table ↦
              rw (there, table)
                (resolve-other l (pte_page (f p (idx (suc l) v))) v
                  (w.link l p (idx (suc l) v) h (idx-lt (suc l) v) there table).0
                  (λ k. ne (rw (there, table) k)))
        ]
      ])

  pub resolve-write :
      (root virt v : ℕ)
      → t.level root ≡ 4
      → walk f 3 root virt ≡ some (q, j)
      → resolve (write f q j e) 3 root v
        ≡ (if page_number v == page_number virt then leaf e v else resolve f 3 root v)
  resolve-write root virt v top h = elim (Bool-cases (page_number v == page_number virt)) [
    | inl same ↦
        let here : walk f 3 root v ≡ some (q, j) = walk-page f 3 root v virt (ground arith) ∙ h in
        rw same (
          resolve-walk (write f q j e) 3 root v q j (walk-write 3 root v top ∙ here)
          ∙ rw (write-same f q j e) refl)
    | inr other ↦ rw other (
        resolve-other 3 root v top λ k.
          ground (
            arith,
            idx-page_number v virt (walk_unique f t w 3 root root v virt q j top top k h).1,
          ))
  ]
