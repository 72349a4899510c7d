-- ===== src/Heap/Fit.antt =====
-- The best-fit search of kmalloc.
use my_unix.Base.{
  ℕ, ◌-◌, ◌≤◌, ◌<◌, ◌≡◌, refl, ap, ◌⊎◌, inl, inr, Bool, true, false, ◌&&◌, ◌||◌, ◌==◌, ltb, leb,
  List, [], ◌∷◌, none, some, arith, Bool-cases,
}
use my_unix.Base.Outcome.{done}
use my_unix.Base.Word.{word_mod}
use my_unix.Heap.{magic_free, best_fit}

-- whether a block is on a list, and whether all blocks of a list are free
unfoldable pub on_list : ℕ → List ℕ → Bool
on_list b [] = false
on_list b (x ∷ xs) = x == b || on_list b xs

unfoldable pub all_free : (ℕ → ℕ) → List ℕ → Bool
all_free magic [] = true
all_free magic (b ∷ bs) = magic b == magic_free && all_free magic bs

module _ (magic size : ℕ → ℕ) (want : ℕ) where
  -- The search from a best block so far, which is large enough.
  search_lem :
      (bs : List ℕ) (best : ℕ) (best_size : ℕ)
      → all_free magic bs ≡ true
      → best_size ≡ size best
      → want ≤ best_size
      → (b : ℕ) × (best_fit magic size want bs (some best) best_size ≡ done (some b))
        × (on_list b (best ∷ bs) ≡ true)
        × (want ≤ size b)
        × (size b ≤ size best)
        × ((c : ℕ) → on_list c bs ≡ true → want ≤ size c → size b ≤ size c)
  unfolding best_fit on_list all_free
  search_lem [] best best_size h e k =
      (best, refl, ground arith, omega (arith, e, k), omega arith, λ c f. absurd (ground arith))
  search_lem (x ∷ bs) best best_size h e k =
      let f : (magic x == magic_free) ≡ true = ground arith in
      elim (Bool-cases (leb want (size x) && ltb (size x) best_size)) [
        | inl better ↦ elim (Bool-cases (size x == want)) [
          | inl exact ↦ (
            x,
            rw (f, better, exact) refl,
            ground arith,
            ground arith,
            ground (arith, e),
            λ c g w. ground arith,
          )
          | inr above ↦
              let (b, eq, there, fits, le, least) =
                search_lem bs x (size x) (ground arith) refl (ground arith) in
              (
                b,
                rw (f, better, above) eq,
                ground arith,
                fits,
                ground (arith, e, le),
                λ c g w. at_most b c le (least c) g w,
              )
        ]
        | inr worse ↦
            let (b, eq, there, fits, le, least) = search_lem bs best best_size (ground arith) e k in
            (
              b,
              rw (f, worse) eq,
              ground arith,
              fits,
              le,
              λ c g w. elim (Bool-cases (x == c)) [
                | inl same ↦
                    let same_size : size x ≡ size c = ap size (the_same same) in
                    ground (arith, e, le, same_size)
                | inr other ↦ least c (ground arith) w
              ],
            )
      ]
    where
      the_same : {c : ℕ} → (x == c) ≡ true → x ≡ c
      the_same g = ground arith

      at_most :
          (b c : ℕ)
          → size b ≤ size x
          → (on_list c bs ≡ true → want ≤ size c → size b ≤ size c)
          → on_list c (x ∷ bs) ≡ true
          → want ≤ size c
          → size b ≤ size c
      at_most b c le least g w = elim (Bool-cases (x == c)) [
        | inl same ↦
            let same_size : size x ≡ size c = ap size (the_same same) in
            omega (arith, le, same_size)
        | inr other ↦ least (ground arith) w
      ]

-- On a list of free blocks the search ends without PANIC and finds a smallest of the blocks that are large enough; it
-- finds none only if none is.
pub best_fit_lem :
    (magic size : ℕ → ℕ) (want : ℕ) (bs : List ℕ)
    → all_free magic bs ≡ true
    → ((c : ℕ) → size c < word_mod - 1)
    → ((best_fit magic size want bs none (word_mod - 1) ≡ done none)
        × ((c : ℕ) → on_list c bs ≡ true → size c < want))
      ⊎ ((b : ℕ) × (best_fit magic size want bs none (word_mod - 1) ≡ done (some b))
          × (on_list b bs ≡ true)
          × (want ≤ size b)
          × ((c : ℕ) → on_list c bs ≡ true → want ≤ size c → size b ≤ size c))
unfolding best_fit on_list all_free
best_fit_lem magic size want [] h small = inl (refl, λ c f. absurd (ground arith))
best_fit_lem magic size want (x ∷ bs) h small =
    let f : (magic x == magic_free) ≡ true = ground arith in
    elim (Bool-cases (leb want (size x))) [
      | inl fits ↦
          let better : (leb want (size x) && ltb (size x) (word_mod - 1)) ≡ true =
            ground (arith, small x) in
          elim (Bool-cases (size x == want)) [
            | inl exact ↦
                inr
                  (x, rw (f, better, exact) refl, ground arith, ground arith, λ c g w. ground arith)
            | inr above ↦
                let (b, eq, there, large, le, least) =
                  search_lem magic size want bs x (size x) (ground arith) refl (ground arith) in
                inr (
                  b,
                  rw (f, better, above) eq,
                  there,
                  large,
                  λ c g w. elim (Bool-cases (x == c)) [
                    | inl same ↦
                        let same_size : size x ≡ size c = ap size (same_block same) in
                        omega (arith, le, same_size)
                    | inr other ↦ least c (ground arith) w
                  ],
                )
          ]
      | inr short ↦
          let worse : (leb want (size x) && ltb (size x) (word_mod - 1)) ≡ false = ground arith in
          elim (best_fit_lem magic size want bs (ground arith) small) [
            | inl (eq, all) ↦ inl (
              rw (f, worse) eq,
              λ c g. elim (Bool-cases (x == c)) [
                | inl same ↦
                    let same_size : size x ≡ size c = ap size (same_block same) in
                    ground (arith, same_size)
                | inr other ↦ all c (ground arith)
              ],
            )
            | inr (b, eq, there, large, least) ↦ inr (
              b,
              rw (f, worse) eq,
              ground arith,
              large,
              λ c g w. elim (Bool-cases (x == c)) [
                | inl same ↦
                    let same_size : size x ≡ size c = ap size (same_block same) in
                    absurd (ground (arith, same_size))
                | inr other ↦ least c (ground arith) w
              ],
            )
          ]
    ]
  where
    same_block : {c : ℕ} → (x == c) ≡ true → x ≡ c
    same_block g = ground arith
