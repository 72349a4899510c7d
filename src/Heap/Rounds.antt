-- ===== src/Heap/Rounds.antt =====
-- kmalloc ends: each round of its retry loop but the last takes pages from the page allocator.
use my_unix.Base.{
  ℕ, zero, suc, ◌+◌, ◌-◌, ◌*◌, ◌/◌, ◌^◌, ◌<◌, ◌≡◌, refl, sym, ◌∙◌, ◌⊎◌, inl, inr, Bool, true, false,
  ◌==◌, Option, none, some, arith, Bool-cases,
}
use my_unix.Base.Outcome.{Outcome, done, panic}
use my_unix.Base.Word.{word_mod, page_size, add64}
use my_unix.Pmm.{alloc}
use my_unix.Pmm.Inv.{Inv}
use my_unix.Pmm.Alloc.{alloc_lem}
use my_unix.Heap.{
  Heap, best_fit, use_block, map_pages, heap_grow, after_grow, after_search, general, header_size,
  heap_grow_size,
}

-- The loop over the pages keeps the page allocator in order and, if it gets them all, leaves as many fewer free.
map_pages_lem :
    (n : ℕ) (h : Heap)
    → Inv h.pmm
    → Inv (map_pages n h).1.pmm
      × (((map_pages n h).0 ≡ false) ⊎ ((map_pages n h).1.pmm.free_pages + n ≡ h.pmm.free_pages))
unfolding map_pages
map_pages_lem zero h v = (v, inr (omega arith))
map_pages_lem (suc n) h v = elim (alloc_lem h.pmm v) [
  | inl (z, e) ↦
      let none_left : ((alloc h.pmm).0 == 0) ≡ true = rw e refl in
      (rw none_left (rw e v), inl (rw none_left refl))
  | inr (_, t) ↦
      let got : ((alloc h.pmm).0 == 0) ≡ false = ground (arith, t.nonzero) in
      let (w, r) =
        map_pages_lem n (record h { pmm = (alloc h.pmm).1; heap_end = add64 h.heap_end page_size })
          t.valid in
      rw got (w, elim r [ inl f ↦ inl f | inr e ↦ inr (omega (arith, e, t.one_less)) ])
]

-- The pages that a growth by `need` bytes asks for.
abbrev pages_for : ℕ → ℕ
pages_for need =
    add64 (add64 need header_size) (heap_grow_size - 1)
    / heap_grow_size
    * heap_grow_size
    / page_size

-- Growing the heap fails or leaves fewer pages free.
abbrev Grows : Heap → Bool × Heap → Type 0
Grows h r =
    (r.0 ≡ false) ⊎ ((r.0 ≡ true) × Inv (r.1).pmm × ((r.1).pmm.free_pages < h.pmm.free_pages))

heap_grow-Grows : (h : Heap) (need : ℕ) → Inv h.pmm → need < 2 ^ 63 → Grows h (heap_grow h need)
unfolding heap_grow
heap_grow-Grows h need v small =
    let n = pages_for need in
    let pos : 0 < n = omega (arith, small) in
    let (w, r) = map_pages_lem n h v in
    elim (Bool-cases (map_pages n h).0) [
      | inr failed ↦ inl (rw failed refl)
      | inl ok ↦ inr (
        rw ok refl,
        rw ok w,
        rw ok (elim r [
          | inl f ↦ absurd (ground (arith, sym ok ∙ f))
          | inr e ↦ omega (arith, e, pos)
        ]),
      )
    ]

-- A result that is not for want of rounds.
abbrev Ends : Outcome (Option (ℕ × Heap)) → Type 0
Ends o = (o ≡ panic) ⊎ ((r : ℕ × Heap) × (o ≡ done (some r)))

after_grow-Ends :
    (retry : Heap → Outcome (Option (ℕ × Heap))) (h : Heap) (r : Bool × Heap)
    → Grows h r
    → ((h' : Heap) → Inv h'.pmm → h'.pmm.free_pages < h.pmm.free_pages → Ends (retry h'))
    → Ends (after_grow retry r)
unfolding after_grow
after_grow-Ends retry h (true, h') (inl f) again = absurd (ground (arith, f))
after_grow-Ends retry h (true, h') (inr (_, v, less)) again = again h' v less
after_grow-Ends retry h (false, h') g again = inr ((0, h'), refl)

after_search-Ends :
    (retry : Heap → Outcome (Option (ℕ × Heap))) (h : Heap) (size : ℕ) (f : Outcome (Option ℕ))
    → Inv h.pmm
    → size < 2 ^ 63
    → ((h' : Heap) → Inv h'.pmm → h'.pmm.free_pages < h.pmm.free_pages → Ends (retry h'))
    → Ends (after_search retry h size f)
unfolding after_search
after_search-Ends retry h size panic v small again = inl refl
after_search-Ends retry h size (done (some best)) v small again = inr (use_block h size best, refl)
after_search-Ends retry h size (done none) v small again =
    after_grow-Ends retry h (heap_grow h size) (heap_grow-Grows h size v small) again

-- With more rounds than there are free pages, the general heap comes to a result for any size below 2^63: a block, NULL, or a PANIC
-- over a corrupt free list.
pub general_lem :
    (rounds : ℕ) (h : Heap) (size : ℕ)
    → Inv h.pmm
    → size < 2 ^ 63
    → h.pmm.free_pages < rounds
    → (general rounds h size ≡ panic) ⊎ ((r : ℕ × Heap) × (general rounds h size ≡ done (some r)))
unfolding general
general_lem zero h size v small enough = absurd (omega arith)
general_lem (suc rounds) h size v small enough =
    after_search-Ends (λ h'. general rounds h' size) h size
      (best_fit h.magic h.size size h.free_list none (word_mod - 1)) v small
      (λ h' w less. general_lem rounds h' size w small (omega arith))
