-- ===== src/Vmm/Tables/Tests.antt =====
-- Tests of the page tables: an address space with an empty top table at page 2 of a memory of 100 pages.
use my_unix.Base.{
  ℕ, ◌≡◌, refl, ◌≢◌, not, ◌&&◌, ◌-◌, ltb, ◌⊎◌, some, true, false, if◌then◌else◌, ◌==◌, [], arith,
  Bool-cases, inl, inr,
}
use my_unix.Base.Bits.{test_bit}
use my_unix.Pmm.{Pmm}
use my_unix.Pmm.Bitmap.{Bitmap, bitmap_test, count_free}
use my_unix.Pmm.Inv.{Inv}
use my_unix.Vmm.{Space}
use my_unix.Vmm.Tables.{map, unmap, translate, pml4_page, write, is_present}
use my_unix.Vmm.Tables.Entry.{IsFlags}
use my_unix.Vmm.Tables.Tree.{Shape, walk}
use my_unix.Vmm.Tables.Leaf.{page_number}
use my_unix.Vmm.Tables.Enter.{Wf}
use my_unix.Vmm.Tables.Lookup.{in_large}
use my_unix.Vmm.Tables.Laws.{IsTree, Mapped, no_entry, mapped, map_lem}
use my_unix.Vmm.Tables.Change.{unmap_lem}

abbrev pub bits : Bitmap
bits w = if w == 0 then 5 else 0

abbrev pub memory : Pmm
memory = record {
  bitmap = bits;
  total_pages = 100;
  free_pages = 98;
  used_pages = 2;
  alloc_hint = 0;
  frames = λ p w. 0;
}

abbrev pub empty_space : Space
empty_space = record { pml4_phys = 8192; refcount = 1; vma_list = []; n_pages = 0; n_vmas = 0 }

abbrev pub shape : Shape
shape = record { level = λ p. if p == 2 then 4 else 0; parent = λ p. 0; slot = λ p. 0 }

memory-Inv : Inv memory
unfolding bitmap_test count_free test_bit
memory-Inv = record {
  counts = record {
    words = λ w. ground arith;
    small = omega arith;
    counted = refl;
    balanced = refl;
  };
  hint_in = omega arith;
  zero_used = refl;
}

root_used : (p : ℕ) → shape.level p ≢ 0 → bitmap_test memory.bitmap p ≡ true
unfolding bitmap_test test_bit
root_used p h = elim (Bool-cases (p == 2)) [
  | inl e ↦ let same : p ≡ 2 = ground arith in rw same refl
  | inr ne ↦ absurd (h (rw ne refl))
]

pub memory-Wf : Wf memory 2 shape
memory-Wf = record {
  inv = memory-Inv;
  small = omega arith;
  tree = record {
    link = λ l p i h k a b. absurd (ground arith);
    no_giant = λ p i h k a. absurd (ground arith);
  };
  top = refl;
  height = λ p. ground arith;
  used = root_used;
}

memory-IsTree : IsTree memory (pml4_page empty_space)
unfolding IsTree
memory-IsTree = (shape, memory-Wf)

user_rw : IsFlags 7
user_rw = record { word = omega arith; no_address = refl }

map_example : Mapped empty_space memory 4194304 40960 7 (map empty_space memory 4194304 40960 7)
map_example =
    map_lem empty_space memory 4194304 40960 7 memory-IsTree refl refl (omega arith) user_rw

-- The page is mapped, and the address space counts it.
abbrev mapped_memory : Pmm
mapped_memory = (map empty_space memory 4194304 40960 7).2

abbrev one_page : Space
one_page = record empty_space { n_pages = 1 }

mapped_memory-IsTree : IsTree mapped_memory (pml4_page one_page)
mapped_memory-IsTree = elim map_example [ no_entry _ _ _ _ tree ↦ tree | mapped _ _ _ tree ↦ tree ]

unmap_example :
    ((v : ℕ)
      → translate one_page (unmap one_page mapped_memory 4194304).1 v ≡ (
          if page_number v == page_number 4194304
            && not (in_large mapped_memory.frames 3 (pml4_page one_page) 4194304)
          then 0
          else translate one_page mapped_memory v))
    × IsTree (unmap one_page mapped_memory 4194304).1 (pml4_page one_page)
    × (in_large mapped_memory.frames 3 (pml4_page one_page) 4194304 ≡ true
        → unmap one_page mapped_memory 4194304 ≡ (one_page, mapped_memory))
    × (((q i : ℕ) × (walk mapped_memory.frames 3 (pml4_page one_page) 4194304 ≡ some (q, i))
          × (is_present (mapped_memory.frames q i) ≡ true)
          × (unmap one_page mapped_memory 4194304 ≡ (
            record one_page { n_pages = if ltb 0 1 then 1 - 1 else 1 },
            record mapped_memory { frames = write mapped_memory.frames q i 0 },
          )))
        ⊎ (((q i : ℕ)
              → walk mapped_memory.frames 3 (pml4_page one_page) 4194304 ≡ some (q, i)
              → is_present (mapped_memory.frames q i) ≡ false)
            × (unmap one_page mapped_memory 4194304 ≡ (one_page, mapped_memory))))
unmap_example = unmap_lem one_page mapped_memory 4194304 mapped_memory-IsTree
