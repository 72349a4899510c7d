-- ===== src/Vmm/Tests.antt =====
-- Tests of the regions of mm/vmm.c.
use my_unix.Base.{◌≡◌, refl, [], ◌∷◌, none, some}
use my_unix.Vmm.{Space, find_vma, new_vma, find_in}

-- a program's text, then its heap
abbrev space : Space
space = record {
  pml4_phys = 1048576;
  refcount = 1;
  n_pages = 0;
  vma_list = new_vma 100 4194304 8000 5 2 ∷ (new_vma 200 8388608 4096 3 34 ∷ []);
  n_vmas = 2;
}

text_found : find_vma space 4202495 ≡ some (new_vma 100 4194304 8000 5 2)
unfolding find_in
text_found = refl

gap_free : find_vma space 4202496 ≡ none
unfolding find_in
gap_free = refl

wraps : (new_vma 300 18446744073709547520 4096 3 34).end ≡ 0
wraps = refl
