-- ===== src/Vmm/Spaces/Laws.antt =====
-- A new address space: the kernel's half, and nothing in the user's half.
use my_unix.Base.{
  ℕ, zero, suc, ◌/◌, ◌<◌, ◌≡◌, refl, ◌≢◌, ◌⊎◌, ◌+◌, inl, inr, true, false, if◌then◌else◌, leb, [],
  Bool, Option, none, some, arith, Bool-cases,
}
use my_unix.Base.Word.{page_size}
use my_unix.Pmm.{Pmm}
use my_unix.Pmm.Alloc.{Took}
use my_unix.Pmm.Bitmap.{bitmap_test}
use my_unix.Pmm.Inv.{Inv}
use my_unix.Vmm.{Space}
use my_unix.Vmm.Tables.{Frames, is_present, pte_page, pml4_idx, virt_to_phys, translate, pml4_page}
use my_unix.Vmm.Tables.Tree.{idx, idx-lt, big, resolve, Shape, Tree}
use my_unix.Vmm.Spaces.{copy_kernel}

-- Which pages are tables (`suc l` for a table of level `l`): every entry that is present and no large page points to a table
-- of the next level. Several entries may point to one table.
pub record Levels (f : Frames) (level : ℕ → ℕ) : Type 0 where
  pub link :
      (l p i : ℕ)
      → level p ≡ suc (suc l)
      → i < 512
      → is_present (f p i) ≡ true
      → big (suc l) (f p i) ≡ false
      → level (pte_page (f p i)) ≡ suc l

pub Tree-Levels : (f : Frames) (t : Shape) → Tree f t → Levels f t.level
Tree-Levels f t w = record { link = λ l p i h b here small. (w.link l p i h b here small).0 }

-- Only tables matter to where addresses lead.
pub agree-resolve :
    (f f' : Frames) (level : ℕ → ℕ)
    → Levels f level
    → ((p j : ℕ) → level p ≢ 0 → f' p j ≡ f p j)
    → (l p v : ℕ) → level p ≡ suc l
    → resolve f' l p v ≡ resolve f l p v
unfolding resolve
agree-resolve f f' level w same zero p v h = rw (same p (idx 0 v) (λ z. ground (arith, h, z))) refl
agree-resolve f f' level w same (suc l) p v h =
    rw (same p (idx (suc l) v) (λ z. ground (arith, h, z)))
      (elim (Bool-cases (is_present (f p (idx (suc l) v)))) [
        | inr gone ↦ rw gone refl
        | inl here ↦ elim (Bool-cases (big (suc l) (f p (idx (suc l) v)))) [
          | inl large ↦ rw (here, large) refl
          | inr small ↦
              rw (here, small)
                (agree-resolve f f' level w same l (pte_page (f p (idx (suc l) v))) v
                  (w.link l p (idx (suc l) v) h (idx-lt (suc l) v) here small))
        ]
      ])

module _ (s : Pmm) (k : ℕ) (level : ℕ → ℕ) (levels : Levels s.frames level) (top : level k ≡ 4)
    (used : (p : ℕ) → level p ≢ 0 → bitmap_test s.bitmap p ≡ true) (phys : ℕ) (s1 : Pmm)
    (took : Took s phys s1) where
  abbrev r : ℕ
  r = phys / page_size

  abbrev made : Pmm
  made = record s1 { frames = copy_kernel s1.frames r k }

-- What vmm_create_space comes to; `top` is the page of the kernel's top table.
pub data Created (has_memory : Bool) (s : Pmm) (top : ℕ) (r : Option Space × Pmm) : Type 0 where
  no_memory : (has_memory ≡ false) ⊎ (s.free_pages ≡ 0) → r ≡ (none, s) → Created has_memory s top r
  created :
      (space : Space)
      → (has_memory ≡ true) × (r.0 ≡ some space)
      → (space.refcount ≡ 1) × (space.vma_list ≡ []) × (space.n_pages ≡ 0)
      → ((v : ℕ)
          → translate space r.1 v
            ≡ (if leb 256 (pml4_idx v) then virt_to_phys s.frames top v else 0))
      → ((v : ℕ) → virt_to_phys r.1.frames top v ≡ virt_to_phys s.frames top v)
      → r.1.free_pages + 1 ≡ s.free_pages
      → (bitmap_test s.bitmap (pml4_page space) ≡ false)
        × (bitmap_test r.1.bitmap (pml4_page space) ≡ true)
      → Created has_memory s top r
