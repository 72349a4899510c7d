-- ===== src/Vmm/Tables/Laws.antt =====
-- vmm_map, vmm_unmap and vmm_protect: where every address leads afterwards.
use my_unix.Base.{
  ℕ, ◌+◌, ◌*◌, ◌/◌, ◌%◌, ◌<◌, ◌≡◌, refl, sym, ◌∙◌, ◌⊎◌, inl, inr, true, if◌then◌else◌, ◌==◌, Option,
  none, some, arith,
}
use my_unix.Base.Bits.{or_bits}
use my_unix.Base.Errno.{enomem}
use my_unix.Base.Int.{ℤ, pos, neg}
use my_unix.Base.Word.{add64, is_page_aligned}
use my_unix.Pmm.{Pmm}
use my_unix.Pmm.Inv.{Counts-rest}
use my_unix.Vmm.{Space}
use my_unix.Vmm.Tables.{is_present, write, get_pte, pml4_page, map, map_at, translate}
use my_unix.Vmm.Tables.Entry.{IsFlags, entry-page, entry-present}
use my_unix.Vmm.Tables.Tree.{Shape, virt_to_phys-resolve}
use my_unix.Vmm.Tables.Leaf.{page_number, leaf, write-Tree, resolve-write}
use my_unix.Vmm.Tables.Enter.{Wf}
use my_unix.Vmm.Tables.Lookup.{in_large, Got, get_pte-Got}

-- Writing an entry of a page table keeps the tree.
pub write-Wf :
    (s : Pmm) (root : ℕ) (t : Shape) (q j e : ℕ)
    → Wf s root t
    → t.level q ≡ 1
    → Wf (record s { frames = write s.frames q j e }) root t
write-Wf s root t q j e w h = record {
  inv = record {
    counts = Counts-rest s s.alloc_hint (write s.frames q j e) w.inv.counts;
    hint_in = w.inv.hint_in;
    zero_used = w.inv.zero_used;
  };
  small = w.small;
  tree = write-Tree s.frames t w.tree q j e h;
  top = w.top;
  height = w.height;
  used = w.used;
}

-- Some tree of tables lies below the root.
unfoldable pub IsTree : Pmm → ℕ → Type 0
IsTree s root = (t : Shape) × Wf s root t

-- What vmm_map comes to.
pub data Mapped (space : Space) (s : Pmm) (virt phys flags : ℕ) (r : ℤ × Space × Pmm) : Type 0 where
  no_entry :
      r.0 ≡ neg enomem
      → r.1 ≡ space
      → ((v : ℕ) → translate space r.2 v ≡ translate space s v)
      → (r.2.free_pages ≡ 0) ⊎ (in_large r.2.frames 3 (pml4_page space) virt ≡ true)
      → IsTree r.2 (pml4_page space)
      → Mapped space s virt phys flags r
  mapped :
      r.0 ≡ pos 0
      → r.1 ≡ record space { n_pages = add64 space.n_pages 1 }
      → ((v : ℕ)
          → translate space r.2 v ≡ (
              if page_number v == page_number virt
              then (if is_present flags then phys + v % 4096 else 0)
              else translate space s v))
      → IsTree r.2 (pml4_page space)
      → Mapped space s virt phys flags r

module _ (space : Space) (s : Pmm) (virt p flags : ℕ) (h : p < 1099511627776)
    (f : IsFlags flags) where
  entry_leaf :
      (v : ℕ)
      → leaf (or_bits 64 (p * 4096) flags) v ≡ (if is_present flags then p * 4096 + v % 4096 else 0)
  entry_leaf v = rw (entry-present p flags h f, entry-page p flags h f) (ground arith)

  map_at-Mapped :
      (t : Shape) (r : Option (ℕ × ℕ) × Pmm)
      → Got (pml4_page space) virt 3 (pml4_page space) s t r
      → Mapped space s virt (p * 4096) flags (map_at space (p * 4096) flags r)
  unfolding Got IsTree map_at
  map_at-Mapped t (none, s') (t', w, k, inl (e, why)) =
      no_entry refl refl
        (λ v.
          virt_to_phys-resolve s'.frames (pml4_page space) v
          ∙ k.same v
          ∙ sym (virt_to_phys-resolve s.frames (pml4_page space) v))
        why (t', w)
  map_at-Mapped t (none, s') (t', w, k, inr (q, e, _, _)) = absurd (ground arith)
  map_at-Mapped t (some a, s') (t', w, k, inl (e, why)) = absurd (ground arith)
  map_at-Mapped t (some (q, i), s') (t', w, k, inr (q', e, below, here)) =
      let root = pml4_page space in
      let new = or_bits 64 (p * 4096) flags in
      let same : q ≡ q' = ground arith in
      let level : t'.level q ≡ 1 = rw same below in
      mapped refl refl
        (λ v.
          virt_to_phys-resolve (write s'.frames q i new) root v
          ∙ resolve-write s'.frames t' w.tree q i new level root virt v w.top (here ∙ sym e)
          ∙ rw (entry_leaf v, k.same v, virt_to_phys-resolve s.frames root v) refl)
        (t', write-Wf s' root t' q i new w level)

-- vmm_map of a page at an address of a page, with flags apart from the bits of the address: either it succeeds, the
-- addresses of the page lead to the frame (if the flags say that it is present), all others lead where they did, and
-- the page is counted; or it is -ENOMEM, no address leads elsewhere, and memory is used up or the address lies in a
-- large page. The tables form a tree as before.
pub map_lem :
    (space : Space) (s : Pmm) (virt phys flags : ℕ)
    → IsTree s (pml4_page space)
    → is_page_aligned virt ≡ true
    → is_page_aligned phys ≡ true
    → phys < 4503599627370496
    → IsFlags flags
    → Mapped space s virt phys flags (map space s virt phys flags)
unfolding map IsTree
map_lem space s virt phys flags (t, w) av ap h f =
    let p = phys / 4096 in
    let e : p * 4096 ≡ phys = ground arith in
    rw (av, ap)
      (rw e at (
        map_at-Mapped space s virt p flags (omega arith) f t
          (get_pte s (pml4_page space) virt true flags)
          (get_pte-Got (pml4_page space) virt flags s t w)))
