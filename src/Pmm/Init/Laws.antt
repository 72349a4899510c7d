-- ===== src/Pmm/Init/Laws.antt =====
-- What pmm_init_from_multiboot establishes.
use my_unix.Base.{
  ℕ, ◌-◌, ◌*◌, ◌/◌, ◌%◌, ◌^◌, ◌≤◌, ◌<◌, ◌≡◌, refl, sym, ◌∙◌, ◌⊎◌, ◌↔◌, inl, inr, Bool, true, false,
  ◌&&◌, ◌||◌, if◌then◌else◌, ◌==◌, ltb, leb, List, [], ◌∷◌, some, take, arith, Bool-cases,
}
use my_unix.Base.Bits.{test-zero, test-not_bits}
use my_unix.Base.Outcome.{done}
use my_unix.Base.Word.{word_mod, page_size, add64, page_down, page_up}
use my_unix.Pmm.Bitmap.{IsWords, bitmap_test, count_free-full}
use my_unix.Pmm.{Pmm, add_page, reserve_region}
use my_unix.Pmm.Inv.{Counts, Inv}
use my_unix.Pmm.Region.{each_page-Marked, add_page-Marked, Sets, reserve_region-Marked}
use my_unix.Pmm.Init.{
  MmapEntry, BootInfo, max_phys, bitmap_bytes, fill_bitmap, all_used, free_entry, free_entries,
  reserve_all, reserved_regions, init, max_regions, mmap_available,
}

-- The bitmap has a bit for every page unless the page count is 1 to 7 above a multiple of 32768:
-- `total / 8` rounds down before it is rounded up to pages. (No page count of a 64-bit memory wraps.)
bitmap_bytes-covers :
    (total : ℕ)
    → total ≤ 2 ^ 52
    → (total ≤ 8 * bitmap_bytes total) ↔ ((total % 32768 ≡ 0) ⊎ (8 ≤ total % 32768))
unfolding bitmap_bytes
bitmap_bytes-covers total h = (λ k. omega arith, λ k. omega arith)

module _ (old : ℕ → ℕ) (frames : ℕ → ℕ → ℕ) (total : ℕ) (words : IsWords old) (h : total ≤ 2 ^ 52)
    (covered : total ≤ 8 * bitmap_bytes total) where
  in_bitmap : (q : ℕ) → q < total → ltb (q / 64) (bitmap_bytes total / 8) ≡ true
  unfolding bitmap_bytes
  in_bitmap q k = ground arith

  all_used-bits : (q : ℕ) → q < total → bitmap_test (all_used old frames total).bitmap q ≡ true
  unfolding bitmap_test all_used fill_bitmap
  all_used-bits q k =
      let e : ltb (q / 64) (bitmap_bytes total / 8) ≡ true = in_bitmap q k in
      rw e (ground (arith, test-not_bits 64 (word_mod - 1) (q % 64), test-zero (q % 64)))

  all_used-Counts : Counts (all_used old frames total)
  unfolding all_used fill_bitmap
  all_used-Counts = record {
    words = λ w. ground (arith, words w);
    small = h;
    counted = sym (count_free-full _ total all_used-bits);
    balanced = omega arith;
  }

-- A page that the loops over the regions free: whole in an available region.
abbrev pub in_entry : MmapEntry → ℕ → Bool
in_entry e q =
    e.kind == mmap_available
    && (leb (page_up e.addr / page_size) q && ltb q (page_down (add64 e.addr e.len) / page_size))

pub available : List MmapEntry → ℕ → Bool
available [] q = false
available (e ∷ es) q = in_entry e q || available es q

-- A page that a call of pmm_reserve_region covers.
abbrev pub in_region : ℕ × ℕ → ℕ → Bool
in_region r q = leb (r.0 / page_size) q && ltb q (page_up (add64 r.0 r.1) / page_size)

pub reserved : List (ℕ × ℕ) → ℕ → Bool
reserved [] q = false
reserved (r ∷ rs) q = in_region r q || reserved rs q

free_entry-Sets : (s : Pmm) (e : MmapEntry) → Counts s → Sets false (in_entry e) s (free_entry s e)
unfolding free_entry
free_entry-Sets s e v = elim (Bool-cases (e.kind == mmap_available)) [
  | inr other ↦
      rw other (record { valid = v; bits = λ q. ground arith; same_total = refl; same_hint = refl })
  | inl is_available ↦
      let m =
        each_page-Marked false add_page add_page-Marked
          (page_down (add64 e.addr e.len) / page_size - page_up e.addr / page_size)
          (page_up e.addr / page_size) s v in
      rw is_available (record {
        valid = m.valid;
        bits = λ q. ground (arith, m.bits q);
        same_total = m.same_total;
        same_hint = m.same_hint;
      })
]

free_entries-Sets :
    (s : Pmm) (es : List MmapEntry) → Counts s → Sets false (available es) s (free_entries s es)
unfolding free_entries available
free_entries-Sets s [] v = record {
  valid = v;
  bits = λ q. ground arith;
  same_total = refl;
  same_hint = refl;
}
free_entries-Sets s (e ∷ es) v =
    let a = free_entry-Sets s e v in
    let b = free_entries-Sets (free_entry s e) es a.valid in
    record {
      valid = b.valid;
      bits = λ q. ground (arith, a.bits q, b.bits q, a.same_total);
      same_total = b.same_total ∙ a.same_total;
      same_hint = b.same_hint ∙ a.same_hint;
    }

reserve_region-Sets :
    (s : Pmm) (r : ℕ × ℕ) → Counts s → Sets true (in_region r) s (reserve_region s r.0 r.1)
reserve_region-Sets s (base, size) v =
    let m = reserve_region-Marked s base size v in
    record {
      valid = m.valid;
      bits = λ q. ground (arith, m.bits q);
      same_total = m.same_total;
      same_hint = m.same_hint;
    }

reserve_all-Sets :
    (s : Pmm) (rs : List (ℕ × ℕ)) → Counts s → Sets true (reserved rs) s (reserve_all s rs)
unfolding reserve_all reserved
reserve_all-Sets s [] v = record {
  valid = v;
  bits = λ q. ground arith;
  same_total = refl;
  same_hint = refl;
}
reserve_all-Sets s ((base, size) ∷ rs) v =
    let a = reserve_region-Sets s (base, size) v in
    let b = reserve_all-Sets (reserve_region s base size) rs a.valid in
    record {
      valid = b.valid;
      bits = λ q. ground (arith, a.bits q, b.bits q, a.same_total);
      same_total = b.same_total ∙ a.same_total;
      same_hint = b.same_hint ∙ a.same_hint;
    }

max_phys-lt : (es : List MmapEntry) (top : ℕ) → top < word_mod → max_phys es top < word_mod
unfolding max_phys
max_phys-lt [] top h = h
max_phys-lt (e ∷ es) top h =
    max_phys-lt es (if ltb top (add64 e.addr e.len) then add64 e.addr e.len else top) (ground arith)

all_used-total :
    (old : ℕ → ℕ) (frames : ℕ → ℕ → ℕ) (n : ℕ) → (all_used old frames n).total_pages ≡ n
unfolding all_used
all_used-total old frames n = refl

all_used-hint : (old : ℕ → ℕ) (frames : ℕ → ℕ → ℕ) (n : ℕ) → (all_used old frames n).alloc_hint ≡ 0
unfolding all_used
all_used-hint old frames n = refl

zero_reserved : (boot : BootInfo) (n : ℕ) → reserved (reserved_regions boot n) 0 ≡ true
unfolding reserved reserved_regions
zero_reserved boot n = refl

-- What pmm_init_from_multiboot leaves: counters in step with the bitmap, page zero in use, and a page
-- of RAM free exactly if it lies whole in an available region of the map's first 32 entries and in
-- none of the reserved regions.
pub record Initialized (boot : BootInfo) (entries : List MmapEntry) (s : Pmm) : Type 0 where
  pub valid : Inv s
  pub total : s.total_pages ≡ max_phys entries 0 / page_size
  pub free_iff :
      (q : ℕ)
      → q < s.total_pages
      → (bitmap_test s.bitmap q ≡ false) ↔ (
          (available (take max_regions entries) q ≡ true)
          × (reserved (reserved_regions boot s.total_pages) q ≡ false))

-- On a map with some RAM whose bitmap covers every page, the initialization ends well.
pub init-Initialized :
    (old : ℕ → ℕ) (frames : ℕ → ℕ → ℕ) (boot : BootInfo) (entries : List MmapEntry)
    → IsWords old
    → boot.mmap ≡ some entries
    → 0 < max_phys entries 0 / page_size
    → max_phys entries 0 / page_size ≤ 8 * bitmap_bytes (max_phys entries 0 / page_size)
    → (s : Pmm) × (init old frames boot ≡ done s) × Initialized boot entries s
unfolding init
init-Initialized old frames boot entries words e pos covered =
    let n = max_phys entries 0 / page_size in
    let small : n ≤ 2 ^ 52 = omega (arith, max_phys-lt entries 0 (omega arith)) in
    let a = all_used-Counts old frames n words small covered in
    let b = free_entries-Sets (all_used old frames n) (take max_regions entries) a in
    let c =
      reserve_all-Sets (free_entries (all_used old frames n) (take max_regions entries))
        (reserved_regions boot n) b.valid in
    let tot = c.same_total ∙ b.same_total ∙ all_used-total old frames n in
    (
      reserve_all (free_entries (all_used old frames n) (take max_regions entries))
          (reserved_regions boot n),
      rw e,
      record {
        valid = record {
          counts = c.valid;
          hint_in = ground (arith, c.same_hint, b.same_hint, all_used-hint old frames n);
          zero_used =
              ground
                (arith, c.bits 0, zero_reserved boot n, b.same_total, all_used-total old frames n);
        };
        total = tot;
        free_iff = rw tot (λ q h. ground (
          arith,
          c.bits q,
          b.bits q,
          b.same_total,
          all_used-total old frames n,
          all_used-bits old frames n words small covered q h,
        ));
      },
    )
