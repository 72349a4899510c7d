-- ===== src/Pmm/Inv.antt =====
-- The invariant of the page allocator's counters, and that taking and giving back a page keep it.
use my_unix.Base.{ℕ, ◌+◌, ◌^◌, ◌≤◌, ◌<◌, ◌≡◌, true, false, arith}
use my_unix.Pmm.Bitmap.{
  IsWords, bitmap_test, bitmap_clear, test-bitmap_set, test-bitmap_clear, bitmap_set-IsWords,
  bitmap_clear-IsWords, count_free, count_free-set, count_free-clear, count_free-le,
}
use my_unix.Pmm.{Pmm, take_page, give_page}

-- The counters agree with the bitmap, and no sum of them wraps.
pub record Counts (s : Pmm) : Type 0 where
  pub words : IsWords s.bitmap
  pub small : s.total_pages ≤ 2 ^ 52
  pub counted : s.free_pages ≡ count_free s.bitmap s.total_pages
  pub balanced : s.free_pages + s.used_pages ≡ s.total_pages

-- Besides, the hint is a page number, and the page at address zero, which callers read as failure,
-- is never free.
pub record Inv (s : Pmm) : Type 0 where
  pub counts : Counts s
  pub open counts use *
  pub hint_in : s.alloc_hint ≤ s.total_pages
  pub zero_used : bitmap_test s.bitmap 0 ≡ true

-- The hint and the contents of pages do not matter to the counters.
pub Counts-rest :
    (s : Pmm) (hint : ℕ) (frames : ℕ → ℕ → ℕ)
    → Counts s
    → Counts (record s { alloc_hint = hint; frames = frames })
Counts-rest s hint frames c = record {
  words = c.words;
  small = c.small;
  counted = c.counted;
  balanced = c.balanced;
}

module _ (s : Pmm) (p : ℕ) (v : Counts s) (h : p < s.total_pages) where
  pub take_page-Counts :
      bitmap_test s.bitmap p ≡ false
      → Counts (take_page s p) × ((take_page s p).free_pages + 1 ≡ s.free_pages)
  unfolding take_page
  take_page-Counts e =
      let less = count_free-set s.bitmap p s.total_pages h e in
      let bound = count_free-le s.bitmap s.total_pages in
      (
        record {
          words = bitmap_set-IsWords s.bitmap p v.words;
          small = v.small;
          counted = ground (arith, less, bound);
          balanced = ground (arith, less, bound);
        },
        ground (arith, less, bound),
      )

  pub give_page-Counts :
      bitmap_test s.bitmap p ≡ true
      → Counts (give_page s p) × ((give_page s p).free_pages ≡ s.free_pages + 1)
  unfolding give_page
  give_page-Counts e =
      let more = count_free-clear s.bitmap p s.total_pages h e in
      let bound = count_free-le (bitmap_clear s.bitmap p) s.total_pages in
      (
        record {
          words = bitmap_clear-IsWords s.bitmap p v.words;
          small = v.small;
          counted = ground (arith, more, bound);
          balanced = ground (arith, more, bound);
        },
        ground (arith, more, bound),
      )

pub take_page-Inv :
    (s : Pmm) (p : ℕ)
    → Inv s
    → p < s.total_pages
    → bitmap_test s.bitmap p ≡ false
    → Inv (take_page s p) × ((take_page s p).free_pages + 1 ≡ s.free_pages)
unfolding take_page
take_page-Inv s p v h e =
    let (c, less) = take_page-Counts s p v.counts h e in
    (
      record {
        counts = c;
        hint_in = v.hint_in;
        zero_used = ground (arith, test-bitmap_set s.bitmap p 0);
      },
      less,
    )

pub give_page-Inv :
    (s : Pmm) (p : ℕ)
    → Inv s
    → p < s.total_pages
    → bitmap_test s.bitmap p ≡ true
    → 0 < p
    → Inv (give_page s p) × ((give_page s p).free_pages ≡ s.free_pages + 1)
unfolding give_page
give_page-Inv s p v h e pos =
    let (c, more) = give_page-Counts s p v.counts h e in
    (
      record {
        counts = c;
        hint_in = v.hint_in;
        zero_used = ground (arith, test-bitmap_clear s.bitmap p 0);
      },
      more,
    )
