-- ===== src/Pmm.antt =====
-- mm/pmm.c, the physical page allocator: its globals as a record, its routines as functions from
-- the state to the state and the result. Spinlocks are taken and released inside each routine, so
-- a routine is one step. Page contents are kept, since an allocated page is cleared.
pub mod Bitmap
pub mod Inv
pub mod Scan
pub mod Alloc
pub mod Free
pub mod Region
pub mod Run
pub mod Init
mod Tests
use my_unix.Base.{
  ℕ, zero, suc, ◌+◌, ◌-◌, ◌*◌, ◌/◌, ◌%◌, ◌^◌, ◌≤◌, ◌<◌, Bool, true, false, not, ◌&&◌, ◌||◌,
  if◌then◌else◌, ◌==◌, ltb, leb, Option, none, some, min,
}
use my_unix.Base.Bits.{not_bits, ctz}
use my_unix.Base.Maps.{update}
use my_unix.Base.Word.{word_mod, page_size, add64, sub64, page_down, page_up, is_page_aligned}
use my_unix.Base.Outcome.{Outcome, done, panic}
use Bitmap.{bitmap_set, bitmap_clear, bitmap_test}

-- The statics of pmm.c; `frames p w` is word `w` of physical page `p`.
pub record Pmm : Type 0 where
  pub bitmap : Bitmap.Bitmap
  pub total_pages : ℕ
  pub free_pages : ℕ
  pub used_pages : ℕ
  pub alloc_hint : ℕ
  pub frames : ℕ → ℕ → ℕ

-- `memset(PHYS_TO_VIRT(p * PAGE_SIZE), 0, n * PAGE_SIZE)`
abbrev pub clear_frames : (ℕ → ℕ → ℕ) → ℕ → ℕ → ℕ → ℕ → ℕ
clear_frames frames p n q w = if leb p q && ltb q (p + n) then 0 else frames q w

-- `bitmap_set(pfn); g_free_pages--; g_used_pages++;`
pub take_page : Pmm → ℕ → Pmm
take_page s pfn = record s {
  bitmap = bitmap_set s.bitmap pfn;
  free_pages = sub64 s.free_pages 1;
  used_pages = add64 s.used_pages 1;
}

-- `bitmap_clear(pfn); g_free_pages++; g_used_pages--;`
pub give_page : Pmm → ℕ → Pmm
give_page s pfn = record s {
  bitmap = bitmap_clear s.bitmap pfn;
  free_pages = add64 s.free_pages 1;
  used_pages = sub64 s.used_pages 1;
}

-- The bodies of the loops of `pmm_reserve_region` and `pmm_add_region`, at one page.
pub reserve_page : Pmm → ℕ → Pmm
reserve_page s pfn =
    if ltb pfn s.total_pages && not (bitmap_test s.bitmap pfn) then take_page s pfn else s

pub add_page : Pmm → ℕ → Pmm
add_page s pfn = if ltb pfn s.total_pages && bitmap_test s.bitmap pfn then give_page s pfn else s

-- `for (p = start; p < end; p += PAGE_SIZE)`, the page number `p / PAGE_SIZE` counted up. Both ends
-- are page aligned and below 2^64, so `p` does not wrap.
pub each_page : (Pmm → ℕ → Pmm) → ℕ → ℕ → Pmm → Pmm
each_page body zero pfn s = s
each_page body (suc n) pfn s = each_page body n (pfn + 1) (body s pfn)

pub reserve_region : Pmm → ℕ → ℕ → Pmm
reserve_region s base size =
    let start = page_down base in
    let end = page_up (add64 base size) in
    each_page reserve_page (end / page_size - start / page_size) (start / page_size) s

pub add_region : Pmm → ℕ → ℕ → Pmm
add_region s base size =
    let start = page_up base in
    let end = page_down (add64 base size) in
    each_page add_page (end / page_size - start / page_size) (start / page_size) s

-- One word of the search of `pmm_alloc`: its lowest free bit, if that is a page.
pub scan_word : Bitmap.Bitmap → ℕ → ℕ → Option ℕ
scan_word b total w =
    if b w == word_mod - 1
    then none
    else let pfn = w * 64 + ctz 64 (not_bits 64 (b w)) in if leb total pfn then none else some pfn

or_else : Option ℕ → Option ℕ → Option ℕ
or_else none o = o
or_else (some p) o = some p

-- `for (w = from; w < from + n; w++)`
pub scan_words : Bitmap.Bitmap → ℕ → ℕ → ℕ → Option ℕ
unfolding or_else
scan_words b total w zero = none
scan_words b total w (suc n) = or_else (scan_word b total w) (scan_words b total (w + 1) n)

-- Both passes: from the hint to the end, then from the start to the hint.
pub find_free : Pmm → Option ℕ
unfolding or_else
find_free s =
    let words = (s.total_pages + 63) / 64 in
    let start_word = s.alloc_hint / 64 in
    or_else (scan_words s.bitmap s.total_pages start_word (words - start_word))
      (scan_words s.bitmap s.total_pages 0 start_word)

-- What `pmm_alloc` does with the page that it found.
pub alloc_found : Pmm → Option ℕ → ℕ × Pmm
alloc_found s none = (0, s)
alloc_found s (some pfn) =
    let s' = take_page s pfn in
    (
      pfn * page_size,
      record s' {
        alloc_hint = if leb s.total_pages (pfn + 1) then 0 else pfn + 1;
        frames = clear_frames s.frames pfn 1;
      },
    )

pub alloc : Pmm → ℕ × Pmm
unfolding find_free alloc_found
alloc s = if s.free_pages == 0 then (0, s) else alloc_found s (find_free s)

pub data ZoneId : Type 0 where
  zone_low zone_dma zone_normal zone_high : ZoneId

-- The first free page among the `n` from `pfn` on.
pub first_free : Bitmap.Bitmap → ℕ → ℕ → Option ℕ
first_free b pfn zero = none
first_free b pfn (suc n) =
    let rest = first_free b (pfn + 1) n in if bitmap_test b pfn then rest else some pfn

pub alloc_below_found : Pmm → Option ℕ → ℕ × Pmm
alloc_below_found s none = (0, s)
alloc_below_found s (some pfn) =
    let s' = take_page s pfn in
    (pfn * page_size, record s' { frames = clear_frames s.frames pfn 1 })

-- The search of `pmm_alloc_zone` below `max_phys`, from page 1 on.
pub alloc_below : Pmm → ℕ → ℕ × Pmm
unfolding alloc_below_found
alloc_below s max_phys =
    let max_pfn = min (max_phys / page_size) s.total_pages in
    alloc_below_found s (first_free s.bitmap 1 (max_pfn - 1))

pub alloc_zone : Pmm → ZoneId → ℕ × Pmm
unfolding alloc alloc_below
alloc_zone s zone_low = alloc_below s 0x10_0000
alloc_zone s zone_dma = alloc_below s 0x100_0000
alloc_zone s zone_normal = alloc_below s 0x1_0000_0000
alloc_zone s zone_high = alloc s

-- The search of `pmm_alloc_n`: `count` free pages end just below `pfn`, the first of them `start`;
-- `n` pages are left to look at.
pub find_run : Bitmap.Bitmap → ℕ → ℕ → ℕ → ℕ → ℕ → Option ℕ
find_run b want pfn zero count start = none
find_run b want pfn (suc n) count start =
    let start' = if count == 0 then pfn else start in
    let longer = find_run b want (pfn + 1) n (count + 1) start' in
    let again = find_run b want (pfn + 1) n 0 start in
    if bitmap_test b pfn then again else if count + 1 == want then some start' else longer

pub alloc_n_found : Pmm → ℕ → Option ℕ → ℕ × Pmm
alloc_n_found s n none = (0, s)
alloc_n_found s n (some start) =
    let s' = each_page take_page n start s in
    (start * page_size, record s' { frames = clear_frames s'.frames start n })

pub alloc_n : Pmm → ℕ → ℕ × Pmm
unfolding alloc alloc_n_found
alloc_n s n =
    if n == 0
    then (0, s)
    else if n == 1
    then alloc s
    else if ltb s.free_pages n
    then (0, s)
    else alloc_n_found s n (find_run s.bitmap n 1 (s.total_pages - 1) 0 0)

-- A double free is a PANIC.
pub free : Pmm → ℕ → Outcome Pmm
free s phys =
    if phys == 0 || not (is_page_aligned phys)
    then done s
    else let pfn = phys / page_size in
      if pfn == 0 || leb s.total_pages pfn
      then done s
      else if not (bitmap_test s.bitmap pfn)
      then panic
      else done (record (give_page s pfn) {
        alloc_hint = if ltb pfn s.alloc_hint then pfn else s.alloc_hint;
      })

pub free_n : Pmm → ℕ → ℕ → Outcome Pmm
free_n s phys zero = done s
free_n s phys (suc n) = elim (free s phys) [
  | done s' ↦ free_n s' (add64 phys page_size) n
  | panic ↦ panic
]
