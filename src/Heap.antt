-- ===== src/Heap.antt =====
-- mm/heap.c: the slab caches and the general heap. Block headers are maps from the header's address to its fields; a
-- linked list is the list of the addresses on it. Pages come from the page allocator (Pmm); that vmm_kmap_phys maps
-- them where they are used is taken for granted.
pub mod Cache
pub mod Fit
pub mod Split
pub mod Rounds
mod Tests
use my_unix.Base.{
  ℕ, zero, suc, ◌+◌, ◌-◌, ◌*◌, ◌/◌, ◌%◌, ◌^◌, Bool, true, false, not, ◌&&◌, ◌||◌, if◌then◌else◌,
  ◌==◌, ltb, leb, List, [], ◌∷◌, Option, none, some, min,
}
use my_unix.Base.Maps.{update}
use my_unix.Base.Outcome.{Outcome, done, panic}
use my_unix.Base.Word.{word_mod, page_size, add64, sub64}
use my_unix.Pmm.{Pmm, alloc}

abbrev pub magic_free : ℕ
magic_free = 0xDEAD_BEEF

abbrev pub magic_used : ℕ
magic_used = 0xCAFE_BABE

-- `sizeof(heap_block_t)`
abbrev pub header_size : ℕ
header_size = 32

abbrev pub heap_min_size : ℕ
heap_min_size = 16

abbrev pub slab_count : ℕ
slab_count = 13

abbrev pub heap_virt_base : ℕ
heap_virt_base = 0xFFFF_F000_0000_0000

abbrev pub heap_init_size : ℕ
heap_init_size = 4 * 1024 * 1024

abbrev pub heap_grow_size : ℕ
heap_grow_size = 1024 * 1024

-- `SLAB_SIZES[i]`: 8, 16, …, 32768
abbrev pub slab_size : ℕ → ℕ
slab_size zero = 8
slab_size (suc i) = slab_size i * 2

-- `slab_cache_t`; its object size is `slab_size` of its index.
pub record Slab : Type 0 where
  pub objects : List ℕ
  pub total : ℕ
  pub used : ℕ

pub record HeapStats : Type 0 where
  pub total_allocated : ℕ
  pub total_freed : ℕ
  pub current_usage : ℕ
  pub alloc_count : ℕ
  pub free_count : ℕ

pub record Heap : Type 0 where
  pub magic : ℕ → ℕ
  pub size : ℕ → ℕ
  pub free_list : List ℕ
  pub heap_end : ℕ
  pub slabs : ℕ → Slab
  pub slab_virt : ℕ
  pub stats : HeapStats
  pub pmm : Pmm

-- `slab_find_cache` from index `i` on, with `n` caches left
pub find_cache : ℕ → ℕ → ℕ → Option ℕ
find_cache size i zero = none
find_cache size i (suc n) =
    let rest = find_cache size (i + 1) n in if leb size (slab_size i) then some i else rest

pub slab_find_cache : ℕ → Option ℕ
unfolding find_cache
slab_find_cache size = find_cache size 0 slab_count

-- The loop of `slab_cache_grow` that cuts a page into `n` objects.
pub cut : ℕ → ℕ → ℕ → List ℕ → List ℕ
cut zero at obj_size objects = objects
cut (suc n) at obj_size objects = cut n (at + obj_size) obj_size (at ∷ objects)

-- `slab_cache_grow`: 0 as first address of the slabs' space stands for none yet.
pub slab_cache_grow : Heap → ℕ → Heap
unfolding cut
slab_cache_grow h i =
    let (phys, pmm) = alloc h.pmm in
    let at = if h.slab_virt == 0 then heap_virt_base + heap_init_size else h.slab_virt in
    let n = page_size / slab_size i in
    let slab = h.slabs i in
    if phys == 0 then record h { pmm = pmm } else record h {
      pmm = pmm;
      slab_virt = add64 at page_size;
      slabs =
          update h.slabs i
            (record slab { objects = cut n at (slab_size i) slab.objects; total = slab.total + n });
    }

abbrev pub slab_is_empty : List ℕ → Bool
slab_is_empty [] = true
slab_is_empty (x ∷ xs) = false

slab_take : Heap → ℕ → List ℕ → Option ℕ × Heap
slab_take h i [] = (none, h)
slab_take h i (obj ∷ rest) = (
  some obj,
  record h {
    slabs = update h.slabs i (record (h.slabs i) { objects = rest; used = (h.slabs i).used + 1 });
  },
)

pub slab_alloc : Heap → ℕ → Option ℕ × Heap
unfolding slab_cache_grow slab_take
slab_alloc h i =
    let h' = if slab_is_empty (h.slabs i).objects then slab_cache_grow h i else h in
    slab_take h' i (h'.slabs i).objects

pub slab_free : Heap → ℕ → ℕ → Heap
slab_free h i ptr = record h {
  slabs =
      update h.slabs i (record (h.slabs i) {
        objects = ptr ∷ (h.slabs i).objects;
        used = sub64 (h.slabs i).used 1;
      });
}

-- The best-fit search of `kmalloc`: `best` is the best block so far, of size `best_size`; a block without the magic number of
-- a free one is a PANIC, and an exact fit ends the search.
pub best_fit : (ℕ → ℕ) → (ℕ → ℕ) → ℕ → List ℕ → Option ℕ → ℕ → Outcome (Option ℕ)
best_fit magic size want [] best best_size = done best
best_fit magic size want (blk ∷ rest) best best_size =
    let better = best_fit magic size want rest (some blk) (size blk) in
    let same = best_fit magic size want rest best best_size in
    if not (magic blk == magic_free)
    then panic
    else if leb want (size blk) && ltb (size blk) best_size
    then if size blk == want then done (some blk) else better
    else same

-- `while (*pp && *pp != best) pp = &(*pp)->next; if (*pp == best) *pp = …`: the block is replaced by another, or taken out.
pub replace : ℕ → ℕ → List ℕ → List ℕ
replace best split [] = []
replace best split (b ∷ bs) = if b == best then split ∷ bs else b ∷ replace best split bs

pub take_out : ℕ → List ℕ → List ℕ
take_out best [] = []
take_out best (b ∷ bs) = if b == best then bs else b ∷ take_out best bs

abbrev pub count_alloc : HeapStats → ℕ → HeapStats
count_alloc s size = record s {
  total_allocated = add64 s.total_allocated size;
  current_usage = add64 s.current_usage size;
  alloc_count = add64 s.alloc_count 1;
}

-- What `kmalloc` does with the block that it found. The size in the header of `best` stays what it was.
pub use_block : Heap → ℕ → ℕ → ℕ × Heap
unfolding replace take_out
use_block h size best =
    let split = best + header_size + size in
    let h' =
      if leb (size + header_size + heap_min_size) (h.size best)
      then record h {
        magic = update h.magic split magic_free;
        size = update h.size split ((h.size best - size - header_size) % 2 ^ 32);
        free_list = replace best split h.free_list;
      }
      else record h { free_list = take_out best h.free_list } in
    (
      best + header_size,
      record h' {
        magic = update h'.magic best magic_used;
        stats = count_alloc h'.stats (h'.size best);
      },
    )

-- `heap_grow`: the loop over the new pages, and the block made of them.
pub map_pages : ℕ → Heap → Bool × Heap
map_pages zero h = (true, h)
map_pages (suc n) h =
    let (phys, pmm) = alloc h.pmm in
    let more = map_pages n (record h { pmm = pmm; heap_end = add64 h.heap_end page_size }) in
    if phys == 0 then (false, record h { pmm = pmm }) else more

pub heap_grow : Heap → ℕ → Bool × Heap
unfolding map_pages
heap_grow h need =
    let grow =
      add64 (add64 need header_size) (heap_grow_size - 1) / heap_grow_size * heap_grow_size in
    let (ok, h') = map_pages (grow / page_size) h in
    let blk = h.heap_end in
    if not ok then (false, h') else (
      true,
      record h' {
        magic = update h'.magic blk magic_free;
        size = update h'.size blk (sub64 (sub64 h'.heap_end blk) header_size % 2 ^ 32);
        free_list = blk ∷ h'.free_list;
      },
    )

-- `heap_init`: empty caches, and one free block of the pages that it gets. What the headers' memory held before does not matter.
pub heap_init : (ℕ → ℕ) → (ℕ → ℕ) → Pmm → Heap
unfolding map_pages
heap_init magic size pmm =
    let (_, h) = map_pages (heap_init_size / page_size) (record {
      magic = magic;
      size = size;
      free_list = [];
      heap_end = heap_virt_base;
      slabs = λ _. record { objects = []; total = 0; used = 0 };
      slab_virt = 0;
      stats = record {
        total_allocated = 0;
        total_freed = 0;
        current_usage = 0;
        alloc_count = 0;
        free_count = 0;
      };
      pmm = pmm;
    }) in
    record h {
      magic = update h.magic heap_virt_base magic_free;
      size =
          update h.size heap_virt_base
            (sub64 (sub64 h.heap_end heap_virt_base) header_size % 2 ^ 32);
      free_list = heap_virt_base ∷ [];
    }

-- What follows the attempt to grow the heap, and the search: `retry` is the rest of the loop. The address 0 is NULL.
pub after_grow : (Heap → Outcome (Option (ℕ × Heap))) → Bool × Heap → Outcome (Option (ℕ × Heap))
after_grow retry (true, h) = retry h
after_grow retry (false, h) = done (some (0, h))

pub after_search :
    (Heap → Outcome (Option (ℕ × Heap)))
    → Heap
    → ℕ
    → Outcome (Option ℕ)
    → Outcome (Option (ℕ × Heap))
unfolding use_block heap_grow after_grow
after_search retry h size panic = panic
after_search retry h size (done (some best)) = done (some (use_block h size best))
after_search retry h size (done none) = after_grow retry (heap_grow h size)

-- The general heap of `kmalloc` from `retry` on. Every round but the last grows the heap; `none` stands for rounds used up.
pub general : ℕ → Heap → ℕ → Outcome (Option (ℕ × Heap))
unfolding best_fit after_search
general zero h size = done none
general (suc rounds) h size =
    after_search (λ h'. general rounds h' size) h size
      (best_fit h.magic h.size size h.free_list none (word_mod - 1))

-- By what the slab cache gave.
pub after_slab : ℕ → ℕ → ℕ → Option ℕ × Heap → Outcome (Option (ℕ × Heap))
unfolding general
after_slab rounds size i (none, h) = general rounds h size
after_slab rounds size i (some obj, h) =
    done (some (obj, record h { stats = count_alloc h.stats (slab_size i) }))

-- `kmalloc`; HEAP_ALIGN is 16.
pub kmalloc : ℕ → Heap → ℕ → Outcome (Option (ℕ × Heap))
unfolding slab_find_cache slab_alloc general after_slab
kmalloc rounds h want =
    let size = add64 want 15 / 16 * 16 in
    if want == 0 then done (some (0, h)) else elim (slab_find_cache size) [
      | none ↦ general rounds h size
      | some i ↦ after_slab rounds size i (slab_alloc h i)
    ]

-- `kfree`: a pointer whose header has neither magic number, or that of a free block, is a PANIC.
pub kfree : Heap → ℕ → Outcome Heap
kfree h ptr =
    let blk = sub64 ptr header_size in
    if ptr == 0
    then done h
    else if h.magic blk == magic_free
    then panic
    else if not (h.magic blk == magic_used)
    then panic
    else done (record h {
      magic = update h.magic blk magic_free;
      free_list = blk ∷ h.free_list;
      stats = record (h.stats) {
        total_freed = add64 h.stats.total_freed (h.size blk);
        current_usage = sub64 h.stats.current_usage (h.size blk);
        free_count = add64 h.stats.free_count 1;
      };
    })

-- `kcalloc` before it calls `kzalloc`: the number of bytes, unless one factor is 0 or the product overflows.
pub kcalloc_size : ℕ → ℕ → Option ℕ
kcalloc_size n size =
    if n == 0 || size == 0
    then none
    else if ltb ((word_mod - 1) / size) n
    then none
    else some (n * size % word_mod)
