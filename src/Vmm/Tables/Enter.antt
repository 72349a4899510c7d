-- ===== src/Vmm/Tables/Enter.antt =====
-- One level of vmm_get_pte over the page allocator, and all of vmm_get_pte.
use my_unix.Base.{
  ℕ, suc, ◌*◌, ◌/◌, ◌≤◌, ◌<◌, ◌≡◌, refl, ◌∙◌, ◌≢◌, ◌⊎◌, inl, inr, true, false, ◌==◌, Option, none,
  some, arith, Bool-cases,
}
use my_unix.Base.Word.{page_size}
use my_unix.Pmm.{Pmm, alloc}
use my_unix.Pmm.Bitmap.{bitmap_test}
use my_unix.Pmm.Inv.{Inv, Counts-rest}
use my_unix.Pmm.Alloc.{Took, alloc_lem}
use my_unix.Vmm.Tables.{is_present, is_huge, pte_page, write, table_entry, enter}
use my_unix.Vmm.Tables.Entry.{table_entry_lem}
use my_unix.Vmm.Tables.Tree.{big, resolve, Shape, Tree}
use my_unix.Vmm.Tables.Leaf.{write-other, write-same}
use my_unix.Vmm.Tables.Grow.{Hung, hang, hung-resolve, hung-Tree, not_big}

-- The tables below `root` form a tree of pages in use, in a RAM whose addresses fit into an entry.
pub record Wf (s : Pmm) (root : ℕ) (t : Shape) : Type 0 where
  pub inv : Inv s
  pub small : s.total_pages ≤ 1099511627776
  pub tree : Tree s.frames t
  pub top : t.level root ≡ 4
  pub height : (p : ℕ) → t.level p ≤ 4
  pub used : (p : ℕ) → t.level p ≢ 0 → bitmap_test s.bitmap p ≡ true

-- No address leads elsewhere, and what was linked stays.
pub record Kept (s s' : Pmm) (root : ℕ) (t t' : Shape) : Type 0 where
  pub same : (v : ℕ) → resolve s'.frames 3 root v ≡ resolve s.frames 3 root v
  pub linked :
      (p i : ℕ) → t.level p ≢ 0 → is_present (s.frames p i) ≡ true → s'.frames p i ≡ s.frames p i
  pub levels : (p : ℕ) → t.level p ≢ 0 → t'.level p ≡ t.level p

pub Kept-refl : (s : Pmm) (root : ℕ) (t : Shape) → Kept s s root t t
Kept-refl s root t = record { same = λ v. refl; linked = λ p i h k. refl; levels = λ p h. refl }

pub Kept-trans :
    {s s' s'' : Pmm} {root : ℕ} {t t' t'' : Shape}
    → Kept s s' root t t'
    → Kept s' s'' root t' t''
    → Kept s s'' root t t''
Kept-trans {s} {s'} {s''} {root} {t} {t'} a b = record {
  same = λ v. b.same v ∙ a.same v;
  linked = λ p i h k. let e = a.linked p i h k in b.linked p i (rw (a.levels p h) h) (rw e k) ∙ e;
  levels = λ p h. b.levels p (rw (a.levels p h) h) ∙ a.levels p h;
}

-- Entry `i` of table `p` points to the table `q` of level `l`.
pub record Link (s : Pmm) (t : Shape) (l p i q : ℕ) : Type 0 where
  pub level_below : t.level q ≡ suc l
  pub there : is_present (s.frames p i) ≡ true
  pub table : big (suc l) (s.frames p i) ≡ false
  pub points : pte_page (s.frames p i) ≡ q

module _ (s : Pmm) (root : ℕ) (t : Shape) (w : Wf s root t) (l p i flags : ℕ)
    (above : t.level p ≡ suc (suc l)) (inside : i < 512) where
  old-Link :
      is_present (s.frames p i) ≡ true
      → big (suc l) (s.frames p i) ≡ false
      → Link s t l p i (pte_page (s.frames p i))
  old-Link here small = record {
    level_below = (w.tree.link l p i above inside here small).0;
    there = here;
    table = small;
    points = refl;
  }

  module _ (phys : ℕ) (s1 : Pmm) (took : Took s phys s1)
      (gone : is_present (s.frames p i) ≡ false) where
    abbrev grown : Pmm
    grown = record s1 { frames = write s1.frames p i (table_entry phys flags) }

    abbrev new_page : ℕ
    new_page = phys / page_size

    fresh_level : t.level new_page ≡ 0
    fresh_level = elim (Bool-cases (t.level new_page == 0)) [
      | inl z ↦ ground arith
      | inr nz ↦ absurd (ground (arith, took.was_free, w.used new_page (ground arith)))
    ]

    not_parent : p ≢ new_page
    not_parent same = ground (arith, above, fresh_level, same)

    entry_holds :
        (is_present (table_entry phys flags) ≡ true)
        × (is_huge (table_entry phys flags) ≡ false)
        × (pte_page (table_entry phys flags) ≡ new_page)
    entry_holds =
        let e : new_page * 4096 ≡ phys = omega (arith, took.aligned) in
        rw e at (table_entry_lem new_page flags (omega (arith, took.in_range, w.small)))

    at_entry : grown.frames p i ≡ table_entry phys flags
    at_entry = write-same s1.frames p i (table_entry phys flags)

    grown-Hung : Hung s.frames grown.frames t l p i new_page
    grown-Hung = record {
      above = above;
      absent = gone;
      fresh = fresh_level;
      empty = λ j.
          write-other s1.frames p i (table_entry phys flags) new_page j
            (λ same. not_parent (rw same refl))
          ∙ took.cleared j;
      there = rw at_entry entry_holds.0;
      table = rw at_entry entry_holds.1;
      points = rw at_entry entry_holds.2;
      rest = λ p0 j ne o. elsewhere p0 j ne o;
    }
      where
        elsewhere :
            (p0 j : ℕ) → p0 ≢ new_page → (p0 ≢ p) ⊎ (j ≢ i) → grown.frames p0 j ≡ s.frames p0 j
        elsewhere p0 j ne o = unfold write in ground (arith, took.kept p0 j)

    grown-Wf : Wf grown root (hang t l p i new_page)
    grown-Wf = record {
      inv = record {
        counts = Counts-rest s1 s1.alloc_hint grown.frames took.valid.counts;
        hint_in = took.valid.hint_in;
        zero_used = took.valid.zero_used;
      };
      small = omega (arith, took.same_total, w.small);
      tree = hung-Tree s.frames grown.frames t w.tree l p i new_page grown-Hung;
      top = ground (arith, w.top, fresh_level);
      height = λ q. ground (arith, w.height q, w.height p, above);
      used = λ q h. ground (arith, took.bits q, w.used q);
    }

    grown-Kept : Kept s grown root t (hang t l p i new_page)
    grown-Kept = record {
      same =
          λ v. hung-resolve s.frames grown.frames t w.tree l p i new_page grown-Hung 3 root v w.top;
      linked = λ p0 j h k. unfold write in ground (arith, took.kept p0 j, fresh_level, gone);
      levels = λ p0 h. ground (arith, fresh_level);
    }

    grown-Link : Link grown (hang t l p i new_page) l p i new_page
    grown-Link = record {
      level_below = ground arith;
      there = rw at_entry entry_holds.0;
      table = rw at_entry (not_big (suc l) (table_entry phys flags) entry_holds.1);
      points = rw at_entry entry_holds.2;
    }

  -- What one level comes to: no memory and no change, or a link to a table of the next level.
  abbrev pub Entered : Option ℕ × Pmm → Type 0
  Entered r =
      ((r ≡ (none, s)) × (s.free_pages ≡ 0))
      ⊎ ((q : ℕ) × (t' : Shape) × (r.0 ≡ some q)
          × Wf r.1 root t'
          × Kept s r.1 root t t'
          × Link r.1 t' l p i q)

  pub enter-Entered :
      (is_present (s.frames p i) ≡ true → big (suc l) (s.frames p i) ≡ false)
      → Entered (enter s p i true flags)
  unfolding enter
  enter-Entered table = elim (Bool-cases (is_present (s.frames p i))) [
    | inl here ↦
        rw here (
          inr (pte_page (s.frames p i), t, refl, w, Kept-refl s root t, old-Link here (table here)))
    | inr gone ↦ rw gone (elim (alloc_lem s w.inv) [
      | inl (z, e) ↦ rw e (inl (refl, z))
      | inr (_, took) ↦
          let nz : ((alloc s).0 == 0) ≡ false = ground (arith, took.nonzero) in
          rw nz (
            inr (
              (alloc s).0 / page_size,
              hang t l p i ((alloc s).0 / page_size),
              refl,
              grown-Wf (alloc s).0 (alloc s).1 took gone,
              grown-Kept (alloc s).0 (alloc s).1 took gone,
              grown-Link (alloc s).0 (alloc s).1 took gone,
            ))
    ])
  ]
