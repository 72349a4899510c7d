-- ===== src/Vmm/Spaces/Fresh.antt =====
-- Taking a page from the allocator leaves the page tables alone.
use my_unix.Base.{ℕ, ◌≡◌, ◌/◌, ◌≢◌, ◌==◌, inl, inr, arith, Bool-cases}
use my_unix.Pmm.{Pmm}
use my_unix.Pmm.Alloc.{Took}
use my_unix.Base.Word.{page_size}
use my_unix.Vmm.Tables.Tree.{Shape, resolve}
use my_unix.Vmm.Tables.Enter.{Wf}
use my_unix.Vmm.Spaces.Laws.{agree-resolve, Tree-Levels}

module _ (s : Pmm) (root : ℕ) (t : Shape) (w : Wf s root t) (phys : ℕ) (s1 : Pmm)
    (took : Took s phys s1) where
  page_level : t.level (phys / page_size) ≡ 0
  page_level = elim (Bool-cases (t.level (phys / page_size) == 0)) [
    | inl z ↦ ground arith
    | inr nz ↦ absurd (ground (arith, took.was_free, w.used (phys / page_size) (ground arith)))
  ]

  pub tables_kept : (p j : ℕ) → t.level p ≢ 0 → s1.frames p j ≡ s.frames p j
  tables_kept p j h = took.kept p j (λ e. ground (arith, page_level, h, e))

  pub took-Wf : Wf s1 root t
  took-Wf = record {
    inv = took.valid;
    small = omega (arith, took.same_total, w.small);
    tree = record {
      link = λ l p i h k a b.
          let e = tables_kept p i (ground (arith, h)) in
          rw e (w.tree.link l p i h k (rw e at a) (rw e at b));
      no_giant = λ p i h k a.
          let e = tables_kept p i (ground (arith, h)) in rw e (w.tree.no_giant p i h k (rw e at a));
    };
    top = w.top;
    height = w.height;
    used = λ q h. ground (arith, took.bits q, w.used q h);
  }

  pub took-resolve : (v : ℕ) → resolve s1.frames 3 root v ≡ resolve s.frames 3 root v
  took-resolve v =
      agree-resolve s.frames s1.frames t.level (Tree-Levels s.frames t w.tree) tables_kept 3 root v
        w.top
