-- ===== src/Vmm/Spaces/Tests.antt =====
-- A new address space. The kernel's top table is page 2, of which the entries 256 and 511 point to one table, page 3.
use my_unix.Base.{ℕ, ◌*◌, ◌+◌, ◌||◌, ◌&&◌, if◌then◌else◌, ◌==◌}
use my_unix.Pmm.{Pmm}
use my_unix.Pmm.Inv.{Inv}

abbrev kernel_memory : Pmm
kernel_memory = record {
  bitmap = λ w. if w == 0 then 13 else 0;
  total_pages = 100;
  free_pages = 97;
  used_pages = 3;
  alloc_hint = 0;
  frames = λ p i. if p == 2 && (i == 256 || i == 511) then 3 * 4096 + 3 else 0;
}

abbrev level : ℕ → ℕ
level p = if p == 2 then 4 else if p == 3 then 3 else 0
