-- ===== src/Elf/Stack.antt =====
-- The initial stack that elf_load lays out.
use my_unix.Base.{
  ℕ, ◌+◌, ◌*◌, ◌%◌, ◌≤◌, ◌<◌, ◌≡◌, ◌↔◌, refl, zero, suc, List, [], ◌∷◌, length, take, get_elem?,
  some, arith,
}
use my_unix.Elf.{
  Layout, vmm_stack_top, vmm_stack_size, path_max, auxv_size, total, place, initial_stack,
}

place-at :
    (str_ptr : ℕ) (strings : List ℕ) (i : ℕ)
    → i < length strings
    → get_elem? (place str_ptr strings) i ≡ some (str_ptr + total (take i strings))
unfolding place total
place-at str_ptr [] i h = absurd (omega arith)
place-at str_ptr (len ∷ strings) zero h = let e : str_ptr + 0 ≡ str_ptr = omega arith in rw e refl
place-at str_ptr (len ∷ strings) (suc i) h =
    let e : str_ptr + (len + 1) + total (take i strings)
        ≡ str_ptr + (len + 1 + total (take i strings)) =
      omega arith in
    rw (place-at (str_ptr + (len + 1)) strings i (omega arith), e) refl

-- The parts of the stack, from its low end: argc, the two arrays with their NULLs, the auxiliary vector, the strings.
pub record Ordered (l : Layout) (argv envp : List ℕ) : Type 0 where
  pub low : vmm_stack_top ≤ l.stack_top + vmm_stack_size
  pub aligned : l.stack_top % 16 ≡ 0
  pub argv_next : l.argc_sp + 8 ≡ l.argv_sp
  pub envp_next : l.argv_sp + (length argv + 1) * 8 ≡ l.envp_sp
  pub aux_next : l.envp_sp + (length envp + 1) * 8 ≡ l.aux_sp
  pub strings_next : l.aux_sp + auxv_size < l.strings
  pub strings_end : l.strings + total argv + total envp + path_max ≤ vmm_stack_top
  pub argv_at :
      (i : ℕ) → i < length argv → get_elem? l.argv_ptrs i ≡ some (l.strings + total (take i argv))
  pub envp_at :
      (i : ℕ)
      → i < length envp
      → get_elem? l.envp_ptrs i ≡ some (l.strings + total argv + total (take i envp))

-- What elf_load puts on the initial stack does not overlap and lies within its pages, each
-- pointer is to its string's first byte, and the stack pointer is aligned
-- to 16 bytes; but the stack pointer is where argc lies exactly if the number of arguments and environment strings
-- together is odd. (All strings, arrays and PATH_MAX fit into the stack.)
pub initial_stack_lem :
    (argv envp : List ℕ)
    → total argv + total envp + path_max + (length argv + length envp) * 8 + 256 ≤ vmm_stack_size
    → Ordered (initial_stack argv envp) argv envp
      × (((initial_stack argv envp).stack_top ≡ (initial_stack argv envp).argc_sp)
          ↔ ((length argv + length envp) % 2 ≡ 1))
unfolding initial_stack
initial_stack_lem argv envp fits = (
  record {
    low = omega (arith, fits);
    aligned = omega arith;
    argv_next = omega (arith, fits);
    envp_next = omega (arith, fits);
    aux_next = omega (arith, fits);
    strings_next = omega (arith, fits);
    strings_end = omega (arith, fits);
    argv_at = place-at (initial_stack argv envp).strings argv;
    envp_at = place-at ((initial_stack argv envp).strings + total argv) envp;
  },
  (λ e. omega (arith, fits, e), λ e. omega (arith, fits, e)),
)
