-- ===== src/Elf/Tests.antt =====
-- Tests of the ELF loader.
use my_unix.Base.{◌+◌, ◌%◌, ◌≡◌, ◌↔◌, List, [], ◌∷◌, length, ℕ, arith}
use my_unix.Elf.{initial_stack, total}
use my_unix.Elf.Stack.{Ordered, initial_stack_lem}

-- "ls" with "-l", and one string in the environment
abbrev args : List ℕ
args = 2 ∷ (2 ∷ [])

abbrev env : List ℕ
env = 6 ∷ []

initial_stack_example :
    Ordered (initial_stack args env) args env
    × (((initial_stack args env).stack_top ≡ (initial_stack args env).argc_sp)
        ↔ ((length args + length env) % 2 ≡ 1))
initial_stack_example = initial_stack_lem args env (unfold total in omega arith)
