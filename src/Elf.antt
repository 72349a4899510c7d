-- ===== src/Elf.antt =====
-- The ELF loader of proc/elf.c: elf_check_header, and where elf_load puts the strings, the arrays and argc on the
-- initial stack. A string of the arguments or of the environment stands here as its length.
use my_unix.Base.{
  ℕ, ◌+◌, ◌*◌, ◌/◌, ◌≡◌, Bool, not, ◌&&◌, if◌then◌else◌, ◌==◌, List, [], ◌∷◌, length,
}
use my_unix.Base.Errno.{enoexec}
use my_unix.Base.Int.{ℤ, pos, neg}
use my_unix.Base.Word.{sub64}
mod Stack
mod Tests

-- the fields that are checked; `magic` is the first four bytes of e_ident as a word, then its bytes 4 and 5
pub record Elf64Ehdr : Type 0 where
  pub magic : ℕ
  pub ei_class : ℕ
  pub ei_data : ℕ
  pub e_type : ℕ
  pub e_machine : ℕ

pub elf_check_header : Elf64Ehdr → ℤ
elf_check_header ehdr =
    if not (ehdr.magic == 0x464c457f)
    then neg enoexec
    else if not (ehdr.ei_class == 2)
    then neg enoexec
    else if not (ehdr.ei_data == 1)
    then neg enoexec
    else if not (ehdr.e_type == 2) && not (ehdr.e_type == 3)
    then neg enoexec
    else if not (ehdr.e_machine == 62)
    then neg enoexec
    else pos 0

abbrev pub vmm_stack_top : ℕ
vmm_stack_top = 0x0000_7fff_ffff_e000

abbrev pub vmm_stack_size : ℕ
vmm_stack_size = 8388608

abbrev pub path_max : ℕ
path_max = 4096

-- `ALIGN_DOWN(x, 16)`
abbrev pub align16 : ℕ → ℕ
align16 x = x / 16 * 16

-- The bytes of the strings and their terminators. They lie in memory together, so that the sum is below 2^64.
pub total : List ℕ → ℕ
total [] = 0
total (len ∷ strings) = len + 1 + total strings

-- where strings one behind the other start
pub place : ℕ → List ℕ → List ℕ
place str_ptr [] = []
place str_ptr (len ∷ strings) = str_ptr ∷ place (str_ptr + (len + 1)) strings

pub record Layout : Type 0 where
  pub strings : ℕ
  pub argv_ptrs : List ℕ
  pub envp_ptrs : List ℕ
  pub aux_sp : ℕ
  pub envp_sp : ℕ
  pub argv_sp : ℕ
  pub argc_sp : ℕ
  pub stack_top : ℕ

-- ten entries of sixteen bytes
abbrev pub auxv_size : ℕ
auxv_size = 160

pub initial_stack : (argv envp : List ℕ) → Layout
initial_stack argv envp =
    let strings = align16 (sub64 vmm_stack_top (total argv + total envp + path_max)) in
    let aux_sp = sub64 (align16 (sub64 strings 8)) auxv_size in
    let envp_sp = sub64 aux_sp ((length envp + 1) * 8) in
    let argv_sp = sub64 envp_sp ((length argv + 1) * 8) in
    let argc_sp = sub64 argv_sp 8 in
    record {
      strings = strings;
      argv_ptrs = place strings argv;
      envp_ptrs = place (strings + total argv) envp;
      aux_sp = aux_sp;
      envp_sp = envp_sp;
      argv_sp = argv_sp;
      argc_sp = argc_sp;
      stack_top = align16 argc_sp;
    }
