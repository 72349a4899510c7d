-- ===== src/Vmm/Access.antt =====
-- User memory as the kernel reads and writes it: access_ok, copy_from_user, copy_to_user and strncpy_from_user of
-- mm/vmm.c. User and kernel addresses are those of one memory.
use my_unix.Base.{
  ℕ, zero, suc, ◌+◌, ◌≤◌, ◌<◌, Bool, true, false, not, if◌then◌else◌, ◌==◌, ltb, leb,
}
use my_unix.Base.Errno.{e2big, efault}
use my_unix.Base.Int.{ℤ, pos, neg}
use my_unix.Base.Maps.{update}
use my_unix.Base.Word.{add64}
use my_unix.Strings.{Mem, memcpy}
mod Laws
mod Tests

abbrev pub vmm_user_end : ℕ
vmm_user_end = 0x0000_7fff_ffff_f000

unfoldable pub access_ok : ℕ → ℕ → Bool
access_ok start size =
    let end = add64 start size in if ltb end start then false else leb end vmm_user_end

pub copy_from_user : Mem → (dst user_src len : ℕ) → ℤ × Mem
copy_from_user m dst user_src len =
    if not (access_ok user_src len) then (neg efault, m) else (pos 0, memcpy m dst user_src len)

pub copy_to_user : Mem → (user_dst src len : ℕ) → ℤ × Mem
copy_to_user m user_dst src len =
    if not (access_ok user_dst len) then (neg efault, m) else (pos 0, memcpy m user_dst src len)

-- the rounds of the loop that are left, from round `i` on
pub copy_string : Mem → (dst user_src i : ℕ) → ℕ → ℤ × Mem
copy_string m dst user_src i zero = (neg e2big, m)
copy_string m dst user_src i (suc n) =
    let m' = update m (dst + i) (m (user_src + i)) in
    let rest = copy_string m' dst user_src (i + 1) n in
    if m' (dst + i) == 0 then (pos i, m') else rest

pub strncpy_from_user : Mem → (dst user_src maxlen : ℕ) → ℤ × Mem
strncpy_from_user m dst user_src maxlen =
    if not (access_ok user_src 1) then (neg efault, m) else copy_string m dst user_src 0 maxlen
