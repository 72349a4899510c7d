-- ===== src/Vmm/Access/Tests.antt =====
-- Tests of the access to user memory.
use my_unix.Base.{inr, if◌then◌else◌, ◌==◌, arith}
use my_unix.Strings.{Mem}
use my_unix.Vmm.Access.{copy_from_user, copy_to_user}
use my_unix.Vmm.Access.Laws.{Transfer, copy_user_lem}

-- "hi" at 4096
abbrev hi : Mem
hi a = if a == 4096 then 104 else if a == 4097 then 105 else 0

copy_user_example :
    Transfer hi 9000 4096 16 4096 (copy_from_user hi 9000 4096 16)
    × Transfer hi 9000 4096 16 9000 (copy_to_user hi 9000 4096 16)
copy_user_example =
    copy_user_lem hi 9000 4096 16 (omega arith) (omega arith) (omega arith) (inr (omega arith))
