-- ===== src/Sched/Wait/Tests.antt =====
-- Processes 7 and 8 asleep on wait queue 50.
use my_unix.Base.{◌≡◌, refl, true, false, if◌then◌else◌, ◌==◌, [], ◌∷◌, arith}
use my_unix.Kernel.{Kernel, sleeping}
use my_unix.Kernel.Examples.{plain_proc, plain_kernel}
use my_unix.Sched.Runq.{empty, is_queued, prio_max, contains}
use my_unix.Sched.Runq.Laws.{empty-Inv}
use my_unix.Sched.Wait.{linked, wq_wake_all}
use my_unix.Sched.Wait.Laws.{Woke, wakeable, wq_wake_all_lem}

abbrev two_asleep : Kernel
two_asleep = record plain_kernel {
  procs = λ p. if p == 3 then plain_proc else record plain_proc { state = sleeping };
  waitqs = λ q. if q == 50 then 7 ∷ 8 ∷ [] else [];
  runq = empty;
}

two_asleep-wakeable : wakeable two_asleep.runq.queues (two_asleep.waitqs 50) ≡ true
unfolding wakeable empty is_queued contains
two_asleep-wakeable = refl

room : two_asleep.runq.total ≡ 0
unfolding empty
room = refl

wq_wake_all_example :
    (k' : Kernel) × (wq_wake_all two_asleep 50 ≡ linked k')
    × Woke two_asleep (two_asleep.waitqs 50) k'
    × (k'.waitqs 50 ≡ [])
wq_wake_all_example =
    wq_wake_all_lem two_asleep 50 empty-Inv (omega (arith, room)) two_asleep-wakeable

none_queued : is_queued two_asleep.runq.queues 3 prio_max ≡ false
unfolding empty is_queued contains
none_queued = refl
