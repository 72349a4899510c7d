-- ===== src/Exit/Tests.antt =====
-- Process 3 with the children 7, which runs, and 8, which has ended.
use my_unix.Base.{ℕ, ◌≡◌, ◌≢◌, ◌⊎◌, true, false, ◌&&◌, if◌then◌else◌, ◌==◌, [], ◌∷◌, ◌++◌, arith}
use my_unix.Base.Errno.{echild}
use my_unix.Base.Int.{pos, negsuc, neg}
use my_unix.Kernel.{Kernel, zombie}
use my_unix.Kernel.Examples.{plain_proc, plain_kernel}
use my_unix.Sched.Runq.{contains, delete}
use my_unix.Exit.{leave_children, wait_step, returns, reaps, sleeps, reap, matches, is_zombie}
use my_unix.Exit.Laws.{leave_children_lem, wait_step_lem}

abbrev family : Kernel
family = record plain_kernel {
  procs = λ p.
      if p == 3
      then record plain_proc { children = 7 ∷ 8 ∷ [] }
      else if p == 8
      then record plain_proc { pid = 8; parent = 3; state = zombie; exit_code = 256 }
      else record plain_proc { pid = 7; parent = 3 };
}

leave_children_example :
    (((leave_children family 3).procs 3).children ≡ [])
    × (((leave_children family 3).procs 2).children
        ≡ (family.procs 2).children ++ (family.procs 3).children)
    × ((q : ℕ)
        → q ≢ 3
        → q ≢ 2
        → ((leave_children family 3).procs q).children ≡ (family.procs q).children)
    × ((q : ℕ)
        → ((leave_children family 3).procs q).parent
          ≡ (if contains q (family.procs 3).children then 2 else (family.procs q).parent))
    × ((q : ℕ)
        → ((leave_children family 3).procs q).ppid ≡ (
            if contains q (family.procs 3).children
            then (family.procs 2).pid
            else (family.procs q).ppid))
    × ((q : ℕ) → ((leave_children family 3).procs q).state ≡ (family.procs q).state)
leave_children_example =
    leave_children_lem family 3 (λ e. absurd (omega (arith, e))) (λ e. absurd (omega (arith, e)))

wait_step_example :
    (((family.procs 3).children ≡ []) × (wait_step family (negsuc 0) false ≡ returns (neg echild)))
    ⊎ (((c : ℕ) × (contains c (family.procs 3).children ≡ true)
          × (matches (negsuc 0) (family.procs 3) (family.procs c) ≡ true)
          × (is_zombie (family.procs c).state ≡ true)
          × (wait_step family (negsuc 0) false
              ≡ reaps (family.procs c).pid (family.procs c).exit_code (reap family 3 c))
          × (((reap family 3 c).procs 3).children ≡ delete c (family.procs 3).children))
        ⊎ (((c : ℕ)
              → contains c (family.procs 3).children ≡ true
              → (matches (negsuc 0) (family.procs 3) (family.procs c)
                  && is_zombie (family.procs c).state)
                ≡ false)
            × (wait_step family (negsuc 0) false ≡ (if false then returns (pos 0) else sleeps))))
wait_step_example = wait_step_lem family (negsuc 0) false
