-- ===== src/Exit/Laws.antt =====
-- Leaving a family and reaping the dead.
use my_unix.Base.{
  ℕ, ◌%◌, ◌≡◌, refl, sym, ap, ◌∙◌, ◌≢◌, ◌⊎◌, inl, inr, Bool, true, false, ◌&&◌, if◌then◌else◌, ◌==◌,
  List, [], ◌∷◌, ◌++◌, none, some, arith, Bool-cases, Option-cases,
}
use mathlib.Core.List.{append-nil, append_assoc}
use my_unix.Base.Errno.{echild}
use my_unix.Base.Int.{ℤ, pos, neg}
use my_unix.Kernel.{Kernel, Proc, set_proc}
use my_unix.Sched.Runq.{contains, delete}
use my_unix.Exit.{
  exit_status, is_exited, status_code, adopt, reparent, leave_children, is_zombie, matches,
  find_zombie, returns, reaps, sleeps, reap, wait_found, wait_among, wait_step,
}

-- The status that proc_exit stores tells an exit and its low eight bits.
pub exit_status_lem :
    (code : ℕ)
    → (is_exited (exit_status code) ≡ true) × (status_code (exit_status code) ≡ code % 256)
unfolding is_exited exit_status status_code
exit_status_lem code = (ground arith, omega arith)

-- The children `cs` of `p` in `k` were handed to init in `k'`.
pub record Adopted (k : Kernel) (cs : List ℕ) (k' : Kernel) : Type 0 where
  pub init_children : (k'.procs k.init_proc).children ≡ (k.procs k.init_proc).children ++ cs
  pub other_children : (q : ℕ) → q ≢ k.init_proc → (k'.procs q).children ≡ (k.procs q).children
  pub parents :
      (q : ℕ) → (k'.procs q).parent ≡ (if contains q cs then k.init_proc else (k.procs q).parent)
  pub ppids :
      (q : ℕ)
      → (k'.procs q).ppid ≡ (if contains q cs then (k.procs k.init_proc).pid else (k.procs q).ppid)
  pub pids : (q : ℕ) → (k'.procs q).pid ≡ (k.procs q).pid
  pub states : (q : ℕ) → (k'.procs q).state ≡ (k.procs q).state
  pub same_init : k'.init_proc ≡ k.init_proc

adopt-Adopted : (k : Kernel) (child : ℕ) → Adopted k (child ∷ []) (adopt k child)
unfolding adopt contains
adopt-Adopted k child =
    let e : (k.init_proc == k.init_proc) ≡ true = ground arith in
    record {
      init_children = rw e (ground arith);
      other_children = λ q ne. ground arith;
      parents = λ q. ground arith;
      ppids = λ q. ground arith;
      pids = λ q. ground arith;
      states = λ q. ground arith;
      same_init = refl;
    }

Adopted-cons :
    {k k1 k2 : Kernel} {c : ℕ} {cs : List ℕ}
    → Adopted k (c ∷ []) k1
    → Adopted k1 cs k2
    → Adopted k (c ∷ cs) k2
unfolding contains
Adopted-cons {k} {k1} {k2} {c} {cs} a b = record {
  init_children =
      (rw a.same_init at b.init_children)
      ∙ (ap (λ (l : List ℕ). l ++ cs) a.init_children
          ∙ append_assoc (k.procs k.init_proc).children (c ∷ []) cs);
  other_children = λ q ne. b.other_children q (rw a.same_init ne) ∙ a.other_children q ne;
  parents = λ q. ground (arith, b.parents q, a.parents q, a.same_init);
  ppids = λ q. ground (
    arith,
    b.ppids q,
    a.ppids q,
    a.same_init,
    a.pids k.init_proc,
    ap (λ i. (k1.procs i).pid) a.same_init,
  );
  pids = λ q. b.pids q ∙ a.pids q;
  states = λ q. b.states q ∙ a.states q;
  same_init = b.same_init ∙ a.same_init;
}

reparent-Adopted :
    (cs : List ℕ) (k : Kernel) (p : ℕ)
    → k.init_proc ≢ 0
    → p ≢ k.init_proc
    → Adopted k cs (reparent k p cs)
unfolding reparent contains
reparent-Adopted [] k p nz ne = record {
  init_children = sym (append-nil (k.procs k.init_proc).children);
  other_children = λ q h. refl;
  parents = λ q. refl;
  ppids = λ q. refl;
  pids = λ q. refl;
  states = λ q. refl;
  same_init = refl;
}
reparent-Adopted (c ∷ cs) k p nz ne =
    let z : (k.init_proc == 0) ≡ false = ground arith in
    let w : (p == k.init_proc) ≡ false = ground arith in
    let one = adopt-Adopted k c in
    rw (z, w)
      (Adopted-cons one
        (reparent-Adopted cs (adopt k c) p (rw (one.same_init) nz) (rw (one.same_init) ne)))

-- The hand-over in proc_exit, for a process other than init when there is an init: every child goes to init, behind the
-- children that init has, with init as its parent and init's number as its parent's number, and the list of the leaving
-- process is empty; the hand-over changes no other process's parent, parent's number or children, and no state.
pub leave_children_lem :
    (k : Kernel) (p : ℕ)
    → k.init_proc ≢ 0
    → p ≢ k.init_proc
    → let k' = leave_children k p in
      ((k'.procs p).children ≡ [])
      × ((k'.procs k.init_proc).children ≡ (k.procs k.init_proc).children ++ (k.procs p).children)
      × ((q : ℕ) → q ≢ p → q ≢ k.init_proc → (k'.procs q).children ≡ (k.procs q).children)
      × ((q : ℕ)
          → (k'.procs q).parent
            ≡ (if contains q (k.procs p).children then k.init_proc else (k.procs q).parent))
      × ((q : ℕ)
          → (k'.procs q).ppid ≡ (
              if contains q (k.procs p).children
              then (k.procs k.init_proc).pid
              else (k.procs q).ppid))
      × ((q : ℕ) → (k'.procs q).state ≡ (k.procs q).state)
unfolding leave_children
leave_children_lem k p nz ne =
    let cleared = set_proc k p (record (k.procs p) { children = [] }) in
    let a = reparent-Adopted (k.procs p).children cleared p nz ne in
    let e : (p == p) ≡ true = ground arith in
    let f : (p == k.init_proc) ≡ false = ground arith in
    (
      a.other_children p ne ∙ rw e refl,
      a.init_children ∙ rw f refl,
      λ q other not_init. a.other_children q not_init ∙ ground arith,
      λ q. a.parents q ∙ ground arith,
      λ q. a.ppids q ∙ rw f (ground arith),
      λ q. a.states q ∙ ground arith,
    )

find_zombie-some :
    (procs : ℕ → Proc) (target : ℤ) (proc : Proc) (cs : List ℕ) (c : ℕ)
    → find_zombie procs target proc cs ≡ some c
    → (contains c cs ≡ true)
      × (matches target proc (procs c) ≡ true)
      × (is_zombie (procs c).state ≡ true)
unfolding find_zombie contains
find_zombie-some procs target proc [] c e = absurd (ground arith)
find_zombie-some procs target proc (x ∷ cs) c e =
    elim (Bool-cases (matches target proc (procs x) && is_zombie (procs x).state)) [
      | inl found ↦
          let eq : x ≡ c = ground arith in rw (← eq) (ground arith, ground arith, ground arith)
      | inr other ↦
          let (a, b, d) = find_zombie-some procs target proc cs c (rw other at e) in
          (ground arith, b, d)
    ]

find_zombie-none :
    (procs : ℕ → Proc) (target : ℤ) (proc : Proc) (cs : List ℕ) (c : ℕ)
    → find_zombie procs target proc cs ≡ none
    → contains c cs ≡ true
    → (matches target proc (procs c) && is_zombie (procs c).state) ≡ false
unfolding find_zombie contains
find_zombie-none procs target proc [] c e h = absurd (ground arith)
find_zombie-none procs target proc (x ∷ cs) c e h =
    elim (Bool-cases (matches target proc (procs x) && is_zombie (procs x).state)) [
      | inl found ↦ absurd (ground arith)
      | inr other ↦ elim (Bool-cases (x == c)) [
        | inl same ↦ let eq : x ≡ c = ground arith in rw (← eq) other
        | inr differ ↦ find_zombie-none procs target proc cs c (rw other at e) (ground arith)
      ]
    ]

-- One pass of proc_wait: -ECHILD without children; otherwise it reaps a child that is asked for and has ended, with that child's number
-- and status, and takes it off the list of children; if there is no such child it returns 0 under WNOHANG and sleeps without.
pub wait_step_lem :
    (k : Kernel) (target : ℤ) (no_hang : Bool)
    → let p = k.procs k.current in
      ((p.children ≡ []) × (wait_step k target no_hang ≡ returns (neg echild)))
      ⊎ (((c : ℕ) × (contains c p.children ≡ true)
            × (matches target p (k.procs c) ≡ true)
            × (is_zombie (k.procs c).state ≡ true)
            × (wait_step k target no_hang
                ≡ reaps (k.procs c).pid (k.procs c).exit_code (reap k k.current c))
            × (((reap k k.current c).procs k.current).children ≡ delete c p.children))
          ⊎ (((c : ℕ)
                → contains c p.children ≡ true
                → (matches target p (k.procs c) && is_zombie (k.procs c).state) ≡ false)
              × (wait_step k target no_hang ≡ (if no_hang then returns (pos 0) else sleeps))))
unfolding wait_step
wait_step_lem k target no_hang = among (k.procs k.current).children
  where
    among :
        (cs : List ℕ)
        → ((cs ≡ []) × (wait_among k k.current target no_hang cs ≡ returns (neg echild)))
          ⊎ (((c : ℕ) × (contains c cs ≡ true)
                × (matches target (k.procs k.current) (k.procs c) ≡ true)
                × (is_zombie (k.procs c).state ≡ true)
                × (wait_among k k.current target no_hang cs
                    ≡ reaps (k.procs c).pid (k.procs c).exit_code (reap k k.current c))
                × (((reap k k.current c).procs k.current).children
                    ≡ delete c (k.procs k.current).children))
              ⊎ (((c : ℕ)
                    → contains c cs ≡ true
                    → (matches target (k.procs k.current) (k.procs c)
                        && is_zombie (k.procs c).state)
                      ≡ false)
                  × (wait_among k k.current target no_hang cs
                      ≡ (if no_hang then returns (pos 0) else sleeps))))
    among [] = inl (refl, unfold wait_among in refl)
    among (x ∷ cs) = elim (Option-cases (find_zombie k.procs target (k.procs k.current) (x ∷ cs))) [
      | inl e ↦ inr (
          inr (
            λ c h. find_zombie-none k.procs target (k.procs k.current) (x ∷ cs) c e h,
            unfold wait_among wait_found in rw e refl,
          ))
      | inr (c, e) ↦
          let (a, b, d) = find_zombie-some k.procs target (k.procs k.current) (x ∷ cs) c e in
          inr (
            inl (
              c,
              a,
              b,
              d,
              unfold wait_among wait_found in rw e refl,
              unfold reap in let s : (k.current == k.current) ≡ true = ground arith in rw s refl,
            ))
    ]
