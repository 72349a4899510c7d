-- ===== src/Sched/Runq/Order.antt =====
-- The order in which the run queue serves its processes: its lists, best priority first, in a row.
use my_unix.Base.{ℕ, zero, suc, ◌+◌, ◌-◌, ◌≤◌, ◌<◌, ◌≡◌, refl, sym, ◌∙◌, List, [], ◌++◌, arith}
use mathlib.Core.List.{append_assoc}
use my_unix.Base.Maps.{update}

-- The processes on the `n` lists from `p` on.
unfoldable pub ready : (ℕ → List ℕ) → ℕ → ℕ → List ℕ
ready queues p zero = []
ready queues p (suc n) = queues p ++ ready queues (p + 1) n

pub ready-ext :
    (f g : ℕ → List ℕ) (p n : ℕ)
    → ((q : ℕ) → p ≤ q → q < p + n → f q ≡ g q)
    → ready f p n ≡ ready g p n
unfolding ready
ready-ext f g p zero h = refl
ready-ext f g p (suc n) h =
    rw
      (
        h p (omega arith) (omega arith),
        ready-ext f g (p + 1) n (λ q k l. h q (omega arith) (omega arith)),
      )
      refl

pub ready-split :
    (f : ℕ → List ℕ) (p m n k : ℕ) → m + n ≡ k → ready f p k ≡ ready f p m ++ ready f (p + m) n
unfolding ready
ready-split f p zero n k e =
    let e' : n ≡ k = omega arith in let z : p + 0 ≡ p = omega arith in rw (e', z) refl
ready-split f p (suc m) n zero e = absurd (omega arith)
ready-split f p (suc m) n (suc k) e =
    let z : p + 1 + m ≡ p + suc m = omega arith in
    rw (ready-split f (p + 1) m n k (omega arith), z) (sym (append_assoc (f p) _ _))

pub ready-empty :
    (f : ℕ → List ℕ) (p n : ℕ) → ((q : ℕ) → p ≤ q → q < p + n → f q ≡ []) → ready f p n ≡ []
unfolding ready
ready-empty f p zero h = refl
ready-empty f p (suc n) h =
    rw
      (
        h p (omega arith) (omega arith),
        ready-empty f (p + 1) n (λ q k l. h q (omega arith) (omega arith)),
      )
      refl

-- Around list `q`: what stands before it and after it.
pub ready_at :
    (f : ℕ → List ℕ) (q n : ℕ)
    → q < n
    → ready f 0 n ≡ ready f 0 q ++ (f q ++ ready f (q + 1) (n - 1 - q))
unfolding ready
ready_at f q n h =
    ready-split f 0 q (suc (n - 1 - q)) n (omega arith)
    ∙ (let z : 0 + q ≡ q = omega arith in rw z refl)

-- Changing list `q` changes that part only.
pub ready-update :
    (f : ℕ → List ℕ) (q n : ℕ) (l : List ℕ)
    → q < n
    → ready (update f q l) 0 n ≡ ready f 0 q ++ (l ++ ready f (q + 1) (n - 1 - q))
ready-update f q n l h =
    ready_at (update f q l) q n h
    ∙ rw
        (
          ready-ext (update f q l) f 0 q (λ r k m. ground arith),
          ready-ext (update f q l) f (q + 1) (n - 1 - q) (λ r k m. ground arith),
        )
        here
  where
    same : update f q l q ≡ l
    same = ground arith

    here :
        ready f 0 q ++ (update f q l q ++ ready f (q + 1) (n - 1 - q))
        ≡ ready f 0 q ++ (l ++ ready f (q + 1) (n - 1 - q))
    here = rw same refl
