-- ===== src/Base/Outcome.antt =====
-- What a kernel routine that may PANIC comes to: a result, or the halted machine.

pub data Outcome {ℓ} (A : Type ℓ) : Type ℓ where
  done : A → Outcome A
  panic : Outcome A

-- go on, unless the machine has halted
abbrev pub and_then {ℓ κ} : {A : Type ℓ} {B : Type κ} → Outcome A → (A → Outcome B) → Outcome B
and_then (done a) f = f a
and_then panic f = panic
