-- ===== src/Prelude/Faults.antt =====
-- What a piece of C++ may come to: a value, an exception that nothing in the program catches, or
-- undefined behaviour, or the end of the process by `exit`.

pub data Fault : Type 0 where
  out_of_range : Fault
  invalid_argument : Fault
  undefined : Fault
  system_error : Fault
  exited : Fault

pub data Outcome {ℓ} (A : Type ℓ) : Type ℓ where
  ok : A → Outcome A
  fault : Fault → Outcome A

infixl 5 ◌>>=◌
abbrev pub ◌>>=◌ {ℓ κ} : {A : Type ℓ} {B : Type κ} → Outcome A → (A → Outcome B) → Outcome B
ok a >>= f = f a
fault e >>= f = fault e
