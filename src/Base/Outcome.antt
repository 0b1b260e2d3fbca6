-- ===== src/Base/Outcome.antt =====
-- The outcome of a kernel routine: a value, a call of `panic`, a read or write through a nil
-- pointer, or a loop that used up its fuel.

pub data Run {ℓ} (A : Type ℓ) : Type ℓ where
  ok : A → Run A
  panic : Run A
  fault : Run A
  out_of_fuel : Run A

infixl 5 ◌>>=◌
abbrev pub ◌>>=◌ {ℓ κ} : {A : Type ℓ} {B : Type κ} → Run A → (A → Run B) → Run B
ok a >>= f = f a
panic >>= f = panic
fault >>= f = fault
out_of_fuel >>= f = out_of_fuel
