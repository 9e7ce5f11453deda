-- ===== src/Base/Runs.antt =====
-- What a run of C code may do besides returning: read or write memory that it must not, or read bytes
-- that nothing wrote. `exhausted` says that the fuel of a model ran out, and stands for no behaviour.
pub data Run {ℓ} (A : Type ℓ) : Type ℓ where
  done : A → Run A
  fault exhausted : Run A

abbrev pub then_do {ℓ κ} : {A : Type ℓ} {B : Type κ} → Run A → (A → Run B) → Run B
then_do (done a) f = f a
then_do fault f = fault
then_do exhausted f = exhausted
