-- ===== src/Prelude/Outcome.antt =====
-- What a call of the program comes to: a value, or a panic that unwinds.
pub data Outcome {ℓ} (A : Type ℓ) : Type ℓ where
  returned : A → Outcome A
  panicked : Outcome A
