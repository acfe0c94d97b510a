-- ===== src/Base/Outcome.antt =====
-- What a Go call can do that a value does not show: it panics. `panic` stands for a run-time panic,
-- an index or a slice bound out of range, or an explicit `panic`.
pub data Outcome {ℓ} (A : Type ℓ) : Type ℓ where
  ok : A → Outcome A
  panic : Outcome A

infixl 5 ◌>>=◌
abbrev pub ◌>>=◌ {ℓ κ} : {A : Type ℓ} {B : Type κ} → Outcome A → (A → Outcome B) → Outcome B
ok a >>= f = f a
panic >>= f = panic
