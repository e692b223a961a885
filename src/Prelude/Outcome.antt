-- ===== src/Prelude/Outcome.antt =====
-- A value beside an error, as `(T, error)` returns it: the callers read the value only where the error
-- is nil.
pub data Result {ℓ κ} (E : Type ℓ) (A : Type κ) : Type (ℓ ⊔ κ) where
  ok : A → Result E A
  err : E → Result E A
