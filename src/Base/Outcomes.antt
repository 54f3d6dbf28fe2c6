-- ===== src/Base/Outcomes.antt =====
-- The outcome of a call that can throw: a value, or what was thrown.

pub data Outcome {ℓ κ} (E : Type ℓ) (A : Type κ) : Type (ℓ ⊔ κ) where
  returned : A → Outcome E A
  threw : E → Outcome E A

-- What follows a value; a fault passes through.
abbrev pub and_then : {E A B : Type 0} → Outcome E A → (A → Outcome E B) → Outcome E B
and_then (returned a) f = f a
and_then (threw e) f = threw e
