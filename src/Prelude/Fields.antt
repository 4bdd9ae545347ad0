-- ===== src/Prelude/Fields.antt =====
-- A field of a JSON value that the code types: missing, of another type, or given.

pub data Field {ℓ} (A : Type ℓ) : Type ℓ where
  missing other : Field A
  given : A → Field A
