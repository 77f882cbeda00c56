-- ===== src/Prelude/Status.antt =====
-- What a C function of the pipeline returns: a value through its output pointers, or a negative
-- status. `einval`, `erange` and `e2big` are -EINVAL, -ERANGE and -E2BIG; `failure` is a bare -1 or
-- a NULL pointer.
pub data Errno : Type 0 where
  einval erange e2big failure : Errno

pub data Outcome {ℓ} (A : Type ℓ) : Type ℓ where
  ok : A → Outcome A
  err : Errno → Outcome A

-- Go on with the value, if there is one.
infixl 5 ◌>>=◌
abbrev pub ◌>>=◌ {ℓ κ} : {A : Type ℓ} {B : Type κ} → Outcome A → (A → Outcome B) → Outcome B
err status >>= next = err status
ok value >>= next = next value
