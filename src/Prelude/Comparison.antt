-- ===== src/Prelude/Comparison.antt =====
-- Types whose values can be compared, as `memcmp` compares the structs.
use mathlib.Core.Path.{◌≡◌, refl}
use mathlib.Core.Logic.{◌↔◌}
use mathlib.Core.Bool.{Bool, true}

pub record Equality {ℓ} (A : Type ℓ) : Type ℓ where
  pub same : A → A → Bool
  pub same_iff : (a b : A) → (same a b ≡ true) ↔ (a ≡ b)

module _ {ℓ} {A : Type ℓ} ⦃q : Equality A⦄ where
  pub same_refl : (a : A) → q.same a a ≡ true
  same_refl a = (q.same_iff a a).1 refl

  pub same_eq : {a b : A} → q.same a b ≡ true → a ≡ b
  same_eq {a} {b} e = (q.same_iff a b).0 e
