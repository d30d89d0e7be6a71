-- ===== src/Host/Results.antt =====
-- Chains of pure steps that may raise.
use fs_quint.Base.{ap}
use fs_quint.Base.{◌≡◌, refl, ◌⊎◌, inl, inr}
use fs_quint.Host.{Exception, Result, value, raised}

infixl 10 ◌>>=◌
abbrev pub ◌>>=◌ {ℓ κ} : {A : Type ℓ} {B : Type κ} → Result A → (A → Result B) → Result B
value a >>= f = f a
raised e >>= f = raised e

module _ {ℓ} {A : Type ℓ} where
  pub Result-cases : (r : Result A) → ((a : A) × (r ≡ value a)) ⊎ ((e : Exception) × (r ≡ raised e))
  Result-cases (value a) = inl (a, refl)
  Result-cases (raised e) = inr (e, refl)

pub value-injective : {A : Type 0} (a b : A) → value a ≡ value b → a ≡ b
value-injective a b e = ap (λ r. elim r [ value x ↦ x | raised x ↦ a ]) e
