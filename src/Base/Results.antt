-- ===== src/Base/Results.antt =====
-- What a kernel routine does: it returns, `panic` of core/kprintf.c stops the machine, or it
-- writes outside its objects, after which C says nothing.
use mathlib.Core.Path.{◌≡◌, refl, ap}
use mathlib.Core.Logic.{◌⊎◌, inl, inr}

pub data Outcome {ℓ} (A : Type ℓ) : Type ℓ where
  panic fault : Outcome A
  ok : A → Outcome A

module _ {ℓ κ} {A : Type ℓ} {B : Type κ} where
  infixl 5 ◌>>=◌
  abbrev pub ◌>>=◌ : Outcome A → (A → Outcome B) → Outcome B
  panic >>= next = panic
  fault >>= next = fault
  ok v >>= next = next v

  -- A sequence that returns has a first half that returns what its second half starts from.
  pub sequence_returns :
      (first : Outcome A) (next : A → Outcome B) (w : B)
      → (first >>= next) ≡ ok w
      → (v : A) × (next v ≡ ok w) × (first ≡ ok v)
  sequence_returns panic next w e = cc
  sequence_returns fault next w e = cc
  sequence_returns (ok v) next w e = (v, e, refl)

-- The three outcomes, to split on a computed one.
pub Outcome-cases {ℓ} :
    {A : Type ℓ} (m : Outcome A) → ((v : A) × (m ≡ ok v)) ⊎ ((m ≡ panic) ⊎ (m ≡ fault))
Outcome-cases panic = inr (inl refl)
Outcome-cases fault = inr (inr refl)
Outcome-cases (ok v) = inl (v, refl)

pub ok-injective {ℓ} : {A : Type ℓ} {x y : A} → ok x ≡ ok y → x ≡ y
ok-injective {x} e = ap (λ o. elim o [ ok v ↦ v | panic ↦ x | fault ↦ x ]) e
