-- ===== src/Common/Results.antt =====
-- Go's `(value, error)` results.
use mathlib.Core.Path.{◌≡◌, refl}
use mathlib.Core.Bool.{Bool, true, false}

pub data Outcome {ℓ κ} (E : Type κ) (A : Type ℓ) : Type (ℓ ⊔ κ) where
  ok : A → Outcome E A
  err : E → Outcome E A

pub ok-injective {ℓ ρ} :
    {E : Type ρ} {A : Type ℓ} {a b : A} → ◌≡◌ {A = Outcome E A} (ok a) (ok b) → a ≡ b
ok-injective h = cc

module _ {ℓ κ ρ} {E : Type ρ} {A : Type ℓ} {B : Type κ} where
  infixl 5 ◌>>=◌
  -- Go's `if err != nil { return err }` between two calls.
  abbrev pub ◌>>=◌ : Outcome E A → (A → Outcome E B) → Outcome E B
  err why >>= next = err why
  ok value >>= next = next value

  -- What a successful chain went through.
  pub >>=-eq-ok :
      (call : Outcome E A) (next : A → Outcome E B) {out : B}
      → (call >>= next) ≡ ok out
      → (value : A) × (call ≡ ok value) × (next value ≡ ok out)
  >>=-eq-ok (err why) next e = cc
  >>=-eq-ok (ok value) next e = (value, refl, e)

module _ {ℓ κ ρ} {E : Type ρ} {A : Type ℓ} {B : Type κ} where
  pub bind_ext :
      (m : Outcome E A) (f g : A → Outcome E B) → ((a : A) → f a ≡ g a) → (m >>= f) ≡ (m >>= g)
  bind_ext (ok a) f g h = h a
  bind_ext (err e) f g h = refl

  pub bind_assoc {τ} :
      {C : Type τ} (m : Outcome E A) (f : A → Outcome E B) (g : B → Outcome E C)
      → (m >>= f >>= g) ≡ (m >>= λ a. f a >>= g)
  bind_assoc (ok a) f g = refl
  bind_assoc (err e) f g = refl

abbrev pub is_ok {ℓ ρ} : {E : Type ρ} {A : Type ℓ} → Outcome E A → Bool
is_ok (ok a) = true
is_ok (err e) = false
