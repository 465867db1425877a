-- ===== src/Common/Table.antt =====
-- A database table as the list of its rows in order of insertion.
use Prim.Native.Nat.{ℕ, suc}
use mathlib.Core.Path.{◌≡◌}
use mathlib.Core.Logic.{inl, inr}
use mathlib.Core.Bool.{Bool, true}
use mathlib.Core.Option.{Option, none, some}
use mathlib.Core.List.{List, [], ◌∷◌}
use scroll.Common.Tests.{if◌then◌else◌, Bool-cases}

module _ {ℓ} {A : Type ℓ} where
  -- UPDATE t SET f WHERE p
  unfoldable pub update_where : (A → Bool) → (A → A) → List A → List A
  update_where p f [] = []
  update_where p f (x ∷ xs) = (if p x then f x else x) ∷ update_where p f xs

  -- SELECT * FROM t WHERE p LIMIT 1
  unfoldable pub find_first : (A → Bool) → List A → Option A
  find_first p [] = none
  find_first p (x ∷ xs) = if p x then some x else find_first p xs

  -- SELECT count(*) FROM t WHERE p
  unfoldable pub count_where : (A → Bool) → List A → ℕ
  count_where p [] = 0
  count_where p (x ∷ xs) = let rest = count_where p xs in if p x then suc rest else rest

  -- Two states of a table with the same rows, each in a relation with its later form.
  abbrev pub Rows : (A → A → Type 0) → List A → List A → Type 0
  Rows R [] [] = Unit
  Rows R [] (y ∷ ys) = ⊥
  Rows R (x ∷ xs) [] = ⊥
  Rows R (x ∷ xs) (y ∷ ys) = R x y × Rows R xs ys

  pub Rows-refl : (R : A → A → Type 0) → ((x : A) → R x x) → (xs : List A) → Rows R xs xs
  Rows-refl R same [] = tt
  Rows-refl R same (x ∷ xs) = (same x, Rows-refl R same xs)

  pub Rows-trans :
      (R S T : A → A → Type 0)
      → ((x y z : A) → R x y → S y z → T x z)
      → (xs ys zs : List A) → Rows R xs ys
      → Rows S ys zs
      → Rows T xs zs
  Rows-trans R S T join [] [] [] r s = tt
  Rows-trans R S T join [] [] (z ∷ zs) r s = absurd s
  Rows-trans R S T join [] (y ∷ ys) zs r s = absurd r
  Rows-trans R S T join (x ∷ xs) [] zs r s = absurd r
  Rows-trans R S T join (x ∷ xs) (y ∷ ys) [] r s = absurd s
  Rows-trans R S T join (x ∷ xs) (y ∷ ys) (z ∷ zs) r s =
      (join x y z r.0 s.0, Rows-trans R S T join xs ys zs r.1 s.1)

  pub Rows-map :
      (R S : A → A → Type 0)
      → ((x y : A) → R x y → S x y)
      → (xs ys : List A) → Rows R xs ys
      → Rows S xs ys
  Rows-map R S weaken [] [] r = tt
  Rows-map R S weaken [] (y ∷ ys) r = absurd r
  Rows-map R S weaken (x ∷ xs) [] r = absurd r
  Rows-map R S weaken (x ∷ xs) (y ∷ ys) r = (weaken x y r.0, Rows-map R S weaken xs ys r.1)

  -- An UPDATE relates each row with itself or with its changed form.
  pub Rows-update_where :
      (R : A → A → Type 0) (p : A → Bool) (f : A → A)
      → ((x : A) → R x x)
      → ((x : A) → p x ≡ true → R x (f x))
      → (xs : List A) → Rows R xs (update_where p f xs)
  unfolding update_where
  Rows-update_where R p f same step [] = tt
  Rows-update_where R p f same step (x ∷ xs) = (
    elim (Bool-cases (p x)) [ inl e ↦ rw e (step x e) | inr e ↦ rw e (same x) ],
    Rows-update_where R p f same step xs,
  )
