-- ===== src/Prelude/Filters.antt =====
-- Laws of `filter` and `contains`.
use mathlib.Core.Path.{◌≡◌, refl}
use mathlib.Core.Bool.{Bool, true, ◌&&◌}
use mathlib.Core.List.{List, [], ◌∷◌}
use mathlib.Core.Logic.{inl, inr}
use Prim.Native.String.{String}
use native.Mathlib.Omega.{arith}
use text.Mathlib.TextEquality.{eq_iff}
use oadp_operator.Prelude.Tests.{Bool-cases}
use oadp_operator.Prelude.Lists.{filter, All, contains}

module _ {ℓ} {A : Type ℓ} where
  -- Two tests that agree on every element filter alike.
  pub filter-All :
      (p q : A → Bool) (xs : List A) → All (λ x. p x ≡ q x) xs → filter p xs ≡ filter q xs
  filter-All p q [] h = refl
  filter-All p q (x ∷ xs) (e, h) = rw (e, filter-All p q xs h) refl

  pub All-intro {κ} : {P : A → Type κ} → ((x : A) → P x) → (xs : List A) → All P xs
  All-intro f [] = tt
  All-intro f (x ∷ xs) = (f x, All-intro f xs)

  pub All-map {κ} : {P Q : A → Type κ} → ((x : A) → P x → Q x) → (xs : List A) → All P xs → All Q xs
  All-map f [] h = tt
  All-map f (x ∷ xs) (p, h) = (f x p, All-map f xs h)

  pub filter-true : (p : A → Bool) (xs : List A) → All (λ x. p x ≡ true) xs → filter p xs ≡ xs
  filter-true p [] h = refl
  filter-true p (x ∷ xs) (e, h) = rw (e, filter-true p xs h) refl

  pub filter-filter :
      (p q : A → Bool) (xs : List A) → filter q (filter p xs) ≡ filter (λ x. p x && q x) xs
  filter-filter p q [] = refl
  filter-filter p q (x ∷ xs) = elim (Bool-cases (p x)) [
    | inl e ↦ elim (Bool-cases (q x)) [
      | inl f ↦ rw (e, f, filter-filter p q xs) refl
      | inr f ↦ rw (e, f, filter-filter p q xs) refl
    ]
    | inr e ↦ rw (e, filter-filter p q xs) refl
  ]

contains_in :
    (xs ys : List String)
    → ((n : String) → contains xs n ≡ true → contains ys n ≡ true)
    → All (λ n. contains ys n ≡ true) xs
contains_in [] ys h = tt
contains_in (x ∷ xs) ys h =
    (h x (ground (arith, eq_iff x x)), contains_in xs ys (λ n e. h n (ground arith)))

-- Every element of a list is contained in it.
pub contains_self : (xs : List String) → All (λ n. contains xs n ≡ true) xs
contains_self xs = contains_in xs xs (λ n e. e)
