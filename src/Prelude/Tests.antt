-- ===== src/Prelude/Tests.antt =====
-- Boolean tests, on numbers and on texts, and the conditional.
use Prim.Native.Nat.{ℕ, compare, Ordering}
use Prim.Native.String.{String}
use mathlib.Core.Path.{◌≡◌, refl}
use mathlib.Core.Logic.{◌⊎◌, ◌≢◌, inl, inr}
use mathlib.Core.Bool.{Bool, true, false, not, ◌||◌}
use native.Mathlib.Omega.{arith}
use text.Mathlib.TextEquality.{eq_iff}
use mathlib.Core.Option.{Option, none, some}
use text.Mathlib.Text.{◌==◌ as str_eq}

abbrev pub ltb : ℕ → ℕ → Bool
ltb a b = elim (compare a b) [ Ordering.lt ↦ true | _ ↦ false ]

abbrev pub leb : ℕ → ℕ → Bool
leb a b = elim (compare a b) [ Ordering.gt ↦ false | _ ↦ true ]

abbrev pub nat_eq : ℕ → ℕ → Bool
nat_eq a b = elim (compare a b) [ Ordering.eq ↦ true | _ ↦ false ]

-- Texts are compared with `==`, numbers with `nat_eq`.
infix 50 ◌==◌ ◌!=◌
abbrev pub ◌==◌ : String → String → Bool
a == b = str_eq a b

abbrev pub ◌!=◌ : String → String → Bool
a != b = not (a == b)

infix 1 if◌then◌else◌
abbrev pub if◌then◌else◌ {ℓ} : {A : Type ℓ} → Bool → A → A → A
if true then x else y = x
if false then x else y = y

abbrev pub is_some {ℓ} : {A : Type ℓ} → Option A → Bool
is_some none = false
is_some (some a) = true

abbrev pub is_none {ℓ} : {A : Type ℓ} → Option A → Bool
is_none none = true
is_none (some a) = false

-- To split on a computed value and keep the equation.
pub Bool-cases : (b : Bool) → (b ≡ true) ⊎ (b ≡ false)
Bool-cases true = inl refl
Bool-cases false = inr refl

pub Option-cases {ℓ} : {A : Type ℓ} (o : Option A) → (o ≡ none) ⊎ ((a : A) × (o ≡ some a))
Option-cases none = inl refl
Option-cases (some a) = inr (a, refl)

-- The tests on texts, read as equations.
pub eq_of_test : (s t : String) → (s == t) ≡ true → s ≡ t
eq_of_test s t h = (eq_iff s t).0 h

pub ne_of_test : (s t : String) → (s == t) ≡ false → s ≢ t
ne_of_test s t h = ground (arith, eq_iff s t)

pub ne_of_not : (s t : String) → (s != t) ≡ true → s ≢ t
ne_of_not s t h = ground (arith, eq_iff s t)

pub either_test : (s t u : String) → (s == t || s == u) ≡ true → (s ≡ t) ⊎ (s ≡ u)
either_test s t u h = ground (arith, eq_iff s t, eq_iff s u)
