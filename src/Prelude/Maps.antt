-- ===== src/Prelude/Maps.antt =====
-- Go's `map[string]T` as an association list; a nil map is `none` where the code tells the two apart.
-- A theorem about every list of entries covers every order in which Go may range over a map.
use Prim.Native.String.{String}
use mathlib.Core.Path.{◌≡◌, refl}
use mathlib.Core.Option.{Option, none, some}
use mathlib.Core.List.{List, [], ◌∷◌}
use native.Mathlib.Omega.{arith}
use text.Mathlib.TextEquality.{eq_iff}
use oadp_operator.Prelude.Tests.{◌==◌, if◌then◌else◌}

abbrev pub Dict : Type 0
Dict = List (String × String)

module _ {ℓ} {V : Type ℓ} where
  -- v, ok := m[k]
  unfoldable pub lookup : String → List (String × V) → Option V
  lookup k [] = none
  lookup k ((j, v) ∷ m) = if j == k then some v else lookup k m

  -- m[k] = v
  unfoldable pub insert : String → V → List (String × V) → List (String × V)
  insert key new [] = (key, new) ∷ []
  insert key new (entry ∷ rest) =
      let later = insert key new rest in if entry.0 == key then (key, new) ∷ rest else entry ∷ later

  -- A read after an assignment.
  pub lookup-insert :
      (key other : String) (new : V) (entries : List (String × V))
      → lookup other (insert key new entries)
        ≡ (if key == other then some new else lookup other entries)
  unfolding lookup insert
  lookup-insert key other new [] = refl
  lookup-insert key other new (entry ∷ rest) = ground (
    arith,
    lookup-insert key other new rest,
    eq_iff key other,
    eq_iff entry.0 other,
    eq_iff entry.0 key,
  )

-- A read of a nil map finds nothing.
abbrev pub find : String → Option Dict → Option String
find k none = none
find k (some m) = lookup k m

-- m[k] where a missing key gives the zero value
abbrev pub index : String → Option Dict → String
index k m = elim (find k m) [ none ↦ "" | some v ↦ v ]
