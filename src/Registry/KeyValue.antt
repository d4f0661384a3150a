-- ===== src/Registry/KeyValue.antt =====
-- getMatchedKeyValue of registry.go.
use oadp_operator.Prelude.{◌≡◌, refl, ◌⊎◌, inl, inr, String, [], ◌∷◌, ◌==◌, if◌then◌else◌}
use oadp_operator.Prelude.Text.{remove_char, trim_prefix}
use oadp_operator.Cluster.{Error, about}

-- The result of a parser that can fail.
pub data Parsed (A : Type 0) : Type 0 where
  parsed : A → Parsed A
  refused : Error → Parsed A

pub Parsed-cases :
    {A : Type 0} (r : Parsed A) → ((a : A) × (r ≡ parsed a)) ⊎ ((e : Error) × (r ≡ refused e))
Parsed-cases (parsed a) = inl (a, refl)
Parsed-cases (refused e) = inr (e, refl)

infixl 5 ◌>>=◌
abbrev pub ◌>>=◌ : {A B : Type 0} → Parsed A → (A → Parsed B) → Parsed B
parsed a >>= f = f a
refused e >>= f = refused e

-- Double quotes, single quotes and spaces are removed, then the key, then the equals sign.
unfoldable pub bare_value : String → String → String
bare_value key line =
    trim_prefix (trim_prefix (remove_char b' ' (remove_char b'\'' (remove_char b'"' line))) key) "="

unfoldable pub get_matched_key_value : String → String → Parsed String
unfolding bare_value
get_matched_key_value key line =
    if bare_value key line == ""
    then refused (about "secret parsing error in key " (key ∷ []))
    else parsed (bare_value key line)
