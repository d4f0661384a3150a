-- ===== src/Prelude/Text/Laws.antt =====
-- Laws of prefixes and of `contains_text` under appending.
use Prim.Native.String.{String}
use mathlib.Core.Path.{◌≡◌, refl, sym, subst}
use mathlib.Core.Logic.{inl, inr}
use text.Mathlib.TextEquality.{eq_iff}
use oadp_operator.Prelude.Tests.{Bool-cases, ◌==◌}
use mathlib.Core.Bool.{true}
use native.Mathlib.Omega.{arith}
use text.Mathlib.TextLemmas.{nil-append, cons-append}
use oadp_operator.Prelude.Text.{append, has_prefix, has_suffix, contains_text, decimal}

decimal_test : decimal 1204 ≡ "1204"
unfolding decimal
decimal_test = refl

pub has_prefix-append : (p t : String) → has_prefix (append p t) p ≡ true
unfolding has_prefix
has_prefix-append String.[] t = refl
has_prefix-append (String.◌∷◌ c p) t = rw cons-append (ground (arith, has_prefix-append p t))

pub contains_of_prefix : (s p : String) → has_prefix s p ≡ true → contains_text s p ≡ true
unfolding contains_text
contains_of_prefix String.[] p h = h
contains_of_prefix (String.◌∷◌ c s) p h = ground arith

-- A text that is put behind another is found there.
pub contains_text-append :
    (s t p : String) → contains_text t p ≡ true → contains_text (append s t) p ≡ true
unfolding contains_text
contains_text-append String.[] t p h = rw nil-append h
contains_text-append (String.◌∷◌ c s) t p h =
    rw cons-append (ground (arith, contains_text-append s t p h))

pub contains_text-append_prefix : (s p t : String) → contains_text (append s (append p t)) p ≡ true
contains_text-append_prefix s p t =
    contains_text-append s (append p t) p
      (contains_of_prefix (append p t) p (has_prefix-append p t))

-- What begins a text begins it also with more behind it.
pub has_prefix-append_more :
    (p t q : String) → has_prefix p q ≡ true → has_prefix (append p t) q ≡ true
unfolding has_prefix
has_prefix-append_more p t String.[] h = refl
has_prefix-append_more String.[] t (String.◌∷◌ d q) h = cc
has_prefix-append_more (String.◌∷◌ c p) t (String.◌∷◌ d q) h =
    rw cons-append (ground (arith, h, has_prefix-append_more p t q))

has_prefix-append_both :
    (s t q : String) → has_prefix t q ≡ true → has_prefix (append s t) (append s q) ≡ true
unfolding has_prefix
has_prefix-append_both String.[] t q h = rw (nil-append t, nil-append q) h
has_prefix-append_both (String.◌∷◌ c s) t q h =
    rw (cons-append c s t, cons-append c s q) (ground (arith, has_prefix-append_both s t q h))

-- What ends a text, with what begins the text behind it, is found in the two together.
pub contains_text-append_both :
    (s t p q : String)
    → has_suffix s p ≡ true
    → has_prefix t q ≡ true
    → contains_text (append s t) (append p q) ≡ true
unfolding has_suffix contains_text
contains_text-append_both String.[] t p q h k =
    subst (λ r. contains_text (append "" t) (append r q) ≡ true) (sym ((eq_iff p "").0 h))
      (contains_of_prefix _ _ (has_prefix-append_both "" t q k))
contains_text-append_both (String.◌∷◌ c s) t p q h k = elim (Bool-cases (String.◌∷◌ c s == p)) [
  | inl e ↦
      subst (λ r. contains_text (append (String.◌∷◌ c s) t) (append r q) ≡ true)
        ((eq_iff (String.◌∷◌ c s) p).0 e)
        (contains_of_prefix _ _ (has_prefix-append_both (String.◌∷◌ c s) t q k))
  | inr e ↦ rw cons-append (ground (arith, e, h, contains_text-append_both s t p q))
]
