-- ===== src/Registry/Aws/Values.antt =====
-- Where the keys that parseAWSSecret returns come from: the lines of the secret.
use oadp_operator.Prelude.{
  String, ◌≡◌, ◌≢◌, ◌⊎◌, inl, inr, sym, ap, subst, ◌∙◌, true, List, [], ◌∷◌, arith, eq_iff, ◌==◌,
  Bool-cases, ◌&&◌,
}
use oadp_operator.Prelude.Text.{has_brackets, has_whole_word}
use oadp_operator.Api.{Secret}
use oadp_operator.Registry.KeyValue.{
  Parsed, Parsed-cases, parsed, refused, bare_value, get_matched_key_value,
}
use oadp_operator.Registry.Aws.{
  Keys, profile_of, has_sts_fields, read_keys, check_keys, scan_profiles, parse_aws_secret,
}
use oadp_operator.Registry.Aws.Laws.{lines_of}

-- Some line has the word `key`, and `v` is what is left of it without quotes, spaces, the key and
-- the equals sign.
abbrev pub HasValue : String → List String → String → Type 0
HasValue key [] v = ⊥
HasValue key (line ∷ rest) v =
    ((has_whole_word line key ≡ true) × (bare_value key line ≡ v)) ⊎ HasValue key rest v

-- The value is the old one, or that of a line.
abbrev Reads : String → List String → String → String → Type 0
Reads key lines old v = (v ≡ old) ⊎ HasValue key lines v

abbrev ReadsBoth : List String → Keys → Keys → Type 0
ReadsBoth lines keys out =
    Reads "aws_access_key_id" lines keys.0 out.0 × Reads "aws_secret_access_key" lines keys.1 out.1

matched :
    (key line v : String) → get_matched_key_value key line ≡ parsed v → bare_value key line ≡ v
unfolding get_matched_key_value
matched key line v e = ground arith

ReadsBoth-cons :
    (line : String) (rest : List String) (keys out : Keys)
    → ReadsBoth rest keys out
    → ReadsBoth (line ∷ rest) keys out
ReadsBoth-cons line rest keys out h = ground arith

-- A line with a key, whose value the lines behind it go on from.
from_line :
    (key line : String) (rest : List String) (v old out : String)
    → has_whole_word line key ≡ true
    → bare_value key line ≡ v
    → Reads key rest v out
    → Reads key (line ∷ rest) old out
from_line key line rest v old out word value (inl same) = inr (inl (word, value ∙ sym same))
from_line key line rest v old out word value (inr found) = inr (inr found)

from_later :
    (key line : String) (rest : List String) (old out : String)
    → Reads key rest old out
    → Reads key (line ∷ rest) old out
from_later key line rest old out (inl same) = inl same
from_later key line rest old out (inr found) = inr (inr found)

abbrev or_keys : Keys → Parsed Keys → Keys
or_keys keys (parsed out) = out
or_keys keys (refused e) = keys

unread :
    (lines : List String) (keys out : Keys) → parsed keys ≡ parsed out → ReadsBoth lines keys out
unread lines keys out e =
    let same = ap (or_keys keys) e in
    (inl (ap (λ k. k.0) (sym same)), inl (ap (λ k. k.1) (sym same)))

read_keys_sound :
    (lines : List String) (keys out : Keys)
    → read_keys lines keys ≡ parsed out
    → ReadsBoth lines keys out
unfolding read_keys
read_keys_sound [] keys out e = unread [] keys out e
read_keys_sound (line ∷ rest) keys out e = elim (Bool-cases (line == "")) [
  | inl blank ↦ ReadsBoth-cons line rest keys out (read_keys_sound rest keys out (rw blank at e))
  | inr text ↦ elim (Bool-cases (has_brackets line)) [
    | inl header ↦ unread (line ∷ rest) keys out (ground arith)
    | inr plain ↦ elim (Bool-cases (has_whole_word line "aws_access_key_id")) [
      | inl a ↦ elim (Parsed-cases (get_matched_key_value "aws_access_key_id" line)) [
        | inl (v, m) ↦
            let (x, y) = read_keys_sound rest (v, keys.1) out (ground arith) in
            (
              from_line "aws_access_key_id" line rest v keys.0 out.0 a (matched _ line v m) x,
              from_later "aws_secret_access_key" line rest keys.1 out.1 y,
            )
        | inr (x, m) ↦ ground arith
      ]
      | inr a ↦ elim (Bool-cases (has_whole_word line "aws_secret_access_key")) [
        | inl b ↦ elim (Parsed-cases (get_matched_key_value "aws_secret_access_key" line)) [
          | inl (v, m) ↦
              let (x, y) = read_keys_sound rest (keys.0, v) out (ground arith) in
              (
                from_later "aws_access_key_id" line rest keys.0 out.0 x,
                from_line "aws_secret_access_key" line rest v keys.1 out.1 b (matched _ line v m) y,
              )
          | inr (x, m) ↦ ground arith
        ]
        | inr b ↦ ReadsBoth-cons line rest keys out (read_keys_sound rest keys out (ground arith))
      ]
    ]
  ]
]

-- Reading on from what was read.
from_either :
    (key : String) (lines : List String) (old mid out : String)
    → Reads key lines old mid
    → Reads key lines mid out
    → Reads key lines old out
from_either key lines old mid out (inl same) (inl too) = inl (too ∙ same)
from_either key lines old mid out (inr found) (inl too) =
    inr (subst (HasValue key lines) (sym too) found)
from_either key lines old mid out first (inr found) = inr found

check_keys_keeps : (m p : String) (keys out : Keys) → check_keys m p keys ≡ parsed out → out ≡ keys
unfolding check_keys
check_keys_keeps m p (a, s) out h = ground (arith, eq_iff p "", eq_iff a "", eq_iff s "")

-- No keys, or the old ones or those of lines.
abbrev ScansBoth : List String → Keys → Keys → Type 0
ScansBoth lines keys out = (out ≡ ("", "")) ⊎ ReadsBoth lines keys out

ScansBoth-cons :
    (line : String) (rest : List String) (keys out : Keys)
    → ScansBoth rest keys out
    → ScansBoth (line ∷ rest) keys out
ScansBoth-cons line rest keys out (inl none_given) = inl none_given
ScansBoth-cons line rest keys out (inr h) = inr (ReadsBoth-cons line rest keys out h)

kept : (lines : List String) (keys out : Keys) → out ≡ keys → ScansBoth lines keys out
kept lines keys out e = inr (inl (ap (λ k. k.0) e), inl (ap (λ k. k.1) e))

scans_on :
    (lines : List String) (keys mid out : Keys)
    → ReadsBoth lines keys mid
    → ScansBoth lines mid out
    → ScansBoth lines keys out
scans_on lines keys mid out first (inl none_given) = inl none_given
scans_on lines keys mid out first (inr h) = inr (
  from_either "aws_access_key_id" lines keys.0 mid.0 out.0 first.0 h.0,
  from_either "aws_secret_access_key" lines keys.1 mid.1 out.1 first.1 h.1,
)

scan_profiles-ScansBoth :
    (m : String) (lines : List String) (p : String) (keys out : Keys)
    → scan_profiles m lines p keys ≡ parsed out
    → ScansBoth lines keys out
unfolding scan_profiles
scan_profiles-ScansBoth m [] p keys out h = kept [] keys out (check_keys_keeps m p keys out h)
scan_profiles-ScansBoth m (line ∷ []) p keys out h =
    kept (line ∷ []) keys out
      (ground (arith, check_keys_keeps m p keys out, check_keys_keeps m m keys out))
scan_profiles-ScansBoth m (line ∷ next ∷ rest) p keys out h = elim (Bool-cases (line == "")) [
  | inl blank ↦
      ScansBoth-cons line (next ∷ rest) keys out
        (scan_profiles-ScansBoth m (next ∷ rest) p keys out (rw blank at h))
  | inr text ↦ elim (Bool-cases (has_brackets line && profile_of line == m)) [
    | inr other ↦
        ScansBoth-cons line (next ∷ rest) keys out
          (scan_profiles-ScansBoth m (next ∷ rest) p keys out (ground arith))
    | inl header ↦ elim (Bool-cases (has_sts_fields (next ∷ rest))) [
      | inl sts ↦ inl (ground arith)
      | inr plain ↦ elim (Parsed-cases (read_keys (next ∷ rest) keys)) [
        | inl (found, reads) ↦ ScansBoth-cons line (next ∷ rest) keys out (
            scans_on (next ∷ rest) keys found out (read_keys_sound (next ∷ rest) keys found reads)
              (scan_profiles-ScansBoth m (next ∷ rest) m found out (ground arith)))
        | inr (x, fails) ↦ ground arith
      ]
    ]
  ]
]

given_value :
    (key : String) (lines : List String) (v : String)
    → v ≢ ""
    → Reads key lines "" v
    → HasValue key lines v
given_value key lines v given (inl e) = absurd (given e)
given_value key lines v given (inr found) = found

-- Keys that are not empty are the values of lines.
pub parse_aws_secret-HasValue :
    (secret : Secret) (key m : String) (out : Keys)
    → parse_aws_secret secret key m ≡ parsed out
    → out.0 ≢ ""
    → out.1 ≢ ""
    → HasValue "aws_access_key_id" (lines_of secret key) out.0
      × HasValue "aws_secret_access_key" (lines_of secret key) out.1
unfolding parse_aws_secret
parse_aws_secret-HasValue secret key m out h a b =
    elim (scan_profiles-ScansBoth m (lines_of secret key) "" ("", "") out h) [
      | inl e ↦ absurd (a (ap (λ k. k.0) e))
      | inr (x, y) ↦ (given_value _ _ out.0 a x, given_value _ _ out.1 b y)
    ]
