-- ===== src/Registry/Aws/Laws.antt =====
-- What parseAWSSecret guarantees to its callers.
use oadp_operator.Prelude.{
  String, ◌≡◌, ◌≢◌, ◌⊎◌, inl, inr, refl, true, List, [], ◌∷◌, none, some, arith, eq_iff, ◌==◌,
  Bool-cases, lookup, ◌&&◌,
}
use oadp_operator.Prelude.Text.{split, has_brackets}
use oadp_operator.Api.{Secret}
use oadp_operator.Registry.KeyValue.{Parsed-cases, parsed}
use oadp_operator.Registry.Aws.{
  Keys, profile_of, has_sts_fields, read_keys, check_keys, scan_profiles, parse_aws_secret,
}

-- Either both keys are given, or neither.
abbrev pub AreBothOrNeither : Keys → Type 0
AreBothOrNeither keys = ((keys.0 ≢ "") × (keys.1 ≢ "")) ⊎ ((keys.0 ≡ "") × (keys.1 ≡ ""))

check_keys_complete :
    (m p : String) (keys out : Keys)
    → check_keys m p keys ≡ parsed out
    → (p ≢ "") × (out ≡ keys) × (keys.0 ≢ "") × (keys.1 ≢ "")
unfolding check_keys
check_keys_complete m p (a, s) out h = ground (arith, eq_iff p "", eq_iff a "", eq_iff s "")

-- Some line is the header of the profile `m`.
abbrev pub HasProfile : String → List String → Type 0
HasProfile m [] = ⊥
HasProfile m (line ∷ rest) =
    ((has_brackets line ≡ true) × (profile_of line ≡ m)) ⊎ HasProfile m rest

-- Some line is the header of the profile `m`, and the lines of that profile hold an STS field.
abbrev pub HasStsProfile : String → List String → Type 0
HasStsProfile m [] = ⊥
HasStsProfile m (line ∷ rest) =
    ((has_brackets line ≡ true) × (profile_of line ≡ m) × (has_sts_fields rest ≡ true))
    ⊎ HasStsProfile m rest

-- What a successful scan that began with the profile `p` has established.
abbrev pub Scanned : String → List String → String → Keys → Type 0
Scanned m lines p out =
    (((p ≢ "") ⊎ HasProfile m lines) × (out.0 ≢ "") × (out.1 ≢ ""))
    ⊎ ((out ≡ ("", "")) × HasStsProfile m lines)

Scanned-cons :
    (m line : String) (rest : List String) (p : String) (out : Keys)
    → Scanned m rest p out
    → Scanned m (line ∷ rest) p out
Scanned-cons m line rest p out h = ground arith

Scanned-header :
    (m line : String) (rest : List String) (p : String) (out : Keys)
    → has_brackets line ≡ true
    → profile_of line ≡ m
    → Scanned m rest m out
    → Scanned m (line ∷ rest) p out
Scanned-header m line rest p out b e h = ground arith

header_of :
    (line m : String)
    → (has_brackets line && profile_of line == m) ≡ true
    → (has_brackets line ≡ true) × (profile_of line ≡ m)
header_of line m h = ground (arith, eq_iff (profile_of line) m)

scan_profiles_sound :
    (m : String) (lines : List String) (p : String) (keys out : Keys)
    → scan_profiles m lines p keys ≡ parsed out
    → Scanned m lines p out
unfolding scan_profiles
scan_profiles_sound m [] p keys out h = ground (arith, check_keys_complete m p keys out)
scan_profiles_sound m (line ∷ []) p keys out h = ground (
  arith,
  eq_iff (profile_of line) m,
  check_keys_complete m p keys out,
  check_keys_complete m m keys out,
)
scan_profiles_sound m (line ∷ next ∷ rest) p keys out h = elim (Bool-cases (line == "")) [
  | inl blank ↦
      Scanned-cons m line (next ∷ rest) p out
        (scan_profiles_sound m (next ∷ rest) p keys out (rw blank at h))
  | inr text ↦ elim (Bool-cases (has_brackets line && profile_of line == m)) [
    | inr other ↦
        Scanned-cons m line (next ∷ rest) p out
          (scan_profiles_sound m (next ∷ rest) p keys out (ground arith))
    | inl header ↦
        let (b, e) = header_of line m header in
        elim (Bool-cases (has_sts_fields (next ∷ rest))) [
          | inl sts ↦ inr (ground arith, inl (b, e, sts))
          | inr plain ↦ elim (Parsed-cases (read_keys (next ∷ rest) keys)) [
            | inl (found, reads) ↦
                Scanned-header m line (next ∷ rest) p out b e
                  (scan_profiles_sound m (next ∷ rest) m found out (ground arith))
            | inr (x, fails) ↦ ground arith
          ]
        ]
  ]
]

-- The lines of a secret's entry.
abbrev pub lines_of : Secret → String → List String
lines_of secret key = split b'\n' (elim (lookup key secret.content) [ none ↦ "" | some v ↦ v ])

-- If parsing the AWS secret succeeds, then either a line is the header of the wanted profile and
-- both keys are not empty, or both keys are empty and the wanted profile holds an STS field.
pub parse_aws_secret_sound :
    (secret : Secret) (key m : String) (out : Keys)
    → parse_aws_secret secret key m ≡ parsed out
    → (HasProfile m (lines_of secret key) × (out.0 ≢ "") × (out.1 ≢ ""))
      ⊎ ((out ≡ ("", "")) × HasStsProfile m (lines_of secret key))
unfolding parse_aws_secret
parse_aws_secret_sound secret key m out h =
    elim (scan_profiles_sound m (lines_of secret key) "" ("", "") out h) [
      | inl (inl p, a, s) ↦ absurd (p refl)
      | inl (inr p, a, s) ↦ inl (p, a, s)
      | inr q ↦ inr q
    ]
