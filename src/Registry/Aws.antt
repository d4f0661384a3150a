-- ===== src/Registry/Aws.antt =====
-- parseAWSSecret of registry.go. The lines of the secret are a list; `rest` is
-- `splitString[index+1:]`.
pub mod Laws
pub mod Values
use oadp_operator.Prelude.{
  String, Bool, true, false, ◌||◌, ◌&&◌, List, [], ◌∷◌, Option, none, some, lookup, ◌==◌,
  if◌then◌else◌,
}
use oadp_operator.Prelude.Text.{split, has_brackets, has_whole_word, remove_char}
use oadp_operator.Api.{Secret}
use oadp_operator.Cluster.{message, about}
use oadp_operator.Registry.KeyValue.{Parsed, parsed, refused, ◌>>=◌, get_matched_key_value}

-- The access key and the secret key.
abbrev pub Keys : Type 0
Keys = String × String

unfoldable pub profile_of : String → String
profile_of line = remove_char b']' (remove_char b'[' (remove_char b' ' line))

unfoldable pub is_sts_line : String → Bool
is_sts_line line =
    has_whole_word line "role_arn"
    || has_whole_word line "web_identity_token_file"
    || has_whole_word line "sts_regional_endpoints"

-- The first loop over the profile: `hasStsFields`.
unfoldable pub has_sts_fields : List String → Bool
unfolding is_sts_line
has_sts_fields [] = false
has_sts_fields (line ∷ rest) =
    let later = has_sts_fields rest in
    if line == ""
    then later
    else if has_brackets line
    then false
    else if is_sts_line line
    then true
    else later

-- The second loop over the profile.
unfoldable pub read_keys : List String → Keys → Parsed Keys
read_keys [] keys = parsed keys
read_keys (line ∷ rest) keys =
    let later = read_keys rest in
    if line == ""
    then later keys
    else if has_brackets line
    then parsed keys
    else if has_whole_word line "aws_access_key_id"
    then (get_matched_key_value "aws_access_key_id" line >>= λ v. later (v, keys.1))
    else if has_whole_word line "aws_secret_access_key"
    then (get_matched_key_value "aws_secret_access_key" line >>= λ v. later (keys.0, v))
    else later keys

-- The checks behind the loop.
unfoldable pub check_keys : String → String → Keys → Parsed Keys
check_keys match_profile profile keys =
    if profile == ""
    then refused (message "error finding AWS Profile for the supplied AWS credential")
    else if keys.0 == "" && keys.1 == ""
    then refused (about "no credentials or STS fields found in profile " (match_profile ∷ []))
    else if keys.0 == ""
    then refused (message "error finding access key id for the supplied AWS credential")
    else if keys.1 == ""
    then refused (message "error finding secret access key for the supplied AWS credential")
    else parsed keys

-- The outer loop, with its variables.
unfoldable pub scan_profiles : String → List String → String → Keys → Parsed Keys
unfolding profile_of
scan_profiles match_profile [] profile keys = check_keys match_profile profile keys
scan_profiles match_profile (line ∷ []) profile keys =
    if line == ""
    then check_keys match_profile profile keys
    else if has_brackets line && profile_of line == match_profile
    then check_keys match_profile match_profile keys
    else check_keys match_profile profile keys
scan_profiles match_profile (line ∷ next ∷ rest) profile keys =
    let later = scan_profiles match_profile (next ∷ rest) in
    if line == ""
    then later profile keys
    else if has_brackets line && profile_of line == match_profile
    then (if has_sts_fields (next ∷ rest)
        then parsed ("", "")
        else (read_keys (next ∷ rest) keys >>= later match_profile))
    else later profile keys

unfoldable pub parse_aws_secret : Secret → String → String → Parsed Keys
unfolding scan_profiles check_keys read_keys has_sts_fields
parse_aws_secret secret key match_profile =
    scan_profiles match_profile
      (split b'\n' (elim (lookup key secret.content) [ none ↦ "" | some v ↦ v ])) "" ("", "")
