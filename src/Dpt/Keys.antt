-- ===== src/Dpt/Keys.antt =====
-- pkg/utils/credentials.go: the secret of a provider and the AWS keys in it. The lines of the
-- secret are a list; `rest` is `lines[i+1:]`. getMatchedKeyValue is that of registry.go, with its
-- error dropped.
use oadp_operator.Prelude.{
  String, ◌&&◌, ◌||◌, ◌==◌, ◌!=◌, List, [], ◌∷◌, Option, none, some, Dict, lookup, if◌then◌else◌,
}
use oadp_operator.Prelude.Text.{split, trim_space, trim_brackets, has_brackets, has_whole_word}
use oadp_operator.Cluster.{about, call, M, ◌>>=◌, pure, raise}
use oadp_operator.Registry.{replace_carriage_return}
use oadp_operator.Registry.KeyValue.{bare_value}
use oadp_operator.Dpt.{Lab}

-- The access key and the secret key.
abbrev pub Pair : Type 0
Pair = String × String

-- The loop over the lines of the profile; another line ends it.
unfoldable pub read_pair : List String → Pair → Pair
read_pair [] keys = keys
read_pair (line ∷ rest) keys =
    let later = read_pair rest in
    if trim_space line == ""
    then later keys
    else if has_whole_word line "aws_access_key_id"
    then later (bare_value "aws_access_key_id" line, keys.1)
    else if has_whole_word line "aws_secret_access_key"
    then later (keys.0, bare_value "aws_secret_access_key" line)
    else keys

-- The loop over the lines: the keys of the first profile of that name, if there is one.
unfoldable pub find_pair : String → List String → Option Pair
unfolding read_pair
find_pair profile [] = none
find_pair profile (line ∷ rest) =
    let later = find_pair profile rest in
    if trim_space line != ""
      && has_brackets (trim_space line)
      && trim_brackets (trim_space line) == profile
    then some (read_pair rest ("", ""))
    else later

-- What is checked behind the loop.
unfoldable pub checked_pair : String → Option Pair → Option Pair
checked_pair profile none = none
checked_pair profile (some keys) =
    if profile == "" || keys.0 == "" || keys.1 == "" then none else some keys

-- ParseAWSSecret of the text under the key; `none` is its error.
unfoldable pub parse_aws_keys : String → String → Option Pair
unfolding find_pair checked_pair
parse_aws_keys profile text = checked_pair profile (find_pair profile (split 10 text))

-- GetSecretField
unfoldable pub get_secret_field : Option Dict → String → Option String
get_secret_field none field = none
get_secret_field (some entries) field = lookup field entries

module _ (c : Lab) where
  -- GetProviderSecret: its Data.
  unfoldable pub get_provider_data : String → String → M c.World Dict
  get_provider_data name namespace = call (c.get_provider_data namespace name) >>= λ entries.
      elim entries [
        | none ↦ raise (about "secret has no data" (name ∷ []))
        | some data_of ↦ pure (replace_carriage_return data_of)
      ]
