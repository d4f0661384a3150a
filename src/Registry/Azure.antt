-- ===== src/Registry/Azure.antt =====
-- parseAzureSecret of registry.go.
use oadp_operator.Prelude.{String, List, [], ◌∷◌, none, some, lookup, ◌==◌, if◌then◌else◌}
use oadp_operator.Prelude.Text.{split, has_brackets, has_whole_word}
use oadp_operator.Api.{Secret}
use oadp_operator.Registry.KeyValue.{Parsed, parsed, ◌>>=◌, get_matched_key_value}

pub record AzureCredentials : Type 0 where
  pub subscription_id : String
  pub tenant_id : String
  pub client_id : String
  pub client_secret : String
  pub resource_group : String
  pub storage_account_key : String

abbrev pub no_credentials : AzureCredentials
no_credentials = record {
  subscription_id = "";
  tenant_id = "";
  client_id = "";
  client_secret = "";
  resource_group = "";
  storage_account_key = "";
}

-- The switch on one line.
unfoldable pub read_field : String → AzureCredentials → Parsed AzureCredentials
read_field line creds =
    if has_whole_word line "AZURE_STORAGE_ACCOUNT_ACCESS_KEY"
    then (get_matched_key_value "AZURE_STORAGE_ACCOUNT_ACCESS_KEY" line >>= λ v.
        parsed (record creds { storage_account_key = v }))
    else if has_whole_word line "AZURE_SUBSCRIPTION_ID"
    then (get_matched_key_value "AZURE_SUBSCRIPTION_ID" line >>= λ v.
        parsed (record creds { subscription_id = v }))
    else if has_whole_word line "AZURE_CLIENT_ID"
    then (get_matched_key_value "AZURE_CLIENT_ID" line >>= λ v.
        parsed (record creds { client_id = v }))
    else if has_whole_word line "AZURE_CLIENT_SECRET"
    then (get_matched_key_value "AZURE_CLIENT_SECRET" line >>= λ v.
        parsed (record creds { client_secret = v }))
    else if has_whole_word line "AZURE_RESOURCE_GROUP"
    then (get_matched_key_value "AZURE_RESOURCE_GROUP" line >>= λ v.
        parsed (record creds { resource_group = v }))
    else if has_whole_word line "AZURE_TENANT_ID"
    then (get_matched_key_value "AZURE_TENANT_ID" line >>= λ v.
        parsed (record creds { tenant_id = v }))
    else parsed creds

unfoldable pub read_fields : List String → AzureCredentials → Parsed AzureCredentials
read_fields [] creds = parsed creds
read_fields (line ∷ rest) creds =
    let later = read_fields rest in
    if line == ""
    then later creds
    else if has_brackets line
    then later creds
    else (read_field line creds >>= later)

unfoldable pub parse_azure_secret : Secret → String → Parsed AzureCredentials
unfolding read_fields read_field
parse_azure_secret secret key =
    read_fields (split b'\n' (elim (lookup key secret.content) [ none ↦ "" | some v ↦ v ]))
      no_credentials
