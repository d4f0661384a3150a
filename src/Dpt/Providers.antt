-- ===== src/Dpt/Providers.antt =====
-- initializeProvider of dataprotectiontest_controller.go with the constructors of
-- pkg/cloudprovider.
use oadp_operator.Prelude.{
  String, ◌&&◌, ◌==◌, ◌!=◌, [], ◌∷◌, Option, none, some, Dict, lookup, index, find, if◌then◌else◌,
}
use oadp_operator.Prelude.Text.{append, contains_text}
use oadp_operator.Api.{BslSpec}
use oadp_operator.Cluster.{message, about, call, M, ◌>>=◌, ◌>>◌, pure, raise, crash}
use oadp_operator.Dpt.{
  Lab, Provider, aws_provider, gcp_provider, azure_provider, AzureAccount, TokenCredential,
  by_secret, by_certificate, by_default,
}
use oadp_operator.Dpt.Keys.{get_provider_data, parse_aws_keys}
use oadp_operator.Dpt.Vendor.{or_default}

unfoldable pub parse_azure_credentials : Dict → AzureAccount
parse_azure_credentials entries = record {
  subscription_id = index "AZURE_SUBSCRIPTION_ID" (some entries);
  tenant_id = index "AZURE_TENANT_ID" (some entries);
  client_id = index "AZURE_CLIENT_ID" (some entries);
  client_secret = index "AZURE_CLIENT_SECRET" (some entries);
  resource_group = index "AZURE_RESOURCE_GROUP" (some entries);
  account_name = index "AZURE_STORAGE_ACCOUNT_ID" (some entries);
  account_key = index "AZURE_STORAGE_ACCOUNT_ACCESS_KEY" (some entries);
  certificate_path = index "AZURE_CLIENT_CERTIFICATE_PATH" (some entries);
}

-- The credential of a token, where there is no account key.
unfoldable pub token_credential : AzureAccount → TokenCredential
token_credential creds =
    if creds.client_secret != ""
    then by_secret creds.tenant_id creds.client_id creds.client_secret
    else if creds.certificate_path != ""
    then by_certificate creds.tenant_id creds.client_id creds.certificate_path
    else by_default

abbrev pub service_url : AzureAccount → String
service_url creds = append "https://" (append creds.account_name ".blob.core.windows.net/")

-- An S3 URL of AWS itself is ignored.
unfoldable pub endpoint_of : Dict → String
endpoint_of config =
    let url = index "s3Url" (some config) in
    if url != "" && contains_text url "amazonaws.com" then "" else url

unfoldable pub profile_name : Option Dict → String
profile_name config = elim (find "profile" config) [ none ↦ "default" | some value ↦ value ]

-- The bucket of the object storage; it is empty where there is none.
unfoldable pub bucket_name : BslSpec → String
bucket_name spec = elim spec.object_storage [ none ↦ "" | some storage ↦ storage.bucket ]

module _ (c : Lab) where
  unfoldable pub new_aws_provider : String → String → String → String → M c.World Provider
  new_aws_provider region endpoint access_key secret_key =
      if c.is_aws_session_valid region endpoint
      then pure (aws_provider region endpoint access_key secret_key)
      else crash

  unfoldable pub new_gcp_provider : String → String → M c.World Provider
  new_gcp_provider bucket credentials =
      call (c.open_gcp bucket credentials) >> pure (gcp_provider bucket credentials)

  unfoldable pub new_azure_provider : AzureAccount → M c.World Provider
  unfolding token_credential
  new_azure_provider creds =
      if creds.account_key != ""
      then call (c.open_azure_shared_key creds.account_name creds.account_key)
        >> pure (azure_provider creds)
      else call (c.open_azure_credential (token_credential creds))
        >> call (c.open_azure_client (service_url creds) (token_credential creds))
        >> pure (azure_provider creds)

  unfoldable pub initialize_aws_provider : String → BslSpec → M c.World Provider
  unfolding get_provider_data new_aws_provider profile_name endpoint_of
  initialize_aws_provider namespace spec = elim spec.credential [
    | none ↦ raise (message "AWS credential is required but not specified")
    | some credential ↦ get_provider_data c credential.name namespace >>= λ entries.
        elim (parse_aws_keys (profile_name spec.config) (index credential.key (some entries))) [
          | none ↦ raise (message "failed to parse AWS secret")
          | some keys ↦ elim spec.config [
            | none ↦ raise (message "backupLocationSpec.Config is nil")
            | some config ↦
                new_aws_provider (or_default (index "region" (some config)) "us-east-1")
                  (endpoint_of config) keys.0 keys.1
          ]
        ]
  ]

  unfoldable pub initialize_gcp_provider : String → BslSpec → M c.World Provider
  unfolding get_provider_data new_gcp_provider bucket_name
  initialize_gcp_provider namespace spec = elim spec.credential [
    | none ↦ raise (message "GCP credential is required but not specified")
    | some credential ↦ get_provider_data c credential.name namespace >>= λ entries.
        elim (lookup credential.key entries) [
          | none ↦ raise (about "credential key not found" (credential.key ∷ credential.name ∷ []))
          | some credentials ↦
              if credentials == ""
              then raise (about "credentials JSON is empty" (credential.name ∷ []))
              else if bucket_name spec == ""
              then raise (message "bucket name is required for GCP provider")
              else new_gcp_provider (bucket_name spec) credentials
        ]
  ]

  unfoldable pub initialize_azure_provider : String → BslSpec → M c.World Provider
  unfolding get_provider_data parse_azure_credentials new_azure_provider
  initialize_azure_provider namespace spec = elim spec.credential [
    | none ↦ raise (message "Azure credential is required but not specified")
    | some credential ↦ get_provider_data c credential.name namespace >>= λ entries.
        new_azure_provider (parse_azure_credentials entries)
  ]

  unfoldable pub initialize_provider : String → BslSpec → M c.World Provider
  unfolding initialize_aws_provider initialize_gcp_provider initialize_azure_provider
  initialize_provider namespace spec =
      let name = c.to_lower spec.provider in
      if name == "aws"
      then initialize_aws_provider namespace spec
      else if name == "gcp"
      then initialize_gcp_provider namespace spec
      else if name == "azure"
      then initialize_azure_provider namespace spec
      else raise (about "unsupported cloud provider" (name ∷ []))
