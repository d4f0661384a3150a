-- ===== src/Bsl/Patch.antt =====
-- patchSecretsForBSL (internal/controller/bsl.go): a secret of the token service gets the region, or
-- the resource group, of the first backup location.
use oadp_operator.Prelude.{
  String, Bool, ◌&&◌, ◌||◌, not, Option, none, some, Dict, lookup, insert, index, ◌==◌, ◌!=◌,
  if◌then◌else◌,
}
use oadp_operator.Prelude.Text.{append, contains_text, has_prefix, has_suffix}
use oadp_operator.Api.{BslSpec, BackupLocation, CloudStorage, DataProtectionApplication, Secret}
use oadp_operator.Cluster.{Client, M, success, failure, ◌>>=◌, ◌>>◌, pure, call, attempt, value_of}
use oadp_operator.Registry.{get_secret_name_and_key, get_secret_name_and_key_from_cloud_storage}
use oadp_operator.Bsl.Aws.{get_bucket_region}

unfoldable pub is_aws_sts : String → Bool
is_aws_sts text = contains_text text "role_arn" && contains_text text "web_identity_token_file"

unfoldable pub has_region : String → Bool
has_region text = contains_text text "\nregion =" || has_prefix text "region ="

unfoldable pub add_region : String → String → String
add_region text region =
    if has_suffix text "\n"
    then append text (append "region = " region)
    else append text (append "\nregion = " region)

unfoldable pub is_azure_sts : String → Bool
is_azure_sts text =
    contains_text text "AZURE_CLIENT_ID" && not (contains_text text "AZURE_CLIENT_SECRET")

unfoldable pub has_resource_group : String → Bool
has_resource_group text = contains_text text "AZURE_RESOURCE_GROUP="

unfoldable pub add_resource_group : String → String → String
add_resource_group text group =
    append (if has_suffix text "\n" then text else append text "\n")
      (append "AZURE_RESOURCE_GROUP=" (append group "\n"))

-- bucket.Spec.Provider as a provider of locations; an unknown one is left empty.
unfoldable pub provider_of_bucket : CloudStorage → String
provider_of_bucket bucket =
    if bucket.provider == "aws"
    then "aws"
    else if bucket.provider == "azure"
    then "azure"
    else if bucket.provider == "gcp"
    then "gcp"
    else ""

module _ (c : Client) where
  -- The bucket of the location; a cloud storage that is not found leaves it empty.
  unfoldable pub bucket_of : Secret → BackupLocation → M c.World String
  bucket_of secret bsl = elim bsl.velero [
    | none ↦ from_cloud_storage
    | some v ↦ elim v.object_storage [ none ↦ from_cloud_storage | some o ↦ pure o.bucket ]
  ]
    where
      from_cloud_storage : M c.World String
      from_cloud_storage = elim bsl.cloud_storage [
        | none ↦ pure ""
        | some location ↦ do
          found ← attempt (c.get_cloud_storage secret.meta.namespace location.cloud_storage_ref)
          pure (elim found [ success b ↦ b.name | failure e ↦ "" ])
      ]

  unfoldable pub discover_region : String → M c.World String
  discover_region bucket =
      if bucket != "" && not (contains_text bucket "/")
      then (value_of (get_bucket_region c bucket) >>= λ found.
          pure (elim found [ none ↦ "" | some region ↦ region ]))
      else pure ""

  unfoldable pub region_of : Secret → BackupLocation → Option Dict → M c.World String
  unfolding bucket_of discover_region
  region_of secret bsl config =
      if index "region" config != ""
      then pure (index "region" config)
      else (bucket_of secret bsl >>= discover_region)

  unfoldable pub store_credentials : Secret → String → String → M c.World (Unit {0})
  store_credentials secret key text = do
    call (c.patch_secret secret (record secret { content = insert key text secret.content }))
    pure tt

  unfoldable pub patch_aws_secret_with_region :
      Secret → BackupLocation → Option Dict → M c.World (Unit {0})
  unfolding is_aws_sts has_region add_region region_of store_credentials
  patch_aws_secret_with_region secret bsl config = elim (lookup "credentials" secret.content) [
    | none ↦ pure tt
    | some text ↦
        if not (is_aws_sts text) || has_region text
        then pure tt
        else (region_of secret bsl config >>= λ region.
            if region == ""
            then pure tt
            else store_credentials secret "credentials" (add_region text region))
  ]

  unfoldable pub patch_azure_secret_with_resource_group :
      Secret → Option Dict → M c.World (Unit {0})
  unfolding is_azure_sts has_resource_group add_resource_group store_credentials
  patch_azure_secret_with_resource_group secret config = elim (lookup "azurekey" secret.content) [
    | none ↦ pure tt
    | some text ↦
        if not (is_azure_sts text)
          || (has_resource_group text || index "resourceGroup" config == "")
        then pure tt
        else store_credentials secret "azurekey"
            (add_resource_group text (index "resourceGroup" config))
  ]

module _ (c : Client) (dpa : DataProtectionApplication) where
  -- What the code finds out about the location: its provider, secret and config.
  unfoldable pub secret_source : String → BackupLocation → M c.World (String × String × Option Dict)
  unfolding provider_of_bucket
  secret_source namespace bsl = elim bsl.velero [
    | some v ↦ from_velero v
    | none ↦ elim bsl.cloud_storage [
      | none ↦ pure ("", "", none)
      | some location ↦ do
        bucket ← call (c.get_cloud_storage namespace location.cloud_storage_ref)
        found ← get_secret_name_and_key_from_cloud_storage c dpa location
        pure (provider_of_bucket bucket, found.0, location.config)
    ]
  ]
    where
      from_velero : BslSpec → M c.World (String × String × Option Dict)
      from_velero v = do
        found ← get_secret_name_and_key c dpa v.config v.credential v.provider
        pure (v.provider, found.0, v.config)

  -- `namespace` is that of the storage location.
  unfoldable pub patch_secrets_for_bsl : String → BackupLocation → M c.World (Unit {0})
  unfolding secret_source patch_aws_secret_with_region patch_azure_secret_with_resource_group
  patch_secrets_for_bsl namespace bsl = secret_source namespace bsl >>= patch
    where
      by_provider : String → Option Dict → Secret → M c.World (Unit {0})
      by_provider provider config secret =
          if provider == "aws"
          then patch_aws_secret_with_region c secret bsl config
          else if provider == "azure"
          then patch_azure_secret_with_resource_group c secret config
          else pure tt

      patch : String × String × Option Dict → M c.World (Unit {0})
      patch (provider, name, config) =
          if name == ""
          then pure tt
          else (call (c.get_secret namespace name) >>= by_provider provider config)
