-- ===== src/Bsl/Secrets.antt =====
-- The checks of one location before its provider is looked at.
use oadp_operator.Prelude.{
  String, Bool, false, ◌||◌, ◌&&◌, List, [], ◌∷◌, Option, none, some, is_some, is_none, find, ◌==◌,
  if◌then◌else◌,
}
use oadp_operator.Prelude.Text.{contains_text}
use oadp_operator.Api.{
  BslSpec, BackupLocation, CloudStorageLocation, DataProtectionApplication, VeleroConfig, Secret,
}
use oadp_operator.Api.Methods.{backup_images, has_feature_flag}
use oadp_operator.Cluster.{
  Client, M, Error, message, about, ◌>>=◌, ◌>>◌, pure, raise, raise_if, check, deref, call,
}
use oadp_operator.Registry.{
  get_provider_secret, get_secret_name_and_key, get_secret_name_and_key_from_cloud_storage,
}
use oadp_operator.Registry.KeyValue.{Parsed, parsed, refused}
use oadp_operator.Registry.Aws.{parse_aws_secret}
use oadp_operator.Registry.Azure.{parse_azure_secret}

module _ {W : Type 0} where
  -- dpa.Spec.Configuration.Velero
  unfoldable pub velero_of : DataProtectionApplication → M W VeleroConfig
  velero_of dpa = do configuration ← deref dpa.configuration; deref configuration.velero

  -- `if HasFeatureFlag("no-secret") { return nil }` in front of the rest of a function
  unfoldable pub unless_no_secret : DataProtectionApplication → M W (Unit {0}) → M W (Unit {0})
  unfolding velero_of
  unless_no_secret dpa rest =
      velero_of dpa >>= λ v. if has_feature_flag v "no-secret" then pure tt else rest

  unfoldable pub ensure_backup_location_has_velero_or_cloud_storage :
      BackupLocation → M W (Unit {0})
  ensure_backup_location_has_velero_or_cloud_storage bsl = do
    raise_if (is_none bsl.cloud_storage && is_none bsl.velero)
        (message "BackupLocation must have velero or bucket configuration")
    raise_if (is_some bsl.cloud_storage && is_some bsl.velero) (
        message
          "cannot have both backupstoragelocations and bucket provided for a single StorageLocation")

-- The two conditions of ensurePrefixWhenBackupImages.
abbrev pub lacks_velero_prefix : BackupLocation → Bool
lacks_velero_prefix bsl = elim bsl.velero [
  | none ↦ false
  | some v ↦ elim v.object_storage [ none ↦ false | some o ↦ o.prefix == "" ]
]

abbrev pub lacks_cloud_storage_prefix : BackupLocation → Bool
lacks_cloud_storage_prefix bsl = elim bsl.cloud_storage [ none ↦ false | some s ↦ s.prefix == "" ]

unfoldable pub ensure_prefix_when_backup_images :
    {W : Type 0} → DataProtectionApplication → BackupLocation → M W (Unit {0})
ensure_prefix_when_backup_images dpa bsl = do
  raise_if (lacks_velero_prefix bsl && backup_images dpa)
      (message "BackupLocation must have velero prefix when backupImages is not set to false")
  raise_if (lacks_cloud_storage_prefix bsl && backup_images dpa) (
      message "BackupLocation must have cloud storage prefix when backupImages is not set to false")

-- The profile in a location's config, "default" if there is none.
abbrev pub profile_in : Option (List (String × String)) → String
profile_in config = elim (find "profile" config) [ none ↦ "default" | some p ↦ p ]

error_in : {A : Type 0} → String → String → Parsed A → Option Error
error_in text name r = elim r [ parsed a ↦ none | refused e ↦ some (about text (name ∷ [])) ]

-- The switch at the end of ensureSecretDataExists.
unfoldable pub parse_provider_secret :
    {W : Type 0} → String → String → String → String → Secret → M W (Unit {0})
unfolding error_in
parse_provider_secret provider name key profile secret =
    if provider == "aws" || contains_text provider "aws"
    then check
        (error_in "error parsing AWS secret %s: %v" name (parse_aws_secret secret key profile))
    else if provider == "azure" || contains_text provider "azure"
    then check (error_in "error parsing Azure secret %s: %v" name (parse_azure_secret secret key))
    else pure tt

module _ (c : Client) (dpa : DataProtectionApplication) where
  -- The provider of a CloudStorage; an empty reference is not looked up.
  unfoldable pub provider_of_cloud_storage : String → M c.World String
  provider_of_cloud_storage name =
      if name == ""
      then pure ""
      else (do bucket ← call (c.get_cloud_storage dpa.namespace name); pure bucket.provider)

  unfoldable pub check_secret : String → String → String → String → M c.World (Unit {0})
  check_secret provider name key profile = do
    secret ← get_provider_secret c dpa name
    if backup_images dpa then parse_provider_secret provider name key profile secret else pure tt

  unfoldable pub ensure_cloud_storage_credential : CloudStorageLocation → M c.World (Unit {0})
  ensure_cloud_storage_credential location = elim location.credential [
    | none ↦ raise (message "must provide a valid credential secret")
    | some credential ↦ do
      raise_if (credential.name == "") (message "must provide a valid credential secret name")
      raise_if (credential.key == "") (message "must provide a valid credential secret key")
  ]

  unfoldable pub cloud_storage_secret : CloudStorageLocation → M c.World (Unit {0})
  unfolding provider_of_cloud_storage check_secret
  cloud_storage_secret location = do
    ensure_cloud_storage_credential location
    found ← get_secret_name_and_key_from_cloud_storage c dpa location
    check found.2
    provider ← provider_of_cloud_storage location.cloud_storage_ref
    check_secret provider found.0 found.1 (profile_in location.config)

  unfoldable pub velero_secret : BslSpec → M c.World (Unit {0})
  unfolding check_secret
  velero_secret spec = do
    found ← get_secret_name_and_key c dpa spec.config spec.credential spec.provider
    check found.2
    check_secret spec.provider found.0 found.1 (profile_in spec.config)

  unfoldable pub ensure_secret_data_exists : BackupLocation → M c.World (Unit {0})
  unfolding cloud_storage_secret velero_secret
  ensure_secret_data_exists bsl = unless_no_secret dpa (elim bsl.cloud_storage [
    | some location ↦ cloud_storage_secret location
    | none ↦ elim bsl.velero [
      | some spec ↦ velero_secret spec
      | none ↦ check_secret "" "" "" "default"
    ]
  ])
