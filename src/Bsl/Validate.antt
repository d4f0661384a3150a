-- ===== src/Bsl/Validate.antt =====
-- ValidateBackupStorageLocations and the checks of each provider.
use oadp_operator.Prelude.{
  ℕ, ◌+◌, String, Bool, true, ◌||◌, ◌&&◌, not, List, [], ◌∷◌, Option, none, some, index, ltb,
  nat_eq, ◌==◌, ◌!=◌, if◌then◌else◌,
}
use oadp_operator.Api.{BslSpec, BackupLocation, DataProtectionApplication, ObjectStorage}
use oadp_operator.Api.Methods.{backup_images}
use oadp_operator.Cluster.{Client, M, message, ◌>>=◌, ◌>>◌, pure, raise, raise_if}
use oadp_operator.Registry.{get_provider_secret, get_secret_name_and_key}
use oadp_operator.Bsl.Aws.{bucket_region_is_discoverable}
use oadp_operator.Bsl.Secrets.{
  velero_of, unless_no_secret, ensure_backup_location_has_velero_or_cloud_storage,
  ensure_prefix_when_backup_images, ensure_secret_data_exists,
}

-- `storage == nil`, and `len(storage.Bucket) == 0`
unfoldable pub storage_with_bucket :
    {W : Type 0} → Option ObjectStorage → String → String → M W ObjectStorage
storage_with_bucket storage no_storage no_bucket = elim storage [
  | none ↦ raise (message no_storage)
  | some o ↦ (raise_if (o.bucket == "") (message no_bucket) >> pure o)
]

module _ (c : Client) (dpa : DataProtectionApplication) where
  -- A missing plugin is only logged.
  unfoldable pub validate_provider_plugin_and_secret : BslSpec → M c.World (Unit {0})
  validate_provider_plugin_and_secret spec = unless_no_secret dpa (do
    found ← get_secret_name_and_key c dpa spec.config spec.credential spec.provider
    secret ← get_provider_secret c dpa found.0
    pure tt)

  -- The region must be set if it cannot be found; the bucket is asked last.
  unfoldable pub check_region : BslSpec → String → M c.World (Unit {0})
  check_region spec bucket =
      let no_region =
        message
          "region for AWS backupstoragelocation not automatically discoverable. Please set the region in the backupstoragelocation config" in
      if index "region" spec.config != ""
      then pure tt
      else if index "s3ForcePathStyle" spec.config == "true"
      then raise no_region
      else do
        discoverable ← bucket_region_is_discoverable c bucket
        raise_if (not discoverable) no_region

  unfoldable pub validate_aws_backup_storage_location : BslSpec → M c.World (Unit {0})
  unfolding storage_with_bucket check_region
  validate_aws_backup_storage_location spec = do
    validate_provider_plugin_and_secret spec
    storage ←
        storage_with_bucket spec.object_storage
          "object storage configuration for AWS backupstoragelocation cannot be nil"
          "bucket name for AWS backupstoragelocation cannot be empty"
    raise_if (storage.prefix == "" && backup_images dpa) (
        message
          "prefix for AWS backupstoragelocation object storage cannot be empty. It is required for backing up images")
    check_region spec storage.bucket

  unfoldable pub validate_azure_backup_storage_location : BslSpec → M c.World (Unit {0})
  unfolding storage_with_bucket
  validate_azure_backup_storage_location spec = do
    validate_provider_plugin_and_secret spec
    storage ←
        storage_with_bucket spec.object_storage
          "object storage configuration for Azure backupstoragelocation cannot be nil"
          "bucket name for Azure backupstoragelocation cannot be empty"
    raise_if (index "resourceGroup" spec.config == "")
        (message "resourceGroup for Azure backupstoragelocation config cannot be empty")
    raise_if (index "storageAccount" spec.config == "")
        (message "storageAccount for Azure backupstoragelocation config cannot be empty")
    raise_if (storage.prefix == "" && backup_images dpa) (
        message
          "prefix for Azure backupstoragelocation object storage cannot be empty. it is required for backing up images")

  unfoldable pub validate_gcp_backup_storage_location : BslSpec → M c.World (Unit {0})
  unfolding storage_with_bucket
  validate_gcp_backup_storage_location spec = do
    validate_provider_plugin_and_secret spec
    storage ←
        storage_with_bucket spec.object_storage
          "object storage configuration for GCP backupstoragelocation cannot be nil"
          "bucket name for GCP backupstoragelocation cannot be empty"
    raise_if (storage.prefix == "" && backup_images dpa) (
        message
          "prefix for GCP backupstoragelocation object storage cannot be empty. it is required for backing up images")

  -- The switch on the provider.
  unfoldable pub validate_by_provider : BslSpec → M c.World (Unit {0})
  validate_by_provider spec =
      if spec.provider == "aws" || spec.provider == "velero.io/aws"
      then validate_aws_backup_storage_location spec
      else if spec.provider == "azure" || spec.provider == "velero.io/azure"
      then validate_azure_backup_storage_location spec
      else if spec.provider == "gcp" || spec.provider == "velero.io/gcp"
      then validate_gcp_backup_storage_location spec
      else raise (message "invalid provider")

  -- The number of default locations, after a location with this name and flag.
  unfoldable pub count_default : Bool → String → ℕ → M c.World ℕ
  count_default is_default name n =
      if is_default
      then pure (n + 1)
      else if name == "default"
      then raise (message "Storage location named 'default' must be set as default")
      else pure n

  unfoldable pub count_velero : BackupLocation → ℕ → M c.World ℕ
  count_velero bsl n = elim bsl.velero [
    | none ↦ pure n
    | some spec ↦ do
      m ← count_default spec.is_default bsl.name n
      raise_if (spec.provider == "")
          (message "no provider specified for one of the backupstoragelocations configured")
      validate_by_provider spec
      pure m
  ]

  unfoldable pub count_cloud_storage : BackupLocation → ℕ → M c.World ℕ
  count_cloud_storage bsl n = elim bsl.cloud_storage [
    | none ↦ pure n
    | some location ↦ count_default location.is_default bsl.name n
  ]

  -- The body of the loop, with `numDefaultLocations`.
  unfoldable pub validate_location : BackupLocation → ℕ → M c.World ℕ
  unfolding count_velero count_cloud_storage
  validate_location bsl n = do
    ensure_backup_location_has_velero_or_cloud_storage bsl
    ensure_prefix_when_backup_images dpa bsl
    ensure_secret_data_exists c dpa bsl
    m ← count_velero bsl n
    count_cloud_storage bsl m

  unfoldable pub validate_locations : List BackupLocation → ℕ → M c.World ℕ
  validate_locations [] n = pure n
  validate_locations (bsl ∷ rest) n = do m ← validate_location bsl n; validate_locations rest m

  -- NoDefaultBackupLocation is read only if there is no default location.
  unfoldable pub no_default_allowed : ℕ → M c.World Bool
  no_default_allowed defaults =
      if nat_eq defaults 0
      then (velero_of dpa >>= λ v. pure v.no_default_backup_location)
      else pure true

  unfoldable pub validate_backup_storage_locations : M c.World Bool
  unfolding no_default_allowed
  validate_backup_storage_locations = do
    defaults ← validate_locations dpa.backup_locations 0
    raise_if (ltb 1 defaults) (message "Only one Storage Location be set as default")
    allowed ← no_default_allowed defaults
    raise_if (not allowed) (
        message
          "no default backupstoragelocations configured, ensure that one backupstoragelocation has been configured as the default location")
    pure true
