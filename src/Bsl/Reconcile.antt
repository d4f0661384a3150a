-- ===== src/Bsl/Reconcile.antt =====
-- ReconcileBackupStorageLocations (internal/controller/bsl.go) and UpdateBackupStorageLocation
-- (pkg/common/common.go): the storage locations of the DPA are created or patched, and those that
-- the operator made and the DPA no longer has are deleted.
use oadp_operator.Prelude.{
  ℕ, ◌+◌, String, Bool, true, false, ◌&&◌, List, [], ◌∷◌, Option, none, some, Dict, lookup, insert,
  index, length, nat_eq, contains, ◌==◌, ◌!=◌, if◌then◌else◌,
}
use oadp_operator.Prelude.Text.{append, decimal}
use oadp_operator.Api.{
  BslSpec, BackupLocation, CloudStorageLocation, CloudStorage, DataProtectionApplication,
  BackupStorageLocation,
}
use oadp_operator.Api.Methods.{oadp_operator_label}
use oadp_operator.Cluster.{
  Client, M, Operation, op_none, op_created, op_updated, op_other, message, ◌>>=◌, ◌>>◌, pure,
  raise, call, error_of, event, own,
}
use oadp_operator.Registry.{get_secret_name_and_key, get_secret_name_and_key_from_cloud_storage}
use oadp_operator.Bsl.Labels.{entries, update_credentials_secret_labels}
use oadp_operator.Bsl.Patch.{patch_secrets_for_bsl}

abbrev pub registry_deployment_label : String
registry_deployment_label = "openshift.io/oadp-registry"

-- `fmt.Sprintf("%s-%d", name, i+1)`, unless the location is named.
unfoldable pub location_name : String → ℕ → String → String
location_name dpa_name i name =
    if name != "" then name else append dpa_name (append "-" (decimal (i + 1)))

-- The two corrections of the config of an AWS location.
unfoldable pub correct_aws_config : Client → Dict → Dict
correct_aws_config c config = no_checksum (strip_ports config)
  where
    strip_ports : Dict → Dict
    strip_ports m = elim (lookup "s3Url" m) [
      | none ↦ m
      | some url ↦
          if url == ""
          then m
          else elim (c.strip_default_ports url) [ none ↦ m | some u ↦ insert "s3Url" u m ]
    ]

    no_checksum : Dict → Dict
    no_checksum m = elim (lookup "checksumAlgorithm" m) [
      | none ↦ insert "checksumAlgorithm" "" m
      | some v ↦ m
    ]

-- UpdateBackupStorageLocation
unfoldable pub update_backup_storage_location :
    Client → BackupStorageLocation → BslSpec → BackupStorageLocation
unfolding correct_aws_config
update_backup_storage_location c bsl spec = record bsl {
  meta = record (bsl.meta) {
    labels = some (
        insert registry_deployment_label (if no_account_key then "False" else "True")
          (entries bsl.meta.labels));
  };
  spec = record spec {
    config = elim spec.config [
      | none ↦ none
      | some m ↦ some (if spec.provider == "aws" then correct_aws_config c m else m)
    ];
  };
}
  where
    no_account_key : Bool
    no_account_key = elim spec.config [
      | none ↦ false
      | some m ↦ spec.provider == "azure" && index "storageAccountKeyEnvVar" (some m) == ""
    ]

-- The five labels of a storage location, assigned one by one.
unfoldable pub assign_labels : String → Dict → Dict
assign_labels name labels = insert oadp_operator_label "True" (
    insert "app.kubernetes.io/component" "bsl" (
      insert "app.kubernetes.io/managed-by" "oadp-operator" (
        insert "app.kubernetes.io/instance" name
          (insert "app.kubernetes.io/name" "oadp-operator-velero" labels))))

abbrev pub bsl_labels : Dict
bsl_labels =
    ("app.kubernetes.io/name", "oadp-operator-velero")
    ∷ ("app.kubernetes.io/managed-by", "oadp-operator")
    ∷ ("app.kubernetes.io/component", "bsl")
    ∷ []

-- bsl.Spec.Config with the shared config enabled where the bucket asks for it
unfoldable pub shared_config : CloudStorage → Option Dict → Option Dict
shared_config bucket config = elim bucket.enable_shared_config [
  | none ↦ config
  | some b ↦ if b then some (insert "enableSharedConfig" "true" (entries config)) else config
]

module _ (c : Client) (dpa : DataProtectionApplication) where
  unfoldable pub update_bsl_from_spec :
      BackupStorageLocation → BslSpec → M c.World BackupStorageLocation
  unfolding update_backup_storage_location assign_labels
  update_bsl_from_spec bsl spec = do
    meta ← own c dpa.name bsl.meta
    let updated = update_backup_storage_location c (record bsl { meta = meta }) spec
    pure (record updated {
      meta = record (updated.meta) {
        labels = some (assign_labels updated.meta.name (entries updated.meta.labels));
      };
    })

  unfoldable pub update_bsl_from_cloud_storage :
      BackupStorageLocation → CloudStorageLocation → M c.World BackupStorageLocation
  unfolding shared_config
  update_bsl_from_cloud_storage bsl location = do
    bucket ← call (c.get_cloud_storage dpa.namespace location.cloud_storage_ref)
    meta ← own c dpa.name bsl.meta
    if bucket.provider == "aws"
        then pure (record {
          meta = meta;
          spec = record {
            provider = "aws";
            config = shared_config bucket location.config;
            credential = location.credential;
            object_storage = some (record {
              bucket = bucket.name;
              prefix = location.prefix;
              ca_cert = location.ca_cert;
            });
            is_default = location.is_default;
            backup_sync_period = location.backup_sync_period;
          };
        })
        else if bucket.provider == "azure"
        then raise (message "azure provider not yet supported")
        else if bucket.provider == "gcp"
        then raise (message "gcp provider not yet supported")
        else raise (message "invalid provider")

  -- The function that CreateOrPatch is given.
  unfoldable pub update_bsl :
      BackupLocation → BackupStorageLocation → M c.World BackupStorageLocation
  unfolding update_bsl_from_spec update_bsl_from_cloud_storage
  update_bsl location bsl = elim location.velero [
    | some spec ↦ update_bsl_from_spec bsl spec
    | none ↦ elim location.cloud_storage [
      | none ↦ pure bsl
      | some s ↦ update_bsl_from_cloud_storage bsl s
    ]
  ]

  -- The name of the secret to label: the errors of the lookups are dropped, and that of the velero
  -- part is the last.
  unfoldable pub secret_to_label : BackupLocation → M c.World String
  secret_to_label location = from_cloud_storage >>= from_velero
    where
      from_cloud_storage : M c.World String
      from_cloud_storage = elim location.cloud_storage [
        | none ↦ pure ""
        | some s ↦ do found ← get_secret_name_and_key_from_cloud_storage c dpa s; pure found.0
      ]

      from_velero : String → M c.World String
      from_velero name = elim location.velero [
        | none ↦ pure name
        | some v ↦ do
          found ← get_secret_name_and_key c dpa v.config v.credential v.provider
          pure found.0
      ]

  -- The event after CreateOrPatch, where it has changed something.
  unfoldable pub event_if_changed : String → String → String → Operation → M c.World (Unit {0})
  event_if_changed kind name reason op_none = pure tt
  event_if_changed kind name reason op_created = event c kind name reason
  event_if_changed kind name reason op_updated = event c kind name reason
  event_if_changed kind name reason op_other = pure tt

  -- One round of the loop over the locations, at the index i.
  unfoldable pub reconcile_location : BackupLocation → ℕ → M c.World (Unit {0})
  unfolding location_name secret_to_label update_bsl event_if_changed
  reconcile_location location i = do
    secret_name ← secret_to_label location
    update_credentials_secret_labels c dpa secret_name dpa.name
    made ←
        c.create_or_patch_bsl dpa.namespace (location_name dpa.name i location.name)
          (update_bsl location)
    event_if_changed "BackupStorageLocation" made.1.meta.name "BackupStorageLocationReconciled"
        made.0
    if nat_eq i 0
        then (error_of (patch_secrets_for_bsl c dpa made.1.meta.namespace location) >> pure tt)
        else pure tt

  -- The loop, which collects the names.
  unfoldable pub reconcile_locations : List BackupLocation → ℕ → M c.World (List String)
  unfolding reconcile_location
  reconcile_locations [] i = pure []
  reconcile_locations (location ∷ rest) i = do
    reconcile_location location i
    names ← reconcile_locations rest (i + 1)
    pure (location_name dpa.name i location.name ∷ names)

  unfoldable pub delete_extra_bsls : List String → List BackupStorageLocation → M c.World (Unit {0})
  delete_extra_bsls names [] = pure tt
  delete_extra_bsls names (bsl ∷ rest) =
      (if contains names bsl.meta.name
        then pure tt
        else (call (c.delete_bsl bsl)
            >> event c "BackupStorageLocation" bsl.meta.name "BackupStorageLocationDeleted"))
      >> delete_extra_bsls names rest

  unfoldable pub reconcile_backup_storage_locations : M c.World Bool
  unfolding reconcile_locations delete_extra_bsls
  reconcile_backup_storage_locations = do
    names ← reconcile_locations dpa.backup_locations 0
    items ← call (c.list_bsls (some dpa.namespace) bsl_labels)
    (if nat_eq (length names) (length items) then pure tt else delete_extra_bsls names items)
    pure true
