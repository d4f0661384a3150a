-- ===== src/Api.antt =====
-- The custom resources of api/v1alpha1 with the fields that the modelled code reads, and the
-- Kubernetes and Velero objects that they refer to. A pointer, and a map or slice that the code
-- compares with nil, is an `Option`.
pub mod Methods
pub mod Correct
use oadp_operator.Prelude.{String, Bool, List, Option, Dict}
use oadp_operator.Prelude.Int.{ℤ}

-- corev1.SecretKeySelector
pub record Credential : Type 0 where
  pub name : String
  pub key : String

-- velerov1.ObjectStorageLocation
pub record ObjectStorage : Type 0 where
  pub bucket : String
  pub prefix : String
  pub ca_cert : String

-- velerov1.BackupStorageLocationSpec
pub record BslSpec : Type 0 where
  pub provider : String
  pub config : Option Dict
  pub credential : Option Credential
  pub object_storage : Option ObjectStorage
  pub is_default : Bool
  pub backup_sync_period : Option ℤ

-- velerov1.VolumeSnapshotLocationSpec
pub record VslSpec : Type 0 where
  pub provider : String
  pub config : Option Dict
  pub credential : Option Credential

-- `cloud_storage_ref` is the name in CloudStorageRef.
pub record CloudStorageLocation : Type 0 where
  pub cloud_storage_ref : String
  pub config : Option Dict
  pub credential : Option Credential
  pub is_default : Bool
  pub backup_sync_period : Option ℤ
  pub prefix : String
  pub ca_cert : String

pub record BackupLocation : Type 0 where
  pub name : String
  pub velero : Option BslSpec
  pub cloud_storage : Option CloudStorageLocation

pub record SnapshotLocation : Type 0 where
  pub name : String
  pub velero : Option VslSpec

-- The fields of VeleroServerArgs that the operator itself reads or corrects.
pub record VeleroServerArgs : Type 0 where
  pub backup_sync_period : Option ℤ
  pub pod_volume_operation_timeout : Option ℤ
  pub restore_resource_priorities : String

-- corev1.ResourceList: the three quantities that the operator reads, as texts.
pub record ResourceList : Type 0 where
  pub cpu : Option String
  pub memory : Option String
  pub ephemeral_storage : Option String

-- corev1.ResourceRequirements
pub record ResourceRequirements : Type 0 where
  pub requests : Option ResourceList
  pub limits : Option ResourceList

-- `resource_allocations` is PodConfig.ResourceAllocations, `none` where PodConfig is nil.
pub record VeleroConfig : Type 0 where
  pub feature_flags : List String
  pub default_plugins : List String
  pub restore_resources_version_priority : String
  pub no_default_backup_location : Bool
  pub args : Option VeleroServerArgs
  pub resource_allocations : Option ResourceRequirements

-- metav1.LabelSelector; of the expressions only their presence is read.
pub record LabelSelector : Type 0 where
  pub match_labels : Option Dict
  pub has_match_expressions : Bool

-- PodConfig, with its `nodeSelector` map
pub record PodConfig : Type 0 where
  pub node_selector : Option Dict
  pub resource_allocations : ResourceRequirements

-- NodeAgentConfig; each LoadAffinity is its selector.
pub record NodeAgentConfig : Type 0 where
  pub uploader_type : String
  pub timeout : String
  pub pod_config : Option PodConfig
  pub load_affinity_config : Option (List LabelSelector)

-- Of the deprecated `restic` object only its presence is read.
pub record ApplicationConfig : Type 0 where
  pub velero : Option VeleroConfig
  pub has_restic : Bool
  pub node_agent : Option NodeAgentConfig

-- velerov1.BackupSpec, as far as an administrator may try to enforce it
pub record BackupSpec : Type 0 where
  pub storage_location : String
  pub volume_snapshot_locations : Option (List String)
  pub included_namespaces : Option (List String)
  pub excluded_namespaces : Option (List String)
  pub include_cluster_resources : Option Bool
  pub included_cluster_scoped_resources : List String

-- velerov1.RestoreSpec, as far as an administrator may try to enforce it
pub record RestoreSpec : Type 0 where
  pub schedule_name : String
  pub included_namespaces : Option (List String)
  pub excluded_namespaces : Option (List String)
  pub namespace_mapping : Option Dict

-- `enforced_bsl_sync_period` is EnforceBSLSpec.BackupSyncPeriod, `none` where either pointer is nil.
pub record NonAdmin : Type 0 where
  pub enable : Option Bool
  pub enforce_backup_spec : Option BackupSpec
  pub enforce_restore_spec : Option RestoreSpec
  pub enforced_bsl_sync_period : Option ℤ
  pub garbage_collection_period : Option ℤ
  pub backup_sync_period : Option ℤ

-- `has_data_mover` says that `spec.features.dataMover` is set.
pub record DataProtectionApplication : Type 0 where
  pub name : String
  pub namespace : String
  pub backup_locations : List BackupLocation
  pub snapshot_locations : List SnapshotLocation
  pub unsupported_overrides : Option Dict
  pub backup_images : Option Bool
  pub configuration : Option ApplicationConfig
  pub has_data_mover : Bool
  pub non_admin : Option NonAdmin

pub record CloudStorage : Type 0 where
  pub name : String
  pub provider : String
  pub enable_shared_config : Option Bool

-- The metadata of an object; `owner` is its controller reference.
pub record ObjectMeta : Type 0 where
  pub name : String
  pub namespace : String
  pub labels : Option Dict
  pub owner : Option String

pub record Secret : Type 0 where
  pub meta : ObjectMeta
  pub content : Dict

pub record BackupStorageLocation : Type 0 where
  pub meta : ObjectMeta
  pub spec : BslSpec

pub record VolumeSnapshotLocation : Type 0 where
  pub meta : ObjectMeta
  pub spec : VslSpec
