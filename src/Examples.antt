-- ===== src/Examples.antt =====
-- A cluster in memory and a DataProtectionApplication, on which the theorems are tried.
mod Storages
mod Maps
mod Deployments
mod Trials
mod Validation
mod Reconciliation
mod Registries
mod Merging
mod Secrets
mod Values
use oadp_operator.Prelude.{
  ℕ, ◌≡◌, refl, ap, sym, ◌∙◌, inl, inr, String, Bool, true, false, not, List, [], ◌∷◌, Option, none,
  some, Dict, map, filter, Bool-cases, ◌==◌, ◌!=◌, if◌then◌else◌,
}
use oadp_operator.Prelude.Int.{ℤ, pos}
use oadp_operator.Api.{
  Credential, BslSpec, VslSpec, BackupLocation, SnapshotLocation, CloudStorage, ObjectMeta, Secret,
  BackupStorageLocation, VolumeSnapshotLocation, DataProtectionApplication, ApplicationConfig,
  VeleroConfig, ObjectStorage,
}
use oadp_operator.Cluster.{
  Client, State, Reply, ok, Outcome, done, fail, panic, M, Operation, op_created, op_none,
  not_found, err,
}

-- The world is the list of the backup storage locations.
abbrev pub Locations : Type 0
Locations = List BackupStorageLocation

abbrev pub meta_of : String → String → ObjectMeta
meta_of namespace name = record { name = name; namespace = namespace; labels = none; owner = none }

abbrev pub secret_of : String → String → Secret
secret_of namespace name = record {
  meta = meta_of namespace name;
  content = ("cloud", "[default]\naws_access_key_id=access\naws_secret_access_key=hidden") ∷ [];
}

abbrev pub empty_spec : BslSpec
empty_spec = record {
  provider = "";
  config = none;
  credential = none;
  object_storage = none;
  is_default = false;
  backup_sync_period = none;
}

abbrev pub add_location :
    Outcome Locations BackupStorageLocation → Outcome Locations (Operation × BackupStorageLocation)
add_location o = elim o [
  | done b t ↦ done (op_created, b) (record t { world = b ∷ t.world })
  | fail e t ↦ fail e t
  | panic ↦ panic
]

abbrev pub other_locations : BackupStorageLocation → Locations → Locations
other_locations b w = filter (λ x. x.meta.name != b.meta.name) w

abbrev pub memory : Client
memory = record {
  World = Locations;
  get_secret = λ namespace name w. ok (secret_of namespace name) w;
  patch_secret = λ before after w. ok after w;
  get_cloud_storage = λ namespace name w. err not_found w;
  create_or_patch_bsl = λ namespace name f s.
      add_location (f (record { meta = meta_of namespace name; spec = empty_spec }) s);
  create_or_patch_vsl = λ namespace name f s. panic;
  create_or_patch_secret = λ secret f s. panic;
  list_bsls = λ namespace labels w. ok w w;
  list_vsls = λ namespace labels w. ok [] w;
  list_dpas = λ namespace w. ok [] w;
  delete_bsl = λ b w. ok tt (other_locations b w);
  delete_vsl = λ b w. ok tt w;
  get_object = λ kind namespace name w. err not_found w;
  delete_object = λ kind namespace name w. ok tt w;
  record_event = λ kind name reason w. w;
  set_controller_reference = λ owner meta. some (record meta { owner = some owner });
  bucket_region = λ bucket w. ok ("us-east-1", none) w;
  quantity_error = λ text. none;
  is_zero_quantity = λ text. false;
  strip_default_ports = λ url. some url;
}

abbrev pub start : State Locations
start = record { world = []; was_restic = false }

abbrev pub aws_spec : BslSpec
aws_spec = record {
  provider = "aws";
  config = some (("region", "us-east-1") ∷ []);
  credential = some (record { name = "cloud-credentials"; key = "cloud" });
  object_storage = some (record { bucket = "backups"; prefix = "velero"; ca_cert = "" });
  is_default = true;
  backup_sync_period = none;
}

abbrev pub aws_location : BackupLocation
aws_location = record { name = ""; velero = some aws_spec; cloud_storage = none }

abbrev pub aws_snapshots : VslSpec
aws_snapshots = record {
  provider = "aws";
  config = some (("region", "us-east-1") ∷ []);
  credential = none;
}

abbrev pub velero_config : VeleroConfig
velero_config = record {
  feature_flags = [];
  default_plugins = "openshift" ∷ "aws" ∷ [];
  restore_resources_version_priority = "";
  no_default_backup_location = false;
  args = none;
  resource_allocations = none;
}

abbrev pub application : DataProtectionApplication
application = record {
  name = "dpa";
  namespace = "openshift-adp";
  backup_locations = aws_location ∷ [];
  snapshot_locations = record { name = ""; velero = some aws_snapshots } ∷ [];
  unsupported_overrides = none;
  backup_images = none;
  configuration =
      some (record { velero = some velero_config; has_restic = false; node_agent = none });
  has_data_mover = false;
  non_admin = none;
}
