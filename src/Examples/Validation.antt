-- ===== src/Examples/Validation.antt =====
-- The validation of the example.
use oadp_operator.Prelude.{ℕ, ◌*◌, ◌≡◌, refl, true, false, List, [], ◌∷◌, none, some, All, lookup}
use oadp_operator.Prelude.Int.{ℤ, pos}
use oadp_operator.Api.{NonAdmin, BackupStorageLocation, BackupLocation, DataProtectionApplication}
use oadp_operator.Cluster.{done, panic, State}
use oadp_operator.Bsl.Validate.{validate_backup_storage_locations}
use oadp_operator.Vsl.Validate.{validate_volume_snapshot_locations}
use oadp_operator.Vsl.Sound.{IsValidSnapshotLocation, validate_volume_snapshot_locations_sound}
use oadp_operator.Validator.Cr.{validate_data_protection_cr}
use oadp_operator.Validator.Sound.{IsValidDpa, validate_data_protection_cr_sound}
use oadp_operator.Validator.Plugins.{validate_velero_plugins}
use oadp_operator.Validator.PluginSound.{HasValidPlugins, validate_velero_plugins_sound}
use oadp_operator.Validator.NonAdmin.{validate_non_admin}
use oadp_operator.Validator.Periods.{IsValidNonAdmin, validate_non_admin_sound}
use oadp_operator.Validator.DefaultBsl.{first_default, is_managed, check_default_bsl}
use oadp_operator.Validator.Panic.{check_default_bsl_panics}
use oadp_operator.Examples.{memory, application, start, aws_spec, velero_config, meta_of}

validated : validate_data_protection_cr memory application start ≡ done true start
unfolding validate_data_protection_cr oadp_operator.Cluster.◌>>=◌
    oadp_operator.Validator.Cr.required_config oadp_operator.Validator.Cr.check_locations_given
    oadp_operator.Bsl.Validate.validate_backup_storage_locations
    oadp_operator.Bsl.Validate.validate_locations oadp_operator.Bsl.Validate.validate_location
    oadp_operator.Bsl.Secrets.ensure_backup_location_has_velero_or_cloud_storage
    oadp_operator.Bsl.Secrets.ensure_prefix_when_backup_images
    oadp_operator.Bsl.Secrets.ensure_secret_data_exists oadp_operator.Bsl.Secrets.unless_no_secret
    oadp_operator.Api.Methods.has_feature_flag oadp_operator.Registry.get_secret_name_and_key
    oadp_operator.Prelude.lookup oadp_operator.Registry.verify_secret_content
    oadp_operator.Registry.get_provider_secret oadp_operator.Prelude.Text.contains_text
    oadp_operator.Prelude.Text.has_prefix oadp_operator.Bsl.Secrets.parse_provider_secret
    oadp_operator.Registry.Aws.parse_aws_secret oadp_operator.Prelude.Text.split
    oadp_operator.Prelude.Text.has_brackets oadp_operator.Prelude.Text.remove_char
    oadp_operator.Prelude.Text.has_whole_word oadp_operator.Registry.KeyValue.get_matched_key_value
    oadp_operator.Prelude.Text.trim_prefix oadp_operator.Bsl.Validate.count_default
    oadp_operator.Bsl.Validate.validate_by_provider
    oadp_operator.Bsl.Validate.validate_aws_backup_storage_location
    oadp_operator.Bsl.Validate.validate_provider_plugin_and_secret
    oadp_operator.Vsl.Validate.validate_volume_snapshot_locations
    oadp_operator.Vsl.Validate.validate_snapshot_locations
    oadp_operator.Vsl.Validate.validate_snapshot_location
    oadp_operator.Vsl.Validate.validate_vsl_spec oadp_operator.Vsl.Validate.check_aws
    oadp_operator.Vsl.Validate.check_config oadp_operator.Vsl.Validate.check_keys
    oadp_operator.Vsl.Validate.is_valid_aws_key oadp_operator.Vsl.Validate.check_plugin
    oadp_operator.Vsl.Validate.contains_plugin oadp_operator.Credentials.fields_of
    oadp_operator.Vsl.Validate.check_gcp oadp_operator.Vsl.Validate.check_azure
    oadp_operator.Vsl.Validate.ensure_vsl_secret_data_exists
    oadp_operator.Vsl.Validate.check_vsl_credential oadp_operator.Vsl.Validate.verify_vsl_secret
    oadp_operator.Validator.Cr.validate_rest oadp_operator.Validator.NodeAgent.check_node_agent
    oadp_operator.Validator.Cr.check_upgrades oadp_operator.Validator.Cr.warn_restic
    oadp_operator.Validator.Cr.set_was_restic oadp_operator.Validator.Cr.check_operator_type
    oadp_operator.Validator.Credentials.default_to_false
    oadp_operator.Validator.Plugins.snapshot_secrets oadp_operator.Validator.Plugins.backup_secrets
    oadp_operator.Validator.Resources.get_velero_resource_reqs
    oadp_operator.Validator.Resources.get_node_agent_resource_reqs
    oadp_operator.Validator.Plugins.validate_velero_plugins
    oadp_operator.Validator.Credentials.no_default_credentials
    oadp_operator.Validator.Credentials.location_needs
    oadp_operator.Validator.Credentials.needs_of_location
    oadp_operator.Validator.Plugins.validate_plugins oadp_operator.Validator.Plugins.look_up_secrets
    oadp_operator.Validator.Plugins.needs_check oadp_operator.Validator.Credentials.snapshot_needs
    oadp_operator.Prelude.insert oadp_operator.Validator.Credentials.velero_needs
validated = refl

validate_data_protection_cr_sound_example : (true ≡ true) × IsValidDpa application
validate_data_protection_cr_sound_example =
    validate_data_protection_cr_sound memory application start start true validated

snapshots_validated : validate_volume_snapshot_locations memory application start ≡ done true start
unfolding validate_volume_snapshot_locations validate_non_admin oadp_operator.Cluster.◌>>=◌
    oadp_operator.Validator.NonAdmin.check_single_instance
    oadp_operator.Validator.NonAdmin.check_other_instances
    oadp_operator.Validator.NonAdmin.applied_period check_default_bsl first_default
    oadp_operator.Validator.Enforced.check_enforced_bsl
    oadp_operator.Vsl.Validate.validate_snapshot_locations
    oadp_operator.Vsl.Validate.validate_snapshot_location
    oadp_operator.Vsl.Validate.validate_vsl_spec oadp_operator.Vsl.Validate.check_aws lookup
    oadp_operator.Vsl.Validate.check_config oadp_operator.Vsl.Validate.check_keys
    oadp_operator.Vsl.Validate.is_valid_aws_key oadp_operator.Vsl.Validate.check_plugin
    oadp_operator.Bsl.Secrets.velero_of oadp_operator.Vsl.Validate.contains_plugin
    oadp_operator.Credentials.fields_of oadp_operator.Vsl.Validate.check_gcp
    oadp_operator.Vsl.Validate.check_azure oadp_operator.Vsl.Validate.ensure_vsl_secret_data_exists
    oadp_operator.Bsl.Secrets.unless_no_secret oadp_operator.Validator.Plugins.snapshot_secrets
    oadp_operator.Vsl.Validate.verify_vsl_secret oadp_operator.Registry.get_secret_name_and_key
    oadp_operator.Registry.verify_secret_content oadp_operator.Registry.get_provider_secret
    oadp_operator.Prelude.Text.contains_text oadp_operator.Prelude.Text.has_prefix
    oadp_operator.Api.Methods.has_feature_flag oadp_operator.Vsl.Validate.check_vsl_credential
snapshots_validated = refl

validate_volume_snapshot_locations_sound_example :
    (true ≡ true) × All (IsValidSnapshotLocation application) application.snapshot_locations
validate_volume_snapshot_locations_sound_example =
    validate_volume_snapshot_locations_sound memory application start start true snapshots_validated

plugins_validated : validate_velero_plugins memory application velero_config start ≡ done true start
unfolding validate_velero_plugins validate_non_admin oadp_operator.Cluster.◌>>=◌
    oadp_operator.Validator.NonAdmin.check_single_instance
    oadp_operator.Validator.NonAdmin.check_other_instances
    oadp_operator.Validator.NonAdmin.applied_period check_default_bsl first_default
    oadp_operator.Validator.Enforced.check_enforced_bsl
    oadp_operator.Validator.Credentials.no_default_credentials
    oadp_operator.Validator.Credentials.location_needs
    oadp_operator.Validator.Credentials.needs_of_location
    oadp_operator.Validator.Plugins.validate_plugins oadp_operator.Validator.Plugins.look_up_secrets
    oadp_operator.Validator.Plugins.needs_check oadp_operator.Credentials.plugin_specific_fields
    oadp_operator.Credentials.fields_of lookup oadp_operator.Validator.Credentials.snapshot_needs
    oadp_operator.Prelude.Text.trim_prefix oadp_operator.Prelude.insert
    oadp_operator.Validator.Credentials.velero_needs
    oadp_operator.Validator.Credentials.default_to_false oadp_operator.Api.Methods.has_feature_flag
    oadp_operator.Validator.Plugins.snapshot_secrets oadp_operator.Validator.Plugins.backup_secrets
    oadp_operator.Registry.get_provider_secret
plugins_validated = refl

validate_velero_plugins_sound_example : (true ≡ true) × HasValidPlugins velero_config
validate_velero_plugins_sound_example =
    validate_velero_plugins_sound memory application velero_config start start true
      plugins_validated

abbrev hour : ℕ → ℤ
hour n = pos (n * 3600000000000)

abbrev non_admin : NonAdmin
non_admin = record {
  enable = some true;
  enforce_backup_spec = none;
  enforce_restore_spec = none;
  enforced_bsl_sync_period = some (hour 1);
  garbage_collection_period = some (hour 24);
  backup_sync_period = some (hour 2);
}

non_admin_validated :
    validate_non_admin memory application velero_config non_admin start ≡ done tt start
unfolding validate_non_admin oadp_operator.Cluster.◌>>=◌
    oadp_operator.Validator.NonAdmin.check_single_instance
    oadp_operator.Validator.NonAdmin.check_other_instances
    oadp_operator.Validator.NonAdmin.applied_period check_default_bsl first_default
    oadp_operator.Validator.Enforced.check_enforced_bsl
non_admin_validated = refl

validate_non_admin_sound_example : IsValidNonAdmin non_admin
validate_non_admin_sound_example =
    validate_non_admin_sound memory application velero_config non_admin start start
      non_admin_validated

-- A location of the cluster that the operator manages, and the default one.
abbrev managed : BackupStorageLocation
managed = record {
  meta = record (meta_of "openshift-adp" "dpa-1") {
    labels = some (("app.kubernetes.io/managed-by", "oadp-operator") ∷ []);
  };
  spec = aws_spec;
}

abbrev bucket_location : BackupLocation
bucket_location = record {
  name = "";
  velero = none;
  cloud_storage = some (record {
    cloud_storage_ref = "bucket";
    config = none;
    credential = none;
    is_default = true;
    backup_sync_period = none;
    prefix = "velero";
    ca_cert = "";
  });
}

abbrev bucket_application : DataProtectionApplication
bucket_application = record application { backup_locations = bucket_location ∷ [] }

first_managed : first_default 0 (managed ∷ []) ≡ some (0, managed)
unfolding first_default
first_managed = refl

managed-is_managed : is_managed managed ≡ true
unfolding lookup
managed-is_managed = refl

check_default_bsl_panics_example :
    check_default_bsl memory bucket_application velero_config
      (hour 2)
      (record { world = managed ∷ []; was_restic = false })
    ≡ panic
check_default_bsl_panics_example =
    check_default_bsl_panics memory bucket_application velero_config (hour 2)
      (record { world = managed ∷ []; was_restic = false }) bucket_location [] (managed ∷ [])
      (managed ∷ []) 0 managed refl refl refl first_managed managed-is_managed
