-- ===== src/Examples/Values.antt =====
-- The theorems on texts, labels, flags and batches at examples.
use oadp_operator.Prelude.{
  ℕ, ◌≡◌, ◌≢◌, ◌⊎◌, ◌↔◌, refl, String, Bool, true, false, ◌&&◌, ◌||◌, List, [], ◌∷◌, ◌++◌, Option,
  none, some, Dict, find, lookup, contains, arith, eq_iff, ◌==◌, ◌!=◌, if◌then◌else◌,
}
use oadp_operator.Api.{Secret, VeleroConfig}
use oadp_operator.Api.Methods.{oadp_operator_label}
use oadp_operator.Api.Correct.{Velero, has_csi_plugin, correct_velero}
use oadp_operator.Api.Correct.Laws.{HasNoDuplicates, correct_velero_sound}
use oadp_operator.Cluster.{M, State, done, fail, panic, pure, crash}
use oadp_operator.Registry.KeyValue.{parsed}
use oadp_operator.Registry.Aws.{Keys, parse_aws_secret}
use oadp_operator.Registry.Aws.Laws.{HasProfile, HasStsProfile, lines_of, parse_aws_secret_sound}
use oadp_operator.Bsl.Labels.{dpa_label, with_labels, needs_patch}
use oadp_operator.Bsl.Labelled.{with_labels_sound}
use oadp_operator.Bsl.Patch.{
  add_region, add_resource_group, patch_aws_secret_with_region,
  patch_azure_secret_with_resource_group,
}
use oadp_operator.Bsl.PatchOnce.{patch_aws_secret_once, patch_azure_secret_once}
use oadp_operator.Batch.{reconcile_batch}
use oadp_operator.Batch.Laws.{
  PassesAll, StopsAt, reconcile_batch_outcome, reconcile_batch-IsValidDpa,
}
use oadp_operator.Validator.Cr.{validate_data_protection_cr}
use oadp_operator.Validator.Sound.{IsValidDpa}
use oadp_operator.Examples.{
  Locations, memory, application, start, aws_location, velero_config, secret_of,
}

abbrev cloud_secret : Secret
cloud_secret = secret_of "openshift-adp" "cloud-credentials"

abbrev access : String
access = "access"

abbrev hidden : String
hidden = "hidden"

abbrev found : Keys
found = (access, hidden)

aws_secret_parses : parse_aws_secret cloud_secret "cloud" "default" ≡ parsed ("access", "hidden")
unfolding parse_aws_secret oadp_operator.Prelude.Text.split lookup
    oadp_operator.Prelude.Text.has_brackets oadp_operator.Prelude.Text.remove_char
    oadp_operator.Prelude.Text.has_whole_word oadp_operator.Registry.KeyValue.get_matched_key_value
    oadp_operator.Prelude.Text.trim_prefix oadp_operator.Prelude.Text.contains_text
aws_secret_parses = refl

parse_aws_secret_sound_example :
    (HasProfile "default" (lines_of cloud_secret "cloud") × (access ≢ "") × (hidden ≢ ""))
    ⊎ ((found ≡ ("", "")) × HasStsProfile "default" (lines_of cloud_secret "cloud"))
parse_aws_secret_sound_example =
    parse_aws_secret_sound cloud_secret "cloud" "default" ("access", "hidden") aws_secret_parses

abbrev team_labels : Dict
team_labels = ("team", "storage") ∷ (dpa_label, "old") ∷ []

abbrev dpa_name : String
dpa_name = "dpa"

dpa_named : dpa_name ≢ ""
dpa_named = ground (arith, eq_iff "dpa" "")

with_labels_sound_example :
    (find "team" (some (with_labels "dpa" (some team_labels))) ≡ (
      if dpa_label == "team"
      then some "dpa"
      else if oadp_operator_label == "team"
      then some "True"
      else find "team" (some team_labels)))
    × (needs_patch "dpa" (some (with_labels "dpa" (some team_labels))) ≡ false)
with_labels_sound_example = with_labels_sound "dpa" (some team_labels) "team" dpa_named

abbrev sts_text : String
sts_text = "[default]\nrole_arn = arn\nweb_identity_token_file = token\n"

abbrev sts_secret : Secret
sts_secret = record cloud_secret { content = ("credentials", add_region sts_text "us-east-1") ∷ [] }

region_is_added : lookup "credentials" sts_secret.content ≡ some (add_region sts_text "us-east-1")
unfolding lookup
region_is_added = refl

patch_aws_secret_once_example :
    patch_aws_secret_with_region memory sts_secret aws_location none start ≡ done tt start
patch_aws_secret_once_example =
    patch_aws_secret_once memory sts_secret aws_location none sts_text "us-east-1" start
      region_is_added

abbrev identity_text : String
identity_text = "AZURE_CLIENT_ID=client\nAZURE_TENANT_ID=tenant"

abbrev identity_secret : Secret
identity_secret = record cloud_secret {
  content = ("azurekey", add_resource_group identity_text "group") ∷ [];
}

group_is_added :
    lookup "azurekey" identity_secret.content ≡ some (add_resource_group identity_text "group")
unfolding lookup
group_is_added = refl

patch_azure_secret_once_example :
    patch_azure_secret_with_resource_group memory identity_secret none start ≡ done tt start
patch_azure_secret_once_example =
    patch_azure_secret_once memory identity_secret none identity_text "group" start group_is_added

abbrev three_steps : List (M Locations Bool)
three_steps = pure true ∷ pure false ∷ crash ∷ []

reconcile_batch_outcome_example : (reconcile_batch three_steps start ≡ done false start) ↔ (
    PassesAll three_steps start (done false start) ⊎ StopsAt three_steps start (done false start))
reconcile_batch_outcome_example = reconcile_batch_outcome three_steps start (done false start)

batch_runs :
    reconcile_batch (validate_data_protection_cr memory application ∷ pure false ∷ []) start
    ≡ done false start
unfolding reconcile_batch validate_data_protection_cr oadp_operator.Cluster.◌>>=◌
    oadp_operator.Validator.Cr.required_config oadp_operator.Validator.Cr.check_locations_given
    oadp_operator.Bsl.Validate.validate_backup_storage_locations
    oadp_operator.Bsl.Validate.validate_locations oadp_operator.Bsl.Validate.validate_location
    oadp_operator.Bsl.Secrets.ensure_backup_location_has_velero_or_cloud_storage
    oadp_operator.Bsl.Secrets.ensure_prefix_when_backup_images
    oadp_operator.Bsl.Secrets.ensure_secret_data_exists oadp_operator.Bsl.Secrets.unless_no_secret
    oadp_operator.Api.Methods.has_feature_flag oadp_operator.Registry.get_secret_name_and_key
    oadp_operator.Prelude.lookup oadp_operator.Registry.verify_secret_content
    oadp_operator.Registry.get_provider_secret oadp_operator.Prelude.Text.contains_text
    oadp_operator.Prelude.Text.has_prefix oadp_operator.Bsl.Secrets.parse_provider_secret
    oadp_operator.Registry.Aws.parse_aws_secret oadp_operator.Prelude.Text.split
    oadp_operator.Prelude.Text.has_brackets oadp_operator.Prelude.Text.remove_char
    oadp_operator.Prelude.Text.has_whole_word oadp_operator.Registry.KeyValue.get_matched_key_value
    oadp_operator.Prelude.Text.trim_prefix oadp_operator.Bsl.Validate.count_default
    oadp_operator.Bsl.Validate.validate_by_provider
    oadp_operator.Bsl.Validate.validate_aws_backup_storage_location
    oadp_operator.Bsl.Validate.validate_provider_plugin_and_secret
    oadp_operator.Vsl.Validate.validate_volume_snapshot_locations
    oadp_operator.Vsl.Validate.validate_snapshot_locations
    oadp_operator.Vsl.Validate.validate_snapshot_location
    oadp_operator.Vsl.Validate.validate_vsl_spec oadp_operator.Vsl.Validate.check_aws
    oadp_operator.Vsl.Validate.check_config oadp_operator.Vsl.Validate.check_keys
    oadp_operator.Vsl.Validate.is_valid_aws_key oadp_operator.Vsl.Validate.check_plugin
    oadp_operator.Vsl.Validate.contains_plugin oadp_operator.Credentials.fields_of
    oadp_operator.Vsl.Validate.check_gcp oadp_operator.Vsl.Validate.check_azure
    oadp_operator.Vsl.Validate.ensure_vsl_secret_data_exists
    oadp_operator.Vsl.Validate.check_vsl_credential oadp_operator.Vsl.Validate.verify_vsl_secret
    oadp_operator.Validator.Cr.validate_rest oadp_operator.Validator.NodeAgent.check_node_agent
    oadp_operator.Validator.Cr.check_upgrades oadp_operator.Validator.Cr.warn_restic
    oadp_operator.Validator.Cr.set_was_restic oadp_operator.Validator.Cr.check_operator_type
    oadp_operator.Validator.Credentials.default_to_false
    oadp_operator.Validator.Plugins.snapshot_secrets oadp_operator.Validator.Plugins.backup_secrets
    oadp_operator.Validator.Resources.get_velero_resource_reqs
    oadp_operator.Validator.Resources.get_node_agent_resource_reqs
    oadp_operator.Validator.Plugins.validate_velero_plugins
    oadp_operator.Validator.Credentials.no_default_credentials
    oadp_operator.Validator.Credentials.location_needs
    oadp_operator.Validator.Credentials.needs_of_location
    oadp_operator.Validator.Plugins.validate_plugins oadp_operator.Validator.Plugins.look_up_secrets
    oadp_operator.Validator.Plugins.needs_check oadp_operator.Validator.Credentials.snapshot_needs
    oadp_operator.Prelude.insert oadp_operator.Validator.Credentials.velero_needs
batch_runs = refl

reconcile_batch-IsValidDpa_example : IsValidDpa application
reconcile_batch-IsValidDpa_example =
    reconcile_batch-IsValidDpa memory application (pure false ∷ []) start start false batch_runs

abbrev flags : Velero
flags = record {
  csi_feature_flag = "EnableCSI";
  api_group_versions_feature_flag = "EnableAPIGroupVersions";
  parse_duration = λ text. none;
  default_restore_resource_priorities = "namespaces";
}

abbrev csi_config : VeleroConfig
csi_config = record velero_config {
  feature_flags = "EnableCSI" ∷ [];
  default_plugins = "csi" ∷ "aws" ∷ "csi" ∷ [];
}

correct_velero_sound_example :
    HasNoDuplicates (correct_velero flags none csi_config).default_plugins
    × HasNoDuplicates (correct_velero flags none csi_config).feature_flags
    × (contains (correct_velero flags none csi_config).default_plugins "csi"
        ≡ contains csi_config.default_plugins "csi")
    × (contains (correct_velero flags none csi_config).feature_flags "csi" ≡ (
        contains csi_config.feature_flags "csi"
        || (has_csi_plugin csi_config.default_plugins && flags.csi_feature_flag == "csi")
        || (csi_config.restore_resources_version_priority != ""
            && flags.api_group_versions_feature_flag == "csi")))
correct_velero_sound_example = correct_velero_sound flags none csi_config "csi"
