-- ===== src/Credentials.antt =====
-- pkg/credentials/credentials.go: the table of plugins, the `credentialsFile` text, plugin images.
pub mod Laws
use oadp_operator.Prelude.{
  String, Bool, true, false, List, [], ◌∷◌, Option, none, some, index, ◌==◌, ◌!=◌, if◌then◌else◌,
}
use oadp_operator.Prelude.Text.{trim_space, split}
use oadp_operator.Api.{DataProtectionApplication}

pub record DefaultPluginFields : Type 0 where
  pub is_cloud_provider : Bool
  pub secret_name : String
  pub mount_path : String
  pub env_credentials_file : String
  pub plugin_secret_key : String
  pub plugin_name : String
  pub provider_name : String

-- The zero value, which an unknown plugin gets.
abbrev pub no_fields : DefaultPluginFields
no_fields = record {
  is_cloud_provider = false;
  secret_name = "";
  mount_path = "";
  env_credentials_file = "";
  plugin_secret_key = "";
  plugin_name = "";
  provider_name = "";
}

abbrev cloud_fields : String → String → String → String → String → DefaultPluginFields
cloud_fields secret mount env name provider = record {
  is_cloud_provider = true;
  secret_name = secret;
  mount_path = mount;
  env_credentials_file = env;
  plugin_secret_key = "cloud";
  plugin_name = name;
  provider_name = provider;
}

-- PluginSpecificFields[plugin]
unfoldable pub plugin_specific_fields : String → Option DefaultPluginFields
plugin_specific_fields plugin =
    if plugin == "aws"
    then some (
        cloud_fields "cloud-credentials" "/credentials" "AWS_SHARED_CREDENTIALS_FILE"
          "velero-plugin-for-aws" "aws")
    else if plugin == "legacy-aws"
    then some (
        cloud_fields "cloud-credentials" "/credentials" "AWS_SHARED_CREDENTIALS_FILE"
          "velero-plugin-for-legacy-aws" "aws")
    else if plugin == "gcp"
    then some (
        cloud_fields "cloud-credentials-gcp" "/credentials-gcp" "GOOGLE_APPLICATION_CREDENTIALS"
          "velero-plugin-for-gcp" "gcp")
    else if plugin == "azure"
    then some (
        cloud_fields "cloud-credentials-azure" "/credentials-azure" "AZURE_CREDENTIALS_FILE"
          "velero-plugin-for-microsoft-azure" "azure")
    else if plugin == "openshift"
    then some (record no_fields { plugin_name = "openshift-velero-plugin" })
    else if plugin == "kubevirt"
    then some (record no_fields { plugin_name = "kubevirt-velero-plugin" })
    else if plugin == "hypershift"
    then some (record no_fields { plugin_name = "hypershift-oadp-plugin" })
    else none

unfoldable pub fields_of : String → DefaultPluginFields
unfolding plugin_specific_fields
fields_of plugin = elim (plugin_specific_fields plugin) [ none ↦ no_fields | some f ↦ f ]

-- The two results of the parser, or `none` for "credentials file is not supported".
unfoldable pub secret_name_key_of : String → Option (String × String)
secret_name_key_of text =
    let trimmed = trim_space text in
    if trimmed == "" then some ("", "") else name_key (split b'/' trimmed)
  where
    name_key : List String → Option (String × String)
    name_key [] = none
    name_key (name ∷ []) = none
    name_key (name ∷ key ∷ []) = some (name, key)
    name_key (name ∷ key ∷ more ∷ rest) = none

-- The override if it is set, else the environment's image if it is set, else the default.
plugin_image : (String → String) → DataProtectionApplication → String → String → String → String
plugin_image getenv dpa key env image =
    if index key dpa.unsupported_overrides != ""
    then index key dpa.unsupported_overrides
    else if getenv env == ""
    then image
    else getenv env

unfoldable pub get_plugin_image : (String → String) → String → DataProtectionApplication → String
unfolding plugin_image
get_plugin_image getenv plugin dpa =
    if plugin == "aws"
    then plugin_image getenv dpa "awsPluginImageFqin" "RELATED_IMAGE_VELERO_PLUGIN_FOR_AWS"
        "quay.io/konveyor/velero-plugin-for-aws:latest"
    else if plugin == "legacy-aws"
    then plugin_image getenv dpa "legacyAWSPluginImageFqin"
        "RELATED_IMAGE_VELERO_PLUGIN_FOR_LEGACY_AWS"
        "quay.io/konveyor/velero-plugin-for-legacy-aws:latest"
    else if plugin == "gcp"
    then plugin_image getenv dpa "gcpPluginImageFqin" "RELATED_IMAGE_VELERO_PLUGIN_FOR_GCP"
        "quay.io/konveyor/velero-plugin-for-gcp:latest"
    else if plugin == "openshift"
    then plugin_image getenv dpa "openshiftPluginImageFqin" "RELATED_IMAGE_OPENSHIFT_VELERO_PLUGIN"
        "quay.io/konveyor/openshift-velero-plugin:latest"
    else if plugin == "azure"
    then plugin_image getenv dpa "azurePluginImageFqin"
        "RELATED_IMAGE_VELERO_PLUGIN_FOR_MICROSOFT_AZURE"
        "quay.io/konveyor/velero-plugin-for-microsoft-azure:latest"
    else if plugin == "kubevirt"
    then plugin_image getenv dpa "kubevirtPluginImageFqin" "RELATED_IMAGE_KUBEVIRT_VELERO_PLUGIN"
        "quay.io/konveyor/kubevirt-velero-plugin:v0.7.0"
    else if plugin == "hypershift"
    then plugin_image getenv dpa "hypershiftPluginImageFqin"
        "RELATED_IMAGE_HYPERSHIFT_VELERO_PLUGIN"
        "quay.io/redhat-user-workloads/ocp-art-tenant/oadp-hypershift-oadp-plugin-main:main"
    else ""
