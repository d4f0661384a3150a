-- ===== src/Vsl/Validate.antt =====
-- ValidateVolumeSnapshotLocations.
use oadp_operator.Prelude.{
  ℕ, ◌+◌, String, Bool, true, false, ◌||◌, ◌&&◌, not, List, [], ◌∷◌, Option, none, some, Dict,
  index, ◌==◌, ◌!=◌, if◌then◌else◌,
}
use oadp_operator.Prelude.Text.{decimal, append}
use oadp_operator.Api.{VslSpec, SnapshotLocation, DataProtectionApplication, Credential}
use oadp_operator.Cluster.{Client, M, message, about, ◌>>=◌, ◌>>◌, pure, raise, raise_if, check}
use oadp_operator.Credentials.{fields_of}
use oadp_operator.Registry.{get_secret_name_and_key}
use oadp_operator.Bsl.Secrets.{velero_of, unless_no_secret}

-- validAWSKeys, validGCPKeys and validAzureKeys
unfoldable pub is_valid_aws_key : String → Bool
is_valid_aws_key key =
    key == "profile" || key == "region" || key == "credentialsFile" || key == "enableSharedConfig"

unfoldable pub is_valid_gcp_key : String → Bool
is_valid_gcp_key key = key == "project" || key == "snapshotLocation"

unfoldable pub is_valid_azure_key : String → Bool
is_valid_azure_key key =
    key == "apiTimeout" || key == "incremental" || key == "subscriptionId" || key == "resourceGroup"

unfoldable pub contains_plugin : List String → String → Bool
contains_plugin [] value = false
contains_plugin (plugin ∷ rest) value =
    (fields_of plugin).provider_name == value || contains_plugin rest value

-- The fields of `spec.snapshotLocations[i]` in messages.
unfoldable pub vsl_path : ℕ → String
vsl_path i = append "spec.snapshotLocations[" (append (decimal i) "]")

module _ {W : Type 0} where
  -- `for key := range Config`: the keys in the order of the list.
  unfoldable pub check_keys : (String → Bool) → String → ℕ → Dict → M W (Unit {0})
  check_keys valid provider i [] = pure tt
  check_keys valid provider i ((key, value) ∷ rest) = do
    raise_if (not (valid key)) (
        about "DPA %s.config key %s is not a valid %s config key"
          (vsl_path i ∷ key ∷ provider ∷ []))
    check_keys valid provider i rest

  -- A nil map has no keys.
  unfoldable pub check_config : (String → Bool) → String → ℕ → Option Dict → M W (Unit {0})
  check_config valid provider i config = elim config [
    | none ↦ pure tt
    | some entries ↦ check_keys valid provider i entries
  ]

  unfoldable pub check_plugin : DataProtectionApplication → String → ℕ → M W (Unit {0})
  check_plugin dpa provider i = do
    velero ← velero_of dpa
    raise_if (not (contains_plugin velero.default_plugins provider)) (
        about
          "to use VSL for %s specified in DPA %s, %s plugin must be present in %s.defaultPlugins"
          (provider ∷ vsl_path i ∷ []))

  -- The three blocks of one provider each; the region is asked of AWS only.
  unfoldable pub check_aws : DataProtectionApplication → VslSpec → ℕ → M W (Unit {0})
  check_aws dpa spec i =
      if spec.provider == "aws"
      then (raise_if (index "region" spec.config == "") (
            about
              "region for %s VSL in DPA %s.config is not configured, please ensure a region is configured"
              ("aws" ∷ vsl_path i ∷ []))
          >> (check_config is_valid_aws_key "aws" i spec.config >> check_plugin dpa "aws" i))
      else pure tt

  unfoldable pub check_gcp : DataProtectionApplication → VslSpec → ℕ → M W (Unit {0})
  check_gcp dpa spec i =
      if spec.provider == "gcp"
      then (check_config is_valid_gcp_key "gcp" i spec.config >> check_plugin dpa "gcp" i)
      else pure tt

  unfoldable pub check_azure : DataProtectionApplication → VslSpec → ℕ → M W (Unit {0})
  check_azure dpa spec i =
      if spec.provider == "azure"
      then (check_config is_valid_azure_key "azure" i spec.config >> check_plugin dpa "azure" i)
      else pure tt

  unfoldable pub check_vsl_credential : Option Credential → M W (Unit {0})
  check_vsl_credential credential = elim credential [
    | none ↦ pure tt
    | some r ↦ do
      raise_if (r.key == "") (message "Secret key specified in SnapshotLocation cannot be empty")
      raise_if (r.name == "") (message "Secret name specified in SnapshotLocation cannot be empty")
  ]

module _ (c : Client) (dpa : DataProtectionApplication) where
  -- A credentialsFile is not looked at.
  unfoldable pub verify_vsl_secret : VslSpec → M c.World (Unit {0})
  verify_vsl_secret spec =
      if index "credentialsFile" spec.config != ""
      then pure tt
      else (get_secret_name_and_key c dpa spec.config spec.credential spec.provider >>= λ found.
          check found.2)

  unfoldable pub ensure_vsl_secret_data_exists : VslSpec → M c.World (Unit {0})
  ensure_vsl_secret_data_exists spec =
      unless_no_secret dpa (check_vsl_credential spec.credential >> verify_vsl_secret spec)

  unfoldable pub validate_vsl_spec : VslSpec → ℕ → M c.World (Unit {0})
  validate_vsl_spec spec i = do
    raise_if (spec.provider != "aws" && (spec.provider != "gcp" && spec.provider != "azure")) (
        about "DPA %s.provider %s is invalid: only %s, %s and %s are supported"
          (vsl_path i ∷ spec.provider ∷ []))
    check_aws dpa spec i
    check_gcp dpa spec i
    check_azure dpa spec i
    ensure_vsl_secret_data_exists spec

  -- The body of the loop, at the index i.
  unfoldable pub validate_snapshot_location : SnapshotLocation → ℕ → M c.World (Unit {0})
  validate_snapshot_location vsl i = elim vsl.velero [
    | none ↦ raise (message "snapshotLocation velero configuration cannot be nil")
    | some spec ↦ validate_vsl_spec spec i
  ]

  unfoldable pub validate_snapshot_locations : List SnapshotLocation → ℕ → M c.World Bool
  validate_snapshot_locations [] i = pure true
  validate_snapshot_locations (vsl ∷ rest) i = do
    validate_snapshot_location vsl i
    validate_snapshot_locations rest (i + 1)

  unfoldable pub validate_volume_snapshot_locations : M c.World Bool
  validate_volume_snapshot_locations = validate_snapshot_locations dpa.snapshot_locations 0
