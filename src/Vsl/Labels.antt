-- ===== src/Vsl/Labels.antt =====
-- LabelVSLSecrets (internal/controller/vsl.go).
use oadp_operator.Prelude.{
  String, Bool, true, List, [], ◌∷◌, Option, none, some, ◌==◌, if◌then◌else◌,
}
use oadp_operator.Prelude.Text.{trim_prefix}
use oadp_operator.Api.{Credential, VslSpec, SnapshotLocation, DataProtectionApplication}
use oadp_operator.Cluster.{Client, M, ◌>>=◌, ◌>>◌, pure, deref}
use oadp_operator.Credentials.{fields_of}
use oadp_operator.Bsl.Labels.{update_credentials_secret_labels}

-- The name in the credential, else the default secret of the plugin.
abbrev secret_or_default : Option Credential → String → String
secret_or_default credential plugin = elim credential [
  | none ↦ (fields_of plugin).secret_name
  | some r ↦ r.name
]

module _ (c : Client) (dpa : DataProtectionApplication) where
  unfoldable pub label_vsl_secret : VslSpec → M c.World (Unit {0})
  label_vsl_secret spec =
      if trim_prefix spec.provider "velero.io/" == "aws"
      then update_credentials_secret_labels c dpa (secret_or_default spec.credential "aws") dpa.name
      else if trim_prefix spec.provider "velero.io/" == "gcp"
      then update_credentials_secret_labels c dpa (secret_or_default spec.credential "gcp") dpa.name
      else if trim_prefix spec.provider "velero.io/" == "azure"
      then update_credentials_secret_labels c dpa (secret_or_default spec.credential "azure")
          dpa.name
      else pure tt

  unfoldable pub label_vsl_secrets_of : List SnapshotLocation → M c.World Bool
  unfolding label_vsl_secret
  label_vsl_secrets_of [] = pure true
  label_vsl_secrets_of (vsl ∷ rest) =
      (deref vsl.velero >>= label_vsl_secret) >> label_vsl_secrets_of rest

  unfoldable pub label_vsl_secrets : M c.World Bool
  unfolding label_vsl_secrets_of
  label_vsl_secrets = label_vsl_secrets_of dpa.snapshot_locations
