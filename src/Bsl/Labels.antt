-- ===== src/Bsl/Labels.antt =====
-- UpdateCredentialsSecretLabels (internal/controller/bsl.go): the two labels by which a credentials
-- secret triggers the reconciliation of its DPA.
use oadp_operator.Prelude.{
  String, Bool, ◌||◌, Option, none, some, Dict, [], index, insert, ◌==◌, ◌!=◌, if◌then◌else◌,
}
use oadp_operator.Api.{DataProtectionApplication, Secret}
use oadp_operator.Api.Methods.{oadp_operator_label}
use oadp_operator.Cluster.{Client, M, message, ◌>>=◌, ◌>>◌, pure, raise_if, call, event}
use oadp_operator.Registry.{get_provider_secret}

abbrev pub dpa_label : String
dpa_label = "dataprotectionapplication.name"

-- The entries of a map, where nil is first made an empty one.
abbrev pub entries : Option Dict → Dict
entries labels = elim labels [ none ↦ [] | some m ↦ m ]

-- `if labels[k] != v { labels[k] = v }`
unfoldable pub set_label : String → String → Dict → Dict
set_label k v m = if index k (some m) != v then insert k v m else m

-- The labels after the two assignments.
unfoldable pub with_labels : String → Option Dict → Dict
unfolding set_label
with_labels dpa_name labels =
    set_label dpa_label dpa_name (set_label oadp_operator_label "True" (entries labels))

unfoldable pub needs_patch : String → Option Dict → Bool
needs_patch dpa_name labels =
    index oadp_operator_label labels != "True" || index dpa_label labels != dpa_name

module _ (c : Client) (dpa : DataProtectionApplication) where
  unfoldable pub update_credentials_secret_labels : String → String → M c.World (Unit {0})
  unfolding with_labels needs_patch
  update_credentials_secret_labels secret_name dpa_name = do
    secret ← get_provider_secret c dpa secret_name
    raise_if (secret.meta.name == "") (message "secret not found")
    if needs_patch dpa_name secret.meta.labels then patch secret else pure tt
    where
      patch : Secret → M c.World (Unit {0})
      patch secret = do
        patched ← call (
            c.patch_secret secret (record secret {
              meta = record (secret.meta) {
                labels = some (with_labels dpa_name secret.meta.labels);
              };
            }))
        event c "Secret" patched.meta.name "SecretLabelled"
