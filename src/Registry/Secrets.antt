-- ===== src/Registry/Secrets.antt =====
-- ReconcileRegistrySecrets, patchRegistrySecret, populateAWSRegistrySecret and
-- populateAzureRegistrySecret of registry.go.
pub mod Laws
use oadp_operator.Prelude.{
  String, Bool, true, false, ◌&&◌, not, List, [], ◌∷◌, some, none, index, ◌==◌, ◌!=◌, if◌then◌else◌,
}
use oadp_operator.Prelude.Text.{append}
use oadp_operator.Api.{BackupStorageLocation, DataProtectionApplication, Secret, ObjectMeta}
use oadp_operator.Api.Methods.{backup_images, oadp_operator_label}
use oadp_operator.Cluster.{Client, M, message, ◌>>=◌, ◌>>◌, pure, raise, raise_if, call, own}
use oadp_operator.Registry.{get_provider_secret, get_secret_name_and_key}
use oadp_operator.Registry.KeyValue.{Parsed, parsed, refused}
use oadp_operator.Registry.Aws.{Keys, parse_aws_secret}
use oadp_operator.Registry.Azure.{AzureCredentials, parse_azure_secret}
use oadp_operator.Registry.Cleanup.{registry_object_name, component_labels, delete_registry_object}
use oadp_operator.Bsl.Secrets.{profile_in}
use oadp_operator.Bsl.Reconcile.{event_if_changed}

-- A parser's error is returned.
unfoldable pub take_parsed : {W A : Type 0} → Parsed A → M W A
take_parsed (parsed a) = pure a
take_parsed (refused e) = raise e

-- The checks of the credentials: the storage account key, or some field of a service principal.
unfoldable pub check_azure_credentials : {W : Type 0} → Bool → AzureCredentials → M W (Unit {0})
check_azure_credentials by_account_key a =
    if by_account_key
    then raise_if (a.storage_account_key == "")
        (message "no strorageAccountKey value present in credentials file")
    else raise_if
        (a.subscription_id == ""
          && (a.tenant_id == ""
              && (a.client_id == "" && (a.client_secret == "" && a.resource_group == ""))))
        (message "error finding service principal parameters for the supplied Azure credential")

module _ (c : Client) (dpa : DataProtectionApplication) where
  unfoldable pub populate_aws_registry_secret : BackupStorageLocation → Secret → M c.World Secret
  unfolding take_parsed
  populate_aws_registry_secret bsl registry_secret = do
    found ← get_secret_name_and_key c dpa bsl.spec.config bsl.spec.credential "aws"
    secret ← get_provider_secret c dpa found.0
    keys ← take_parsed (parse_aws_secret secret found.1 (profile_in bsl.spec.config))
    pure (record registry_secret { content = ("access_key", keys.0) ∷ ("secret_key", keys.1) ∷ [] })

  unfoldable pub populate_azure_registry_secret : BackupStorageLocation → Secret → M c.World Secret
  unfolding take_parsed check_azure_credentials
  populate_azure_registry_secret bsl registry_secret = do
    found ← get_secret_name_and_key c dpa bsl.spec.config bsl.spec.credential "azure"
    secret ← get_provider_secret c dpa found.0
    a ← take_parsed (parse_azure_secret secret found.1)
    check_azure_credentials (index "storageAccountKeyEnvVar" bsl.spec.config != "") a
    pure (record registry_secret {
      content =
          ("storage_account_key", a.storage_account_key)
          ∷ ("subscription_id_key", a.subscription_id)
          ∷ ("tenant_id_key", a.tenant_id)
          ∷ ("client_id_key", a.client_id)
          ∷ ("client_secret_key", a.client_secret)
          ∷ ("resource_group_key", a.resource_group)
          ∷ [];
    })

  unfoldable pub patch_registry_secret : BackupStorageLocation → Secret → M c.World Secret
  unfolding populate_aws_registry_secret populate_azure_registry_secret
  patch_registry_secret bsl secret = own c dpa.name secret.meta >>= λ meta.
      if bsl.spec.provider == "aws"
      then populate_aws_registry_secret bsl (record secret { meta = meta })
      else if bsl.spec.provider == "azure"
      then populate_azure_registry_secret bsl (record secret { meta = meta })
      else pure (record secret { meta = meta })

  -- The secret as it is created.
  abbrev new_registry_secret : BackupStorageLocation → Secret
  new_registry_secret bsl = record {
    meta = record {
      name = registry_object_name "-secret" bsl;
      namespace = dpa.namespace;
      labels = some ((oadp_operator_label, "True") ∷ []);
      owner = none;
    };
    content = [];
  }

  unfoldable pub reconcile_registry_secret : BackupStorageLocation → M c.World (Unit {0})
  unfolding registry_object_name patch_registry_secret event_if_changed
  reconcile_registry_secret bsl = do
    made ← c.create_or_patch_secret (new_registry_secret bsl) (patch_registry_secret bsl)
    event_if_changed c dpa "Secret" made.1.meta.name "RegistrySecretsReconciled" made.0

  -- The loop; where images are not backed up it ends with the first secret.
  unfoldable pub reconcile_registry_secrets_of : List BackupStorageLocation → M c.World Bool
  unfolding registry_object_name reconcile_registry_secret
  reconcile_registry_secrets_of [] = pure true
  reconcile_registry_secrets_of (bsl ∷ rest) =
      let later = reconcile_registry_secrets_of rest in
      if bsl.spec.provider == "gcp"
      then later
      else if not (backup_images dpa)
      then delete_registry_object c dpa "Secret" "DeletedRegistrySecret"
          "DeleteRegistrySecretFailed" (registry_object_name "-secret" bsl)
        >> pure true
      else reconcile_registry_secret bsl >> later

  unfoldable pub reconcile_registry_secrets : M c.World Bool
  unfolding reconcile_registry_secrets_of
  reconcile_registry_secrets =
      call (c.list_bsls (some dpa.namespace) component_labels) >>= reconcile_registry_secrets_of
