-- ===== src/Validator/Plugins.antt =====
-- ValidateVeleroPlugins.
use oadp_operator.Prelude.{
  String, Bool, true, false, ◌&&◌, ◌||◌, not, List, [], ◌∷◌, ◌++◌, Option, none, some, is_some,
  lookup, contains, ◌==◌, if◌then◌else◌,
}
use oadp_operator.Api.{
  BackupLocation, SnapshotLocation, Credential, DataProtectionApplication, VeleroConfig,
}
use oadp_operator.Api.Methods.{has_feature_flag}
use oadp_operator.Cluster.{Client, M, message, ◌>>=◌, ◌>>◌, pure, raise_if}
use oadp_operator.Credentials.{plugin_specific_fields, fields_of}
use oadp_operator.Registry.{get_provider_secret}
use oadp_operator.Validator.Credentials.{Needs, bare_provider, no_default_credentials}

-- Set.Add on a set kept as a list; the order in which Go goes through a set is not fixed.
abbrev add : String → List String → List String
add name names = if contains names name then names else names ++ name ∷ []

-- The secret of a location of the plugin's provider: its credential's, else the plugin's default.
abbrev secret_of : Option Credential → String → String
secret_of credential plugin = elim credential [
  | none ↦ (fields_of plugin).secret_name
  | some r ↦ r.name
]

unfoldable pub backup_secrets : String → List BackupLocation → List String → List String
backup_secrets plugin [] names = names
backup_secrets plugin (location ∷ rest) names = backup_secrets plugin rest (elim location.velero [
  | none ↦ names
  | some v ↦
      if bare_provider v.provider == plugin
      then add (secret_of v.credential plugin) names
      else names
])

unfoldable pub snapshot_secrets : String → List SnapshotLocation → List String → List String
snapshot_secrets plugin [] names = names
snapshot_secrets plugin (location ∷ rest) names =
    snapshot_secrets plugin rest (elim location.velero [
      | none ↦ names
      | some v ↦
          if bare_provider v.provider == plugin
          then add (secret_of v.credential plugin) names
          else names
    ])

-- Whether the plugin's secrets are looked up.
unfoldable pub needs_check : VeleroConfig → Needs → String → Bool
needs_check velero needs plugin =
    is_some (plugin_specific_fields plugin)
    && ((fields_of plugin).is_cloud_provider
        && (elim (lookup (fields_of plugin).provider_name needs) [ none ↦ false | some b ↦ b ]
            && (not velero.no_default_backup_location
                && not (has_feature_flag velero "no-secret"))))

module _ (c : Client) (dpa : DataProtectionApplication) where
  unfoldable pub look_up_secrets : List String → M c.World (Unit {0})
  look_up_secrets [] = pure tt
  look_up_secrets (name ∷ rest) = get_provider_secret c dpa name >> look_up_secrets rest

  -- The loop over the plugins, with `foundAWSPlugin` and `foundLegacyAWSPlugin`.
  unfoldable pub validate_plugins :
      VeleroConfig → Needs → List String → Bool → Bool → M c.World (Bool × Bool)
  validate_plugins velero needs [] aws legacy = pure (aws, legacy)
  validate_plugins velero needs (plugin ∷ rest) aws legacy = do
    raise_if (plugin == "vsm") (
        message
          "Delete vsm from spec.configuration.velero.defaultPlugins and dataMover object from spec.features. Use Velero Built-in Data Mover instead")
    look_up_secrets (
        if needs_check velero needs plugin
        then snapshot_secrets plugin dpa.snapshot_locations
            (backup_secrets plugin dpa.backup_locations [])
        else [])
    validate_plugins velero needs rest (aws || plugin == "aws") (legacy || plugin == "legacy-aws")

  unfoldable pub validate_velero_plugins : VeleroConfig → M c.World Bool
  validate_velero_plugins velero = do
    needs ← no_default_credentials c dpa velero
    found ← validate_plugins velero needs velero.default_plugins false false
    raise_if (found.0 && found.1) (
        message
          "%s and %s can not be both specified in DPA spec.configuration.velero.defaultPlugins")
    pure true
