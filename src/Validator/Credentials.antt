-- ===== src/Validator/Credentials.antt =====
-- noDefaultCredentials of internal/controller/velero.go: which providers need default credentials.
use oadp_operator.Prelude.{
  String, Bool, true, false, ◌&&◌, List, [], ◌∷◌, none, some, is_some, lookup, insert, index, ◌==◌,
  if◌then◌else◌,
}
use oadp_operator.Prelude.Text.{trim_prefix}
use oadp_operator.Api.{
  BslSpec, BackupLocation, CloudStorageLocation, SnapshotLocation, DataProtectionApplication,
  VeleroConfig,
}
use oadp_operator.Api.Methods.{operator_type_key, operator_type_mtc}
use oadp_operator.Cluster.{Client, M, ◌>>=◌, pure, call}
use oadp_operator.Credentials.{plugin_specific_fields}

-- map[string]bool
abbrev pub Needs : Type 0
Needs = List (String × Bool)

-- A provider without the prefix "velero.io/".
abbrev pub bare_provider : String → String
bare_provider provider = trim_prefix provider "velero.io/"

-- `if _, found := m[k]; !found { m[k] = false }`
unfoldable pub default_to_false : String → Needs → Needs
default_to_false k m = elim (lookup k m) [ none ↦ insert k false m | some b ↦ m ]

-- The loop over the plugins where there is no default backup location.
unfoldable pub plugin_needs : Bool → List String → Needs → Needs
plugin_needs needed [] m = m
plugin_needs needed (plugin ∷ rest) m =
    plugin_needs needed rest (elim (plugin_specific_fields plugin) [
      | none ↦ m
      | some f ↦ if f.is_cloud_provider then insert f.provider_name needed m else m
    ])

unfoldable pub velero_needs : BslSpec → Needs → Needs
velero_needs spec m = elim spec.credential [
  | none ↦ insert (bare_provider spec.provider) true m
  | some r ↦ default_to_false (bare_provider spec.provider) m
]

-- The loop over the snapshot locations.
unfoldable pub snapshot_needs : Bool → List SnapshotLocation → Needs → Needs
snapshot_needs has_cloud_storage [] m = m
snapshot_needs has_cloud_storage (vsl ∷ rest) m =
    snapshot_needs has_cloud_storage rest (elim vsl.velero [
      | none ↦ m
      | some spec ↦ elim (is_some spec.credential) [
        | true ↦ default_to_false (bare_provider spec.provider) m
        | false ↦
            if bare_provider spec.provider == "aws" && has_cloud_storage
            then default_to_false (bare_provider spec.provider) m
            else insert (bare_provider spec.provider) true m
      ]
    ])

module _ (c : Client) (dpa : DataProtectionApplication) where
  cloud_storage_needs : CloudStorageLocation → Needs → Bool → M c.World (Needs × Bool)
  cloud_storage_needs location m has = elim location.credential [
    | none ↦ call (c.get_cloud_storage dpa.namespace location.cloud_storage_ref) >>= λ bucket.
        pure (insert bucket.provider true m, has)
    | some r ↦ pure (m, true)
  ]

  -- One round of the loop over the backup locations.
  unfoldable pub needs_of_location : BackupLocation → Needs → Bool → M c.World (Needs × Bool)
  unfolding cloud_storage_needs
  needs_of_location bsl m has =
      let m' : Needs = elim bsl.velero [ none ↦ m | some spec ↦ velero_needs spec m ] in
      elim bsl.cloud_storage [
        | none ↦ pure (m', has)
        | some location ↦ cloud_storage_needs location m' has
      ]

  -- The loop over the backup locations, with `hasCloudStorage`.
  unfoldable pub location_needs : List BackupLocation → Needs → Bool → M c.World (Needs × Bool)
  location_needs [] m has = pure (m, has)
  location_needs (bsl ∷ rest) m has =
      needs_of_location bsl m has >>= λ found. location_needs rest found.0 found.1

  unfoldable pub no_default_credentials : VeleroConfig → M c.World Needs
  no_default_credentials velero =
      if velero.no_default_backup_location
      then pure (
          snapshot_needs false dpa.snapshot_locations (
            plugin_needs (index operator_type_key dpa.unsupported_overrides == operator_type_mtc)
              velero.default_plugins []))
      else (location_needs dpa.backup_locations [] false >>= λ found.
          pure (snapshot_needs found.1 dpa.snapshot_locations found.0))
