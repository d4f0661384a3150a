-- ===== src/Validator/Enforced.antt =====
-- The parts of a backup, restore and storage location that an administrator must not enforce.
use oadp_operator.Prelude.{
  String, Bool, false, not, [], ◌∷◌, Option, none, some, is_some, is_empty, ◌!=◌,
}
use oadp_operator.Prelude.Int.{ℤ, leb_ℤ}
use oadp_operator.Api.{BackupSpec, RestoreSpec}
use oadp_operator.Cluster.{M, message, about, ◌>>◌, pure, raise_if}

module _ {W : Type 0} where
  -- NACNonEnforceableErr
  abbrev refuse : Bool → String → M W (Unit {0})
  refuse b field = raise_if b (about "DPA %s is non-enforceable by admins" (field ∷ []))

  unfoldable pub check_enforced_backup : BackupSpec → M W (Unit {0})
  check_enforced_backup spec = do
    refuse (spec.storage_location != "") "spec.nonAdmin.enforcedBackupSpec.storageLocation"
    refuse (is_some spec.volume_snapshot_locations)
        "spec.nonAdmin.enforcedBackupSpec.volumeSnapshotLocations"
    refuse (is_some spec.included_namespaces) "spec.nonAdmin.enforcedBackupSpec.includedNamespaces"
    refuse (is_some spec.excluded_namespaces) "spec.nonAdmin.enforcedBackupSpec.excludedNamespaces"
    refuse (elim spec.include_cluster_resources [ none ↦ false | some b ↦ b ])
        "spec.nonAdmin.enforcedBackupSpec.includeClusterResources"
    refuse (not (is_empty spec.included_cluster_scoped_resources))
        "spec.nonAdmin.enforcedBackupSpec.includedClusterScopedResources"

  unfoldable pub check_enforced_restore : RestoreSpec → M W (Unit {0})
  check_enforced_restore spec = do
    refuse (spec.schedule_name != "") "spec.nonAdmin.enforcedRestoreSpec.scheduleName"
    refuse (is_some spec.included_namespaces) "spec.nonAdmin.enforcedRestoreSpec.includedNamespaces"
    refuse (is_some spec.excluded_namespaces) "spec.nonAdmin.enforcedRestoreSpec.excludedNamespaces"
    refuse (is_some spec.namespace_mapping) "spec.nonAdmin.enforcedRestoreSpec.namespaceMapping"

  -- The enforced period against the applied one.
  unfoldable pub check_enforced_bsl : Option ℤ → ℤ → M W (Unit {0})
  check_enforced_bsl period applied = elim period [
    | none ↦ pure tt
    | some p ↦ raise_if (leb_ℤ applied p) (
        message
          "DPA spec.nonAdmin.enforcedBSLSpec.backupSyncPeriod (%v) can not be greater or equal DPA spec.nonAdmin.backupSyncPeriod (%v)")
  ]
