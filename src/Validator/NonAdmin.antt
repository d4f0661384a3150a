-- ===== src/Validator/NonAdmin.antt =====
-- The checks of spec.nonAdmin.
use oadp_operator.Prelude.{
  String, Bool, false, ◌&&◌, List, [], ◌∷◌, Option, none, some, ◌!=◌, if◌then◌else◌,
}
use oadp_operator.Prelude.Int.{ℤ, pos, leb_ℤ, ltb_ℤ}
use oadp_operator.Api.{DataProtectionApplication, NonAdmin, VeleroConfig}
use oadp_operator.Cluster.{
  Client, M, success, failure, message, about, ◌>>=◌, ◌>>◌, pure, raise, raise_if, call, attempt,
}
use oadp_operator.Validator.Enforced.{
  check_enforced_backup, check_enforced_restore, check_enforced_bsl,
}
use oadp_operator.Validator.DefaultBsl.{check_default_bsl}

-- DefaultGarbageCollectionPeriod, 24 hours, and DefaultBackupSyncPeriod, 2 minutes, in nanoseconds
abbrev pub default_garbage_collection_period : ℤ
default_garbage_collection_period = pos 86400000000000

abbrev pub default_backup_sync_period : ℤ
default_backup_sync_period = pos 120000000000

-- checkNonAdminEnabled
unfoldable pub check_non_admin_enabled : DataProtectionApplication → Bool
check_non_admin_enabled dpa = elim dpa.non_admin [
  | none ↦ false
  | some n ↦ elim n.enable [ none ↦ false | some b ↦ b ]
]

module _ {W : Type 0} where
  -- A period that is given must not be negative; the default stands for one that is not given.
  unfoldable pub applied_period : Option ℤ → ℤ → String → M W ℤ
  applied_period period default_period text = elim period [
    | none ↦ pure default_period
    | some p ↦ (raise_if (ltb_ℤ p (pos 0)) (message text) >> pure p)
  ]

module _ (c : Client) (dpa : DataProtectionApplication) where
  -- Another namespace's DPA with the feature enabled, and its deployment, are looked for.
  unfoldable pub check_other_instances : List DataProtectionApplication → M c.World (Unit {0})
  check_other_instances [] = pure tt
  check_other_instances (other ∷ rest) =
      let later = check_other_instances rest in
      if other.namespace != dpa.namespace && check_non_admin_enabled other
      then (attempt (c.get_object "Deployment" other.namespace "non-admin-controller") >>= λ found.
          elim found [
            | success u ↦ raise (
                about
                  "only a single instance of Non-Admin Controller can be installed across the entire cluster. Non-Admin controller is already configured and installed in %s namespace"
                  (other.namespace ∷ []))
            | failure e ↦ later
          ])
      else later

  unfoldable pub check_single_instance : NonAdmin → M c.World (Unit {0})
  check_single_instance n = elim n.enable [
    | none ↦ pure tt
    | some enabled ↦ (call (c.list_dpas none) >>= check_other_instances)
  ]

  unfoldable pub validate_non_admin : VeleroConfig → NonAdmin → M c.World (Unit {0})
  validate_non_admin velero n = do
    check_single_instance n
    collection ←
        applied_period n.garbage_collection_period default_garbage_collection_period
          "DPA spec.nonAdmin.garbageCollectionPeriod can not be negative"
    sync ←
        applied_period n.backup_sync_period default_backup_sync_period
          "DPA spec.nonAdmin.backupSyncPeriod can not be negative"
    raise_if (leb_ℤ collection sync) (
        message
          "DPA spec.nonAdmin.backupSyncPeriod (%v) can not be greater or equal spec.nonAdmin.garbageCollectionPeriod (%v)")
    check_default_bsl c dpa velero sync
    elim n.enforce_backup_spec [ none ↦ pure tt | some spec ↦ check_enforced_backup spec ]
    elim n.enforce_restore_spec [ none ↦ pure tt | some spec ↦ check_enforced_restore spec ]
    check_enforced_bsl n.enforced_bsl_sync_period sync
