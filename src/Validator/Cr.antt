-- ===== src/Validator/Cr.antt =====
-- ValidateDataProtectionCR.
use oadp_operator.Prelude.{
  Bool, true, false, ◌&&◌, not, none, some, is_empty, length, ltb, find, ◌==◌, ◌!=◌, if◌then◌else◌,
}
use oadp_operator.Api.{DataProtectionApplication, ApplicationConfig, VeleroConfig}
use oadp_operator.Api.Methods.{backup_images, operator_type_key, operator_type_mtc}
use oadp_operator.Cluster.{
  Client, M, done, message, ◌>>=◌, ◌>>◌, pure, raise, raise_if, call, event,
}
use oadp_operator.Bsl.Validate.{validate_backup_storage_locations}
use oadp_operator.Vsl.Validate.{validate_volume_snapshot_locations}
use oadp_operator.Validator.Plugins.{validate_velero_plugins}
use oadp_operator.Validator.Resources.{get_velero_resource_reqs, get_node_agent_resource_reqs}
use oadp_operator.Validator.NodeAgent.{check_node_agent}
use oadp_operator.Validator.NonAdmin.{validate_non_admin}

module _ {W : Type 0} where
  -- The configuration and its velero part, which must both be set.
  unfoldable pub required_config :
      DataProtectionApplication → M W (ApplicationConfig × VeleroConfig)
  required_config dpa = elim dpa.configuration [
    | none ↦ raise (message "DPA CR Velero configuration cannot be nil")
    | some a ↦ elim a.velero [
      | none ↦ raise (message "DPA CR Velero configuration cannot be nil")
      | some v ↦ pure (a, v)
    ]
  ]

  unfoldable pub check_locations_given : DataProtectionApplication → VeleroConfig → M W (Unit {0})
  check_locations_given dpa velero =
      if velero.no_default_backup_location
      then (raise_if (not (is_empty dpa.backup_locations)) (
            message
              "DPA CR Velero configuration cannot have backup locations if noDefaultBackupLocation is set")
          >> raise_if (backup_images dpa)
              (message "backupImages needs to be set to false when noDefaultBackupLocation is set"))
      else raise_if (is_empty dpa.backup_locations) (
          message
            "no backupstoragelocations configured, ensure a backupstoragelocation has been configured or use the noDefaultBackupLocation flag")

  -- The block "ENSURE UPGRADES"
  unfoldable pub check_upgrades : DataProtectionApplication → ApplicationConfig → M W (Unit {0})
  check_upgrades dpa configuration = do
    raise_if dpa.has_data_mover (
        message
          "Delete vsm from spec.configuration.velero.defaultPlugins and dataMover object from spec.features. Use Velero Built-in Data Mover instead")
    raise_if configuration.has_restic (
        message
          "Delete restic object from spec.configuration, use spec.configuration.nodeAgent instead")

  unfoldable pub check_operator_type : DataProtectionApplication → M W (Unit {0})
  check_operator_type dpa = elim (find operator_type_key dpa.unsupported_overrides) [
    | none ↦ pure tt
    | some value ↦
        raise_if (value != operator_type_mtc)
          (message "only mtc operator type override is supported")
  ]

  unfoldable pub read_was_restic : M W Bool
  read_was_restic s = done s.was_restic s

  unfoldable pub set_was_restic : Bool → M W (Unit {0})
  set_was_restic b s = done tt (record s { was_restic = b })

abbrev pub uses_restic : ApplicationConfig → Bool
uses_restic configuration = elim configuration.node_agent [
  | none ↦ false
  | some agent ↦ agent.uploader_type == "restic"
]

module _ (c : Client) (dpa : DataProtectionApplication) where
  -- The block "DEPRECATIONS": one event when restic begins to be used.
  unfoldable pub warn_restic : ApplicationConfig → M c.World (Unit {0})
  warn_restic configuration =
      if uses_restic configuration
      then (read_was_restic >>= λ was.
          (if was
            then pure tt
            else event c "DataProtectionApplication" dpa.name "DeprecationResticFileSystemBackup")
          >> set_was_restic true)
      else set_was_restic false

  -- The checks behind those of the two kinds of location.
  unfoldable pub validate_rest : ApplicationConfig → VeleroConfig → M c.World Bool
  validate_rest configuration velero = do
    check_node_agent configuration
    check_upgrades dpa configuration
    warn_restic configuration
    check_operator_type dpa
    validate_velero_plugins c dpa velero
    get_velero_resource_reqs c velero
    get_node_agent_resource_reqs c configuration
    elim dpa.non_admin [ none ↦ pure tt | some n ↦ validate_non_admin c dpa velero n ]
    pure true

  unfoldable pub validate_data_protection_cr : M c.World Bool
  validate_data_protection_cr = do
    dpas ← call (c.list_dpas (some dpa.namespace))
    raise_if (ltb 1 (length dpas))
        (message "only one DPA CR can exist per OADP installation namespace")
    config ← required_config dpa
    check_locations_given dpa config.1
    bsls ← validate_backup_storage_locations c dpa
    vsls ← (if bsls then validate_volume_snapshot_locations c dpa else pure false)
    if bsls && vsls then validate_rest config.0 config.1 else pure false
