-- ===== src/Validator/DefaultBsl.antt =====
-- The sync period of the default backup storage location, which the validator compares with that of
-- the non-admin controller.
use oadp_operator.Prelude.{
  ℕ, zero, suc, ◌+◌, Bool, false, List, [], ◌∷◌, Option, none, some, find, ◌==◌, if◌then◌else◌,
}
use oadp_operator.Prelude.Int.{ℤ, pos, leb_ℤ}
use oadp_operator.Api.{
  BslSpec, BackupLocation, BackupStorageLocation, DataProtectionApplication, VeleroConfig,
}
use oadp_operator.Cluster.{
  Client, M, success, failure, message, ◌>>=◌, pure, crash, raise_if, deref, attempt,
}

-- The first default location of the namespace, and its index.
unfoldable pub first_default : ℕ → List BackupStorageLocation → Option (ℕ × BackupStorageLocation)
first_default i [] = none
first_default i (bsl ∷ rest) =
    let later = first_default (i + 1) rest in if bsl.spec.is_default then some (i, bsl) else later

abbrev pub is_managed : BackupStorageLocation → Bool
is_managed bsl = elim (find "app.kubernetes.io/managed-by" bsl.meta.labels) [
  | none ↦ false
  | some value ↦ value == "oadp-operator"
]

-- time.Minute
abbrev pub minute : ℤ
minute = pos 60000000000

-- The period that the applied one must exceed: the location's, else Velero's argument, else one
-- minute.
unfoldable pub default_period : BslSpec → VeleroConfig → ℤ
default_period spec velero = elim spec.backup_sync_period [
  | some d ↦ d
  | none ↦ elim velero.args [
    | none ↦ minute
    | some args ↦ elim args.backup_sync_period [ none ↦ minute | some d ↦ d ]
  ]
]

module _ {W : Type 0} where
  -- The index of the first default location of the DPA, at the index i; `fallback` if there is none.
  -- A location with no velero part is dereferenced.
  unfoldable pub default_index : ℕ → ℕ → List BackupLocation → M W ℕ
  default_index fallback i [] = pure fallback
  default_index fallback i (bsl ∷ rest) =
      let later = default_index fallback (i + 1) rest in
      deref bsl.velero >>= λ spec. if spec.is_default then pure i else later

  -- `*r.dpa.Spec.BackupLocations[i].Velero`
  unfoldable pub velero_at : List BackupLocation → ℕ → M W BslSpec
  velero_at [] i = crash
  velero_at (bsl ∷ rest) zero = deref bsl.velero
  velero_at (bsl ∷ rest) (suc i) = velero_at rest i

  -- The spec that is compared: the DPA's own, if the operator manages the location.
  unfoldable pub default_spec : DataProtectionApplication → ℕ → BackupStorageLocation → M W BslSpec
  default_spec dpa i bsl =
      if is_managed bsl
      then (default_index i 0 dpa.backup_locations >>= λ k. velero_at dpa.backup_locations k)
      else pure bsl.spec

  unfoldable pub check_default_period : VeleroConfig → ℤ → BslSpec → M W (Unit {0})
  check_default_period velero applied spec = raise_if (leb_ℤ applied (default_period spec velero)) (
      message
        "default BSL spec.backupSyncPeriod (%v) can not be greater or equal spec.nonAdmin.backupSyncPeriod (%v)")

module _ (c : Client) (dpa : DataProtectionApplication) where
  -- The error of the list call is dropped, and leaves an empty list.
  unfoldable pub check_default_bsl : VeleroConfig → ℤ → M c.World (Unit {0})
  check_default_bsl velero applied = attempt (c.list_bsls (some dpa.namespace) []) >>= λ found.
      elim (first_default 0 (elim found [ success items ↦ items | failure e ↦ [] ])) [
        | none ↦ pure tt
        | some (i, bsl) ↦ (default_spec dpa i bsl >>= check_default_period velero applied)
      ]
