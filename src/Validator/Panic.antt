-- ===== src/Validator/Panic.antt =====
-- Where the check of the default storage location dereferences a nil pointer.
use oadp_operator.Prelude.{ℕ, ◌≡◌, refl, true, List, [], ◌∷◌, none, some}
use oadp_operator.Prelude.Int.{ℤ}
use oadp_operator.Api.{
  BackupLocation, BackupStorageLocation, DataProtectionApplication, VeleroConfig,
}
use oadp_operator.Cluster.{Client, State, ok, panic, ◌>>=◌, attempt}
use oadp_operator.Cluster.Yields.{bind-done, bind-panic, attempt-ok}
use oadp_operator.Validator.DefaultBsl.{
  first_default, is_managed, default_index, default_spec, check_default_bsl,
}

module _ {W : Type 0} where
  default_spec-panic :
      (dpa : DataProtectionApplication) (s : State W) (bsl : BackupLocation)
      (rest : List BackupLocation) (i : ℕ) (found : BackupStorageLocation)
      → dpa.backup_locations ≡ bsl ∷ rest
      → bsl.velero ≡ none
      → is_managed found ≡ true
      → default_spec dpa i found s ≡ panic
  unfolding default_spec default_index ◌>>=◌
  default_spec-panic dpa s bsl rest i found e n m = rw (m, e, n) refl

-- If the first backup location of the DPA has no velero part (so it is a cloud storage), and the
-- cluster's first default storage location is one that the operator manages, then the check of the
-- default location does not return: it panics.
pub check_default_bsl_panics :
    (c : Client) (dpa : DataProtectionApplication) (velero : VeleroConfig) (applied : ℤ)
    (s : State c.World) (bsl : BackupLocation) (rest : List BackupLocation)
    (items : List BackupStorageLocation) (w : c.World) (i : ℕ) (found : BackupStorageLocation)
    → dpa.backup_locations ≡ bsl ∷ rest
    → bsl.velero ≡ none
    → c.list_bsls (some dpa.namespace) [] s.world ≡ ok items w
    → first_default 0 items ≡ some (i, found)
    → is_managed found ≡ true
    → check_default_bsl c dpa velero applied s ≡ panic
unfolding check_default_bsl
check_default_bsl_panics c dpa velero applied s bsl rest items w i found e n l f m =
    rw
      (
        bind-done (attempt (c.list_bsls (some dpa.namespace) [])) _ s _ _
            (attempt-ok _ s items w l),
        f,
      )
      (bind-panic _ _ _ (default_spec-panic dpa _ bsl rest i found e n m))
