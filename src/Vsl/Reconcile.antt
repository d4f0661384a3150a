-- ===== src/Vsl/Reconcile.antt =====
-- ReconcileVolumeSnapshotLocations (internal/controller/vsl.go).
use oadp_operator.Prelude.{
  ℕ, ◌+◌, String, Bool, true, List, [], ◌∷◌, some, Dict, length, nat_eq, contains, if◌then◌else◌,
}
use oadp_operator.Api.{VslSpec, SnapshotLocation, DataProtectionApplication, VolumeSnapshotLocation}
use oadp_operator.Api.Methods.{oadp_operator_label}
use oadp_operator.Cluster.{Client, M, ◌>>=◌, ◌>>◌, pure, deref, call, event, own}
use oadp_operator.Bsl.Reconcile.{location_name, event_if_changed}

abbrev pub vsl_labels : Dict
vsl_labels =
    ("app.kubernetes.io/name", "oadp-operator-velero")
    ∷ ("app.kubernetes.io/managed-by", "oadp-operator")
    ∷ ("app.kubernetes.io/component", "vsl")
    ∷ []

module _ (c : Client) (dpa : DataProtectionApplication) where
  -- The function that CreateOrPatch is given.
  unfoldable pub update_vsl :
      String → VslSpec → VolumeSnapshotLocation → M c.World VolumeSnapshotLocation
  update_vsl name spec vsl = do
    meta ← own c dpa.name vsl.meta
    pure (record {
      meta = record meta {
        labels = some (
            ("app.kubernetes.io/name", "oadp-operator-velero")
            ∷ ("app.kubernetes.io/instance", name)
            ∷ ("app.kubernetes.io/managed-by", "oadp-operator")
            ∷ ("app.kubernetes.io/component", "vsl")
            ∷ (oadp_operator_label, "True")
            ∷ []);
      };
      spec = spec;
    })

  unfoldable pub reconcile_snapshot_location : SnapshotLocation → ℕ → M c.World (Unit {0})
  unfolding location_name update_vsl event_if_changed
  reconcile_snapshot_location location i = do
    spec ← deref location.velero
    let name = location_name dpa.name i location.name
    made ← c.create_or_patch_vsl dpa.namespace name (update_vsl name spec)
    event_if_changed c dpa "VolumeSnapshotLocation" made.1.meta.name
        "VolumeSnapshotLocationReconciled" made.0

  unfoldable pub reconcile_snapshot_locations : List SnapshotLocation → ℕ → M c.World (List String)
  unfolding reconcile_snapshot_location
  reconcile_snapshot_locations [] i = pure []
  reconcile_snapshot_locations (location ∷ rest) i = do
    reconcile_snapshot_location location i
    names ← reconcile_snapshot_locations rest (i + 1)
    pure (location_name dpa.name i location.name ∷ names)

  unfoldable pub delete_extra_vsls :
      List String → List VolumeSnapshotLocation → M c.World (Unit {0})
  delete_extra_vsls names [] = pure tt
  delete_extra_vsls names (vsl ∷ rest) =
      (if contains names vsl.meta.name
        then pure tt
        else (call (c.delete_vsl vsl)
            >> event c "VolumeSnapshotLocation" vsl.meta.name "VolumeSnapshotLocationDeleted"))
      >> delete_extra_vsls names rest

  unfoldable pub reconcile_volume_snapshot_locations : M c.World Bool
  unfolding reconcile_snapshot_locations delete_extra_vsls
  reconcile_volume_snapshot_locations = do
    names ← reconcile_snapshot_locations dpa.snapshot_locations 0
    items ← call (c.list_vsls (some dpa.namespace) vsl_labels)
    (if nat_eq (length names) (length items) then pure tt else delete_extra_vsls names items)
    pure true
