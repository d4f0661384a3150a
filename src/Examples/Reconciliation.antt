-- ===== src/Examples/Reconciliation.antt =====
-- The reconciliation of the example: a storage location that the DPA no longer has is deleted.
use oadp_operator.Prelude.{
  ◌≡◌, refl, ap, sym, ◌∙◌, String, Bool, true, false, not, List, [], ◌∷◌, none, some, Dict, map,
  filter, nat_eq, length, contains, inl, inr, Bool-cases, ◌==◌, ◌!=◌, if◌then◌else◌,
}
use oadp_operator.Api.{BackupStorageLocation}
use oadp_operator.Cluster.{Client, State, Reply, ok, err, done}
use oadp_operator.Bsl.Reconcile.{bsl_labels, reconcile_backup_storage_locations}
use oadp_operator.Bsl.Prune.{
  ServesBsls, name_of, names_of, reconcile_backup_storage_locations_prunes,
}
use oadp_operator.Examples.{memory, application, Locations, other_locations, meta_of, aws_spec}

abbrev value_of_reply : {A : Type 0} → A → Reply Locations A → A
value_of_reply d r = elim r [ ok a w ↦ a | err e w ↦ d ]

abbrev world_of_reply : {A : Type 0} → Locations → Reply Locations A → Locations
world_of_reply d r = elim r [ ok a w ↦ w | err e w ↦ d ]

names-other_locations :
    (b : BackupStorageLocation) (w : Locations)
    → map name_of (other_locations b w) ≡ filter (λ n. n != b.meta.name) (map name_of w)
names-other_locations b [] = refl
names-other_locations b (x ∷ w) = elim (Bool-cases (x.meta.name != b.meta.name)) [
  | inl e ↦ rw (e, names-other_locations b w) refl
  | inr e ↦ rw (e, names-other_locations b w) refl
]

memory_serves : ServesBsls memory "openshift-adp"
memory_serves = record {
  names = map name_of;
  list_law = λ w v items e.
      ap (λ r. map name_of (world_of_reply w r)) (sym e)
      ∙ ap (λ r. map name_of (value_of_reply w r)) e;
  delete_law =
      λ b w v u e. ap (λ r. map name_of (world_of_reply w r)) (sym e) ∙ names-other_locations b w;
  event_law = λ kind name reason w. refl;
}

abbrev stale : BackupStorageLocation
stale = record { meta = meta_of "openshift-adp" "old"; spec = aws_spec }

abbrev before : State Locations
before = record { world = stale ∷ []; was_restic = false }

-- What CreateOrPatch makes of the location of the DPA.
abbrev created : BackupStorageLocation
created = record {
  meta = record {
    name = "dpa-1";
    namespace = "openshift-adp";
    labels = some (
        ("openshift.io/oadp-registry", "True")
        ∷ ("app.kubernetes.io/name", "oadp-operator-velero")
        ∷ ("app.kubernetes.io/instance", "dpa-1")
        ∷ ("app.kubernetes.io/managed-by", "oadp-operator")
        ∷ ("app.kubernetes.io/component", "bsl")
        ∷ ("openshift.io/oadp", "True")
        ∷ []);
    owner = some "dpa";
  };
  spec = record aws_spec {
    config = some (("region", "us-east-1") ∷ ("checksumAlgorithm", "") ∷ []);
  };
}

abbrev after : State Locations
after = record { world = created ∷ []; was_restic = false }

reconciled : reconcile_backup_storage_locations memory application before ≡ done true after
unfolding reconcile_backup_storage_locations oadp_operator.Cluster.◌>>=◌
    oadp_operator.Registry.get_secret_name_and_key oadp_operator.Prelude.lookup
    oadp_operator.Registry.verify_secret_content oadp_operator.Registry.get_provider_secret
    oadp_operator.Prelude.Text.contains_text oadp_operator.Prelude.Text.has_prefix
    oadp_operator.Bsl.Labels.update_credentials_secret_labels oadp_operator.Cluster.event
    oadp_operator.Cluster.own oadp_operator.Bsl.Patch.patch_secrets_for_bsl
    oadp_operator.Prelude.Text.decimal oadp_operator.Prelude.insert
reconciled = refl

reconcile_backup_storage_locations_prunes_example :
    (true ≡ true)
    × ((w u : Locations) × (items : List BackupStorageLocation) × (memory.list_bsls
            (some "openshift-adp")
            bsl_labels
            w
          ≡ ok items u)
        × (memory_serves.names after.world ≡ (
            if nat_eq (length (names_of "dpa" 0 application.backup_locations)) (length items)
            then map name_of items
            else filter
                (contains (names_of "dpa" 0 application.backup_locations))
                (map name_of items))))
reconcile_backup_storage_locations_prunes_example =
    reconcile_backup_storage_locations_prunes memory application memory_serves before after true
      reconciled
