-- ===== src/Examples/Registries.antt =====
-- The removal of the registry services of three storage locations, the second of which has none.
use oadp_operator.Prelude.{
  ◌≡◌, refl, sym, ap, String, Bool, true, false, List, [], ◌∷◌, none, some, map, filter, contains,
  ◌!=◌, if◌then◌else◌,
}
use oadp_operator.Api.{BackupStorageLocation}
use oadp_operator.Cluster.{Client, State, Reply, ok, err, ApiError, not_found, Outcome, panic, done}
use oadp_operator.Registry.Cleanup.{registry_object_name, component_labels, reconcile_registry_svcs}
use oadp_operator.Registry.Cleanup.Laws.{ServesObjects, taken_away, reconcile_registry_svcs_sound}
use oadp_operator.Examples.{application, meta_of, aws_spec}

-- The world is the list of the services.
abbrev Services : Type 0
Services = List String

abbrev location : String → BackupStorageLocation
location name = record { meta = meta_of "openshift-adp" name; spec = aws_spec }

abbrev listed : List BackupStorageLocation
listed = location "one" ∷ location "two" ∷ location "three" ∷ []

abbrev reply_if : Bool → Services → Reply Services (Unit {0})
reply_if b w = if b then ok tt w else err not_found w

abbrev services : Client
services = record {
  World = Services;
  get_secret = λ namespace name w. err not_found w;
  patch_secret = λ before after w. ok after w;
  get_cloud_storage = λ namespace name w. err not_found w;
  create_or_patch_bsl = λ namespace name f s. panic;
  create_or_patch_vsl = λ namespace name f s. panic;
  create_or_patch_secret = λ secret f s. panic;
  list_bsls = λ namespace labels w. ok listed w;
  list_vsls = λ namespace labels w. ok [] w;
  list_dpas = λ namespace w. ok [] w;
  delete_bsl = λ b w. ok tt w;
  delete_vsl = λ b w. ok tt w;
  get_object = λ kind namespace name w. reply_if (contains w name) w;
  delete_object = λ kind namespace name w. ok tt (filter (λ n. n != name) w);
  record_event = λ kind name reason w. w;
  set_controller_reference = λ owner meta. some (record meta { owner = some owner });
  bucket_region = λ bucket w. ok ("us-east-1", none) w;
  quantity_error = λ text. none;
  is_zero_quantity = λ text. false;
  strip_default_ports = λ url. some url;
}

abbrev reply_world : {A : Type 0} → Reply Services A → Services
reply_world r = elim r [ ok a w ↦ w | err e w ↦ w ]

replied_ok :
    (b : Bool) (w v : Services) (u : Unit {0}) → reply_if b w ≡ ok u v → (b ≡ true) × (v ≡ w)
replied_ok true w v u e = (refl, ap reply_world (sym e))
replied_ok false w v u e = absurd (cc)

replied_missing :
    (b : Bool) (w v : Services) → reply_if b w ≡ err not_found v → (b ≡ false) × (v ≡ w)
replied_missing true w v e = absurd (cc)
replied_missing false w v e = (refl, ap reply_world (sym e))

services_serves : ServesObjects services "Service" "openshift-adp"
services_serves = record {
  names = λ w. w;
  found_law = λ name w v u e. replied_ok (contains w name) w v u e;
  missing_law = λ name w v e. replied_missing (contains w name) w v e;
  delete_law = λ name w v u e. ap reply_world (sym e);
  list_law = λ w v items e. ap reply_world (sym e);
  event_law = λ about name reason w. refl;
}

abbrev before : State Services
before = record {
  world = "oadp-one-aws-registry-svc" ∷ "oadp-three-aws-registry-svc" ∷ [];
  was_restic = false;
}

-- The service of the third location is left.
abbrev after : State Services
after = record { world = "oadp-three-aws-registry-svc" ∷ []; was_restic = false }

removed : reconcile_registry_svcs services application before ≡ done true after
unfolding reconcile_registry_svcs oadp_operator.Cluster.◌>>=◌ oadp_operator.Cluster.event
removed = refl

reconcile_registry_svcs_sound_example :
    (true ≡ true)
    × ((items : List BackupStorageLocation) × (u : Services) × (services.list_bsls
            (some "openshift-adp")
            component_labels
            before.world
          ≡ ok items u)
        × (services_serves.names after.world
            ≡ taken_away
                (map (registry_object_name "-svc") items)
                (services_serves.names before.world)))
reconcile_registry_svcs_sound_example =
    reconcile_registry_svcs_sound services application services_serves before after true removed
