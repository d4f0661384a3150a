-- ===== src/Registry/Cleanup.antt =====
-- The removal of the image registries that earlier versions made: ReconcileRegistries,
-- ReconcileRegistrySVCs, ReconcileRegistryRoutes and ReconcileRegistryRouteConfigs of registry.go.
pub mod Laws
use oadp_operator.Prelude.{
  String, Bool, true, false, List, [], ◌∷◌, Option, none, some, Dict, map, if◌then◌else◌,
}
use oadp_operator.Prelude.Text.{append}
use oadp_operator.Api.{BackupStorageLocation, DataProtectionApplication}
use oadp_operator.Cluster.{
  Client, M, Attempt, success, failure, ApiError, not_found, already_exists, conflict, other, api,
  ◌>>=◌, ◌>>◌, pure, raise, call, attempt, event,
}

-- registryName
unfoldable pub registry_name : BackupStorageLocation → String
registry_name bsl =
    append "oadp-" (append bsl.meta.name (append "-" (append bsl.spec.provider "-registry")))

-- The name with the suffix of a service or a route.
unfoldable pub registry_object_name : String → BackupStorageLocation → String
unfolding registry_name
registry_object_name suffix bsl = append (registry_name bsl) suffix

abbrev pub registry_bsl_labels : Dict
registry_bsl_labels =
    ("app.kubernetes.io/name", "oadp-operator-velero")
    ∷ ("app.kubernetes.io/managed-by", "oadp-operator")
    ∷ ("app.kubernetes.io/component", "bsl")
    ∷ ("openshift.io/oadp-registry", "True")
    ∷ []

abbrev pub component_labels : Dict
component_labels = ("app.kubernetes.io/component", "bsl") ∷ []

module _ (c : Client) (dpa : DataProtectionApplication) where
  -- What follows the delete call of an object; the strings before the name are the reasons of the
  -- events.
  unfoldable pub finish_delete :
      String → String → String → String → Attempt (Unit {0}) → M c.World Bool
  finish_delete kind deleted failed name (success u) = event c kind name deleted >> pure true
  finish_delete kind deleted failed name (failure e) = event c kind name failed >> raise (api e)

  -- What follows the get call.
  unfoldable pub finish_get :
      String → String → String → String → Attempt (Unit {0}) → M c.World Bool
  unfolding finish_delete
  finish_get kind deleted failed name (success u) =
      attempt (c.delete_object kind dpa.namespace name) >>= finish_delete kind deleted failed name
  finish_get kind deleted failed name (failure not_found) = pure false
  finish_get kind deleted failed name (failure already_exists) = raise (api already_exists)
  finish_get kind deleted failed name (failure conflict) = raise (api conflict)
  finish_get kind deleted failed name (failure (other text)) = raise (api (other text))

  -- The body of the loops: whether the object was found, and so deleted.
  unfoldable pub delete_registry_object : String → String → String → String → M c.World Bool
  unfolding finish_get
  delete_registry_object kind deleted failed name =
      attempt (c.get_object kind dpa.namespace name) >>= finish_get kind deleted failed name

  -- A loop over the names; it returns true where an object is not found.
  unfoldable pub delete_registry_objects : String → String → String → List String → M c.World Bool
  unfolding delete_registry_object
  delete_registry_objects kind deleted failed [] = pure true
  delete_registry_objects kind deleted failed (name ∷ rest) =
      delete_registry_object kind deleted failed name >>= λ found.
      if found then delete_registry_objects kind deleted failed rest else pure true

  unfoldable pub reconcile_registries : M c.World Bool
  unfolding registry_name delete_registry_objects
  reconcile_registries = do
    bsls ← call (c.list_bsls none registry_bsl_labels)
    delete_registry_objects "Deployment" "DeletedRegistryDeployment"
        "DeleteRegistryDeploymentFailed" (map registry_name bsls)

  unfoldable pub reconcile_registry_svcs : M c.World Bool
  unfolding registry_object_name delete_registry_objects
  reconcile_registry_svcs = do
    bsls ← call (c.list_bsls (some dpa.namespace) component_labels)
    delete_registry_objects "Service" "DeletedRegistryService" "DeleteRegistryServiceFailed"
        (map (registry_object_name "-svc") bsls)

  unfoldable pub reconcile_registry_routes : M c.World Bool
  unfolding registry_object_name delete_registry_objects
  reconcile_registry_routes = do
    bsls ← call (c.list_bsls (some dpa.namespace) component_labels)
    delete_registry_objects "Route" "DeletedRegistryRoute" "DeleteRegistryRouteFailed"
        (map (registry_object_name "-route") bsls)

  unfoldable pub reconcile_registry_route_configs : M c.World Bool
  unfolding delete_registry_object
  reconcile_registry_route_configs =
      delete_registry_object "ConfigMap" "DeletedRegistryConfigMap" "DeleteRegistryConfigMapFailed"
        "oadp-registry-config"
      >> pure true
