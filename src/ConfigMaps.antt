-- ===== src/ConfigMaps.antt =====
-- The config maps of the node agent, of the maintenance of repositories and of the backup
-- repository: ReconcileNodeAgentConfigMap of internal/controller/nodeagent.go,
-- ReconcileRepositoryMaintenanceConfigMap of repository_maintenance.go and
-- ReconcileBackupRepositoryConfigMap of backup_repository.go, which differ in their names only.
pub mod Synced
use oadp_operator.Prelude.{
  ◌≡◌, ℕ, String, Bool, true, false, not, ◌&&◌, ◌||◌, ◌==◌, ◌!=◌, List, [], ◌∷◌, Option, none, some,
  is_some, Dict, insert, if◌then◌else◌,
}
use oadp_operator.Prelude.Int.{ℤ}
use oadp_operator.Prelude.Lists.{is_empty}
use oadp_operator.Prelude.Text.{append}
use oadp_operator.Api.{ObjectMeta}
use oadp_operator.Cluster.{
  ApiError, Attempt, success, failure, attempt, Call, M, ◌>>=◌, ◌>>◌, pure, raise, deref, api,
  message, Tried, returned, failed, tried, Operation, op_none, op_created, op_updated, op_other,
  done,
}
use oadp_operator.Common.{or_empty}
use oadp_operator.Process.{is_not_found}

pub record ConfigMap : Type 0 where
  pub meta : ObjectMeta
  pub content : Option Dict

-- NodeAgentConfigMapSettings, each field as the text that stands for it
pub record NodeAgentSettings : Type 0 where
  pub load_concurrency : Option String
  pub backup_pvc_config : Dict
  pub restore_pvc_config : Option String
  pub pod_resources : Option String
  pub load_affinity_config : Option String

pub record KopiaOptions : Type 0 where
  pub cache_limit_mb : Option ℤ
  pub full_maintenance_interval : String

pub record NodeAgentMaps : Type 0 where
  pub enable : Option Bool
  pub settings : NodeAgentSettings
  pub kopia_options : KopiaOptions

-- The part of ApplicationConfig that the config maps are made of.
pub record MapsConfig : Type 0 where
  pub node_agent : Option NodeAgentMaps
  pub repository_maintenance : Dict

pub record Owner : Type 0 where
  pub name : String
  pub namespace : String
  pub configuration : Option MapsConfig

pub record Configs : Type 1 where
  pub World : Type 0
  -- namespace, name
  pub get_config_map : String → String → Call World ConfigMap
  pub delete_config_map : String → String → Call World (Unit {0})
  -- CreateOrPatch of the object with this namespace and name
  pub create_or_patch_config_map :
      String → String → (ConfigMap → M World ConfigMap) → M World (Operation × ConfigMap)
  -- the object's name, reason
  pub record_map_event : String → String → World → World
  pub own_map : String → ObjectMeta → Option ObjectMeta
  -- json.Marshal; none is its error
  pub marshal_settings : NodeAgentSettings → Option String
  pub marshal_options : KopiaOptions → Option String
  pub marshal_maintenance : Dict → Option String

abbrev is_given : {A : Type 0} → List A → Bool
is_given xs = not (is_empty xs)

unfoldable pub is_node_agent_enabled : MapsConfig → Bool
is_node_agent_enabled config = elim config.node_agent [
  | none ↦ false
  | some agent ↦ elim agent.enable [ none ↦ false | some b ↦ b ]
]

unfoldable pub is_node_agent_cm_required : NodeAgentSettings → Bool
is_node_agent_cm_required settings =
    is_some settings.load_concurrency
    || is_given settings.backup_pvc_config
    || is_some settings.restore_pvc_config
    || is_some settings.pod_resources
    || is_some settings.load_affinity_config

unfoldable pub is_repository_maintenance_cm_required : Option MapsConfig → Bool
is_repository_maintenance_cm_required config = elim config [
  | none ↦ false
  | some c ↦ is_given c.repository_maintenance
]

unfoldable pub is_backup_repository_cm_required : Option NodeAgentMaps → Bool
is_backup_repository_cm_required config = elim config [
  | none ↦ false
  | some agent ↦
      is_some agent.kopia_options.cache_limit_mb
      || agent.kopia_options.full_maintenance_interval != ""
]

-- What one of the three is made with: the prefix of its name, its component, the key of its entry,
-- the reasons of its events, the error of json.Marshal.
pub record Kind : Type 0 where
  pub prefix : String
  pub component : String
  pub key : String
  pub created : String
  pub updated : String
  pub deleted : String
  pub unserialized : String

abbrev pub node_agent_kind : Kind
node_agent_kind = record {
  prefix = "node-agent-";
  component = "node-agent-config";
  key = "node-agent-config";
  created = "CreatedNodeAgentConfigMap";
  updated = "UpdatedNodeAgentConfigMap";
  deleted = "DeletedNodeAgentConfigMap";
  unserialized = "failed to serialize node agent config";
}

abbrev pub repository_maintenance_kind : Kind
repository_maintenance_kind = record {
  prefix = "repository-maintenance-";
  component = "repository-maintenance-config";
  key = "repository-maintenance-config";
  created = "CreatedRepositoryMaintenanceConfigMap";
  updated = "UpdatedRepositoryMaintenanceConfigMap";
  deleted = "DeletedRepositoryMaintenanceConfigMap";
  unserialized = "failed to serialize repository maintenance config";
}

abbrev pub backup_repository_kind : Kind
backup_repository_kind = record {
  prefix = "backup-repository-";
  component = "backup-repository-config";
  key = "kopia";
  created = "CreatedBackupRepositoryConfigMap";
  updated = "UpdatedBackupRepositoryConfigMap";
  deleted = "DeletedBackupRepositoryConfigMap";
  unserialized = "failed to serialize backup repository config";
}

abbrev pub map_name : Kind → Owner → String
map_name kind dpa = append kind.prefix dpa.name

abbrev pub map_labels : Kind → Owner → Dict
map_labels kind dpa =
    ("app.kubernetes.io/instance", dpa.name)
    ∷ ("app.kubernetes.io/managed-by", "oadp-operator")
    ∷ ("app.kubernetes.io/component", kind.component)
    ∷ ("openshift.io/oadp", "True")
    ∷ []

-- The map that is stored, with the owner's metadata and the text of the entry.
unfoldable pub filled_map : Kind → Owner → String → ObjectMeta → ConfigMap → ConfigMap
filled_map kind dpa text meta cm = record {
  meta = record meta {
    name = map_name kind dpa;
    namespace = dpa.namespace;
    labels = some (map_labels kind dpa);
  };
  content = some (insert kind.key text (or_empty cm.content));
}

module _ (c : Configs) (dpa : Owner) where
  abbrev event : Kind → String → M c.World (Unit {0})
  event kind reason s =
      done tt (record s { world = c.record_map_event (map_name kind dpa) reason s.world })

  -- The function that changes the map, with the text that the settings are marshalled to.
  unfoldable pub update_map : Kind → Option String → ConfigMap → M c.World ConfigMap
  unfolding filled_map
  update_map kind json cm = elim (c.own_map dpa.name cm.meta) [
    | none ↦ raise (message "failed to set controller reference")
    | some meta ↦ elim json [
      | none ↦ raise (message kind.unserialized)
      | some text ↦ pure (filled_map kind dpa text meta cm)
    ]
  ]

  -- What follows the delete call.
  unfoldable pub after_delete_map : Kind → Attempt (Unit {0}) → M c.World Bool
  after_delete_map kind (success u) = event kind kind.deleted >>= λ u. pure true
  after_delete_map kind (failure e) = if is_not_found e then pure true else raise (api e)

  -- What follows the get call, where no map is required.
  unfoldable pub after_get_map : Kind → Attempt ConfigMap → M c.World Bool
  unfolding after_delete_map
  after_get_map kind (success cm) =
      attempt (c.delete_config_map dpa.namespace (map_name kind dpa)) >>= after_delete_map kind
  after_get_map kind (failure e) = if is_not_found e then pure true else raise (api e)

  unfoldable pub report_map : Kind → Operation → M c.World Bool
  report_map kind op_none = pure true
  report_map kind op_created = event kind kind.created >>= λ u. pure true
  report_map kind op_updated = event kind kind.updated >>= λ u. pure true
  report_map kind op_other = pure true

  -- What follows CreateOrPatch, which gives the operation and the map, or an error.
  unfoldable pub after_patch_map : Kind → Tried (Operation × ConfigMap) → M c.World Bool
  unfolding report_map
  after_patch_map kind (returned made) = report_map kind made.0
  after_patch_map kind (failed e) = raise (message "failed to create or patch config map")

  unfoldable pub reconcile_map : Kind → Bool → Option String → M c.World Bool
  unfolding update_map after_get_map after_patch_map
  reconcile_map kind required json =
      if required
      then (tried
            (c.create_or_patch_config_map dpa.namespace (map_name kind dpa) (update_map kind json))
          >>= after_patch_map kind)
      else attempt (c.get_config_map dpa.namespace (map_name kind dpa)) >>= after_get_map kind

  unfoldable pub settings_json : MapsConfig → Option String
  settings_json config = elim config.node_agent [
    | none ↦ none
    | some agent ↦ c.marshal_settings agent.settings
  ]

  unfoldable pub needs_node_agent_map : MapsConfig → Bool
  unfolding is_node_agent_enabled is_node_agent_cm_required
  needs_node_agent_map config = elim config.node_agent [
    | none ↦ false
    | some agent ↦ is_node_agent_enabled config && is_node_agent_cm_required agent.settings
  ]

  unfoldable pub reconcile_node_agent_config_map : M c.World Bool
  unfolding reconcile_map settings_json needs_node_agent_map
  reconcile_node_agent_config_map = deref dpa.configuration >>= λ config.
      reconcile_map node_agent_kind (needs_node_agent_map config) (settings_json config)

  unfoldable pub maintenance_json : Option String
  maintenance_json = elim dpa.configuration [
    | none ↦ none
    | some config ↦ c.marshal_maintenance config.repository_maintenance
  ]

  unfoldable pub reconcile_repository_maintenance_config_map : M c.World Bool
  unfolding reconcile_map is_repository_maintenance_cm_required maintenance_json
  reconcile_repository_maintenance_config_map =
      reconcile_map repository_maintenance_kind
        (is_repository_maintenance_cm_required dpa.configuration) maintenance_json

  unfoldable pub options_json : MapsConfig → Option String
  options_json config = elim config.node_agent [
    | none ↦ none
    | some agent ↦ c.marshal_options agent.kopia_options
  ]

  unfoldable pub reconcile_backup_repository_config_map : M c.World Bool
  unfolding reconcile_map is_backup_repository_cm_required options_json
  reconcile_backup_repository_config_map = deref dpa.configuration >>= λ config.
      reconcile_map backup_repository_kind (is_backup_repository_cm_required config.node_agent)
        (options_json config)
