-- ===== src/Api/Correct.antt =====
-- AutoCorrect (api/v1alpha1/dataprotectionapplication_types.go) and RemoveDuplicateValues
-- (pkg/common/common.go).
pub mod Laws
use oadp_operator.Prelude.{
  String, Bool, true, false, ◌&&◌, ◌||◌, not, List, [], ◌∷◌, ◌++◌, Option, none, some, contains,
  is_some, is_none, ◌==◌, ◌!=◌, if◌then◌else◌,
}
use oadp_operator.Prelude.Int.{ℤ}
use oadp_operator.Api.{
  DataProtectionApplication, ApplicationConfig, VeleroConfig, VeleroServerArgs, NodeAgentConfig,
}

-- The loop of RemoveDuplicateValues, with the keys that were found.
unfoldable pub remove_seen : List String → List String → List String
remove_seen keys [] = []
remove_seen keys (entry ∷ rest) = elim (contains keys entry) [
  | true ↦ remove_seen keys rest
  | false ↦ entry ∷ remove_seen (entry ∷ keys) rest
]

unfoldable pub remove_duplicate_values : List String → List String
unfolding remove_seen
remove_duplicate_values slice = remove_seen [] slice

-- velero.CSIFeatureFlag, velero.APIGroupVersionsFeatureFlag, time.ParseDuration and the text of
-- DefaultRestoreResourcePriorities, which are not the repository's code.
pub record Velero : Type 0 where
  pub csi_feature_flag : String
  pub api_group_versions_feature_flag : String
  pub parse_duration : String → Option ℤ
  pub default_restore_resource_priorities : String

unfoldable pub has_csi_plugin : List String → Bool
has_csi_plugin plugins = contains plugins "csi"

module _ (velero : Velero) where
  -- The feature flags before duplicates are removed.
  unfoldable pub added_flags : VeleroConfig → List String
  added_flags v = with_versions (with_csi v.feature_flags)
    where
      with_csi : List String → List String
      with_csi flags =
          if has_csi_plugin v.default_plugins then flags ++ velero.csi_feature_flag ∷ [] else flags

      with_versions : List String → List String
      with_versions flags =
          if v.restore_resources_version_priority != ""
          then flags ++ velero.api_group_versions_feature_flag ∷ []
          else flags

  -- fsBackupTimeout
  abbrev fs_backup_timeout : Option NodeAgentConfig → String
  fs_backup_timeout agent = elim agent [
    | none ↦ "4h"
    | some a ↦ if a.timeout == "" then "4h" else a.timeout
  ]

  unfoldable pub correct_args : Option NodeAgentConfig → VeleroServerArgs → VeleroServerArgs
  correct_args agent args = record args {
    pod_volume_operation_timeout = elim args.pod_volume_operation_timeout [
      | some d ↦ some d
      | none ↦ velero.parse_duration (fs_backup_timeout agent)
    ];
    restore_resource_priorities =
        if args.restore_resource_priorities == ""
        then velero.default_restore_resource_priorities
        else args.restore_resource_priorities;
  }

  -- The node selector of the old schema, as the load affinity of the new one.
  unfoldable pub correct_node_agent : NodeAgentConfig → NodeAgentConfig
  correct_node_agent agent = elim agent.pod_config [
    | none ↦ agent
    | some pod ↦ elim pod.node_selector [
      | none ↦ agent
      | some selector ↦ elim agent.load_affinity_config [
        | some affinity ↦ agent
        | none ↦ record agent {
          load_affinity_config =
              some (record { match_labels = some selector; has_match_expressions = false } ∷ []);
        }
      ]
    ]
  ]

  unfoldable pub correct_velero : Option NodeAgentConfig → VeleroConfig → VeleroConfig
  unfolding has_csi_plugin added_flags correct_args remove_duplicate_values
  correct_velero agent v = record v {
    args = elim v.args [ none ↦ none | some a ↦ some (correct_args agent a) ];
    default_plugins = remove_duplicate_values v.default_plugins;
    feature_flags = remove_duplicate_values (added_flags v);
  }

  -- `none` where a nil pointer is dereferenced.
  unfoldable pub auto_correct : DataProtectionApplication → Option DataProtectionApplication
  unfolding correct_velero correct_node_agent
  auto_correct dpa = elim dpa.configuration [
    | none ↦ none
    | some a ↦ elim a.velero [
      | none ↦ none
      | some v ↦ some (record dpa {
        configuration = some (record a {
          velero = some (correct_velero a.node_agent v);
          node_agent = elim a.node_agent [
            | none ↦ none
            | some agent ↦ some (correct_node_agent agent)
          ];
        });
      })
    ]
  ]
