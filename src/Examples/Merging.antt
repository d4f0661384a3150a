-- ===== src/Examples/Merging.antt =====
-- Merging maps and environment variables.
use oadp_operator.Prelude.{◌≡◌, refl, List, [], ◌∷◌, Option, none, some, Dict, lookup, insert, map}
use oadp_operator.Api.Correct.Laws.{HasNoDuplicates}
use oadp_operator.Registry.KeyValue.{parsed}
use oadp_operator.Common.{EnvVar, append_unique_key_t_of_t_maps, append_unique_env_vars}
use oadp_operator.Common.Maps.{HasMaps, append_unique_key_t_of_t_maps_sound}
use oadp_operator.Common.EnvVars.{joined, env_name, append_unique_env_vars_sound}

abbrev label_maps : List (Option Dict)
label_maps =
    none ∷ some (("app", "velero") ∷ []) ∷ some (("app", "velero") ∷ ("team", "storage") ∷ []) ∷ []

abbrev all_labels : Option Dict
all_labels = some (("app", "velero") ∷ ("team", "storage") ∷ [])

labels_merge : append_unique_key_t_of_t_maps label_maps ≡ parsed all_labels
unfolding append_unique_key_t_of_t_maps lookup insert
labels_merge = refl

append_unique_key_t_of_t_maps_sound_example : HasMaps label_maps all_labels
append_unique_key_t_of_t_maps_sound_example =
    append_unique_key_t_of_t_maps_sound label_maps all_labels labels_merge

abbrev variables : List (List EnvVar)
variables = (("HTTP_PROXY", "one") ∷ []) ∷ (("HTTP_PROXY", "two") ∷ ("NO_PROXY", "local") ∷ []) ∷ []

append_unique_env_vars_sound_example :
    (lookup "HTTP_PROXY" (append_unique_env_vars variables)
      ≡ lookup "HTTP_PROXY" (joined variables))
    × HasNoDuplicates (map env_name (append_unique_env_vars variables))
append_unique_env_vars_sound_example = append_unique_env_vars_sound variables "HTTP_PROXY"
