-- ===== src/Common.antt =====
-- pkg/common/common.go: the merging of maps and of environment variables.
pub mod Maps
pub mod EnvVars
use oadp_operator.Prelude.{
  String, Bool, true, false, List, [], ◌∷◌, ◌++◌, Option, none, some, Dict, lookup, insert, ◌==◌,
  ◌||◌, if◌then◌else◌,
}
use oadp_operator.Cluster.{about}
use oadp_operator.Registry.KeyValue.{Parsed, parsed, refused}

-- One map is added to the base; a key with another value is a conflict.
unfoldable pub add_entries : Dict → Dict → Parsed Dict
add_entries base [] = parsed base
add_entries base ((k, v) ∷ rest) = elim (lookup k base) [
  | none ↦ add_entries (insert k v base) rest
  | some w ↦ elim (w == v) [
    | true ↦ add_entries base rest
    | false ↦
        refused (about "conflicting key %v with value %v may not override %v" (k ∷ v ∷ w ∷ []))
  ]
]

-- A nil map is made an empty one.
abbrev pub or_empty : Option Dict → Dict
or_empty none = []
or_empty (some m) = m

-- The loop of AppendUniqueKeyTOfTMaps, with the base so far, which is nil before the first map that
-- is not.
unfoldable pub append_unique_keys_to : Option Dict → List (Option Dict) → Parsed (Option Dict)
unfolding add_entries
append_unique_keys_to base [] = parsed base
append_unique_keys_to base (none ∷ rest) = append_unique_keys_to base rest
append_unique_keys_to base (some labels ∷ rest) = elim (add_entries (or_empty base) labels) [
  | parsed m ↦ append_unique_keys_to (some m) rest
  | refused e ↦ refused e
]

unfoldable pub append_unique_key_t_of_t_maps : List (Option Dict) → Parsed (Option Dict)
unfolding append_unique_keys_to
append_unique_key_t_of_t_maps maps = append_unique_keys_to none maps

-- corev1.EnvVar: its name, and the rest as a text.
abbrev pub EnvVar : Type 0
EnvVar = String × String

unfoldable pub contains_env_var : List EnvVar → EnvVar → Bool
contains_env_var [] var = false
contains_env_var (e ∷ vars) var = e.0 == var.0 || contains_env_var vars var

-- The inner loop.
unfoldable pub add_env_vars : List EnvVar → List EnvVar → List EnvVar
unfolding contains_env_var
add_env_vars base [] = base
add_env_vars base (var ∷ vars) = elim (contains_env_var base var) [
  | true ↦ add_env_vars base vars
  | false ↦ add_env_vars (base ++ var ∷ []) vars
]

unfoldable pub append_env_vars_to : List EnvVar → List (List EnvVar) → List EnvVar
unfolding add_env_vars
append_env_vars_to base [] = base
append_env_vars_to base (vars ∷ rest) = append_env_vars_to (add_env_vars base vars) rest

-- A nil list is an empty one.
unfoldable pub append_unique_env_vars : List (List EnvVar) → List EnvVar
unfolding append_env_vars_to
append_unique_env_vars lists = append_env_vars_to [] lists
