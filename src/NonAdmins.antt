-- ===== src/NonAdmins.antt =====
-- The deployment of the non-admin controller: internal/controller/nonadmin_controller.go, with the
-- package variables that remember the configuration of the last deployment.
mod Again
pub mod Settled
use oadp_operator.Prelude.{
  ◌≡◌, ℕ, zero, suc, String, Bool, true, false, not, ◌&&◌, ◌||◌, ◌==◌, ◌!=◌, nat_eq, List, [], ◌∷◌,
  ◌++◌, Option, none, some, is_some, Dict, insert, index, if◌then◌else◌,
}
use oadp_operator.Prelude.Int.{ℤ, pos, negsuc}
use oadp_operator.Prelude.Text.{decimal}
use oadp_operator.Api.{NonAdmin}
use oadp_operator.Common.{EnvVar, or_empty}

-- Of spec.configuration.velero: the log level, and of the arguments backupSyncPeriod.
pub record VeleroPart : Type 0 where
  pub log_level : String
  pub args : Option (Option ℤ)

-- The fields of the DPA that are read; `velero` is none where a pointer on the way is nil.
pub record NonAdminDpa : Type 0 where
  pub resource_version : String
  pub non_admin : Option NonAdmin
  pub velero : Option VeleroPart
  pub log_format : String
  pub unsupported_overrides : Option Dict

pub record Container : Type 0 where
  pub name : String
  pub image : String
  pub pull_policy : String
  pub env : List EnvVar
  pub termination_policy : String

pub record Deployment : Type 0 where
  pub namespace : String
  pub labels : Option Dict
  pub replicas : Option ℕ
  pub selector : Option Dict
  pub template_labels : Option Dict
  pub template_annotations : Option Dict
  pub containers : List Container
  pub restart_policy : String
  pub service_account : String

-- dpaResourceVersion, previousNonAdminConfiguration and previousDefaultBSLSyncPeriod
pub record Remembered : Type 0 where
  pub resource_version : String
  pub non_admin : Option NonAdmin
  pub sync_period : Option ℤ

-- reflect.DeepEqual of two configurations, and logrus.ParseLevel.
pub record Comparer : Type 0 where
  pub is_same : Option NonAdmin → Option NonAdmin → Bool
  pub parse_level : String → Option ℕ

abbrev pub non_admin_object_name : String
non_admin_object_name = "non-admin-controller"

abbrev pub control_plane_key : String
control_plane_key = "control-plane"

abbrev pub control_plane_label : Dict
control_plane_label = (control_plane_key, non_admin_object_name) ∷ []

abbrev pub resource_version_annotation : String
resource_version_annotation = "openshift.io/oadp-dpa-resource-version"

-- deploymentLabels, with the label of the control plane copied into it.
abbrev pub deployment_labels : Dict
deployment_labels =
    ("app.kubernetes.io/component", "manager")
    ∷ ("app.kubernetes.io/created-by", "oadp-operator")
    ∷ ("app.kubernetes.io/instance", non_admin_object_name)
    ∷ ("app.kubernetes.io/managed-by", "kustomize")
    ∷ ("app.kubernetes.io/name", "deployment")
    ∷ ("app.kubernetes.io/part-of", "oadp-operator")
    ∷ control_plane_label

-- `for key, value := range deploymentLabels { labels[key] = value }`
unfoldable pub copy_labels : Dict → Dict → Dict
copy_labels [] old = old
copy_labels ((k, v) ∷ rest) old = copy_labels rest (insert k v old)

unfoldable pub ensure_required_labels : Deployment → Deployment
unfolding copy_labels
ensure_required_labels d = record d {
  labels = elim d.labels [
    | none ↦ some deployment_labels
    | some old ↦ some (copy_labels deployment_labels old)
  ];
}

-- A map of the template, with this entry.
unfoldable pub with_entry : String → String → Option Dict → Option Dict
with_entry key value none = some ((key, value) ∷ [])
with_entry key value (some old) = some (insert key value old)

-- reflect.DeepEqual of two pointers to a duration
unfoldable pub is_same_period : Option ℤ → Option ℤ → Bool
is_same_period none none = true
is_same_period none (some y) = false
is_same_period (some x) none = false
is_same_period (some (pos n)) (some (pos m)) = nat_eq n m
is_same_period (some (pos n)) (some (negsuc m)) = false
is_same_period (some (negsuc n)) (some (pos m)) = false
is_same_period (some (negsuc n)) (some (negsuc m)) = nat_eq n m

unfoldable pub get_non_admin_image : String → NonAdminDpa → String
get_non_admin_image related dpa =
    let unsupported = index "nonAdminControllerImageFqin" dpa.unsupported_overrides in
    if unsupported != ""
    then unsupported
    else if related != ""
    then related
    else "quay.io/konveyor/oadp-non-admin:latest"

abbrev pub new_container : String → String → List EnvVar → Container
new_container image policy env = record {
  name = non_admin_object_name;
  image = image;
  pull_policy = policy;
  env = env;
  termination_policy = "FallbackToLogsOnError";
}

abbrev pub changed_container : String → String → List EnvVar → Container → Container
changed_container image policy env x = record x {
  image = image;
  pull_policy = policy;
  env = env;
  termination_policy = "FallbackToLogsOnError";
}

-- The loop over the containers: the first of the name is changed; `none` if there is none.
unfoldable pub change_container :
    String → String → List EnvVar → List Container → Option (List Container)
change_container image policy env [] = none
change_container image policy env (x ∷ rest) =
    let later = change_container image policy env rest in
    if x.name == non_admin_object_name
    then some (changed_container image policy env x ∷ rest)
    else elim later [ none ↦ none | some xs ↦ some (x ∷ xs) ]

-- The containers, of which none is made one.
unfoldable pub ensure_container :
    String → String → List EnvVar → List Container → Option (List Container)
unfolding change_container
ensure_container image policy env [] = some (new_container image policy env ∷ [])
ensure_container image policy env (x ∷ rest) = change_container image policy env (x ∷ rest)

-- What is built: the variables and the deployment; an error; or a nil pointer.
pub data Built : Type 0 where
  built : Remembered → Deployment → Built
  no_container : Remembered → Built
  nil_pointer : Built

module _ (c : Comparer) where
  -- What is remembered of the DPA; `none` is the dereference of a nil pointer.
  unfoldable pub is_changed : NonAdminDpa → VeleroPart → Remembered → Bool
  unfolding is_same_period
  is_changed dpa velero past =
      past.resource_version == ""
      || not (c.is_same dpa.non_admin past.non_admin)
      || elim velero.args [
        | none ↦ false
        | some period ↦ not (is_same_period period past.sync_period)
      ]

  unfoldable pub remember : NonAdminDpa → Remembered → Option Remembered
  unfolding is_changed
  remember dpa past = elim dpa.velero [
    | none ↦ none
    | some velero ↦
        if is_changed dpa velero past
        then some (record {
          resource_version = dpa.resource_version;
          non_admin = dpa.non_admin;
          sync_period = elim velero.args [ none ↦ past.sync_period | some period ↦ period ];
        })
        else some past
  ]

  unfoldable pub level_env : NonAdminDpa → List EnvVar
  level_env dpa = elim dpa.velero [
    | none ↦ []
    | some velero ↦
        ("LOG_LEVEL", elim (c.parse_level velero.log_level) [ none ↦ "" | some n ↦ decimal n ]) ∷ []
  ]

  unfoldable pub format_env : NonAdminDpa → List EnvVar
  format_env dpa = if dpa.log_format != "" then ("LOG_FORMAT", dpa.log_format) ∷ [] else []

  unfoldable pub non_admin_env : NonAdminDpa → String → List EnvVar
  unfolding level_env format_env
  non_admin_env dpa namespace = ("WATCH_NAMESPACE", namespace) ∷ (level_env dpa ++ format_env dpa)

  unfoldable pub fill_deployment : NonAdminDpa → String → String → Remembered → Deployment → Built
  unfolding with_entry ensure_container non_admin_env
  fill_deployment dpa image policy past d =
      elim (ensure_container image policy (non_admin_env dpa d.namespace) d.containers) [
        | none ↦ no_container past
        | some containers ↦ built past (record d {
          replicas = some 1;
          selector = some control_plane_label;
          template_labels = with_entry control_plane_key non_admin_object_name d.template_labels;
          template_annotations =
              with_entry resource_version_annotation past.resource_version d.template_annotations;
          containers = containers;
          restart_policy = "Always";
          service_account = non_admin_object_name;
        })
      ]

  unfoldable pub ensure_required_specs :
      NonAdminDpa → String → String → Remembered → Deployment → Built
  unfolding remember fill_deployment
  ensure_required_specs dpa image policy past d = elim (remember dpa past) [
    | none ↦ nil_pointer
    | some kept ↦ fill_deployment dpa image policy kept d
  ]

  -- The policy is that of GetImagePullPolicy.
  unfoldable pub build_non_admin_deployment :
      NonAdminDpa → String → String → Remembered → Deployment → Built
  unfolding ensure_required_labels ensure_required_specs
  build_non_admin_deployment dpa image policy past d =
      ensure_required_specs dpa image policy past (ensure_required_labels d)
