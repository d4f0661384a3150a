-- ===== src/Examples/Deployments.antt =====
-- A deployment of the non-admin controller that is built twice.
use oadp_operator.Prelude.{◌≡◌, refl, String, Bool, true, false, [], Option, none, some}
use oadp_operator.Api.{NonAdmin}
use oadp_operator.NonAdmins.{
  NonAdminDpa, Deployment, Remembered, Comparer, Built, built, ensure_required_specs,
}
use oadp_operator.NonAdmins.Settled.{ensure_required_specs_again}

abbrev is_same_switch : Option Bool → Option Bool → Bool
is_same_switch none none = true
is_same_switch none (some b) = false
is_same_switch (some a) none = false
is_same_switch (some true) (some true) = true
is_same_switch (some true) (some false) = false
is_same_switch (some false) (some true) = false
is_same_switch (some false) (some false) = true

is_same_switch_refl : (a : Option Bool) → is_same_switch a a ≡ true
is_same_switch_refl none = refl
is_same_switch_refl (some true) = refl
is_same_switch_refl (some false) = refl

-- Two configurations are compared by what they enable.
abbrev is_same_config : Option NonAdmin → Option NonAdmin → Bool
is_same_config none none = true
is_same_config none (some b) = false
is_same_config (some a) none = false
is_same_config (some a) (some b) = is_same_switch a.enable b.enable

is_same_config_refl : (a : Option NonAdmin) → is_same_config a a ≡ true
is_same_config_refl none = refl
is_same_config_refl (some a) = is_same_switch_refl a.enable

abbrev comparer : Comparer
comparer = record { is_same = is_same_config; parse_level = λ level. some 4 }

abbrev switched_on : NonAdminDpa
switched_on = record {
  resource_version = "17";
  non_admin = none;
  velero = some (record { log_level = "info"; args = none });
  log_format = "json";
  unsupported_overrides = none;
}

abbrev blank : Deployment
blank = record {
  namespace = "openshift-adp";
  labels = none;
  replicas = none;
  selector = none;
  template_labels = none;
  template_annotations = none;
  containers = [];
  restart_policy = "";
  service_account = "";
}

abbrev nothing : Remembered
nothing = record { resource_version = ""; non_admin = none; sync_period = none }

abbrev or_nothing : Built → Remembered
or_nothing (built later e) = later
or_nothing _ = nothing

abbrev or_blank : Built → Deployment
or_blank (built later e) = e
or_blank _ = blank

abbrev image : String
image = "quay.io/konveyor/oadp-non-admin:latest"

abbrev first_built : Built
first_built = ensure_required_specs comparer switched_on image "Always" nothing blank

ensure_required_specs_again_example :
    ensure_required_specs comparer
      (record switched_on { resource_version = "18" })
      image
      "Always"
      (or_nothing first_built)
      (or_blank first_built)
    ≡ built (or_nothing first_built) (or_blank first_built)
unfolding ensure_required_specs
ensure_required_specs_again_example =
    ensure_required_specs_again comparer is_same_config_refl switched_on refl "18" image "Always"
      nothing (or_nothing first_built) blank (or_blank first_built) refl
