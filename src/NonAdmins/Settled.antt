-- ===== src/NonAdmins/Settled.antt =====
-- A deployment that was built for a configuration is not changed by building it again.
use oadp_operator.Prelude.{
  ◌≡◌, sym, ap, subst, ◌∙◌, String, true, false, ◌==◌, List, Option, none, some, arith, Bool-cases,
  Option-cases, inl, inr,
}
use oadp_operator.Api.{NonAdmin}
use oadp_operator.Common.{EnvVar}
use oadp_operator.NonAdmins.{
  VeleroPart, NonAdminDpa, Container, Deployment, Remembered, Comparer, Built, built, no_container,
  nil_pointer, with_entry, ensure_container, is_changed, remember, fill_deployment,
  ensure_required_specs, non_admin_env, level_env, format_env, non_admin_object_name,
  control_plane_key, control_plane_label, resource_version_annotation,
}
use oadp_operator.NonAdmins.Again.{with_entry-with_entry, is_same_period_refl, ensure_again}

use_none : {kept : Remembered} → none ≡ some kept → ⊥
use_none e = cc

abbrev renewed : NonAdminDpa → String → NonAdminDpa
renewed dpa r = record dpa { resource_version = r }

abbrev fresh : NonAdminDpa → VeleroPart → Remembered → Remembered
fresh dpa velero past = record {
  resource_version = dpa.resource_version;
  non_admin = dpa.non_admin;
  sync_period = elim velero.args [ none ↦ past.sync_period | some period ↦ period ];
}

abbrev or_past : Remembered → Option Remembered → Remembered
or_past past none = past
or_past past (some kept) = kept

abbrev or_kept : Remembered → Built → Remembered
or_kept past (built later e) = later
or_kept past (no_container later) = past
or_kept past nil_pointer = past

abbrev or_deployed : Deployment → Built → Deployment
or_deployed d (built later e) = e
or_deployed d (no_container later) = d
or_deployed d nil_pointer = d

abbrev filled : NonAdminDpa → Remembered → Deployment → List Container → Deployment
filled dpa past d containers = record d {
  replicas = some 1;
  selector = some control_plane_label;
  template_labels = with_entry control_plane_key non_admin_object_name d.template_labels;
  template_annotations =
      with_entry resource_version_annotation past.resource_version d.template_annotations;
  containers = containers;
  restart_policy = "Always";
  service_account = non_admin_object_name;
}

filled-filled :
    (dpa : NonAdminDpa) (past : Remembered) (d : Deployment) (containers : List Container)
    → filled dpa past (filled dpa past d containers) containers ≡ filled dpa past d containers
filled-filled dpa past d containers =
    let twice = filled dpa past (filled dpa past d containers) containers in
    ap (λ m. record twice { template_labels = m })
      (with_entry-with_entry control_plane_key non_admin_object_name d.template_labels)
    ∙ ap (λ m. record (filled dpa past d containers) { template_annotations = m })
        (with_entry-with_entry resource_version_annotation past.resource_version
          d.template_annotations)

use_nil : {later : Remembered} {e : Deployment} → nil_pointer ≡ built later e → ⊥
use_nil h = cc

use_lost : {past later : Remembered} {e : Deployment} → no_container past ≡ built later e → ⊥
use_lost h = cc

module _ (c : Comparer) (dpa : NonAdminDpa) where
  remember-none : (past : Remembered) → dpa.velero ≡ none → remember c dpa past ≡ none
  unfolding remember
  remember-none past e = ground (arith, e)

  remember-changed :
      (velero : VeleroPart) (past : Remembered)
      → dpa.velero ≡ some velero
      → is_changed c dpa velero past ≡ true
      → remember c dpa past ≡ some (fresh dpa velero past)
  unfolding remember
  remember-changed velero past e t = ground (arith, e, t)

  remember-unchanged :
      (velero : VeleroPart) (past : Remembered)
      → dpa.velero ≡ some velero
      → is_changed c dpa velero past ≡ false
      → remember c dpa past ≡ some past
  unfolding remember
  remember-unchanged velero past e f = ground (arith, e, f)

  module _ (image policy : String) (past : Remembered) (d : Deployment) where
    abbrev env : List EnvVar
    env = non_admin_env c dpa d.namespace

    fill-none :
        ensure_container image policy env d.containers ≡ none
        → fill_deployment c dpa image policy past d ≡ no_container past
    unfolding fill_deployment
    fill-none e = ground (arith, e)

    fill-some :
        (containers : List Container)
        → ensure_container image policy env d.containers ≡ some containers
        → fill_deployment c dpa image policy past d ≡ built past (filled dpa past d containers)
    unfolding fill_deployment
    fill-some containers e = ground (arith, e)

module _ (c : Comparer) (dpa : NonAdminDpa) (image policy : String) (past : Remembered)
    (d : Deployment) where
  specs-none :
      remember c dpa past ≡ none → ensure_required_specs c dpa image policy past d ≡ nil_pointer
  unfolding ensure_required_specs
  specs-none e = ground (arith, e)

  specs-some :
      (kept : Remembered)
      → remember c dpa past ≡ some kept
      → ensure_required_specs c dpa image policy past d ≡ fill_deployment c dpa image policy kept d
  unfolding ensure_required_specs
  specs-some kept e = ground (arith, e)

module _ (c : Comparer) (same : (x : Option NonAdmin) → c.is_same x x ≡ true) (dpa : NonAdminDpa)
    (listed : (dpa.resource_version == "") ≡ false) (r : String) where
  fresh-unchanged :
      (velero : VeleroPart) (past : Remembered)
      → is_changed c (renewed dpa r) velero (fresh dpa velero past) ≡ false
  unfolding is_changed
  fresh-unchanged velero past = elim (Option-cases velero.args) [
    | inl e ↦ ground (arith, same dpa.non_admin, listed, e)
    | inr (p, e) ↦ ground (arith, same dpa.non_admin, listed, e, is_same_period_refl p)
  ]

  still_unchanged :
      (velero : VeleroPart) (past : Remembered)
      → is_changed c dpa velero past ≡ false
      → is_changed c (renewed dpa r) velero past ≡ false
  unfolding is_changed
  still_unchanged velero past f = f

  remember_again :
      (past kept : Remembered)
      → remember c dpa past ≡ some kept
      → remember c (renewed dpa r) kept ≡ some kept
  remember_again past kept h = elim (Option-cases dpa.velero) [
    | inl e ↦ absurd (use_none (sym (remember-none c dpa past e) ∙ h))
    | inr (velero, e) ↦ elim (Bool-cases (is_changed c dpa velero past)) [
      | inl t ↦
          subst (λ m. remember c (renewed dpa r) m ≡ some m)
            (ap (or_past past) (sym (remember-changed c dpa velero past e t) ∙ h))
            (remember-unchanged c (renewed dpa r) velero (fresh dpa velero past) e
              (fresh-unchanged velero past))
      | inr f ↦
          subst (λ m. remember c (renewed dpa r) m ≡ some m)
            (ap (or_past past) (sym (remember-unchanged c dpa velero past e f) ∙ h))
            (remember-unchanged c (renewed dpa r) velero past e (still_unchanged velero past f))
    ]
  ]

  filled_again :
      (image policy : String) (past : Remembered) (d : Deployment) (containers : List Container)
      → ensure_container image policy (non_admin_env c dpa d.namespace) d.containers
        ≡ some containers
      → fill_deployment c (renewed dpa r) image policy past (filled dpa past d containers)
        ≡ built past (filled dpa past d containers)
  unfolding non_admin_env level_env format_env
  filled_again image policy past d containers e =
      fill-some c (renewed dpa r) image policy past (filled dpa past d containers) containers
        (ensure_again image policy (non_admin_env c dpa d.namespace) d.containers containers e)
      ∙ ap (built past) (filled-filled dpa past d containers)

  -- Where the deployment was built for a DPA with a resource version, building it again does
  -- nothing, when the DPA has changed in its resource version only: the deployment and what is
  -- remembered stay the same. This is of a comparison that finds every configuration the same as
  -- itself.
  pub ensure_required_specs_again :
      (image policy : String) (past later : Remembered) (d e : Deployment)
      → ensure_required_specs c dpa image policy past d ≡ built later e
      → ensure_required_specs c (renewed dpa r) image policy later e ≡ built later e
  ensure_required_specs_again image policy past later d e h =
      elim (Option-cases (remember c dpa past)) [
        | inl n ↦ absurd (use_nil (sym (specs-none c dpa image policy past d n) ∙ h))
        | inr (kept, k) ↦
            let env = non_admin_env c dpa d.namespace in
            elim (Option-cases (ensure_container image policy env d.containers)) [
              | inl n ↦ absurd (
                  use_lost (
                    sym (
                      specs-some c dpa image policy past d kept k
                      ∙ fill-none c dpa image policy kept d n)
                    ∙ h))
              | inr (containers, x) ↦
                  let made =
                    sym (
                      specs-some c dpa image policy past d kept k
                      ∙ fill-some c dpa image policy kept d containers x)
                    ∙ h in
                  let same_later = ap (or_kept past) made in
                  let same_deployment = ap (or_deployed d) made in
                  subst (λ l. ensure_required_specs c (renewed dpa r) image policy l e ≡ built l e)
                    same_later
                    (subst
                      (λ f.
                        ensure_required_specs c (renewed dpa r) image policy kept f ≡ built kept f)
                      same_deployment
                      (specs-some c (renewed dpa r) image policy kept (filled dpa kept d containers)
                          kept (remember_again past kept k)
                        ∙ filled_again image policy kept d containers x))
            ]
      ]
