-- ===== src/Dpt/Controller/Phases.antt =====
-- The phases of a DataProtectionTest, and that Reconcile moves along them.
use oadp_operator.Prelude.{
  ◌≡◌, sym, subst, ◌∙◌, String, Bool, true, false, not, ◌&&◌, ◌==◌, ◌!=◌, some, if◌then◌else◌,
  arith, eq_of_test,
}
use oadp_operator.Prelude.Lists.{is_empty}
use oadp_operator.Api.{BslSpec}
use oadp_operator.Cluster.{ApiError, Attempt, success, failure, call, ok, err, M, pure, raise, api}
use oadp_operator.Cluster.Holds.{
  after, Holds, Keeps, Holds-call, Holds-attempt, Holds-bind, Holds-from, Holds-if,
}
use oadp_operator.Cluster.Keeps.{
  attempt-Keeps, pure-Keeps, raise-Keeps, deref-Keeps, tried-Keeps, if-Keeps, bind-Keeps,
  replied-Keeps, returned-Keeps, option-Keeps,
}
use oadp_operator.Cluster.Moves.{RepliedTo}
use oadp_operator.Process.{is_not_found}
use oadp_operator.Dpt.{Lab, DataProtectionTest, TestStatus, Provider}
use oadp_operator.Dpt.Kept.{
  Aloof, determine_vendor-Kept, initialize_provider-Kept, run_upload_test-Kept, metadata-Kept,
  run_snapshot_tests-Kept,
}
use oadp_operator.Dpt.Providers.{initialize_provider}
use oadp_operator.Dpt.Controller

-- A step of the phases, where the first argument is spec.forceRun.
pub data Move : Bool → String → String → Type 0 where
  stay : {forced : Bool} {phase : String} → Move forced phase phase
  start :
      {forced : Bool} {phase : String}
      → (Controller.is_settled phase && not forced) ≡ false
      → (phase != "InProgress") ≡ true
      → Move forced phase "InProgress"
  complete : {forced : Bool} → Move forced "InProgress" "Complete"
  give_up : {forced : Bool} → Move forced "InProgress" "Failed"

abbrev pub SamePhase : {W : Type 0} → (W → String) → W → W → Type 0
SamePhase phase_in w v = phase_in v ≡ phase_in w

-- What the cluster does with one DataProtectionTest: its phase and its flag. Retrying a step keeps
-- what the step keeps.
pub record ServesTest (c : Lab) (namespace name : String) (phase_in : c.World → String)
    (forced_in : c.World → Bool) : Type 1 where
  pub aloof : Aloof c (SamePhase phase_in)
  pub get_leaves : (w : c.World) → SamePhase phase_in w (after (c.get_test namespace name w))
  pub get_reads :
      (w v : c.World) (x : DataProtectionTest)
      → c.get_test namespace name w ≡ ok x v
      → (x.namespace ≡ namespace)
        × (x.name ≡ name)
        × (x.status.phase ≡ phase_in w)
        × (x.force_run ≡ forced_in w)
  pub update_stores :
      (x : DataProtectionTest) (w v : c.World)
      → x.namespace ≡ namespace
      → x.name ≡ name
      → c.update_test_status x w ≡ ok tt v
      → phase_in v ≡ x.status.phase
  pub update_refused :
      (x : DataProtectionTest) (e : ApiError) (w v : c.World)
      → c.update_test_status x w ≡ err e v
      → SamePhase phase_in w v
  pub reset_leaves :
      (w : c.World) → SamePhase phase_in w (after (c.reset_force_run namespace name w))
  pub retry_keeps :
      (P : c.World → Type 0) (m : M c.World (Unit {0}))
      → Keeps P m
      → Keeps P (c.retry_on_conflict m)

module _ (c : Lab) (namespace name : String) (phase_in : c.World → String)
    (forced_in : c.World → Bool) (serves : ServesTest c namespace name phase_in forced_in)
    (S : String → Type 0) where
  -- The phase is one of `S`.
  abbrev Within : c.World → Type 0
  Within w = S (phase_in w)

  abbrev Same : c.World → c.World → Type 0
  Same w v = SamePhase phase_in w v

  abbrev Stays : {A : Type 0} → M c.World A → Type 0
  Stays m = Keeps Within m

  stable : (w v : c.World) → Same w v → Within w → Within v
  stable w v e h = subst S (sym e) h

  -- What is read is of this object.
  abbrev Ours : DataProtectionTest → Type 0
  Ours x = (x.namespace ≡ namespace) × (x.name ≡ name)

  read_Ours : Holds Within (λ x w. Ours x × Within w) Within (call (c.get_test namespace name))
  read_Ours =
      Holds-call (c.get_test namespace name)
        (λ w v x h e.
          let (n, m, p, f) = serves.get_reads w v x e in
          ((n, m), stable w v (subst (λ r. Same w (after r)) e (serves.get_leaves w)) h))
        (λ w v x h e. stable w v (subst (λ r. Same w (after r)) e (serves.get_leaves w)) h)

  -- An update to a phase of `S`.
  update-Stays :
      (x : DataProtectionTest) → Ours x → S x.status.phase → Stays (call (c.update_test_status x))
  update-Stays x (n, m) s =
      Holds-call (c.update_test_status x)
        (λ w v u h e. subst S (sym (serves.update_stores x w v n m e)) s)
        (λ w v y h e. stable w v (serves.update_refused x y w v e) h)

  start_now-Stays :
      S "InProgress" → (x : DataProtectionTest) → Ours x → Stays (Controller.start_now c x)
  unfolding Controller.start_now
  start_now-Stays s x ours = record {
    at = λ t h. (update-Stays (Controller.started x (c.now t.world)) ours s).at t h;
  }

  start_once-Stays : S "InProgress" → Stays (Controller.start_once c namespace name)
  unfolding Controller.start_once
  start_once-Stays s = Holds-bind _ _ read_Ours (λ x.
      Holds-from _ (λ w h. (h.0, h.1))
        (λ ours.
          if-Keeps Within (Controller.is_skipped x) _ _ (pure-Keeps Within tt)
            (start_now-Stays s x ours)))

  fail_once-Stays :
      S "Failed" → (text : String) → Stays (Controller.fail_once c namespace name text)
  unfolding Controller.fail_once
  fail_once-Stays s text = Holds-bind _ _ read_Ours (λ x.
      Holds-from _ (λ w h. (h.0, h.1))
        (λ ours. update-Stays (Controller.with_phase x "Failed" text) ours s))

  complete_once-Stays :
      S "Complete" → (found : TestStatus) → Stays (Controller.complete_once c namespace name found)
  unfolding Controller.complete_once
  complete_once-Stays s found = Holds-bind _ _ read_Ours (λ x.
      Holds-from _ (λ w h. (h.0, h.1)) (λ ours. update-Stays (Controller.completed found x) ours s))

  failing-Stays :
      S "Failed" → (text : String) → Stays (Controller.update_error_status c namespace name text)
  unfolding Controller.update_error_status
  failing-Stays s text =
      bind-Keeps Within _ _
        (tried-Keeps Within _ (serves.retry_keeps Within _ (fail_once-Stays s text)))
        (λ r. pure-Keeps Within tt)

  or_failed-Stays :
      {A : Type 0} (text : String) (m : M c.World A)
      → S "Failed"
      → Stays m
      → Stays (Controller.or_failed c namespace name text m)
  unfolding Controller.or_failed
  or_failed-Stays text m s h = bind-Keeps Within _ _ (tried-Keeps Within m h) (λ r.
      returned-Keeps Within r _ _ (λ a. pure-Keeps Within a)
        (λ e. bind-Keeps Within _ _ (failing-Stays s text) (λ u. raise-Keeps Within e)))

  resolve-Stays : (x : DataProtectionTest) → Stays (Controller.resolve_backup_location c x)
  unfolding Controller.resolve_backup_location
  resolve-Stays x =
      option-Keeps Within x.location_spec _ _
        (if-Keeps Within (x.location_name == "") _ _ (raise-Keeps Within _) (
          bind-Keeps Within _ _
            (attempt-Keeps Within _ (λ w. stable w _ (serves.aloof.get_bsl_spec _ _ w)))
            (λ r.
              replied-Keeps Within r _ _ (λ spec. pure-Keeps Within spec)
                (λ e. raise-Keeps Within _))))
        (λ spec.
          if-Keeps Within (x.location_name != "") _ _ (raise-Keeps Within _)
            (pure-Keeps Within spec))

  detect-Stays :
      (spec : BslSpec) (found : TestStatus) → Stays (Controller.detect_vendor c spec found)
  unfolding Controller.detect_vendor
  detect-Stays spec found =
      if-Keeps Within (c.is_equal_fold spec.provider "aws") _ _
        (bind-Keeps Within _ _
          (tried-Keeps Within _ (determine_vendor-Kept c Same serves.aloof Within stable spec))
          (λ r.
            returned-Keeps Within r _ _
              (λ o. option-Keeps Within o _ _ (pure-Keeps Within found) (λ v. pure-Keeps Within _))
              (λ e. pure-Keeps Within found)))
        (pure-Keeps Within found)

  collect-Stays :
      (spec : BslSpec) (p : Provider) (found : TestStatus)
      → Stays (Controller.collect_metadata c spec p found)
  unfolding Controller.collect_metadata
  collect-Stays spec p found =
      if-Keeps Within (Controller.skips_metadata p) _ _ (pure-Keeps Within found) (
        bind-Keeps Within _ _ (deref-Keeps Within spec.object_storage) (λ storage.
          bind-Keeps Within _ _
            (tried-Keeps Within _
              (metadata-Kept c Same serves.aloof Within stable p storage.bucket))
            (λ r.
              returned-Keeps Within r _ _ (λ m. pure-Keeps Within _) (λ e. pure-Keeps Within _))))

  -- What holds of the request holds of the object's own name.
  for_ours :
      (F : String → String → Type 0) (x : DataProtectionTest)
      → Ours x
      → F namespace name
      → F x.namespace x.name
  for_ours F x (n, m) h = subst (λ y. F y x.name) (sym n) (subst (λ y. F namespace y) (sym m) h)

  or_failed-Ours :
      {A : Type 0} (x : DataProtectionTest) (text : String) (m : M c.World A)
      → Ours x
      → S "Failed"
      → Stays m
      → Stays (Controller.or_failed c x.namespace x.name text m)
  or_failed-Ours {A} x text m ours s h =
      for_ours (λ n k. Stays {A = A} (Controller.or_failed c n k text m)) x ours
        (or_failed-Stays text m s h)

  upload-Stays :
      (x : DataProtectionTest) (spec : BslSpec) (found : TestStatus)
      → Ours x
      → S "Failed"
      → Stays (Controller.test_upload c x spec found)
  unfolding Controller.test_upload
  upload-Stays x spec found ours s =
      option-Keeps Within x.upload_config _ _ (pure-Keeps Within found) (λ config.
        bind-Keeps Within _ _
          (or_failed-Ours x "cloud provider init failed" (initialize_provider c x.namespace spec)
            ours s (initialize_provider-Kept c Same serves.aloof Within stable x.namespace spec))
          (λ p.
            bind-Keeps Within _ _
              (run_upload_test-Kept c Same serves.aloof Within stable (some config) spec p)
              (λ u. collect-Stays spec p (Controller.with_upload c found u))))

  snapshots-Stays :
      (x : DataProtectionTest) (found : TestStatus) → Stays (Controller.test_snapshots c x found)
  unfolding Controller.test_snapshots
  snapshots-Stays x found =
      if-Keeps Within (is_empty x.snapshot_configs) _ _ (pure-Keeps Within found) (
        bind-Keeps Within _ _
          (run_snapshot_tests-Kept c Same serves.aloof Within stable x.name x.snapshot_configs)
          (λ pool. pure-Keeps Within _))

  run_tests-Stays :
      (x : DataProtectionTest)
      → Ours x
      → S "Failed"
      → S "Complete"
      → Stays (Controller.run_tests c x)
  unfolding Controller.run_tests Controller.update_status_to_complete
  run_tests-Stays x ours bad good =
      bind-Keeps Within _ _
        (or_failed-Ours x "failed to resolve BackupLocation"
          (Controller.resolve_backup_location c x) ours bad (resolve-Stays x))
        (λ spec. bind-Keeps Within _ _ (detect-Stays spec x.status) (λ detected.
          bind-Keeps Within _ _ (upload-Stays x spec detected ours bad) (λ uploaded.
            bind-Keeps Within _ _ (snapshots-Stays x uploaded) (λ found.
              for_ours (λ n m. Stays (c.retry_on_conflict (Controller.complete_once c n m found))) x
                ours (serves.retry_keeps Within _ (complete_once-Stays good found))))))

  with_reset-Stays :
      (m : M c.World (Unit {0})) → Stays m → Stays (Controller.with_reset c namespace name m)
  unfolding Controller.with_reset
  with_reset-Stays m h = bind-Keeps Within _ _ (tried-Keeps Within m h) (λ r.
      bind-Keeps Within _ _ (attempt-Keeps Within _ (λ w. stable w _ (serves.reset_leaves w)))
        (λ u. returned-Keeps Within r _ _ (λ a. pure-Keeps Within a) (λ e. raise-Keeps Within e)))

  -- The body of Reconcile, of an object that was read with this phase.
  phase-Stays :
      (x : DataProtectionTest)
      → Ours x
      → ((x.status.phase != "InProgress") ≡ true → S "InProgress")
      → ((x.status.phase != "InProgress") ≡ false → S "Failed" × S "Complete")
      → Stays (Controller.reconcile_phase c x)
  unfolding Controller.reconcile_phase
  phase-Stays x ours begin end =
      Holds-if (x.status.phase != "InProgress") _ _
        (λ h.
          for_ours (λ n m. Stays (c.retry_on_conflict (Controller.start_once c n m))) x ours
            (serves.retry_keeps Within _ (start_once-Stays (begin h))))
        (λ h. run_tests-Stays x ours (end h).0 (end h).1)

-- The phases that Reconcile can leave, from this one.
module _ (c : Lab) (namespace name : String) (phase_in : c.World → String)
    (forced_in : c.World → Bool) (serves : ServesTest c namespace name phase_in forced_in) where
  abbrev Before : Bool → String → c.World → Type 0
  Before forced phase w = (phase_in w ≡ phase) × (forced_in w ≡ forced)

  abbrev Reaches : Bool → String → c.World → Type 0
  Reaches forced phase w = Move forced phase (phase_in w)

  abbrev Known : Bool → String → DataProtectionTest → Type 0
  Known forced phase x =
      (x.namespace ≡ namespace)
      × (x.name ≡ name)
      × (x.status.phase ≡ phase)
      × (x.force_run ≡ forced)

  abbrev Read : Bool → String → Attempt DataProtectionTest → c.World → Type 0
  Read forced phase (success x) w = Known forced phase x × Reaches forced phase w
  Read forced phase (failure e) w = Reaches forced phase w

  still :
      (forced : Bool) (phase : String) (w v : c.World)
      → Before forced phase w
      → SamePhase phase_in w v
      → Reaches forced phase v
  still forced phase w v b e = subst (λ q. Move forced phase q) (sym (e ∙ b.0)) stay

  read :
      (forced : Bool) (phase : String) (w v : c.World) (a : Attempt DataProtectionTest)
      → Before forced phase w
      → RepliedTo (c.get_test namespace name) w a v
      → Read forced phase a v
  read forced phase w v (success x) b e =
      let (n, m, p, f) = serves.get_reads w v x e in
      let same = subst (λ r. SamePhase phase_in w (after r)) e (serves.get_leaves w) in
      ((n, m, p ∙ b.0, f ∙ b.1), still forced phase w v b same)
  read forced phase w v (failure x) b e =
      still forced phase w v b (subst (λ r. SamePhase phase_in w (after r)) e (serves.get_leaves w))

  in_progress :
      (forced : Bool) (phase : String)
      → (phase != "InProgress") ≡ false
      → Move forced phase "Failed" × Move forced phase "Complete"
  in_progress forced phase h =
      let same = eq_of_test phase "InProgress" (ground (arith, h)) in
      (
        subst (λ q. Move forced q "Failed") (sym same) give_up,
        subst (λ q. Move forced q "Complete") (sym same) complete,
      )

  fetched-Reaches :
      (forced : Bool) (phase : String) (x : DataProtectionTest)
      → Known forced phase x
      → Keeps (Reaches forced phase) (
          if Controller.is_skipped x
          then pure tt
          else if x.force_run
          then Controller.with_reset c namespace name (Controller.reconcile_phase c x)
          else Controller.reconcile_phase c x)
  unfolding Controller.is_skipped
  fetched-Reaches forced phase x (n, m, p, f) =
      Holds-if (Controller.is_skipped x) _ _ (λ skipped. pure-Keeps (Reaches forced phase) tt)
        (λ runs.
          let body =
            phase-Stays c namespace name phase_in forced_in serves (Move forced phase) x (n, m)
              (λ h. start (ground (arith, runs, p, f)) (ground (arith, h, p)))
              (λ h. in_progress forced phase (ground (arith, h, p))) in
          if-Keeps (Reaches forced phase) x.force_run _ _
            (with_reset-Stays c namespace name phase_in forced_in serves (Move forced phase) _ body)
            body)

  -- Reconcile moves the phase by at most one step: it stays; or it becomes InProgress, if it is not
  -- Complete or Failed or if forceRun is set; or it goes from InProgress to Complete or to Failed.
  -- This is so also where Reconcile returns an error. It is of a cluster that does what ServesTest
  -- says.
  pub reconcile_test-Reaches :
      (forced : Bool) (phase : String)
      → Holds
          (λ w. (phase_in w ≡ phase) × (forced_in w ≡ forced))
          (λ u w. Move forced phase (phase_in w))
          (λ w. Move forced phase (phase_in w))
          (Controller.reconcile_test c namespace name)
  unfolding Controller.reconcile_test
  reconcile_test-Reaches forced phase =
      Holds-bind _ _ (Holds-attempt (c.get_test namespace name) (read forced phase)) (λ r.
        elim r
          as (λ r.
            Holds {A = Unit {0}} (Read forced phase r) (λ u. Reaches forced phase)
              (Reaches forced phase)
              (elim r [
                | failure e ↦ if is_not_found e then pure tt else raise (api e)
                | success x ↦
                    if Controller.is_skipped x
                    then pure tt
                    else if x.force_run
                    then Controller.with_reset c namespace name (Controller.reconcile_phase c x)
                    else Controller.reconcile_phase c x
              ])) [
                | failure e ↦
                    if-Keeps (Reaches forced phase) _ _ _ (pure-Keeps (Reaches forced phase) tt)
                      (raise-Keeps (Reaches forced phase) (api e))
                | success x ↦
                    Holds-from _ (λ w r. (r.0, r.1)) (λ known. fetched-Reaches forced phase x known)
              ])
