-- ===== src/Examples/Trials.antt =====
-- A DataProtectionTest in memory.
use oadp_operator.Prelude.{
  ◌≡◌, refl, sym, ap, ◌+◌, String, Bool, true, false, ◌||◌, List, [], ◌∷◌, Option, none, some,
}
use oadp_operator.Prelude.Int.{ℤ, pos, ltb_ℤ}
use oadp_operator.Prelude.Lists.{length, filter}
use oadp_operator.Api.{BslSpec}
use oadp_operator.Cluster.{not_found, Reply, ok, err}
use oadp_operator.Cluster.Holds.{after, Holds, Keeps}
use oadp_operator.Cluster.Yields.{Yields}
use oadp_operator.Dpt.{
  Lab, DataProtectionTest, UploadStatus, UploadConfig, SnapshotConfig, VolumeSnapshot, Provider,
  aws_provider,
}
use oadp_operator.Dpt.Upload.{upload_test}
use oadp_operator.Dpt.Upload.Bounded.{IsAllowed, upload_test-Keeps}
use oadp_operator.Dpt.Kept.{Aloof}
use oadp_operator.Dpt.Controller.{reconcile_test}
use oadp_operator.Dpt.Controller.Phases.{Move, SamePhase, ServesTest, reconcile_test-Reaches}
use oadp_operator.Dpt.Snapshots.{run_snapshot_tests, is_complete_config, count_ready}
use oadp_operator.Dpt.Snapshots.Accounted.{results_of, configs_of, run_snapshot_tests_sound}

-- The stored phase and flag.
record Bench : Type 0 where
  pub phase : String
  pub forced : Bool

abbrev no_upload : UploadStatus
no_upload = record { speed = pos 0; duration = ""; is_success = false; error_message = "" }

abbrev claims : List SnapshotConfig
claims =
    (record { snapshot_class = "csi"; timeout = pos 0; claim = "data"; claim_namespace = "app" })
    ∷ (record { snapshot_class = ""; timeout = pos 0; claim = "logs"; claim_namespace = "app" })
    ∷ (record { snapshot_class = "csi"; timeout = pos 0; claim = "db"; claim_namespace = "app" })
    ∷ []

abbrev test_object : Bench → DataProtectionTest
test_object w = record {
  name = "test";
  namespace = "ns";
  location_name = "bsl";
  location_spec = none;
  upload_config = none;
  snapshot_configs = claims;
  force_run = w.forced;
  status = record {
    phase = w.phase;
    last_tested = none;
    vendor = "";
    metadata = none;
    upload = no_upload;
    snapshots = [];
    summary = "";
    error_message = "";
  };
}

abbrev bench_spec : BslSpec
bench_spec = record {
  provider = "aws";
  config = none;
  credential = none;
  object_storage = none;
  is_default = true;
  backup_sync_period = none;
}

abbrev new_snapshot : Option (Option Bool) → VolumeSnapshot
new_snapshot status = record { name = "dpt-snap-1"; namespace = "app"; status = status }

abbrev bench : Lab
bench = record {
  World = Bench;
  to_upper = λ text. text;
  to_lower = λ text. text;
  is_equal_fold = λ x y. true;
  scale = λ number unit. some (pos unit);
  megabits_per_second = λ size time. pos 1;
  show_milliseconds = λ n. "1s";
  show_seconds = λ n. "1s";
  now = λ w. 3;
  get_test = λ namespace name w. ok (test_object w) w;
  update_test_status = λ x w. ok tt (record w { phase = x.status.phase });
  reset_force_run = λ namespace name w. ok tt (record w { forced = false });
  retry_on_conflict = λ m. m;
  get_bsl_spec = λ namespace name w. ok bench_spec w;
  get_provider_data = λ namespace name w. err not_found w;
  is_request_valid = λ url. true;
  send_head = λ url w. ok (λ header. "") w;
  open_gcp = λ bucket text w. ok tt w;
  is_aws_session_valid = λ region endpoint. true;
  open_azure_shared_key = λ name key w. ok tt w;
  open_azure_credential = λ t w. ok tt w;
  open_azure_client = λ url t w. ok tt w;
  put_object = λ p bucket size time w. ok tt w;
  aws_versioning = λ p bucket w. ok none w;
  aws_encryption = λ p bucket w. ((none, []), w);
  gcp_attributes = λ p bucket w. ok ("", true) w;
  azure_versioning = λ creds t w. ok none w;
  azure_key_source = λ creds t w. ok none w;
  create_snapshot = λ claim namespace class test w. ok (new_snapshot none) w;
  get_snapshot = λ namespace name w. ok (new_snapshot (some (some true))) w;
  elapse = λ w. w;
  ticks_before = λ time. 5;
  pick = λ w n. 0;
}

abbrev phase_in : Bench → String
phase_in w = w.phase

abbrev forced_in : Bench → Bool
forced_in w = w.forced

abbrev test_of : DataProtectionTest → Reply Bench DataProtectionTest → DataProtectionTest
test_of d (ok x w) = x
test_of d (err e w) = d

abbrev bench_after : Reply Bench (Unit {0}) → String
bench_after r = (after r).phase

bench-Aloof : Aloof bench (SamePhase phase_in)
bench-Aloof = record {
  get_bsl_spec = λ n m w. refl;
  get_data = λ n m w. refl;
  send_head = λ url w. refl;
  open_gcp = λ b j w. refl;
  open_shared_key = λ n k w. refl;
  open_credential = λ t w. refl;
  open_client = λ u t w. refl;
  put_object = λ p b n t w. refl;
  aws_versioning = λ p b w. refl;
  aws_encryption = λ p b w. refl;
  gcp_attributes = λ p b w. refl;
  azure_versioning = λ a t w. refl;
  azure_key_source = λ a t w. refl;
  create_snapshot = λ p n s t w. refl;
  get_snapshot = λ n m w. refl;
  elapse = λ w. refl;
}

bench-ServesTest : ServesTest bench "ns" "test" phase_in forced_in
bench-ServesTest = record {
  aloof = bench-Aloof;
  get_leaves = λ w. refl;
  get_reads = λ w v x e.
      let same = ap (test_of (test_object w)) (sym e) in
      (
        ap (λ y. y.namespace) same,
        ap (λ y. y.name) same,
        ap (λ y. y.status.phase) same,
        ap (λ y. y.force_run) same,
      );
  update_stores = λ x w v n m e. ap bench_after (sym e);
  update_refused = λ x e w v h. absurd (cc);
  reset_leaves = λ w. refl;
  retry_keeps = λ P m h. h;
}

reconcile_test-Reaches_example :
    Holds
      (λ w. (phase_in w ≡ "InProgress") × (forced_in w ≡ true))
      (λ u w. Move true "InProgress" (phase_in w))
      (λ w. Move true "InProgress" (phase_in w))
      (reconcile_test bench "ns" "test")
reconcile_test-Reaches_example =
    reconcile_test-Reaches bench "ns" "test" phase_in forced_in bench-ServesTest true "InProgress"

run_snapshot_tests_sound_example :
    Yields
      (λ p.
        (p.tasks ≡ [])
        × (length p.results ≡ length (filter is_complete_config claims))
        × ((claim namespace : String)
            → results_of claim namespace p.results
              ≡ configs_of claim namespace (filter is_complete_config claims))
        × (count_ready p.results + length p.errors ≡ length p.results))
      (run_snapshot_tests bench "test" claims)
run_snapshot_tests_sound_example = run_snapshot_tests_sound bench "test" claims

-- The flag is set by an upload of another size.
abbrev strict : Lab
strict = record bench {
  put_object = λ p bucket size time w.
      ok tt (record w { forced = w.forced || ltb_ℤ (pos 209715200) size || ltb_ℤ size (pos 0) });
}

abbrev s3 : Provider
s3 = aws_provider "us-east-1" "" "key" "secret"

abbrev one_byte : UploadConfig
one_byte = record { file_size = "1B"; timeout = pos 0 }

unset :
    (n t : ℤ) (w : Bench)
    → IsAllowed n
    → w.forced ≡ false
    → (w.forced || ltb_ℤ (pos 209715200) n || ltb_ℤ n (pos 0)) ≡ false
unset n t w (fits, counted) h = rw (h, fits, counted) refl

upload_test-Keeps_example : Keeps (λ w. w.forced ≡ false) (upload_test strict s3 one_byte "bucket")
upload_test-Keeps_example =
    upload_test-Keeps strict s3 one_byte "bucket" (λ w. w.forced ≡ false) unset
