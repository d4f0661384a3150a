-- ===== src/Dpt/Controller.antt =====
-- Reconcile of dataprotectiontest_controller.go, with resolveBackupLocation and the updates of the
-- status.
pub mod Phases
use oadp_operator.Prelude.{
  ◌≡◌, ℕ, String, Bool, true, false, not, ◌&&◌, ◌||◌, ◌==◌, ◌!=◌, List, [], ◌∷◌, Option, none, some,
  is_some, is_none, if◌then◌else◌,
}
use oadp_operator.Prelude.Lists.{is_empty}
use oadp_operator.Api.{BslSpec}
use oadp_operator.Cluster.{
  ApiError, Attempt, success, failure, attempt, call, deref, tried, Tried, returned, failed, Error,
  message, about, api, State, Outcome, done, fail, panic, M, ◌>>=◌, ◌>>◌, pure, raise,
}
use oadp_operator.Process.{is_not_found}
use oadp_operator.Dpt.{
  Lab, DataProtectionTest, TestStatus, Metadata, UploadStatus, UploadConfig, Provider, aws_provider,
  gcp_provider, azure_provider,
}
use oadp_operator.Dpt.Vendor.{determine_vendor}
use oadp_operator.Dpt.Providers.{initialize_provider}
use oadp_operator.Dpt.Upload.{run_upload_test, get_bucket_metadata}
use oadp_operator.Dpt.Snapshots.{run_snapshot_tests, summary_of}

unfoldable pub is_settled : String → Bool
is_settled phase = phase == "Complete" || phase == "Failed"

-- Nothing is to be done.
unfoldable pub is_skipped : DataProtectionTest → Bool
unfolding is_settled
is_skipped test = is_settled test.status.phase && not test.force_run

-- Metadata is not asked for where an Azure account key is used.
unfoldable pub skips_metadata : Provider → Bool
skips_metadata (aws_provider region endpoint access secret) = false
skips_metadata (gcp_provider bucket credentials) = false
skips_metadata (azure_provider creds) = creds.account_key != ""

abbrev pub with_status : DataProtectionTest → TestStatus → DataProtectionTest
with_status test status = record test { status = status }

abbrev pub with_phase : DataProtectionTest → String → String → DataProtectionTest
with_phase test phase text =
    with_status test (record test.status { phase = phase; error_message = text })

abbrev pub started : DataProtectionTest → ℕ → DataProtectionTest
started test time =
    with_status test (record test.status { phase = "InProgress"; last_tested = some time })

-- The phase, and what the tests have found.
abbrev pub completed : TestStatus → DataProtectionTest → DataProtectionTest
completed found test = with_status test (record test.status {
  phase = "Complete";
  error_message = "";
  upload = found.upload;
  snapshots = found.snapshots;
  summary = found.summary;
  metadata = found.metadata;
  vendor = found.vendor;
})

module _ (c : Lab) where
  -- The update of the body of the retry in Reconcile.
  unfoldable pub start_now : DataProtectionTest → M c.World (Unit {0})
  start_now latest s = call (c.update_test_status (started latest (c.now s.world))) s

  unfoldable pub start_once : String → String → M c.World (Unit {0})
  unfolding is_skipped start_now
  start_once namespace name = call (c.get_test namespace name) >>= λ latest.
      if is_skipped latest then pure tt else start_now latest

  unfoldable pub fail_once : String → String → String → M c.World (Unit {0})
  fail_once namespace name text = call (c.get_test namespace name) >>= λ latest.
      call (c.update_test_status (with_phase latest "Failed" text))

  -- updateDPTErrorStatus: its own error is dropped.
  unfoldable pub update_error_status : String → String → String → M c.World (Unit {0})
  unfolding fail_once
  update_error_status namespace name text =
      tried (c.retry_on_conflict (fail_once namespace name text)) >>= λ r. pure tt

  unfoldable pub complete_once : String → String → TestStatus → M c.World (Unit {0})
  complete_once namespace name found = call (c.get_test namespace name) >>= λ latest.
      call (c.update_test_status (completed found latest))

  unfoldable pub update_status_to_complete : String → String → TestStatus → M c.World (Unit {0})
  unfolding complete_once
  update_status_to_complete namespace name found =
      c.retry_on_conflict (complete_once namespace name found)

  unfoldable pub resolve_backup_location : DataProtectionTest → M c.World BslSpec
  resolve_backup_location test = elim test.location_spec [
    | some spec ↦
        if test.location_name != ""
        then raise (message "both backupLocationSpec and backupLocationName cannot be set")
        else pure spec
    | none ↦
        if test.location_name == ""
        then raise (message "one of backupLocationSpec or backupLocationName must be set")
        else attempt (c.get_bsl_spec test.namespace test.location_name) >>= λ r. elim r [
          | success spec ↦ pure spec
          | failure e ↦
              raise (about "failed to get BackupStorageLocation" (test.location_name ∷ []))
        ]
  ]

  -- An error that is put into the status before it is returned.
  unfoldable pub or_failed : {A : Type 0} → String → String → String → M c.World A → M c.World A
  unfolding update_error_status
  or_failed namespace name text m = tried m >>= λ r. elim r [
    | returned a ↦ pure a
    | failed e ↦ update_error_status namespace name text >> raise e
  ]

  -- The detection of the vendor; its error is logged.
  unfoldable pub detect_vendor : BslSpec → TestStatus → M c.World TestStatus
  detect_vendor spec status =
      if c.is_equal_fold spec.provider "aws"
      then (tried (determine_vendor c spec) >>= λ r. elim r [
        | failed e ↦ pure status
        | returned o ↦ elim o [
          | none ↦ pure status
          | some vendor ↦ pure (record status { vendor = vendor })
        ]
      ])
      else pure status

  -- The bucket is read of the object storage, which may be nil.
  unfoldable pub collect_metadata : BslSpec → Provider → TestStatus → M c.World TestStatus
  unfolding skips_metadata
  collect_metadata spec provider status =
      if skips_metadata provider
      then pure status
      else deref spec.object_storage >>= λ storage.
          tried (get_bucket_metadata c provider storage.bucket) >>= λ r. elim r [
            | returned found ↦ pure (record status { metadata = some found })
            | failed e ↦ pure (record status {
              metadata = some (record {
                encryption = "";
                versioning = "";
                error_message = "bucket metadata collection failed";
              });
            })
          ]

  abbrev pub with_upload : TestStatus → Option UploadStatus → TestStatus
  with_upload status none = status
  with_upload status (some upload) = record status { upload = upload }

  -- The upload test, and the metadata of the bucket.
  unfoldable pub test_upload : DataProtectionTest → BslSpec → TestStatus → M c.World TestStatus
  unfolding or_failed collect_metadata
  test_upload test spec status = elim test.upload_config [
    | none ↦ pure status
    | some config ↦
        or_failed test.namespace test.name "cloud provider init failed"
          (initialize_provider c test.namespace spec)
        >>= λ provider. run_upload_test c (some config) spec provider >>= λ upload.
            collect_metadata spec provider (with_upload status upload)
  ]

  unfoldable pub test_snapshots : DataProtectionTest → TestStatus → M c.World TestStatus
  test_snapshots test status =
      if is_empty test.snapshot_configs
      then pure status
      else run_snapshot_tests c test.name test.snapshot_configs >>= λ pool.
          pure (record status { snapshots = pool.results; summary = summary_of pool.results })

  -- The tests, of a DataProtectionTest that is in progress.
  unfoldable pub run_tests : DataProtectionTest → M c.World (Unit {0})
  unfolding resolve_backup_location or_failed detect_vendor test_upload test_snapshots
      update_status_to_complete
  run_tests test =
      or_failed test.namespace test.name "failed to resolve BackupLocation"
        (resolve_backup_location test)
      >>= λ spec. detect_vendor spec test.status >>= λ detected.
          test_upload test spec detected >>= λ uploaded. test_snapshots test uploaded >>= λ found.
          update_status_to_complete test.namespace test.name found

  unfoldable pub reconcile_phase : DataProtectionTest → M c.World (Unit {0})
  unfolding start_once run_tests
  reconcile_phase test =
      if test.status.phase != "InProgress"
      then c.retry_on_conflict (start_once test.namespace test.name)
      else run_tests test

  -- The deferred function: the flag is reset whether the step returns or fails.
  unfoldable pub with_reset : String → String → M c.World (Unit {0}) → M c.World (Unit {0})
  with_reset namespace name m = tried m >>= λ r. attempt (c.reset_force_run namespace name) >>= λ u.
      elim r [ returned a ↦ pure a | failed e ↦ raise e ]

  -- Reconcile of a request: namespace, name.
  unfoldable pub reconcile_test : String → String → M c.World (Unit {0})
  unfolding reconcile_phase with_reset
  reconcile_test namespace name = attempt (c.get_test namespace name) >>= λ r. elim r [
    | failure e ↦ if is_not_found e then pure tt else raise (api e)
    | success test ↦
        if is_skipped test
        then pure tt
        else if test.force_run
        then with_reset namespace name (reconcile_phase test)
        else reconcile_phase test
  ]
