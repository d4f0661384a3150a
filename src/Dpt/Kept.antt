-- ===== src/Dpt/Kept.antt =====
-- What the tests of a DataProtectionTest leave as it is: all calls but those that read and write the
-- DataProtectionTest itself.
use oadp_operator.Prelude.{
  ℕ, zero, suc, String, ◌==◌, List, [], ◌∷◌, Option, none, some, lookup, index, map,
}
use oadp_operator.Prelude.Lists.{filter}
use oadp_operator.Prelude.Int.{ℤ}
use oadp_operator.Api.{BslSpec}
use oadp_operator.Cluster.{Attempt, success, failure, M, about, message}
use oadp_operator.Cluster.Holds.{after, Keeps, Holds-crash}
use oadp_operator.Cluster.Keeps.{
  call-Keeps, attempt-Keeps, pure-Keeps, raise-Keeps, if-Keeps, bind-Keeps, replied-Keeps,
  option-Keeps,
}
use oadp_operator.Process.{SdkError, coded, plain}
use oadp_operator.Dpt.{
  Lab, Provider, aws_provider, gcp_provider, azure_provider, AzureAccount, TokenCredential,
  UploadConfig, SnapshotConfig, VolumeSnapshot,
}
use oadp_operator.Dpt.Keys
use oadp_operator.Dpt.Vendor
use oadp_operator.Dpt.Providers
use oadp_operator.Dpt.Upload
use oadp_operator.Dpt.Snapshots
use oadp_operator.Dpt.Snapshots.{Task, to_create, to_poll, to_record, Pool}
use oadp_operator.Dpt.Size.{parse_file_size}

-- How every such call relates the world before and after.
pub record Aloof (c : Lab) (R : c.World → c.World → Type 0) : Type 0 where
  pub get_bsl_spec : (n m : String) (w : c.World) → R w (after (c.get_bsl_spec n m w))
  pub get_data : (n m : String) (w : c.World) → R w (after (c.get_provider_data n m w))
  pub send_head : (url : String) (w : c.World) → R w (after (c.send_head url w))
  pub open_gcp : (b j : String) (w : c.World) → R w (after (c.open_gcp b j w))
  pub open_shared_key : (n k : String) (w : c.World) → R w (after (c.open_azure_shared_key n k w))
  pub open_credential :
      (t : TokenCredential) (w : c.World) → R w (after (c.open_azure_credential t w))
  pub open_client :
      (u : String) (t : TokenCredential) (w : c.World) → R w (after (c.open_azure_client u t w))
  pub put_object :
      (p : Provider) (b : String) (n t : ℤ) (w : c.World) → R w (after (c.put_object p b n t w))
  pub aws_versioning :
      (p : Provider) (b : String) (w : c.World) → R w (after (c.aws_versioning p b w))
  pub aws_encryption : (p : Provider) (b : String) (w : c.World) → R w (c.aws_encryption p b w).1
  pub gcp_attributes :
      (p : Provider) (b : String) (w : c.World) → R w (after (c.gcp_attributes p b w))
  pub azure_versioning :
      (a : AzureAccount) (t : TokenCredential) (w : c.World)
      → R w (after (c.azure_versioning a t w))
  pub azure_key_source :
      (a : AzureAccount) (t : TokenCredential) (w : c.World)
      → R w (after (c.azure_key_source a t w))
  pub create_snapshot : (p n s t : String) (w : c.World) → R w (after (c.create_snapshot p n s t w))
  pub get_snapshot : (n m : String) (w : c.World) → R w (after (c.get_snapshot n m w))
  pub elapse : (w : c.World) → R w (c.elapse w)

module _ (c : Lab) (R : c.World → c.World → Type 0) (q : Aloof c R) (P : c.World → Type 0)
    (stable : (w v : c.World) → R w v → P w → P v) where
  abbrev Kept : {A : Type 0} → M c.World A → Type 0
  Kept m = Keeps P m

  pub determine_vendor-Kept : (spec : BslSpec) → Kept (Vendor.determine_vendor c spec)
  unfolding Vendor.determine_vendor
  determine_vendor-Kept spec = if-Keeps P _ _ _ (pure-Keeps P _) (
      if-Keeps P _ _ _
        (bind-Keeps P _ _ (attempt-Keeps P _ (λ w. stable w _ (q.send_head _ w)))
          (λ r. replied-Keeps P r _ _ (λ get. pure-Keeps P _) (λ e. raise-Keeps P _)))
        (raise-Keeps P _))

  data_of-Kept : (name namespace : String) → Kept (Keys.get_provider_data c name namespace)
  unfolding Keys.get_provider_data
  data_of-Kept name namespace =
      bind-Keeps P _ _ (call-Keeps P _ (λ w. stable w _ (q.get_data _ _ w)))
        (λ o. option-Keeps P o _ _ (raise-Keeps P _) (λ d. pure-Keeps P _))

  aws-Kept :
      (namespace : String) (spec : BslSpec)
      → Kept (Providers.initialize_aws_provider c namespace spec)
  unfolding Providers.initialize_aws_provider Providers.new_aws_provider
  aws-Kept namespace spec = option-Keeps P spec.credential _ _ (raise-Keeps P _) (λ x.
      bind-Keeps P _ _ (data_of-Kept x.name namespace) (λ entries.
        option-Keeps P
          (Keys.parse_aws_keys (Providers.profile_name spec.config) (index x.key (some entries))) _
          _ (raise-Keeps P _)
          (λ keys.
            option-Keeps P spec.config _ _ (raise-Keeps P _)
              (λ config. if-Keeps P _ _ _ (pure-Keeps P _) Holds-crash))))

  gcp-Kept :
      (namespace : String) (spec : BslSpec)
      → Kept (Providers.initialize_gcp_provider c namespace spec)
  unfolding Providers.initialize_gcp_provider Providers.new_gcp_provider
  gcp-Kept namespace spec = option-Keeps P spec.credential _ _ (raise-Keeps P _) (λ x.
      bind-Keeps P _ _ (data_of-Kept x.name namespace) (λ entries.
        option-Keeps P (lookup x.key entries) _ _ (raise-Keeps P _) (λ j.
          if-Keeps P (j == "") _ _ (raise-Keeps P (about "credentials JSON is empty" (x.name ∷ [])))
            (if-Keeps P (Providers.bucket_name spec == "") _ _
              (raise-Keeps P (message "bucket name is required for GCP provider"))
              (bind-Keeps P _ _
                (call-Keeps P (c.open_gcp (Providers.bucket_name spec) j)
                  (λ w. stable w _ (q.open_gcp (Providers.bucket_name spec) j w)))
                (λ u. pure-Keeps P (gcp_provider (Providers.bucket_name spec) j)))))))

  azure-Kept :
      (namespace : String) (spec : BslSpec)
      → Kept (Providers.initialize_azure_provider c namespace spec)
  unfolding Providers.initialize_azure_provider Providers.new_azure_provider
  azure-Kept namespace spec = option-Keeps P spec.credential _ _ (raise-Keeps P _) (λ x.
      bind-Keeps P _ _ (data_of-Kept x.name namespace) (λ entries.
        if-Keeps P _ _ _
          (bind-Keeps P _ _ (call-Keeps P _ (λ w. stable w _ (q.open_shared_key _ _ w)))
            (λ u. pure-Keeps P _))
          (bind-Keeps P _ _
            (bind-Keeps P _ _ (call-Keeps P _ (λ w. stable w _ (q.open_credential _ w)))
              (λ u. call-Keeps P _ (λ w. stable w _ (q.open_client _ _ w))))
            (λ u. pure-Keeps P _))))

  pub initialize_provider-Kept :
      (namespace : String) (spec : BslSpec) → Kept (Providers.initialize_provider c namespace spec)
  unfolding Providers.initialize_provider
  initialize_provider-Kept namespace spec = if-Keeps P _ _ _ (aws-Kept namespace spec) (
      if-Keeps P _ _ _ (gcp-Kept namespace spec)
        (if-Keeps P _ _ _ (azure-Kept namespace spec) (raise-Keeps P _)))

  upload_test-Kept :
      (p : Provider) (config : UploadConfig) (b : String) → Kept (Upload.upload_test c p config b)
  unfolding Upload.upload_test Upload.upload_sized
  upload_test-Kept p config b =
      option-Keeps P (parse_file_size c config.file_size) _ _ (pure-Keeps P _) (λ o.
        option-Keeps P o _ _ (pure-Keeps P _) (λ size. if-Keeps P _ _ _ (pure-Keeps P _) (
          if-Keeps P _ _ _ Holds-crash (
            bind-Keeps P _ _ clock-Kept (λ start.
              bind-Keeps P _ _ (attempt-Keeps P _ (λ w. stable w _ (q.put_object _ _ _ _ w))) (λ r.
                bind-Keeps P _ _ clock-Kept
                  (λ end. replied-Keeps P r _ _ (λ u. pure-Keeps P _) (λ e. pure-Keeps P _))))))))
    where
      clock-Kept : Kept (Snapshots.clock c)
      clock-Kept = record { at = λ s p. p }

  pub run_upload_test-Kept :
      (o : Option UploadConfig) (spec : BslSpec) (p : Provider)
      → Kept (Upload.run_upload_test c o spec p)
  unfolding Upload.run_upload_test
  run_upload_test-Kept none spec p = pure-Keeps P _
  run_upload_test-Kept (some config) spec p =
      if-Keeps P _ _ _ (pure-Keeps P _)
        (bind-Keeps P _ _ (upload_test-Kept p config _) (λ m. pure-Keeps P _))

  encryption-Kept :
      (e : Option SdkError) (rules : List (Option String))
      → Kept (Upload.aws_encryption_of c e rules)
  unfolding Upload.aws_encryption_of
  encryption-Kept (some (coded code text)) rules =
      if-Keeps P _ _ _ (pure-Keeps P _) (raise-Keeps P _)
  encryption-Kept (some (plain text)) rules = raise-Keeps P _
  encryption-Kept none [] = pure-Keeps P _
  encryption-Kept none (none ∷ rules) = pure-Keeps P _
  encryption-Kept none (some a ∷ rules) = pure-Keeps P _

  pub metadata-Kept : (p : Provider) (b : String) → Kept (Upload.get_bucket_metadata c p b)
  unfolding Upload.get_bucket_metadata Upload.aws_metadata Upload.gcp_metadata Upload.azure_metadata
  metadata-Kept (aws_provider x y z v) b =
      bind-Keeps P _ _ (call-Keeps P _ (λ w. stable w _ (q.aws_versioning _ _ w))) (λ status.
        bind-Keeps P _ _ (record { at = λ s p. stable s.world _ (q.aws_encryption _ _ s.world) p })
          (λ reply. bind-Keeps P _ _ (encryption-Kept reply.0 reply.1) (λ a. pure-Keeps P _)))
  metadata-Kept (gcp_provider x y) b =
      bind-Keeps P _ _ (call-Keeps P _ (λ w. stable w _ (q.gcp_attributes _ _ w)))
        (λ a. pure-Keeps P _)
  metadata-Kept (azure_provider creds) b =
      bind-Keeps P _ _ (call-Keeps P _ (λ w. stable w _ (q.open_credential _ w))) (λ u.
        bind-Keeps P _ _ (call-Keeps P _ (λ w. stable w _ (q.azure_versioning _ _ w))) (λ e.
          bind-Keeps P _ _ (call-Keeps P _ (λ w. stable w _ (q.azure_key_source _ _ w)))
            (λ k. pure-Keeps P _)))

  look-Kept :
      (n start : ℕ) (x : SnapshotConfig) (s : VolumeSnapshot) (r : Attempt VolumeSnapshot)
      → Kept (Snapshots.look_at_snapshot c n start x s r)
  unfolding Snapshots.look_at_snapshot
  look-Kept n start x s (failure e) = pure-Keeps P _
  look-Kept n start x s (success current) =
      option-Keeps P (Snapshots.is_ready s.status current.status) _ _ Holds-crash (λ b.
        if-Keeps P _ _ _ (bind-Keeps P _ _ (record { at = λ s p. p }) (λ end. pure-Keeps P _))
          (pure-Keeps P _))

  step_task-Kept : (test : String) (t : Task) → Kept (Snapshots.step_task c test t)
  unfolding Snapshots.step_task Snapshots.create_volume_snapshot Snapshots.wait_for_snapshot_ready
  step_task-Kept test (to_create x) =
      bind-Keeps P _ _ (record { at = λ s p. p })
        (λ start.
          bind-Keeps P _ _ (attempt-Keeps P _ (λ w. stable w _ (q.create_snapshot _ _ _ _ w)))
            (λ r. replied-Keeps P r _ _ (λ s. pure-Keeps P _) (λ e. pure-Keeps P _)))
  step_task-Kept test (to_poll zero start x s) = pure-Keeps P _
  step_task-Kept test (to_poll (suc n) start x s) =
      bind-Keeps P _ _ (record { at = λ s p. stable s.world _ (q.elapse s.world) p })
        (λ u.
          bind-Keeps P _ _ (attempt-Keeps P _ (λ w. stable w _ (q.get_snapshot _ _ w)))
            (look-Kept n start x s))
  step_task-Kept test (to_record status) = pure-Keeps P _

  list-Keeps :
      {A B : Type 0} (xs : List A) (m : M c.World B) (f : A → List A → M c.World B)
      → Kept m
      → ((x : A) (rest : List A) → Kept (f x rest))
      → Kept (elim xs [ [] ↦ m | x ∷ rest ↦ f x rest ])
  list-Keeps [] m f g h = g
  list-Keeps (x ∷ rest) m f g h = h x rest

  run_tasks-Kept :
      (fuel : ℕ) (test : String) (pool : Pool) → Kept (Snapshots.run_tasks c fuel test pool)
  unfolding Snapshots.run_tasks
  run_tasks-Kept zero test pool = pure-Keeps P _
  run_tasks-Kept (suc fuel) test pool = list-Keeps pool.tasks _ _ (pure-Keeps P _) (λ t ts.
      bind-Keeps P _ _ (record { at = λ s p. p })
        (λ n. bind-Keeps P _ _ (step_task-Kept test _) (λ p. run_tasks-Kept fuel test _)))

  pub run_snapshot_tests-Kept :
      (test : String) (xs : List SnapshotConfig) → Kept (Snapshots.run_snapshot_tests c test xs)
  unfolding Snapshots.run_snapshot_tests
  run_snapshot_tests-Kept test xs =
      let ts = map to_create (filter Snapshots.is_complete_config xs) in
      run_tasks-Kept (Snapshots.total_work c ts) test
        (record { tasks = ts; results = []; errors = [] })
