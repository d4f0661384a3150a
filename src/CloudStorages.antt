-- ===== src/CloudStorages.antt =====
-- The CloudStorage controller: internal/controller/cloudstorage_controller.go. The bucket client is
-- of `Buckets`. The log is left out.
pub mod Protected
pub mod Spared
use oadp_operator.Prelude.{
  ◌≡◌, ℕ, zero, suc, String, Bool, true, false, not, ◌&&◌, ◌||◌, ◌==◌, nat_eq, List, [], ◌∷◌, ◌++◌,
  Option, none, some, is_some, is_none, lookup, if◌then◌else◌,
}
use oadp_operator.Cluster.{
  Attempt, success, failure, attempt, M, ◌>>=◌, ◌>>◌, pure, raise, Error, tried, returned, failed,
}
use oadp_operator.Process.{
  SecretObject, StorageObject, Services, Process, on_cluster, change, is_not_found,
}
use oadp_operator.Sts.{sts_standardized_flow}
use oadp_operator.Buckets.{client_error, exists, create, delete}

abbrev pub bucket_finalizer : String
bucket_finalizer = "oadp.openshift.io/bucket-protection"

abbrev pub delete_annotation : String
delete_annotation = "oadp.openshift.io/cloudstorage-delete"

-- ctrl.Result: RequeueAfter in seconds.
pub data Verdict : Type 0 where
  finished requeue : Verdict
  requeue_after : ℕ → Verdict

unfoldable pub contain_finalizer : List String → String → Bool
contain_finalizer [] f = false
contain_finalizer (finalizer ∷ rest) f = finalizer == f || contain_finalizer rest f

-- The first occurrence goes.
unfoldable pub remove_key : List String → String → List String
remove_key [] s = []
remove_key (v ∷ rest) s = let kept = remove_key rest s in if v == s then rest else v ∷ kept

-- strconv.ParseBool: `none` is its error.
unfoldable pub parse_bool : String → Option Bool
parse_bool text =
    if text == "1"
      || text == "t"
      || text == "T"
      || text == "TRUE"
      || text == "true"
      || text == "True"
    then some true
    else if text == "0"
        || text == "f"
        || text == "F"
        || text == "FALSE"
        || text == "false"
        || text == "False"
    then some false
    else none

abbrev pub with_finalizers : StorageObject → List String → StorageObject
with_finalizers storage finalizers = record storage { finalizers = finalizers }

-- Whether the finalizer is to be added.
unfoldable pub lacks_finalizer : StorageObject → Bool
unfolding contain_finalizer
lacks_finalizer storage =
    is_none storage.deletion_timestamp
    && not (contain_finalizer storage.finalizers bucket_finalizer)

-- Whether the bucket is to be deleted: `none` if the annotation is not a truth value.
unfoldable pub should_delete : StorageObject → Option Bool
unfolding parse_bool
should_delete storage = elim (lookup delete_annotation storage.annotations) [
  | none ↦ some false
  | some text ↦ parse_bool text
]

module _ (c : Services) where
  abbrev pub tell : StorageObject → String → M (Process c.World) (Unit {0})
  tell storage reason = change (c.record_event storage.name reason)

  unfoldable pub add_finalizer : StorageObject → M (Process c.World) Verdict
  add_finalizer storage =
      attempt (
        on_cluster (
          c.update_cloud_storage
            (with_finalizers storage (storage.finalizers ++ (bucket_finalizer ∷ [])))))
      >>= λ r. elim r [
        | success u ↦ pure requeue
        | failure e ↦ tell storage "UnableToAddFinalizer" >> pure requeue
      ]

  -- What follows the deletion of the bucket.
  unfoldable pub remove_finalizer : StorageObject → M (Process c.World) Verdict
  unfolding remove_key
  remove_finalizer storage =
      attempt (
        on_cluster (
          c.update_cloud_storage
            (with_finalizers storage (remove_key storage.finalizers bucket_finalizer))))
      >>= λ r. elim r [
        | success u ↦ pure requeue
        | failure e ↦ tell storage "UnableToRemoveFinalizer" >> pure requeue
      ]

  unfoldable pub after_delete : StorageObject → Bool × Option Error → M (Process c.World) Verdict
  unfolding remove_finalizer
  after_delete storage (deleted, some e) =
      tell storage "UnableToDeleteBucket" >> pure (requeue_after 30)
  after_delete storage (true, none) = tell storage "BucketDeleted" >> remove_finalizer storage
  after_delete storage (false, none) =
      tell storage "UnableToDeleteBucketUnknown" >> pure (requeue_after 30)

  unfoldable pub delete_bucket_of : StorageObject → M (Process c.World) Verdict
  unfolding after_delete
  delete_bucket_of storage = delete c storage >>= after_delete storage

  -- The end: the status; its error is dropped.
  unfoldable pub report_synced : StorageObject → M (Process c.World) Verdict
  report_synced storage s =
      (attempt (
            on_cluster (
              c.update_cloud_storage_status (record storage {
                last_synced = some (c.now s.world.cluster);
                synced_name = storage.bucket;
              })))
          >> pure finished)
        s

  unfoldable pub after_create : StorageObject → Bool × Option Error → M (Process c.World) Verdict
  unfolding report_synced
  after_create storage (false, e) = tell storage "BucketNotCreated" >> pure (requeue_after 30)
  after_create storage (true, some e) = pure (requeue_after 60)
  after_create storage (true, none) = tell storage "BucketCreated" >> report_synced storage

  unfoldable pub after_exists : StorageObject → Bool × Option Error → M (Process c.World) Verdict
  unfolding after_create report_synced
  after_exists storage (false, none) = create c storage >>= after_create storage
  after_exists storage (true, none) = report_synced storage
  after_exists storage (there, some e) = tell storage "BucketNotFound" >> pure (requeue_after 60)

  -- The token service flow, and the creation of the bucket.
  unfoldable pub ensure_bucket : StorageObject → M (Process c.World) Verdict
  unfolding after_exists
  ensure_bucket storage = tried (sts_standardized_flow c) >>= λ r. elim r [
    | failed e ↦ tell storage "UnableToSTSSecret" >> pure (requeue_after 30)
    | returned secret ↦ exists c storage >>= after_exists storage
  ]

  unfoldable pub reconcile_bucket : StorageObject → M (Process c.World) Verdict
  unfolding should_delete delete_bucket_of ensure_bucket
  reconcile_bucket storage = elim (should_delete storage) [
    | none ↦ tell storage "UnableToParseAnnotation" >> pure requeue
    | some wanted ↦
        if wanted && is_some storage.deletion_timestamp
        then delete_bucket_of storage
        else ensure_bucket storage
  ]

  unfoldable pub reconcile_storage : StorageObject → M (Process c.World) Verdict
  unfolding lacks_finalizer add_finalizer reconcile_bucket
  reconcile_storage storage =
      if lacks_finalizer storage
      then add_finalizer storage
      else elim (client_error storage) [ some e ↦ raise e | none ↦ reconcile_bucket storage ]

  -- Reconcile of a request: namespace, name.
  unfoldable pub reconcile : String → String → M (Process c.World) Verdict
  unfolding reconcile_storage
  reconcile namespace name = attempt (on_cluster (c.get_cloud_storage namespace name)) >>= λ r.
      elim r [ failure e ↦ pure finished | success storage ↦ reconcile_storage storage ]

  -- The condition of the controller's WaitForSecret: a secret that is not found is waited for; every
  -- other error counts as found, and the secret is then empty.
  unfoldable pub is_secret_settled :
      String → String → M (Process c.World) (Bool × Option SecretObject)
  is_secret_settled namespace name = attempt (on_cluster (c.get_secret namespace name)) >>= λ r.
      elim r [
        | success secret ↦ pure (true, some secret)
        | failure e ↦ if is_not_found e then pure (false, none) else pure (true, none)
      ]

-- The filter of the update events: the deletion timestamp of the new object, the generations of both.
unfoldable pub is_update_handled : Option ℕ → ℕ → ℕ → Bool
is_update_handled deletion_timestamp old_generation new_generation =
    if is_some deletion_timestamp then true else not (nat_eq old_generation new_generation)
