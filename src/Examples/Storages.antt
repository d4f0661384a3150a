-- ===== src/Examples/Storages.antt =====
-- A CloudStorage and its bucket in memory, and the secrets of the token service.
use oadp_operator.Prelude.{
  ◌≡◌, ◌↔◌, ◌<◌, refl, sym, ap, subst, ℕ, zero, suc, String, Bool, true, false, List, [], ◌∷◌, none,
  some, is_some, Dict, lookup, if◌then◌else◌, arith,
}
use oadp_operator.Cluster.{not_found, Reply, ok, err, State, done, fail, about}
use oadp_operator.Cluster.Holds.{after, Keeps}
use oadp_operator.Process.{SecretObject, StorageObject, Services, Process}
use oadp_operator.Process.Keeps.{Here}
use oadp_operator.Sts.{wait_for_secret}
use oadp_operator.Sts.Kept.{Quiet}
use oadp_operator.Sts.Waiting.{Appears, now, later, Missing, wait_for_secret_outcome}
use oadp_operator.CloudStorages.{
  contain_finalizer, bucket_finalizer, delete_annotation, reconcile, should_delete,
}
use oadp_operator.CloudStorages.Protected.{ServesBucket, Untouched, reconcile-Protected}
use oadp_operator.CloudStorages.Spared.{LeavesBucket, Lasting, requests_deletion, reconcile-Spares}

-- The stored finalizers, the bucket, and the ticks until the secrets are there.
record Depot : Type 0 where
  pub finalizers : List String
  pub has_bucket : Bool
  pub ticks_left : ℕ

abbrev depot_secret : SecretObject
depot_secret = record {
  meta = record { name = "cloud"; namespace = "ns"; labels = none; owner = none };
  content = ("credentials", "[default]") ∷ [];
  string_data = none;
}

abbrev five : ℕ
five = 5

abbrev depot_object : Dict → Depot → StorageObject
depot_object annotations w = record {
  name = "storage";
  namespace = "ns";
  finalizers = w.finalizers;
  annotations = annotations;
  deletion_timestamp = if contain_finalizer w.finalizers bucket_finalizer then some five else none;
  bucket = "bucket";
  creation_secret = record { name = "cloud"; key = "credentials" };
  enable_shared_config = none;
  tags = [];
  region = "us-east-1";
  provider = "aws";
  synced_name = "";
  last_synced = none;
}

abbrev one_less : ℕ → ℕ
one_less zero = zero
one_less (suc n) = n

abbrev if_zero : ℕ → Depot → Reply Depot SecretObject
if_zero zero w = ok depot_secret w
if_zero (suc n) w = err not_found w

-- The depot, with these annotations of the CloudStorage.
abbrev depot : Dict → Services
depot annotations = record {
  World = Depot;
  get_env = λ key. "";
  new_client = ok tt;
  new_clientset = ok tt;
  get_secret = λ namespace name w. ok depot_secret w;
  create_secret = λ secret w. ok tt w;
  patch_secret = λ new old w. ok tt w;
  read_secret = λ namespace name w. if_zero w.ticks_left w;
  get_service_account = λ namespace name w. err not_found w;
  patch_service_account = λ new old w. ok tt w;
  elapse = λ w. record w { ticks_left = one_less w.ticks_left };
  ticks_received = λ interval timeout w. 59;
  make_temp_dir = λ prefix w. ok "/tmp/secret" w;
  create_temp = λ dir prefix w. ok "/tmp/secret/file" w;
  write_file = λ file text w. ok tt w;
  new_session = λ o w. (none, w);
  head_bucket = λ o b w. (none, w);
  create_bucket = λ o i w. (none, record w { has_bucket = true });
  delete_bucket = λ o b w. (none, record w { has_bucket = false });
  delete_bucket_tagging = λ o b w. (none, w);
  put_bucket_tagging = λ o b t w. (none, w);
  create_input_error = λ i. none;
  delete_input_error = λ b. none;
  get_cloud_storage = λ namespace name w. ok (depot_object annotations w) w;
  update_cloud_storage = λ x w. ok x (record w { finalizers = x.finalizers });
  update_cloud_storage_status = λ x w. ok x w;
  record_event = λ name reason w. w;
  now = λ w. 7;
}

abbrev deletion : Dict
deletion = (delete_annotation, "true") ∷ []

abbrev finalizers_in : Depot → List String
finalizers_in w = w.finalizers

abbrev has_bucket_in : Depot → Bool
has_bucket_in w = w.has_bucket

if_zero_leaves : (n : ℕ) (w : Depot) → after (if_zero n w) ≡ w
if_zero_leaves zero w = refl
if_zero_leaves (suc n) w = refl

-- Every call but those of the bucket and of the CloudStorage leaves both.
abbrev calm :
    (annotations : Dict) (R : Depot → Depot → Type 0)
    → ((w : Depot) → R w w)
    → ((w : Depot) (n : ℕ) → R w (record w { ticks_left = n }))
    → Quiet (depot annotations) R
calm annotations R r ticks = record {
  new_client = r;
  new_clientset = r;
  get_secret = λ namespace name. r;
  create_secret = λ secret. r;
  patch_secret = λ new old. r;
  read_secret = λ namespace name w. subst (R w) (sym (if_zero_leaves w.ticks_left w)) (r w);
  get_account = λ namespace name. r;
  patch_account = λ new old. r;
  elapse = λ w. ticks w (one_less w.ticks_left);
  make_temp_dir = λ prefix. r;
  create_temp = λ dir prefix. r;
  write_file = λ file text. r;
  new_session = λ o. r;
  head_bucket = λ o b. r;
  delete_tags = λ o b. r;
  put_tags = λ o b t. r;
  update_status = λ x. r;
  record_event = λ name reason. r;
}

abbrev object_of : StorageObject → Reply Depot StorageObject → StorageObject
object_of d (ok x w) = x
object_of d (err e w) = d

depot-ServesBucket :
    ServesBucket (depot deletion) "ns" "storage" "bucket" finalizers_in has_bucket_in
depot-ServesBucket = record {
  quiet =
      calm deletion (Untouched finalizers_in has_bucket_in) (λ w. (refl, refl))
        (λ w n. (refl, refl));
  get_leaves = λ w. (refl, refl);
  get_reads = λ w v x e.
      let same = ap (object_of (depot_object deletion w)) e in
      (
        ap (λ y. y.namespace) (sym same),
        ap (λ y. y.name) (sym same),
        ap (λ y. y.bucket) (sym same),
        ap (λ y. y.finalizers) (sym same),
      );
  update_stores = λ x y w v n m e. (
    ap (λ (r : Reply Depot StorageObject). (after r).finalizers) (sym e),
    ap (λ (r : Reply Depot StorageObject). (after r).has_bucket) (sym e),
  );
  update_refused = λ x e w v h. absurd (cc);
  create_leaves = λ o i w. refl;
  delete_leaves = λ o b w. refl;
  delete_empties = λ o w e. refl;
}

deleted_held :
    (w v : Depot) (x : StorageObject)
    → ok (depot_object deletion w) w ≡ ok x v
    → is_some x.deletion_timestamp ≡ true
    → contain_finalizer x.finalizers bucket_finalizer ≡ true
deleted_held w v x e =
    subst
      (λ y.
        is_some y.deletion_timestamp ≡ true
        → contain_finalizer y.finalizers bucket_finalizer ≡ true)
      (ap (object_of (depot_object deletion w)) e)
      (λ h. held_if (contain_finalizer w.finalizers bucket_finalizer) h)
  where
    held_if : (b : Bool) → is_some (if b then some five else none) ≡ true → b ≡ true
    held_if true h = refl
    held_if false h = absurd (cc)

reconcile-Protected_example :
    Keeps
      (Here
        (λ w. has_bucket_in w ≡ true → contain_finalizer (finalizers_in w) bucket_finalizer ≡ true))
      (reconcile (depot deletion) "ns" "storage")
reconcile-Protected_example =
    reconcile-Protected (depot deletion) "ns" "storage" "bucket" finalizers_in has_bucket_in
      depot-ServesBucket deleted_held

-- With no annotation the bucket stays.
depot-LeavesBucket : LeavesBucket (depot []) "ns" "storage" has_bucket_in
depot-LeavesBucket = record {
  quiet = calm [] (Lasting has_bucket_in) (λ w h. h) (λ w n h. h);
  get = λ w h. h;
  update = λ x w h. h;
  create = λ o i w h. refl;
}

unasked :
    (w v : Depot) (x : StorageObject)
    → ok (depot_object [] w) w ≡ ok x v
    → requests_deletion x ≡ false
unfolding should_delete lookup
unasked w v x e =
    subst (λ y. requests_deletion y ≡ false) (ap (object_of (depot_object [] w)) e) refl

reconcile-Spares_example :
    Keeps (Here (λ w. has_bucket_in w ≡ true)) (reconcile (depot []) "ns" "storage")
reconcile-Spares_example =
    reconcile-Spares (depot []) "ns" "storage" has_bucket_in depot-LeavesBucket unasked

abbrev waiting : State (Process Depot)
waiting = record {
  world = record {
    cluster = record { finalizers = []; has_bucket = false; ticks_left = 2 };
    file_bucket_cache = [];
  };
  was_restic = false;
}

abbrev there : Depot
there = record { finalizers = []; has_bucket = false; ticks_left = 0 }

abbrev left_at : Depot → State (Process Depot)
left_at w = record waiting { world = record waiting.world { cluster = w } }

wait_for_secret_outcome_example :
    ((secret : SecretObject) (v : Depot)
      → (wait_for_secret (depot []) "ns" "cloud" waiting ≡ done secret (left_at v))
        ↔ ((k : ℕ) × (k < 59) × Appears (depot []) "ns" "cloud" k waiting.world.cluster secret v))
    × ((v : Depot)
        → Missing (depot []) "ns" "cloud" 59 waiting.world.cluster v
        → wait_for_secret (depot []) "ns" "cloud" waiting
          ≡ fail
              (about "timed out waiting for secret" ("cloud" ∷ "ns" ∷ []))
              (left_at (record v { ticks_left = one_less v.ticks_left })))
wait_for_secret_outcome_example = wait_for_secret_outcome (depot []) "ns" "cloud" waiting

-- The second tick finds the secret.
found_second : wait_for_secret (depot []) "ns" "cloud" waiting ≡ done depot_secret (left_at there)
found_second =
    ((wait_for_secret_outcome (depot []) "ns" "cloud" waiting).0 depot_secret there).1
      (1, omega arith, later refl (now refl))
