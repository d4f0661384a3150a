-- ===== src/CloudStorages/Spared.antt =====
-- A bucket is deleted only where its CloudStorage asks for it.
use oadp_operator.Prelude.{
  ◌≡◌, subst, String, Bool, true, false, ◌&&◌, Option, none, some, is_some, if◌then◌else◌,
}
use oadp_operator.Cluster.{Attempt, success, failure, ok, M, ◌>>=◌, pure, Error}
use oadp_operator.Cluster.Holds.{after, Holds, Keeps, Holds-if, Holds-bind, Holds-from}
use oadp_operator.Cluster.Moves.{RepliedTo}
use oadp_operator.Process.{StorageObject, Session, CreateBucketInput, Services, Process}
use oadp_operator.Process.Keeps.{
  Here, Keeps-attempt, Keeps-change, Keeps-pure, Keeps-raise, Keeps-if, Keeps-returned,
  Keeps-replied, Keeps-option, Keeps-tried, Holds-Here,
}
use oadp_operator.Sts.Kept.{Quiet, sts_standardized_flow-Kept}
use oadp_operator.Buckets
use oadp_operator.Buckets.Kept.{exists-Kept, create-Kept}
use oadp_operator.CloudStorages

-- The annotation is true, and the object is being deleted.
abbrev pub requests_deletion : StorageObject → Bool
requests_deletion x = elim (CloudStorages.should_delete x) [
  | none ↦ false
  | some wanted ↦ wanted && is_some x.deletion_timestamp
]

-- A bucket that is there stays.
abbrev pub Lasting : {W : Type 0} → (W → Bool) → W → W → Type 0
Lasting has_bucket w v = has_bucket w ≡ true → has_bucket v ≡ true

-- Every call but the deletion of a bucket lets the bucket stay.
pub record LeavesBucket (c : Services) (namespace name : String) (has_bucket : c.World → Bool)
    : Type 0 where
  pub quiet : Quiet c (Lasting has_bucket)
  pub get : (w : c.World) → Lasting has_bucket w (after (c.get_cloud_storage namespace name w))
  pub update :
      (x : StorageObject) (w : c.World) → Lasting has_bucket w (after (c.update_cloud_storage x w))
  pub create :
      (o : Session) (i : CreateBucketInput) (w : c.World)
      → Lasting has_bucket w (c.create_bucket o i w).1

module _ (c : Services) (namespace name : String) (has_bucket : c.World → Bool)
    (leaves : LeavesBucket c namespace name has_bucket) where
  abbrev Stays : c.World → Type 0
  Stays w = has_bucket w ≡ true

  abbrev Spares : {A : Type 0} → M (Process c.World) A → Type 0
  Spares m = Keeps (Here Stays) m

  stable : (w v : c.World) → Lasting has_bucket w v → Stays w → Stays v
  stable w v f = f

  tell-Spares :
      {A : Type 0} (x : StorageObject) (reason : String) (m : M (Process c.World) A)
      → Spares m
      → Spares (CloudStorages.tell c x reason >>= λ _. m)
  tell-Spares x reason m h =
      Holds-bind _ _
        (Keeps-change Stays (c.record_event x.name reason)
          (leaves.quiet.record_event x.name reason))
        (λ u. h)

  report_synced-Spares : (x : StorageObject) → Spares (CloudStorages.report_synced c x)
  unfolding CloudStorages.report_synced
  report_synced-Spares x = record {
    at = λ s h.
        (Holds-bind {Q = λ _. Here Stays} {E = Here Stays} _ _
            (Keeps-attempt Stays _ (leaves.quiet.update_status _))
            (λ u. Keeps-pure Stays CloudStorages.finished)).at
          s h;
  }

  add_finalizer-Spares : (x : StorageObject) → Spares (CloudStorages.add_finalizer c x)
  unfolding CloudStorages.add_finalizer
  add_finalizer-Spares x = Holds-bind _ _ (Keeps-attempt Stays _ (leaves.update _)) (λ r.
      Keeps-replied Stays r _ _ (λ u. Keeps-pure Stays CloudStorages.requeue)
        (λ e. tell-Spares x _ _ (Keeps-pure Stays CloudStorages.requeue)))

  after_create-Spares :
      (x : StorageObject) (r : Bool × Option Error) → Spares (CloudStorages.after_create c x r)
  unfolding CloudStorages.after_create
  after_create-Spares x (false, e) = tell-Spares x _ _ (Keeps-pure Stays _)
  after_create-Spares x (true, some e) = Keeps-pure Stays _
  after_create-Spares x (true, none) = tell-Spares x _ _ (report_synced-Spares x)

  after_exists-Spares :
      (x : StorageObject) (r : Bool × Option Error) → Spares (CloudStorages.after_exists c x r)
  unfolding CloudStorages.after_exists
  after_exists-Spares x (false, none) =
      Holds-bind _ _ (create-Kept c (Lasting has_bucket) leaves.quiet Stays stable leaves.create x)
        (after_create-Spares x)
  after_exists-Spares x (true, none) = report_synced-Spares x
  after_exists-Spares x (there, some e) = tell-Spares x _ _ (Keeps-pure Stays _)

  ensure_bucket-Spares : (x : StorageObject) → Spares (CloudStorages.ensure_bucket c x)
  unfolding CloudStorages.ensure_bucket
  ensure_bucket-Spares x =
      Holds-bind _ _
        (Keeps-tried Stays _
          (sts_standardized_flow-Kept c (Lasting has_bucket) leaves.quiet Stays stable))
        (λ r.
          Keeps-returned Stays r _ _
            (λ secret.
              Holds-bind _ _ (exists-Kept c (Lasting has_bucket) leaves.quiet Stays stable x)
                (after_exists-Spares x))
            (λ e. tell-Spares x _ _ (Keeps-pure Stays _)))

  branch-Spares :
      (x : StorageObject) (o : Option Bool)
      → elim o [ none ↦ false | some wanted ↦ wanted && is_some x.deletion_timestamp ] ≡ false
      → Spares (elim o [
        | none ↦
            CloudStorages.tell c x "UnableToParseAnnotation" >>= λ _. pure CloudStorages.requeue
        | some wanted ↦
            if wanted && is_some x.deletion_timestamp
            then CloudStorages.delete_bucket_of c x
            else CloudStorages.ensure_bucket c x
      ])
  branch-Spares x none h = tell-Spares x _ _ (Keeps-pure Stays _)
  branch-Spares x (some wanted) h =
      Holds-if (wanted && is_some x.deletion_timestamp) _ _ (λ b. absurd (cc))
        (λ b. ensure_bucket-Spares x)

  reconcile_storage-Spares :
      (x : StorageObject)
      → requests_deletion x ≡ false
      → Spares (CloudStorages.reconcile_storage c x)
  unfolding CloudStorages.reconcile_storage CloudStorages.reconcile_bucket
  reconcile_storage-Spares x h =
      Keeps-if Stays (CloudStorages.lacks_finalizer x) _ _ (add_finalizer-Spares x) (
        Keeps-option Stays (Buckets.client_error x) _ _
          (branch-Spares x (CloudStorages.should_delete x) h) (λ e. Keeps-raise Stays e))

  abbrev Unasked : Attempt StorageObject → c.World → Type 0
  Unasked (success x) w = (requests_deletion x ≡ false) × Stays w
  Unasked (failure e) w = Stays w

  abbrev IsUnasked : Type 0
  IsUnasked =
      (w v : c.World) (x : StorageObject)
      → c.get_cloud_storage namespace name w ≡ ok x v
      → requests_deletion x ≡ false

  fetched :
      IsUnasked
      → (w v : c.World) (a : Attempt StorageObject) → Stays w
      → RepliedTo (c.get_cloud_storage namespace name) w a v
      → Unasked a v
  fetched unasked w v (success x) h e =
      (unasked w v x e, subst (λ r. Stays (after r)) e (leaves.get w h))
  fetched unasked w v (failure x) h e = subst (λ r. Stays (after r)) e (leaves.get w h)

  -- If no CloudStorage that is read has the annotation for deletion set to true while it is being
  -- deleted, Reconcile leaves the bucket that was there, also where a call fails on the way. This is
  -- of services of which only the call that deletes a bucket may make it go.
  pub reconcile-Spares :
      ((w v : c.World) (x : StorageObject)
        → c.get_cloud_storage namespace name w ≡ ok x v
        → requests_deletion x ≡ false)
      → Keeps (Here Stays) (CloudStorages.reconcile c namespace name)
  unfolding CloudStorages.reconcile
  reconcile-Spares unasked =
      Holds-bind _ _
        (Holds-Here (c.get_cloud_storage namespace name) Stays Unasked Stays (fetched unasked))
        (λ r.
          elim r
            as (λ r.
              Holds {A = CloudStorages.Verdict} (Here (Unasked r)) (λ _. Here Stays) (Here Stays)
                (elim r [
                  | failure e ↦ pure CloudStorages.finished
                  | success x ↦ CloudStorages.reconcile_storage c x
                ])) [
                  | failure e ↦ Keeps-pure Stays CloudStorages.finished
                  | success x ↦ Holds-from _ (λ p r. (r.0, r.1)) (λ h. reconcile_storage-Spares x h)
                ])
