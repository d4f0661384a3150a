-- ===== src/CloudStorages/Protected.antt =====
-- A bucket is protected: while it exists, its CloudStorage carries the finalizer.
use oadp_operator.Prelude.{
  ◌≡◌, refl, sym, subst, ◌∙◌, String, Bool, true, false, List, [], ◌∷◌, ◌++◌, Option, none, some,
  is_some, arith, eq_refl, Bool-cases, Option-cases, inl, inr,
}
use oadp_operator.Cluster.{
  Attempt, success, failure, attempt, ok, err, returned, failed, M, ◌>>=◌, pure, Error, ApiError,
}
use oadp_operator.Cluster.Holds.{
  after, Holds, Keeps, Holds-pure, Holds-raise, Holds-if, Holds-option, Holds-bind, Holds-mono,
  Holds-from, Holds-pre,
}
use oadp_operator.Cluster.Moves.{RepliedTo}
use oadp_operator.Process.{
  StorageObject, Session, CreateBucketInput, SdkError, Services, Process, on_cluster, send,
}
use oadp_operator.Process.Keeps.{
  Here, Keeps-attempt, Keeps-change, Keeps-pure, Keeps-tried, Keeps-replied, Holds-Here, Holds-send,
}
use oadp_operator.Sts.Kept.{Quiet, sts_standardized_flow-Kept}
use oadp_operator.Buckets
use oadp_operator.Buckets.Kept.{get_s3_client-Kept, exists-Kept, create-Kept}
use oadp_operator.CloudStorages

contain_finalizer-append :
    (fs : List String) (f : String) → CloudStorages.contain_finalizer (fs ++ (f ∷ [])) f ≡ true
unfolding CloudStorages.contain_finalizer
contain_finalizer-append [] f = ground (arith, eq_refl f)
contain_finalizer-append (g ∷ fs) f = ground (arith, contain_finalizer-append fs f)

abbrev pub Untouched : {W : Type 0} → (W → List String) → (W → Bool) → W → W → Type 0
Untouched finalizers_in has_bucket w v =
    (finalizers_in v ≡ finalizers_in w) × (has_bucket v ≡ has_bucket w)

-- What the services do with one CloudStorage and its bucket: the finalizers that are stored, and
-- whether there is a bucket of that name.
pub record ServesBucket (c : Services) (namespace name bucket : String)
    (finalizers_in : c.World → List String) (has_bucket : c.World → Bool) : Type 0 where
  pub quiet : Quiet c (Untouched finalizers_in has_bucket)
  pub get_leaves :
      (w : c.World)
      → Untouched finalizers_in has_bucket w (after (c.get_cloud_storage namespace name w))
  pub get_reads :
      (w v : c.World) (x : StorageObject)
      → c.get_cloud_storage namespace name w ≡ ok x v
      → (x.namespace ≡ namespace)
        × (x.name ≡ name)
        × (x.bucket ≡ bucket)
        × (x.finalizers ≡ finalizers_in w)
  pub update_stores :
      (x y : StorageObject) (w v : c.World)
      → x.namespace ≡ namespace
      → x.name ≡ name
      → c.update_cloud_storage x w ≡ ok y v
      → (finalizers_in v ≡ x.finalizers) × (has_bucket v ≡ has_bucket w)
  pub update_refused :
      (x : StorageObject) (e : ApiError) (w v : c.World)
      → c.update_cloud_storage x w ≡ err e v
      → Untouched finalizers_in has_bucket w v
  pub create_leaves :
      (o : Session) (i : CreateBucketInput) (w : c.World)
      → finalizers_in (c.create_bucket o i w).1 ≡ finalizers_in w
  pub delete_leaves :
      (o : Session) (b : String) (w : c.World)
      → finalizers_in (c.delete_bucket o b w).1 ≡ finalizers_in w
  pub delete_empties :
      (o : Session) (w : c.World)
      → (c.delete_bucket o bucket w).0 ≡ none
      → has_bucket (c.delete_bucket o bucket w).1 ≡ false

module _ (c : Services) (namespace name bucket : String) (finalizers_in : c.World → List String)
    (has_bucket : c.World → Bool)
    (serves : ServesBucket c namespace name bucket finalizers_in has_bucket) where
  abbrev HasFinalizer : List String → Type 0
  HasFinalizer fs = CloudStorages.contain_finalizer fs CloudStorages.bucket_finalizer ≡ true

  -- While the bucket exists, the finalizer is stored.
  abbrev Protected : c.World → Type 0
  Protected w = has_bucket w ≡ true → HasFinalizer (finalizers_in w)

  abbrev Gone : c.World → Type 0
  Gone w = has_bucket w ≡ false

  abbrev Carries : List String → c.World → Type 0
  Carries fs w = finalizers_in w ≡ fs

  abbrev Same : c.World → c.World → Type 0
  Same w v = Untouched finalizers_in has_bucket w v

  Protected-stable : (w v : c.World) → Same w v → Protected w → Protected v
  Protected-stable w v (fins, has) p b = subst HasFinalizer (sym fins) (p (sym has ∙ b))

  Gone-stable : (w v : c.World) → Same w v → Gone w → Gone v
  Gone-stable w v (fins, has) g = has ∙ g

  Carries-stable : (fs : List String) (w v : c.World) → Same w v → Carries fs w → Carries fs v
  Carries-stable fs w v (fins, has) g = fins ∙ g

  Gone-Protected : (w : c.World) → Gone w → Protected w
  Gone-Protected w g b = absurd (cc)

  Carries-Protected :
      (fs : List String) (w : c.World) → HasFinalizer fs → Carries fs w → Protected w
  Carries-Protected fs w h g b = subst HasFinalizer (sym g) h

  abbrev Returns : {A : Type 0} → (c.World → Type 0) → M (Process c.World) A → Type 0
  Returns P m = Holds (Here P) (λ _. Here Protected) (Here Protected) m

  tell-Returns :
      {A : Type 0} (P : c.World → Type 0)
      → ((w v : c.World) → Same w v → P w → P v)
      → ((w : c.World) → P w → Protected w)
      → (x : StorageObject) (reason : String) (m : M (Process c.World) A) → Returns P m
      → Returns P (CloudStorages.tell c x reason >>= λ _. m)
  tell-Returns P stable safe x reason m h =
      Holds-bind _ _
        (Holds-mono _
          (Keeps-change P (c.record_event x.name reason)
            (λ w. stable w _ (serves.quiet.record_event x.name reason w)))
          (λ u w p. p) (λ p. safe p.cluster))
        (λ u. h)

  pure-Returns :
      {A : Type 0} (P : c.World → Type 0)
      → ((w : c.World) → P w → Protected w)
      → (a : A) → Returns P (pure a)
  pure-Returns P safe a = Holds-pure a (λ p. safe p.cluster)

  module _ (x : StorageObject) (of_namespace : x.namespace ≡ namespace)
      (of_name : x.name ≡ name) where
    -- An update with these finalizers, from a world where it keeps the bucket protected.
    store-Returns :
        (P : c.World → Type 0) (fs : List String) (reason : String)
        → ((w : c.World) → P w → Protected w)
        → ((w v : c.World) → P w → Carries fs v → has_bucket v ≡ has_bucket w → Protected v)
        → Returns P (
            attempt (on_cluster (c.update_cloud_storage (CloudStorages.with_finalizers x fs)))
            >>= λ r. elim r [
              | success u ↦ pure CloudStorages.requeue
              | failure e ↦ CloudStorages.tell c x reason >>= λ _. pure CloudStorages.requeue
            ])
    store-Returns P fs reason safe stored =
        let changed = CloudStorages.with_finalizers x fs in
        let k = c.update_cloud_storage changed in
        Holds-bind _ _
          (Holds-Here k P (λ _. Protected) Protected
            (λ w v a p. elim a as (λ a. RepliedTo k w a v → Protected v) [
              | success y ↦ λ e.
                  let (fins, has) = serves.update_stores changed y w v of_namespace of_name e in
                  stored w v p fins has
              | failure z ↦
                  λ e. Protected-stable w v (serves.update_refused changed z w v e) (safe w p)
            ]))
          (λ r.
            Keeps-replied Protected r _ _ (λ u. Keeps-pure Protected CloudStorages.requeue)
              (λ e.
                tell-Returns Protected Protected-stable (λ w p. p) x reason _
                  (Keeps-pure Protected CloudStorages.requeue)))

    add_finalizer-Returns :
        Returns (λ w. Protected w × Carries x.finalizers w) (CloudStorages.add_finalizer c x)
    unfolding CloudStorages.add_finalizer
    add_finalizer-Returns =
        store-Returns _ _ _ (λ w p. p.0)
          (λ w v p fins has b.
            subst HasFinalizer (sym fins)
              (contain_finalizer-append x.finalizers CloudStorages.bucket_finalizer))

    remove_finalizer-Returns : Returns Gone (CloudStorages.remove_finalizer c x)
    unfolding CloudStorages.remove_finalizer
    remove_finalizer-Returns =
        store-Returns _ _ _ Gone-Protected (λ w v p fins has. Gone-Protected v (has ∙ p))

  -- Where the CloudStorage carries the finalizers that were read, with the operator's among them.
  module _ (x : StorageObject) (held : HasFinalizer x.finalizers) where
    abbrev Armed : c.World → Type 0
    Armed = Carries x.finalizers

    Armed-Protected : (w : c.World) → Armed w → Protected w
    Armed-Protected w a = Carries-Protected x.finalizers w held a

    Armed-stable : (w v : c.World) → Same w v → Armed w → Armed v
    Armed-stable = Carries-stable x.finalizers

    Armed-Returns :
        {A : Type 0} (m : M (Process c.World) A) → Keeps (Here Armed) m → Returns Armed m
    Armed-Returns m k =
        Holds-mono m k (λ a p. Armed-Protected p.cluster) (λ p. Armed-Protected p.cluster)

    -- The same, where the step goes on.
    goes_on :
        {A B : Type 0} (m : M (Process c.World) A) (f : A → M (Process c.World) B)
        → Keeps (Here Armed) m
        → ((a : A) → Returns Armed (f a))
        → Returns Armed (m >>= f)
    goes_on m f k h =
        Holds-bind m f (Holds-mono m k (λ a p h. h) (λ p. Armed-Protected p.cluster)) h

    told :
        {A : Type 0} (reason : String) (a : A)
        → Returns Armed (CloudStorages.tell c x reason >>= λ _. pure a)
    told reason a =
        tell-Returns Armed Armed-stable Armed-Protected x reason _
          (pure-Returns Armed Armed-Protected a)

    report_synced-Returns : Returns Armed (CloudStorages.report_synced c x)
    unfolding CloudStorages.report_synced
    report_synced-Returns = record {
      at = λ s h.
          (Armed-Returns _ (
              Holds-bind _ _
                (Keeps-attempt Armed _ (λ w. Armed-stable w _ (serves.quiet.update_status _ w)))
                (λ u. Keeps-pure Armed CloudStorages.finished))).at
            s h;
    }

    after_create-Returns :
        (r : Bool × Option Error) → Returns Armed (CloudStorages.after_create c x r)
    unfolding CloudStorages.after_create
    after_create-Returns (false, e) = told "BucketNotCreated" _
    after_create-Returns (true, some e) = pure-Returns Armed Armed-Protected _
    after_create-Returns (true, none) =
        tell-Returns Armed Armed-stable Armed-Protected x _ _ report_synced-Returns

    after_exists-Returns :
        (r : Bool × Option Error) → Returns Armed (CloudStorages.after_exists c x r)
    unfolding CloudStorages.after_exists
    after_exists-Returns (false, none) =
        goes_on _ _
          (create-Kept c Same serves.quiet Armed Armed-stable
            (λ o i w a. serves.create_leaves o i w ∙ a) x)
          after_create-Returns
    after_exists-Returns (true, none) = report_synced-Returns
    after_exists-Returns (there, some e) = told "BucketNotFound" _

    ensure_bucket-Returns : Returns Armed (CloudStorages.ensure_bucket c x)
    unfolding CloudStorages.ensure_bucket
    ensure_bucket-Returns =
        goes_on _ _
          (Keeps-tried Armed _ (sts_standardized_flow-Kept c Same serves.quiet Armed Armed-stable))
          (λ r.
            elim r
              as (λ r. Returns Armed (elim r [
                | failed e ↦ CloudStorages.tell c x "UnableToSTSSecret" >>= λ _.
                    pure (CloudStorages.requeue_after 30)
                | returned secret ↦ Buckets.exists c x >>= CloudStorages.after_exists c x
              ])) [
                | failed e ↦ told "UnableToSTSSecret" _
                | returned secret ↦
                    goes_on _ _ (exists-Kept c Same serves.quiet Armed Armed-stable x)
                      after_exists-Returns
              ])

    -- What Delete answers: without an error, the bucket is gone.
    abbrev Answered : Bool × Option Error → c.World → Type 0
    Answered (b, none) w = Armed w × Gone w
    Answered (b, some e) w = Armed w

    abbrev Deletes : {A : Type 0} → (A → c.World → Type 0) → M (Process c.World) A → Type 0
    Deletes Q m = Holds (Here Armed) (λ a. Here (Q a)) (Here Protected) m

    answer_error-Answered :
        (P : c.World → Type 0) (e : Option SdkError) (m : M (Process c.World) (Bool × Option Error))
        → ((w : c.World) → P w → Armed w)
        → (e ≡ none → Holds (Here P) (λ a. Here (Answered a)) (Here Protected) m)
        → Holds (Here P) (λ a. Here (Answered a)) (Here Protected) (Buckets.answer_error false e m)
    unfolding Buckets.answer_error
    answer_error-Answered P none m f h = h refl
    answer_error-Answered P (some e) m f h = Holds-pure _ (λ p. f p.cluster)

    abbrev Sent : Option SdkError → c.World → Type 0
    Sent e w = Armed w × (e ≡ none → Gone w)

    Sent-Answered :
        (e : Option SdkError)
        → Holds
            (Here (Sent e))
            (λ a. Here (Answered a))
            (Here Protected)
            (Buckets.answer_error false e (pure (true, none)))
    Sent-Answered e =
        answer_error-Answered (Sent e) e (pure (true, none)) (λ w a. a.0)
          (λ absent. Holds-pure (true, none) (λ p a. (a.0, a.1 absent)))

    sent_cases :
        (session : Session) (w : c.World)
        → x.bucket ≡ bucket
        → (c.delete_bucket session x.bucket w).0 ≡ none
        → Gone (c.delete_bucket session x.bucket w).1
    sent_cases session w of_bucket e =
        subst (λ b. Gone (c.delete_bucket session b w).1) (sym of_bucket)
          (serves.delete_empties session w
            (subst (λ b. (c.delete_bucket session b w).0 ≡ none) of_bucket e))

    request-Answered :
        (session : Session)
        → x.bucket ≡ bucket
        → Deletes Answered (
            Buckets.answer_error false (c.delete_input_error x.bucket) (
              send (c.delete_bucket session x.bucket) >>= λ e.
              Buckets.answer_error false e (pure (true, none))))
    request-Answered session of_bucket =
        answer_error-Answered Armed (c.delete_input_error x.bucket) _ (λ w a. a)
          (λ accepted.
            Holds-bind _ _
              (Holds-send Armed Sent Protected (c.delete_bucket session x.bucket) (λ w a.
                (serves.delete_leaves session x.bucket w ∙ a, sent_cases session w of_bucket)))
              Sent-Answered)

    delete-Deletes : x.bucket ≡ bucket → Deletes Answered (Buckets.delete c x)
    unfolding Buckets.delete
    delete-Deletes of_bucket =
        Holds-bind _ _
          (Holds-mono _
            (Keeps-tried Armed _ (get_s3_client-Kept c Same serves.quiet Armed Armed-stable x))
            (λ a p h. h) (λ p. Armed-Protected p.cluster))
          (λ r.
            elim r
              as (λ r. Deletes Answered (elim r [
                | failed e ↦ pure (false, some e)
                | returned session ↦ Buckets.answer_error false (c.delete_input_error x.bucket) (
                    send (c.delete_bucket session x.bucket) >>= λ e.
                    Buckets.answer_error false e (pure (true, none)))
              ])) [
                | failed e ↦ Holds-pure (false, some e) (λ p h. h)
                | returned session ↦ request-Answered session of_bucket
              ])

  module _ (x : StorageObject) (of_namespace : x.namespace ≡ namespace) (of_name : x.name ≡ name)
      (of_bucket : x.bucket ≡ bucket) where
    after_delete-Returns :
        (held : HasFinalizer x.finalizers) (r : Bool × Option Error)
        → Returns (Answered x held r) (CloudStorages.after_delete c x r)
    unfolding CloudStorages.after_delete
    after_delete-Returns held (b, some e) = told x held "UnableToDeleteBucket" _
    after_delete-Returns held (true, none) =
        Holds-pre _ (λ w a. a.1)
          (tell-Returns Gone Gone-stable Gone-Protected x _ _
            (remove_finalizer-Returns x of_namespace of_name))
    after_delete-Returns held (false, none) = Holds-pre _ (λ w a. a.0) (told x held _ _)

    reconcile_bucket-Returns :
        (held : HasFinalizer x.finalizers)
        → Returns (Carries x.finalizers) (CloudStorages.reconcile_bucket c x)
    unfolding CloudStorages.reconcile_bucket CloudStorages.delete_bucket_of
    reconcile_bucket-Returns held =
        Holds-option (CloudStorages.should_delete x) _ _ (λ e. told x held _ _)
          (λ wanted e.
            Holds-if _ _ _
              (λ b. Holds-bind _ _ (delete-Deletes x held of_bucket) (after_delete-Returns held))
              (λ b. ensure_bucket-Returns x held))

    -- If nothing is to be added, and a deleted object carries the finalizer, then `x` carries it.
    finalizer_held :
        (is_some x.deletion_timestamp ≡ true → HasFinalizer x.finalizers)
        → CloudStorages.lacks_finalizer x ≡ false
        → HasFinalizer x.finalizers
    unfolding CloudStorages.lacks_finalizer
    finalizer_held deleted h = elim (Option-cases x.deletion_timestamp) [
      | inl live ↦
          elim (Bool-cases
            (CloudStorages.contain_finalizer x.finalizers CloudStorages.bucket_finalizer)) [
              | inl carried ↦ carried
              | inr lost ↦ absurd (ground (arith, h, live, lost))
            ]
      | inr (t, gone) ↦ deleted (ground (arith, gone))
    ]

    reconcile_storage-Returns :
        (is_some x.deletion_timestamp ≡ true → HasFinalizer x.finalizers)
        → Returns (λ w. Protected w × Carries x.finalizers w) (CloudStorages.reconcile_storage c x)
    unfolding CloudStorages.reconcile_storage
    reconcile_storage-Returns deleted =
        Holds-if (CloudStorages.lacks_finalizer x) _ _
          (λ lacks. add_finalizer-Returns x of_namespace of_name)
          (λ has.
            Holds-pre _ (λ w a. a.1)
              (Holds-option (Buckets.client_error x) _ _
                (λ e. reconcile_bucket-Returns (finalizer_held deleted has))
                (λ e given.
                  Holds-raise e
                    (λ p. Carries-Protected x.finalizers p.cluster (finalizer_held deleted has)))))

  abbrev Known : StorageObject → Type 0
  Known x =
      (x.namespace ≡ namespace)
      × (x.name ≡ name)
      × (x.bucket ≡ bucket)
      × (is_some x.deletion_timestamp ≡ true → HasFinalizer x.finalizers)

  abbrev Read : Attempt StorageObject → c.World → Type 0
  Read (success x) w = Known x × (Protected w × Carries x.finalizers w)
  Read (failure e) w = Protected w

  read :
      ((w v : c.World) (x : StorageObject)
        → c.get_cloud_storage namespace name w ≡ ok x v
        → is_some x.deletion_timestamp ≡ true
        → HasFinalizer x.finalizers)
      → (w v : c.World) (a : Attempt StorageObject) → Protected w
      → RepliedTo (c.get_cloud_storage namespace name) w a v
      → Read a v
  read deleted w v (success x) p e =
      let (n, m, b, f) = serves.get_reads w v x e in
      let same = subst (λ r. Same w (after r)) e (serves.get_leaves w) in
      ((n, m, b, deleted w v x e), (Protected-stable w v same p, same.0 ∙ sym f))
  read deleted w v (failure x) p e =
      Protected-stable w v (subst (λ r. Same w (after r)) e (serves.get_leaves w)) p

  -- If, whenever a deleted CloudStorage is read, it carries the finalizer, then Reconcile leaves the
  -- bucket protected if it was: a bucket that exists has its CloudStorage carry the finalizer. So it
  -- is also where a call fails on the way. This is of services that do what ServesBucket says.
  pub reconcile-Protected :
      ((w v : c.World) (x : StorageObject)
        → c.get_cloud_storage namespace name w ≡ ok x v
        → is_some x.deletion_timestamp ≡ true
        → HasFinalizer x.finalizers)
      → Keeps (Here Protected) (CloudStorages.reconcile c namespace name)
  unfolding CloudStorages.reconcile
  reconcile-Protected deleted =
      Holds-bind _ _
        (Holds-Here (c.get_cloud_storage namespace name) Protected Read Protected (read deleted))
        (λ r.
          elim r
            as (λ r.
              Holds {A = CloudStorages.Verdict} (Here (Read r)) (λ _. Here Protected)
                (Here Protected)
                (elim r [
                  | failure e ↦ pure CloudStorages.finished
                  | success x ↦ CloudStorages.reconcile_storage c x
                ])) [
                  | failure e ↦ pure-Returns Protected (λ w p. p) CloudStorages.finished
                  | success x ↦
                      Holds-from _ (λ p r. (r.0, r.1))
                        (λ (n, m, b, d). reconcile_storage-Returns x n m b d)
                ])
