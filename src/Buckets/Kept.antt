-- ===== src/Buckets/Kept.antt =====
-- What the bucket client leaves as it is, where it neither creates nor deletes a bucket.
use oadp_operator.Prelude.{Bool, Option, none, some}
use oadp_operator.Cluster.{M, Error}
use oadp_operator.Cluster.Holds.{Keeps, Holds-bind, Holds-crash}
use oadp_operator.Process.{
  SecretObject, StorageObject, Session, CreateBucketInput, SdkError, coded, plain, Services,
  Process,
}
use oadp_operator.Process.Keeps.{
  Here, Keeps-call, Keeps-send, Keeps-cached_file, Keeps-cache_file, Keeps-tried, Keeps-pure,
  Keeps-raise, Keeps-if, Keeps-returned, Keeps-option,
}
use oadp_operator.Sts.Kept.{Quiet, sts_standardized_flow-Kept}
use oadp_operator.Buckets

module _ (c : Services) (R : c.World → c.World → Type 0) (q : Quiet c R) (P : c.World → Type 0)
    (stable : (w v : c.World) → R w v → P w → P v) where
  abbrev Kept : {A : Type 0} → M (Process c.World) A → Type 0
  Kept m = Keeps (Here P) m

  shared_file-Kept : (x : SecretObject) → Kept (Buckets.shared_credentials_file_from_secret c x)
  unfolding Buckets.shared_credentials_file_from_secret
  shared_file-Kept x = Keeps-if P _ _ _ (Keeps-raise P _) (
      Holds-bind _ _ (Keeps-call P _ (λ w. stable w _ (q.create_temp _ _ w))) (λ file.
        Holds-bind _ _ (Keeps-call P _ (λ w. stable w _ (q.write_file file _ w)))
          (λ u. Keeps-pure P file)))

  new_file-Kept :
      (x : StorageObject) (secret : SecretObject) → Kept (Buckets.new_credential_file c x secret)
  unfolding Buckets.new_credential_file
  new_file-Kept x secret =
      Holds-bind _ _ (Keeps-call P _ (λ w. stable w _ (q.make_temp_dir _ w))) (λ dir.
        Holds-bind _ _ (Keeps-call P _ (λ w. stable w _ (q.create_temp dir _ w))) (λ file.
          Holds-bind _ _
            (Keeps-tried P _ (Keeps-call P _ (λ w. stable w _ (q.write_file file _ w))))
            (λ r. Holds-bind _ _ (Keeps-cache_file P _ _ file) (λ u. Keeps-pure P file))))

  credential-Kept :
      (x : StorageObject) → Kept (Buckets.get_credential_from_cloud_storage_secret c x)
  unfolding Buckets.get_credential_from_cloud_storage_secret Buckets.fetch_credential_file
  credential-Kept x = Holds-bind _ _ (Keeps-cached_file P _ _) (λ cached.
      Keeps-option P cached _ _
        (Holds-bind _ _ (Keeps-call P _ (λ w. stable w _ (q.get_secret _ _ w))) (λ secret.
          Holds-bind _ _ (sts_standardized_flow-Kept c R q P stable) (λ name.
            Keeps-if P _ _ _
              (Holds-bind _ _ (Keeps-call P _ (λ w. stable w _ (q.get_secret _ name w)))
                (λ s. shared_file-Kept s))
              (new_file-Kept x secret))))
        (λ file. Keeps-pure P file))

  pub get_s3_client-Kept : (x : StorageObject) → Kept (Buckets.get_s3_client c x)
  unfolding Buckets.get_s3_client
  get_s3_client-Kept x = Holds-bind _ _ (credential-Kept x) (λ file.
      Holds-bind _ _ (Keeps-send P _ (λ w. stable w _ (q.new_session _ w)))
        (λ e. Keeps-option P e _ _ (Keeps-pure P _) (λ x. Keeps-raise P _)))

  tag_bucket-Kept : (x : StorageObject) → Kept (Buckets.tag_bucket c x)
  unfolding Buckets.tag_bucket
  tag_bucket-Kept x = Holds-bind _ _ (get_s3_client-Kept x) (λ session.
      Holds-bind _ _ (Keeps-send P _ (λ w. stable w _ (q.delete_tags session _ w))) (λ e.
        Keeps-option P e _ _
          (Holds-bind _ _ (Keeps-send P _ (λ w. stable w _ (q.put_tags session _ _ w)))
            (λ d. Keeps-option P d _ _ (Keeps-pure P tt) (λ y. Keeps-raise P _)))
          (λ y. Keeps-raise P _)))

  pub tag_and_answer-Kept : (x : StorageObject) → Kept (Buckets.tag_and_answer c x)
  unfolding Buckets.tag_and_answer
  tag_and_answer-Kept x =
      Holds-bind _ _ (Keeps-tried P _ (tag_bucket-Kept x))
        (λ r. Keeps-returned P r _ _ (λ u. Keeps-pure P _) (λ e. Keeps-pure P _))

  look_at_head-Kept : (x : StorageObject) (e : Option SdkError) → Kept (Buckets.look_at_head c x e)
  unfolding Buckets.look_at_head
  look_at_head-Kept x none = tag_and_answer-Kept x
  look_at_head-Kept x (some (coded code text)) = Keeps-if P _ _ _ (Keeps-pure P _) (Keeps-pure P _)
  look_at_head-Kept x (some (plain text)) = Holds-crash

  pub exists-Kept : (x : StorageObject) → Kept (Buckets.exists c x)
  unfolding Buckets.exists
  exists-Kept x = Holds-bind _ _ (Keeps-tried P _ (get_s3_client-Kept x)) (λ r.
      Keeps-returned P r _ _
        (λ session.
          Holds-bind _ _ (Keeps-send P _ (λ w. stable w _ (q.head_bucket session _ w)))
            (λ e. look_at_head-Kept x e))
        (λ e. Keeps-pure P _))

  pub answer_error-Kept :
      (b : Bool) (e : Option SdkError) (m : M (Process c.World) (Bool × Option Error))
      → Kept m
      → Kept (Buckets.answer_error b e m)
  unfolding Buckets.answer_error
  answer_error-Kept b none m k = k
  answer_error-Kept b (some e) m k = Keeps-pure P _

  -- Create keeps what the call that creates a bucket keeps too.
  pub create-Kept :
      ((o : Session) (i : CreateBucketInput) (w : c.World) → P w → P (c.create_bucket o i w).1)
      → (x : StorageObject) → Kept (Buckets.create c x)
  unfolding Buckets.create
  create-Kept made x = Holds-bind _ _ (Keeps-tried P _ (get_s3_client-Kept x)) (λ r.
      Keeps-returned P r _ _
        (λ session. answer_error-Kept _ _ _ (
          Holds-bind _ _ (Keeps-send P _ (λ w. made session _ w))
            (λ e. answer_error-Kept _ e _ (tag_and_answer-Kept x))))
        (λ e. Keeps-pure P _))
