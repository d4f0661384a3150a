-- ===== src/Buckets.antt =====
-- Buckets in AWS: pkg/bucket/client.go and pkg/bucket/aws.go. The bucket client is the CloudStorage
-- object itself. `x, err` of Go is a pair of the value and the error.
pub mod Kept
use oadp_operator.Prelude.{
  ◌≡◌, ℕ, String, Bool, true, false, ◌==◌, ◌!=◌, List, [], ◌∷◌, Option, none, some, Dict, index,
  if◌then◌else◌,
}
use oadp_operator.Prelude.Text.{append}
use oadp_operator.Cluster.{
  tried, Tried, returned, failed, call, M, ◌>>=◌, ◌>>◌, pure, raise, crash, message, about, Error,
}
use oadp_operator.Process.{
  SecretObject, StorageObject, Session, CreateBucketInput, SdkError, coded, plain, Services,
  Process, on_cluster, send, cached_file, cache_file,
}
use oadp_operator.Sts.{sts_standardized_flow}

abbrev pub error_from : SdkError → Error
error_from (coded code text) = about text (code ∷ [])
error_from (plain text) = message text

-- `if err != nil { return b, err }`
unfoldable pub answer_error :
    {W : Type 0} → Bool → Option SdkError → M W (Bool × Option Error) → M W (Bool × Option Error)
answer_error b none m = m
answer_error b (some e) m = pure (b, some (error_from e))

-- NewClient: its error.
unfoldable pub client_error : StorageObject → Option Error
client_error storage =
    if storage.provider == "aws" then none else some (message "unable to determine bucket client")

abbrev pub is_missing_code : String → Bool
is_missing_code code = if code == "NoSuchBucket" then true else code == "NotFound"

unfoldable pub create_bucket_input : StorageObject → CreateBucketInput
create_bucket_input storage = record {
  acl = "private";
  bucket = storage.bucket;
  location_constraint = if storage.region != "us-east-1" then some storage.region else none;
}

module _ (c : Services) where
  unfoldable pub shared_credentials_file_from_secret : SecretObject → M (Process c.World) String
  shared_credentials_file_from_secret secret =
      let text = index "credentials" (some secret.content) in
      if text == "" then raise (message "invalid secret for aws credentials") else do
        file ← call (on_cluster (c.create_temp "" "aws-shared-credentials"))
        call (on_cluster (c.write_file file text))
        pure file

  -- The file of the secret's key, which is remembered. The error of Write is dropped.
  unfoldable pub new_credential_file : StorageObject → SecretObject → M (Process c.World) String
  new_credential_file storage secret = do
    dir ← call (
        on_cluster
          (c.make_temp_dir (append "secret-" (append storage.namespace (append "-" storage.name)))))
    file ← call (on_cluster (c.create_temp dir "cloudstoragesecret"))
    tried (
        call (
          on_cluster (c.write_file file (index storage.creation_secret.key (some secret.content)))))
    cache_file storage.namespace storage.name file
    pure file

  unfoldable pub fetch_credential_file : StorageObject → M (Process c.World) String
  unfolding shared_credentials_file_from_secret new_credential_file
  fetch_credential_file storage =
      call (on_cluster (c.get_secret storage.namespace storage.creation_secret.name)) >>= λ secret.
      sts_standardized_flow c >>= λ sts_secret.
      if sts_secret != ""
      then call (on_cluster (c.get_secret storage.namespace sts_secret))
        >>= shared_credentials_file_from_secret
      else new_credential_file storage secret

  unfoldable pub get_credential_from_cloud_storage_secret :
      StorageObject → M (Process c.World) String
  unfolding fetch_credential_file
  get_credential_from_cloud_storage_secret storage =
      cached_file storage.namespace storage.name >>= λ cached. elim cached [
        | none ↦ fetch_credential_file storage
        | some file ↦ pure file
      ]

  unfoldable pub session_of : StorageObject → String → Session
  session_of storage file = record {
    region = storage.region;
    shared_config_file = file;
    uses_shared_config = elim storage.enable_shared_config [ none ↦ false | some b ↦ b ];
  }

  unfoldable pub get_s3_client : StorageObject → M (Process c.World) Session
  unfolding get_credential_from_cloud_storage_secret session_of
  get_s3_client storage = get_credential_from_cloud_storage_secret storage >>= λ file.
      send (c.new_session (session_of storage file)) >>= λ e. elim e [
        | none ↦ pure (session_of storage file)
        | some x ↦ raise (error_from x)
      ]

  unfoldable pub tag_bucket : StorageObject → M (Process c.World) (Unit {0})
  unfolding get_s3_client
  tag_bucket storage = get_s3_client storage >>= λ session.
      send (c.delete_bucket_tagging session storage.bucket) >>= λ e. elim e [
        | some x ↦ raise (error_from x)
        | none ↦ send (c.put_bucket_tagging session storage.bucket storage.tags) >>= λ e'. elim e' [
          | some x ↦ raise (error_from x)
          | none ↦ pure tt
        ]
      ]

  -- The end of Exists and of Create: the bucket is there.
  unfoldable pub tag_and_answer : StorageObject → M (Process c.World) (Bool × Option Error)
  unfolding tag_bucket
  tag_and_answer storage = tried (tag_bucket storage) >>= λ r. elim r [
    | failed e ↦ pure (true, some e)
    | returned u ↦ pure (true, none)
  ]

  -- What Exists does with the error of HeadBucket. The message for an error without a code
  -- dereferences a nil interface.
  unfoldable pub look_at_head :
      StorageObject → Option SdkError → M (Process c.World) (Bool × Option Error)
  unfolding tag_and_answer
  look_at_head storage none = tag_and_answer storage
  look_at_head storage (some (coded code text)) =
      if is_missing_code code
      then pure (false, none)
      else pure
          (true, some (about "unable to determine bucket status" (storage.bucket ∷ text ∷ [])))
  look_at_head storage (some (plain text)) = crash

  unfoldable pub exists : StorageObject → M (Process c.World) (Bool × Option Error)
  unfolding get_s3_client look_at_head
  exists storage = tried (get_s3_client storage) >>= λ r. elim r [
    | failed e ↦ pure (false, some e)
    | returned session ↦ send (c.head_bucket session storage.bucket) >>= look_at_head storage
  ]

  unfoldable pub create : StorageObject → M (Process c.World) (Bool × Option Error)
  unfolding get_s3_client create_bucket_input answer_error tag_and_answer
  create storage = tried (get_s3_client storage) >>= λ r. elim r [
    | failed e ↦ pure (false, some e)
    | returned session ↦ answer_error false (c.create_input_error (create_bucket_input storage)) (
        send (c.create_bucket session (create_bucket_input storage)) >>= λ e.
        answer_error false e (tag_and_answer storage))
  ]

  unfoldable pub delete : StorageObject → M (Process c.World) (Bool × Option Error)
  unfolding get_s3_client answer_error
  delete storage = tried (get_s3_client storage) >>= λ r. elim r [
    | failed e ↦ pure (false, some e)
    | returned session ↦ answer_error false (c.delete_input_error storage.bucket) (
        send (c.delete_bucket session storage.bucket) >>= λ e.
        answer_error false e (pure (true, none)))
  ]

  unfoldable pub force_credential_refresh : StorageObject → Option Error
  force_credential_refresh storage =
      some (message "force credential refresh is not yet implemented")
