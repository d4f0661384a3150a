-- ===== src/Process.antt =====
-- The operator's process outside the reconciliation of the DPA: what the token service flow, the
-- bucket client and the CloudStorage controller call, and the variable of pkg/bucket/client.go.
-- The API server, the file system, the environment and the AWS SDK are not part of the repository:
-- they are the fields of `Services`.
pub mod Keeps
use oadp_operator.Prelude.{
  ◌≡◌, ℕ, String, Bool, true, false, ◌&&◌, ◌==◌, List, [], ◌∷◌, Option, none, some, Dict,
  if◌then◌else◌,
}
use oadp_operator.Api.{ObjectMeta, Credential}
use oadp_operator.Cluster.{
  ApiError, not_found, already_exists, conflict, other, Reply, ok, err, Call, State, M, Outcome,
  done,
}

-- corev1.Secret with its StringData
pub record SecretObject : Type 0 where
  pub meta : ObjectMeta
  pub content : Dict
  pub string_data : Option Dict

-- corev1.ServiceAccount
pub record ServiceAccount : Type 0 where
  pub meta : ObjectMeta
  pub annotations : Option Dict

-- CloudStorage with its metadata, spec and status; `bucket` and `synced_name` are the names in the
-- spec and in the status.
pub record StorageObject : Type 0 where
  pub name : String
  pub namespace : String
  pub finalizers : List String
  pub annotations : Dict
  pub deletion_timestamp : Option ℕ
  pub bucket : String
  pub creation_secret : Credential
  pub enable_shared_config : Option Bool
  pub tags : Dict
  pub region : String
  pub provider : String
  pub synced_name : String
  pub last_synced : Option ℕ

-- session.Options
pub record Session : Type 0 where
  pub region : String
  pub shared_config_file : String
  pub uses_shared_config : Bool

-- s3.CreateBucketInput and s3.DeleteBucketInput
pub record CreateBucketInput : Type 0 where
  pub acl : String
  pub bucket : String
  pub location_constraint : Option String

-- An error of the SDK: an awserr.Error has a code.
pub data SdkError : Type 0 where
  coded : String → String → SdkError
  plain : String → SdkError

-- A call of the SDK: its error, if there is one.
abbrev pub SdkCall : Type 0 → Type 0
SdkCall W = W → Option SdkError × W

pub record Services : Type 1 where
  pub World : Type 0
  -- os.Getenv
  pub get_env : String → String
  -- client.New and kubernetes.NewForConfig
  pub new_client : Call World (Unit {0})
  pub new_clientset : Call World (Unit {0})
  -- namespace, name
  pub get_secret : String → String → Call World SecretObject
  pub create_secret : SecretObject → Call World (Unit {0})
  -- Patch(new, MergeFrom(old))
  pub patch_secret : SecretObject → SecretObject → Call World (Unit {0})
  -- Secrets(namespace).Get(name) of the clientset
  pub read_secret : String → String → Call World SecretObject
  pub get_service_account : String → String → Call World ServiceAccount
  pub patch_service_account : ServiceAccount → ServiceAccount → Call World (Unit {0})
  -- what happens until `select` receives from a ticker or a timer
  pub elapse : World → World
  -- The interval of a ticker and the duration of a timer, which are started in this world: on how
  -- many ticks `select` goes on before it receives from the timer. A ticker drops the ticks that
  -- come during a slow request, and where both are ready the choice is not determined.
  pub ticks_received : ℕ → ℕ → World → ℕ
  -- os.MkdirTemp and os.CreateTemp: the directory, the prefix
  pub make_temp_dir : String → Call World String
  pub create_temp : String → String → Call World String
  -- the file, its content
  pub write_file : String → String → Call World (Unit {0})
  -- session.NewSessionWithOptions
  pub new_session : Session → SdkCall World
  pub head_bucket : Session → String → SdkCall World
  pub create_bucket : Session → CreateBucketInput → SdkCall World
  pub delete_bucket : Session → String → SdkCall World
  pub delete_bucket_tagging : Session → String → SdkCall World
  pub put_bucket_tagging : Session → String → Dict → SdkCall World
  -- Validate() of the inputs
  pub create_input_error : CreateBucketInput → Option SdkError
  pub delete_input_error : String → Option SdkError
  pub get_cloud_storage : String → String → Call World StorageObject
  -- Update and Status().Update
  pub update_cloud_storage : StorageObject → Call World StorageObject
  pub update_cloud_storage_status : StorageObject → Call World StorageObject
  -- the object's name, reason
  pub record_event : String → String → World → World
  pub now : World → ℕ

-- The world, and fileBucketCache: namespace and name of a CloudStorage, and its file.
pub record Process (W : Type 0) : Type 0 where
  pub cluster : W
  pub file_bucket_cache : List ((String × String) × String)

unfoldable pub is_not_found : ApiError → Bool
is_not_found not_found = true
is_not_found already_exists = false
is_not_found conflict = false
is_not_found (other text) = false

unfoldable pub is_already_exists : ApiError → Bool
is_already_exists not_found = false
is_already_exists already_exists = true
is_already_exists conflict = false
is_already_exists (other text) = false

unfoldable pub is_conflict : ApiError → Bool
is_conflict not_found = false
is_conflict already_exists = false
is_conflict conflict = true
is_conflict (other text) = false

-- A call of the world, in the process.
unfoldable pub on_cluster : {W A : Type 0} → Call W A → Call (Process W) A
on_cluster k p = elim (k p.cluster) [
  | ok a w ↦ ok a (record p { cluster = w })
  | err x w ↦ err x (record p { cluster = w })
]

-- A change of the world that gives no answer.
unfoldable pub change : {W : Type 0} → (W → W) → M (Process W) (Unit {0})
change f s = done tt (record s { world = record s.world { cluster = f s.world.cluster } })

-- A call of the SDK, whose error is looked at.
unfoldable pub send : {W : Type 0} → SdkCall W → M (Process W) (Option SdkError)
send k s =
    let reply = k s.world.cluster in
    done reply.0 (record s { world = record s.world { cluster = reply.1 } })

unfoldable pub find_file : String → String → List ((String × String) × String) → Option String
find_file namespace name [] = none
find_file namespace name ((key, file) ∷ rest) =
    let found = find_file namespace name rest in
    if key.0 == namespace && key.1 == name then some file else found

unfoldable pub cached_file : {W : Type 0} → String → String → M (Process W) (Option String)
unfolding find_file
cached_file namespace name s = done (find_file namespace name s.world.file_bucket_cache) s

unfoldable pub cache_file : {W : Type 0} → String → String → String → M (Process W) (Unit {0})
cache_file namespace name file s = done tt (record s {
  world = record s.world {
    file_bucket_cache = ((namespace, name), file) ∷ s.world.file_bucket_cache;
  };
})
