-- ===== src/Dpt.antt =====
-- The DataProtectionTest: api/v1alpha1/dataprotectiontest_types.go, and the record `Lab` of every
-- call that its controller (internal/controller/dataprotectiontest_controller.go) and the cloud
-- providers (pkg/cloudprovider) make. Durations are integers of nanoseconds.
pub mod Size
pub mod Keys
pub mod Vendor
pub mod Providers
pub mod Upload
pub mod Snapshots
pub mod Kept
pub mod Controller
use oadp_operator.Prelude.{ℕ, String, Bool, List, Option, Dict}
use oadp_operator.Prelude.Int.{ℤ}
use oadp_operator.Api.{BslSpec, Secret}
use oadp_operator.Cluster.{Call, M}
use oadp_operator.Process.{SdkError}

pub record UploadConfig : Type 0 where
  pub file_size : String
  pub timeout : ℤ

pub record SnapshotConfig : Type 0 where
  pub snapshot_class : String
  pub timeout : ℤ
  pub claim : String
  pub claim_namespace : String

pub record UploadStatus : Type 0 where
  pub speed : ℤ
  pub duration : String
  pub is_success : Bool
  pub error_message : String

pub record SnapshotStatus : Type 0 where
  pub claim : String
  pub claim_namespace : String
  pub status : String
  pub ready_duration : String
  pub error_message : String

pub record Metadata : Type 0 where
  pub encryption : String
  pub versioning : String
  pub error_message : String

pub record TestStatus : Type 0 where
  pub phase : String
  pub last_tested : Option ℕ
  pub vendor : String
  pub metadata : Option Metadata
  pub upload : UploadStatus
  pub snapshots : List SnapshotStatus
  pub summary : String
  pub error_message : String

pub record DataProtectionTest : Type 0 where
  pub name : String
  pub namespace : String
  pub location_name : String
  pub location_spec : Option BslSpec
  pub upload_config : Option UploadConfig
  pub snapshot_configs : List SnapshotConfig
  pub force_run : Bool
  pub status : TestStatus

-- cloudprovider.AzureCredentials
pub record AzureAccount : Type 0 where
  pub subscription_id : String
  pub tenant_id : String
  pub client_id : String
  pub client_secret : String
  pub resource_group : String
  pub account_name : String
  pub account_key : String
  pub certificate_path : String

-- The three implementations of CloudProvider: an AWS client with region, endpoint and the keys; a
-- GCP client with bucket and credentials; an Azure client with its credentials.
pub data Provider : Type 0 where
  aws_provider : String → String → String → String → Provider
  gcp_provider : String → String → Provider
  azure_provider : AzureAccount → Provider

-- The token credentials of azidentity.
pub data TokenCredential : Type 0 where
  by_secret : String → String → String → TokenCredential
  by_certificate : String → String → String → TokenCredential
  by_default : TokenCredential

-- A VolumeSnapshot: name, namespace, and of its status whether it is there and ReadyToUse.
pub record VolumeSnapshot : Type 0 where
  pub name : String
  pub namespace : String
  pub status : Option (Option Bool)

pub record Lab : Type 1 where
  pub World : Type 0
  -- strings.ToUpper, strings.ToLower, strings.EqualFold
  pub to_upper : String → String
  pub to_lower : String → String
  pub is_equal_fold : String → String → Bool
  -- strconv.ParseFloat, times the number, as an int64; none is the error
  pub scale : String → ℕ → Option ℤ
  -- int64(float64(bytes * 8) / seconds / 1000000), of the bytes and the duration
  pub megabits_per_second : ℤ → ℕ → ℤ
  -- Truncate and String of a duration, to milliseconds and to seconds
  pub show_milliseconds : ℕ → String
  pub show_seconds : ℕ → String
  pub now : World → ℕ
  -- namespace, name
  pub get_test : String → String → Call World DataProtectionTest
  -- Status().Update
  pub update_test_status : DataProtectionTest → Call World (Unit {0})
  -- Patch of spec.forceRun to false
  pub reset_force_run : String → String → Call World (Unit {0})
  -- retry.RetryOnConflict(retry.DefaultRetry, …)
  pub retry_on_conflict : M World (Unit {0}) → M World (Unit {0})
  pub get_bsl_spec : String → String → Call World BslSpec
  -- none is a secret whose Data is nil
  pub get_provider_data : String → String → Call World (Option Dict)
  -- http.NewRequest of HEAD: its error; and the headers of the answer
  pub is_request_valid : String → Bool
  pub send_head : String → Call World (String → String)
  -- storage.NewClient of GCP
  pub open_gcp : String → String → Call World (Unit {0})
  -- session.NewSession and s3.New; an error of the session panics
  pub is_aws_session_valid : String → String → Bool
  -- the Azure SDK: the shared key, the token credential, the client
  pub open_azure_shared_key : String → String → Call World (Unit {0})
  pub open_azure_credential : TokenCredential → Call World (Unit {0})
  pub open_azure_client : String → TokenCredential → Call World (Unit {0})
  -- the upload of so many bytes with a timeout: bucket, size, timeout
  pub put_object : Provider → String → ℤ → ℤ → Call World (Unit {0})
  -- AWS: GetBucketVersioning and GetBucketEncryption (the default algorithm of each rule)
  pub aws_versioning : Provider → String → Call World (Option String)
  pub aws_encryption : Provider → String → World → (Option SdkError × List (Option String)) × World
  -- GCP: the name of the default key, and whether versioning is enabled
  pub gcp_attributes : Provider → String → Call World (String × Bool)
  -- Azure: IsVersioningEnabled, and the KeySource of the encryption
  pub azure_versioning : AzureAccount → TokenCredential → Call World (Option Bool)
  pub azure_key_source : AzureAccount → TokenCredential → Call World (Option String)
  -- Create of a VolumeSnapshot: claim, namespace, class, test
  pub create_snapshot : String → String → String → String → Call World VolumeSnapshot
  pub get_snapshot : String → String → Call World VolumeSnapshot
  -- what happens until a timer ticks, and how many ticks of 2 seconds come before a timeout
  pub elapse : World → World
  pub ticks_before : ℤ → ℕ
  -- which goroutine goes on, of so many
  pub pick : World → ℕ → ℕ
