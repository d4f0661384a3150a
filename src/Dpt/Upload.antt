-- ===== src/Dpt/Upload.antt =====
-- UploadTest and GetBucketMetadata of pkg/cloudprovider, and runUploadTest of
-- dataprotectiontest_controller.go.
pub mod Bounded
use oadp_operator.Prelude.{
  ◌≡◌, ℕ, zero, suc, ◌-◌, String, Bool, true, false, not, ◌&&◌, ◌||◌, ◌==◌, ◌!=◌, List, [], ◌∷◌,
  Option, none, some, if◌then◌else◌,
}
use oadp_operator.Prelude.Int.{ℤ, pos, negsuc, leb_ℤ, ltb_ℤ}
use oadp_operator.Api.{BslSpec}
use oadp_operator.Cluster.{
  Attempt, success, failure, attempt, call, Error, message, about, api, M, ◌>>=◌, ◌>>◌, pure, raise,
  crash, done,
}
use oadp_operator.Process.{SdkError, coded, plain}
use oadp_operator.Dpt.{
  Lab, UploadConfig, UploadStatus, Metadata, Provider, aws_provider, gcp_provider, azure_provider,
  AzureAccount, TokenCredential, by_default,
}
use oadp_operator.Dpt.Size.{parse_file_size}
use oadp_operator.Dpt.Providers.{token_credential, bucket_name}

-- 200 MB
abbrev pub max_test_size_bytes : ℤ
max_test_size_bytes = pos 209715200

-- 30 seconds, where no timeout is given
unfoldable pub upload_timeout : ℤ → ℤ
upload_timeout (pos zero) = pos 30000000000
upload_timeout (pos (suc n)) = pos (suc n)
upload_timeout (negsuc n) = negsuc n

-- The speed, the duration and the error.
pub record Measured : Type 0 where
  pub speed : ℤ
  pub duration : ℕ
  pub error : Option Error

abbrev pub refused_size : Error → Measured
refused_size e = record { speed = pos 0; duration = 0; error = some e }

-- An upload that fails has a duration, except for GCP.
abbrev failed_duration : Provider → ℕ → ℕ
failed_duration (aws_provider region endpoint access secret) n = n
failed_duration (gcp_provider bucket credentials) n = 0
failed_duration (azure_provider creds) n = n

module _ (c : Lab) where
  abbrev time : M c.World ℕ
  time s = done (c.now s.world) s

  -- The upload of a payload of this size. A negative size cannot be allocated.
  unfoldable pub upload_sized : Provider → UploadConfig → String → ℤ → M c.World Measured
  unfolding upload_timeout
  upload_sized provider config bucket size =
      if ltb_ℤ max_test_size_bytes size
      then pure (refused_size (message "test file size exceeds max allowed"))
      else if ltb_ℤ size (pos 0)
      then crash
      else (time >>= λ start.
          attempt (c.put_object provider bucket size (upload_timeout config.timeout)) >>= λ r.
          time >>= λ end. elim r [
            | success u ↦ pure (record {
              speed = c.megabits_per_second size (end - start);
              duration = end - start;
              error = none;
            })
            | failure e ↦ pure (record {
              speed = pos 0;
              duration = failed_duration provider (end - start);
              error = some (api e);
            })
          ])

  unfoldable pub upload_test : Provider → UploadConfig → String → M c.World Measured
  unfolding upload_sized
  upload_test provider config bucket = elim (parse_file_size c config.file_size) [
    | none ↦ pure (refused_size (message "unrecognized file size unit"))
    | some o ↦ elim o [
      | none ↦ pure (refused_size (message "invalid number in file size"))
      | some size ↦ upload_sized provider config bucket size
    ]
  ]

  unfoldable pub upload_status : Measured → UploadStatus
  upload_status m = record {
    speed = elim m.error [ none ↦ m.speed | some e ↦ pos 0 ];
    duration = c.show_milliseconds m.duration;
    is_success = elim m.error [ none ↦ true | some e ↦ false ];
    error_message = elim m.error [ none ↦ "" | some e ↦ "upload test failed" ];
  }

  -- The new status; `none` where the test is not made.
  unfoldable pub run_upload_test :
      Option UploadConfig → BslSpec → Provider → M c.World (Option UploadStatus)
  unfolding upload_test upload_status
  run_upload_test none spec provider = pure none
  run_upload_test (some config) spec provider =
      if bucket_name spec == ""
      then pure none
      else upload_test provider config (bucket_name spec) >>= λ m. pure (some (upload_status m))

  unfoldable pub aws_encryption_of : Option SdkError → List (Option String) → M c.World String
  aws_encryption_of (some (coded code text)) rules =
      if code == "ServerSideEncryptionConfigurationNotFoundError"
      then pure "None"
      else raise (about text (code ∷ []))
  aws_encryption_of (some (plain text)) rules = raise (message text)
  aws_encryption_of none [] = pure "None"
  aws_encryption_of none (none ∷ rules) = pure "Unknown"
  aws_encryption_of none (some algorithm ∷ rules) = pure algorithm

  abbrev ask_encryption : Provider → String → M c.World (Option SdkError × List (Option String))
  ask_encryption provider bucket s =
      let reply = c.aws_encryption provider bucket s.world in
      done reply.0 (record s { world = reply.1 })

  -- The token credential of the metadata, which is another one where there is an account key.
  unfoldable pub metadata_credential : AzureAccount → TokenCredential
  metadata_credential creds = if creds.account_key != "" then by_default else token_credential creds

  unfoldable pub aws_metadata : Provider → String → M c.World Metadata
  unfolding aws_encryption_of
  aws_metadata provider bucket = call (c.aws_versioning provider bucket) >>= λ status.
      ask_encryption provider bucket >>= λ reply. aws_encryption_of reply.0 reply.1 >>= λ algorithm.
      pure (record {
        encryption = algorithm;
        versioning = elim status [ none ↦ "None" | some text ↦ text ];
        error_message = "";
      })

  unfoldable pub gcp_metadata : Provider → String → M c.World Metadata
  gcp_metadata provider bucket = call (c.gcp_attributes provider bucket) >>= λ attributes.
      pure (record {
        encryption = if attributes.0 != "" then "google-kms" else "google-managed";
        versioning = if attributes.1 then "Enabled" else "Suspended";
        error_message = "";
      })

  unfoldable pub azure_metadata : AzureAccount → M c.World Metadata
  unfolding metadata_credential
  azure_metadata creds = call (c.open_azure_credential (metadata_credential creds)) >>= λ u.
      call (c.azure_versioning creds (metadata_credential creds)) >>= λ enabled.
      call (c.azure_key_source creds (metadata_credential creds)) >>= λ source. pure (record {
        encryption = elim source [ none ↦ "Unknown" | some text ↦ text ];
        versioning = elim enabled [
          | none ↦ "Disabled"
          | some b ↦ if b then "Enabled" else "Disabled"
        ];
        error_message = "";
      })

  unfoldable pub get_bucket_metadata : Provider → String → M c.World Metadata
  unfolding aws_metadata gcp_metadata azure_metadata
  get_bucket_metadata (aws_provider region endpoint access secret) bucket =
      aws_metadata (aws_provider region endpoint access secret) bucket
  get_bucket_metadata (gcp_provider of_bucket credentials) bucket =
      gcp_metadata (gcp_provider of_bucket credentials) bucket
  get_bucket_metadata (azure_provider creds) bucket = azure_metadata creds
