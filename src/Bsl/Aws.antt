-- ===== src/Bsl/Aws.antt =====
-- pkg/storage/aws/s3.go: the region of a bucket, around the AWS SDK.
use oadp_operator.Prelude.{String, Bool, none, some, is_none, ◌!=◌, if◌then◌else◌}
use oadp_operator.Cluster.{Client, M, api, ◌>>=◌, pure, raise, crash, call, error_of}

module _ (c : Client) where
  -- With neither a region nor an error the code asks a nil error for its text.
  unfoldable pub get_bucket_region : String → M c.World String
  get_bucket_region bucket = do
    answer ← call (c.bucket_region bucket)
    if answer.0 != ""
        then pure answer.0
        else elim answer.1 [ none ↦ crash | some e ↦ raise (api e) ]

  unfoldable pub bucket_region_is_discoverable : String → M c.World Bool
  unfolding get_bucket_region
  bucket_region_is_discoverable bucket = do
    failed ← error_of (get_bucket_region bucket)
    pure (is_none failed)
