-- ===== src/Dpt/Vendor.antt =====
-- determineVendor of dataprotectiontest_controller.go.
use oadp_operator.Prelude.{
  String, Bool, ◌&&◌, ◌||◌, ◌==◌, ◌!=◌, [], ◌∷◌, Option, none, some, index, if◌then◌else◌,
}
use oadp_operator.Prelude.Text.{append, contains_text}
use oadp_operator.Api.{BslSpec}
use oadp_operator.Cluster.{success, failure, attempt, M, ◌>>=◌, pure, raise, about}
use oadp_operator.Dpt.{Lab}

-- The headers of the answer.
pub record Headers : Type 0 where
  pub server : String
  pub amz_request : String
  pub minio_region : String
  pub rgw_request : String

abbrev is_aws : Headers → Bool
is_aws h = contains_text h.server "amazon" || (h.amz_request != "" && h.minio_region == "")

abbrev is_minio : Headers → Bool
is_minio h = contains_text h.server "minio" || h.minio_region != ""

abbrev is_ceph : Headers → Bool
is_ceph h = contains_text h.server "ceph" || h.rgw_request != ""

-- The switch over the headers.
unfoldable pub vendor_of : Headers → String
vendor_of h =
    if is_aws h
    then "AWS"
    else if is_minio h
    then "MinIO"
    else if is_ceph h
    then "Ceph"
    else if h.server != ""
    then h.server
    else "Unknown"

abbrev pub or_default : String → String → String
or_default text default = if text == "" then default else text

module _ (c : Lab) where
  -- The URL that is asked; it is empty where there is none.
  unfoldable pub s3_url_of : BslSpec → String
  s3_url_of spec =
      let url = index "s3Url" spec.config in
      if url == "" && c.is_equal_fold spec.provider "aws"
      then append "https://s3."
          (append (or_default (index "region" spec.config) "us-east-1") ".amazonaws.com")
      else url

  unfoldable pub headers_of : (String → String) → Headers
  headers_of get = record {
    server = c.to_lower (get "Server");
    amz_request = get "x-amz-request-id";
    minio_region = get "x-minio-region";
    rgw_request = get "x-rgw-request-id";
  }

  -- The new vendor; `none` leaves the status as it is.
  unfoldable pub determine_vendor : BslSpec → M c.World (Option String)
  unfolding vendor_of s3_url_of headers_of
  determine_vendor spec =
      let url = s3_url_of spec in
      if url == ""
      then pure none
      else if c.is_request_valid url
      then (attempt (c.send_head url) >>= λ r. elim r [
        | success get ↦ pure (some (vendor_of (headers_of get)))
        | failure e ↦ raise (about "HEAD request failed" (url ∷ []))
      ])
      else raise (about "failed to create HEAD request" (url ∷ []))
