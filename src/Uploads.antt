-- ===== src/Uploads.antt =====
-- backend/src/uploads: the keys of uploaded objects (upload-purpose.ts), presigned URLs
-- (uploads.service.ts) and the buckets (storage.provider.ts).
pub mod Keys
use help_mi.Common.{
  ℕ, ◌+◌, ◌*◌, String, Option, none, some, Bool, true, false, ◌&&◌, ◌==◌, if◌then◌else◌, concat,
  or_default, truthy, given, drop_slash,
}
use help_mi.World.{World}
use help_mi.Handler.{Handler, pure, ◌>>=◌, ◌>>◌, guard, or_throw, bad_request, internal}
use help_mi.Handler.Calls.{reads, fresh_uuid}
use help_mi.Auth.{config_number}
use help_mi.Uploads.Keys.{
  UploadPurpose, is_private, extension, purpose_prefix, minted_key, is_kyc_key,
}

-- `bucketFor`
unfoldable pub bucket_for : Bool → Handler String
bucket_for private = do
  let key = if private then "S3_PRIVATE_BUCKET" else "S3_PUBLIC_BUCKET"
  bucket ← reads (λ w. given (w.services.config key))
  or_throw bucket (internal (concat (concat "Missing " key) " configuration"))

-- `getClient`: the credentials must be there.
unfoldable pub get_client : Handler (Unit {0})
get_client = do
  ready ← reads (λ w.
      truthy (w.services.config "S3_ACCESS_KEY_ID")
      && truthy (w.services.config "S3_SECRET_ACCESS_KEY"))
  guard ready (internal "Object storage not configured (S3_ACCESS_KEY_ID / S3_SECRET_ACCESS_KEY)")

-- `presignPut`
unfoldable pub presign_put : String → String → String → ℕ → Handler String
presign_put bucket key content_type seconds = do
  get_client
  reads (λ w. w.services.signed_url "PUT" bucket key content_type seconds)

-- `presignGet`
unfoldable pub presign_get : String → String → ℕ → Handler String
presign_get bucket key seconds = do
  get_client
  reads (λ w. w.services.signed_url "GET" bucket key "" seconds)

abbrev pub aws_url : World → String → String → String
aws_url w bucket key =
    concat (concat "https://" (concat bucket ".s3.")) (
      concat (or_default (w.services.config "S3_REGION") "us-east-1")
        (concat ".amazonaws.com/" key))

abbrev pub endpoint_url : World → Option String → String → String → String
endpoint_url w none bucket key = aws_url w bucket key
endpoint_url w (some endpoint) bucket key =
    concat (drop_slash endpoint) (concat "/" (concat bucket (concat "/" key)))

abbrev pub based_url : World → Option String → String → String → String
based_url w none bucket key = endpoint_url w (given (w.services.config "S3_ENDPOINT")) bucket key
based_url w (some base) bucket key = concat (drop_slash base) (concat "/" key)

-- `publicUrl`
unfoldable pub public_url : World → String → String → String
public_url w bucket key = based_url w (given (w.services.config "S3_PUBLIC_BASE_URL")) bucket key

pub record PresignResult : Type 0 where
  pub upload_url : String
  pub key : String
  pub file_url : Option String
  pub private : Bool
  pub expires_at : ℕ

-- `presign`
unfoldable pub presign : String → UploadPurpose → String → Handler PresignResult
presign user_id purpose content_type = do
  bucket ← bucket_for (is_private purpose)
  uuid ← fresh_uuid
  let key = minted_key purpose user_id uuid content_type
  seconds ← reads (λ w. config_number w "UPLOAD_PRESIGN_TTL_SECONDS" 300)
  expires_at ← reads (λ w. w.clock + seconds * 1000)
  upload_url ← presign_put bucket key content_type seconds
  file_url ← reads (λ w. if is_private purpose then none else some (public_url w bucket key))
  pure (record {
    upload_url = upload_url;
    key = key;
    file_url = file_url;
    private = is_private purpose;
    expires_at = expires_at;
  })

-- `presignRead`
unfoldable pub presign_read : String → Handler (String × ℕ)
presign_read key = do
  guard (is_kyc_key key) (bad_request "Invalid KYC document key")
  bucket ← bucket_for true
  seconds ← reads (λ w. config_number w "UPLOAD_PRESIGN_TTL_SECONDS" 300)
  url ← presign_get bucket key seconds
  expires_at ← reads (λ w. w.clock + seconds * 1000)
  pure (url, expires_at)
