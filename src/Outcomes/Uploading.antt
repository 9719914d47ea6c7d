-- ===== src/Outcomes/Uploading.antt =====
-- The round trip of a private upload: upload-purpose.ts and uploads.service.ts.
mod Splitting
pub mod Minting
use mathlib.Core.Path.{ap₂}
use mathlib.Core.Bool.{true≢false}
use mathlib.Core.Option.{none-ne-some, some-injective}
use text.Mathlib.TextLemmas.{nil-append, append-nil}
use help_mi.Common.{
  ℕ, suc, ◌+◌, ◌*◌, ◌≡◌, refl, sym, ap, ◌∙◌, String, Option, none, some, Bool, true, false, ◌&&◌,
  ◌||◌, ◌==◌, List, [], ◌∷◌, concat, arith, nat_eq, given, truthy, &&-both, if◌then◌else◌, split,
}
use help_mi.Uploads.Keys.{
  UploadPurpose, is_private, is_content_type, extension, minted_key, is_key_char, all_key_chars,
  is_segment, is_extension, is_kyc_key, kyc_key_belongs_to, purpose_prefix, is_file_of, has_shape,
  is_owner, owner, is_subtype,
}
use help_mi.World.{World}
use help_mi.Handler.{run, ok}
use help_mi.Auth.{config_number}
use help_mi.Uploads.{
  presign, presign_read, bucket_for, presign_get, presign_put, get_client, PresignResult,
  public_url,
}
use help_mi.Outcomes.Post.{Post, Post-or_throw, Post-guard, Post->>=, Post-given, Post-call}
use help_mi.Outcomes.Uploading.Minting.{minted_key-Owned}
use help_mi.Outcomes.Uploading.Splitting.{glue, split-concat, split-whole}

abbrev signs : World → Bool
signs w =
    truthy (w.services.config "S3_ACCESS_KEY_ID")
    && truthy (w.services.config "S3_SECRET_ACCESS_KEY")

abbrev ttl : World → ℕ
ttl w = config_number w "UPLOAD_PRESIGN_TTL_SECONDS" 300

-- A URL that reads the key from the private bucket, as of a world.
abbrev Reads : World → String → String → (String × ℕ) → World → Type 0
Reads w key bucket answer w' =
    (answer ≡ (w.services.signed_url "GET" bucket key "" (ttl w), w.clock + ttl w * 1000))
    × (w' ≡ w)

-- A well-formed key is read from the private bucket.
presign_read-Post :
    (key bucket : String) (w : World)
    → is_kyc_key key ≡ true
    → given (w.services.config "S3_PRIVATE_BUCKET") ≡ some bucket
    → signs w ≡ true
    → Post (Reads w key bucket) (λ _. ⊥) (run (presign_read key) w)
unfolding presign_read bucket_for presign_get get_client
presign_read-Post key bucket w h k g =
    Post-guard _ _ (is_kyc_key key) _ _ w
      (λ _. Post->>= _ _ (bucket_for true) _ w (
        Post-given _ _ (given (w.services.config "S3_PRIVATE_BUCKET")) _ w
          (λ b here. Post->>= _ _ (presign_get b key (ttl w)) _ w (
            Post-guard _ _ (signs w) _ _ w
              (λ _. (
                ap (λ x. (w.services.signed_url "GET" x key "" (ttl w), w.clock + ttl w * 1000))
                    (some-injective _ _ (sym here ∙ k)),
                refl,
              ))
              (λ n. true≢false (sym g ∙ n))))
          (λ n. none-ne-some _ (sym n ∙ k))))
      (λ n. true≢false (sym h ∙ n))

-- What `presign` hands out for a private purpose can be read back from the bucket it is put to.
abbrev pub ReadBack : World → String → PresignResult → World → Type 0
ReadBack w content_type r w' =
    (bucket : String) × ((r.upload_url
        ≡ w.services.signed_url "PUT" bucket r.key content_type (ttl w))
      × ((r.file_url ≡ none) × Post (Reads w' r.key bucket) (λ _. ⊥) (run (presign_read r.key) w')))

bucket_for-Post :
    (private : Bool) (w : World)
    → Post
        (λ b w'.
          (w' ≡ w) × (private ≡ true → given (w.services.config "S3_PRIVATE_BUCKET") ≡ some b))
        (λ _. Unit)
        (run (bucket_for private) w)
unfolding bucket_for
bucket_for-Post true w =
    Post-given _ _ (given (w.services.config "S3_PRIVATE_BUCKET")) _ w (λ b here. (refl, λ _. here))
      (λ _. tt)
bucket_for-Post false w =
    Post-given _ _ (given (w.services.config "S3_PUBLIC_BUCKET")) _ w
      (λ b here. (refl, λ e. absurd (true≢false (sym e)))) (λ _. tt)

module _ (w : World) (user_id : String) (purpose : UploadPurpose) (content_type : String)
    (private : is_private purpose ≡ true) (hu : is_segment user_id ≡ true)
    (hi : is_segment (w.services.uuid w.next_id) ≡ true)
    (ht : is_content_type content_type ≡ true) where
  abbrev key : String
  key = minted_key purpose user_id (w.services.uuid w.next_id) content_type

  abbrev w1 : World
  w1 = record w { next_id = suc w.next_id }

  abbrev result : String → PresignResult
  result bucket = record {
    upload_url = w.services.signed_url "PUT" bucket key content_type (ttl w);
    key = key;
    file_url = if is_private purpose then none else some (public_url w bucket key);
    private = is_private purpose;
    expires_at = w.clock + ttl w * 1000;
  }

  result-ReadBack :
      (bucket : String)
      → given (w.services.config "S3_PRIVATE_BUCKET") ≡ some bucket
      → signs w ≡ true
      → ReadBack w content_type (result bucket) w1
  result-ReadBack bucket here signed =
      let (known, owned) =
        minted_key-Owned purpose user_id (w.services.uuid w.next_id) content_type user_id hu hi
          ht in
      (
        bucket,
        (
          refl,
          (
            ap (λ b. if b then none else some (public_url w bucket key)) private,
            presign_read-Post key bucket w1 (known ∙ private) here signed,
          ),
        ),
      )

  -- What `presign` hands out for a private purpose has no public URL and can be read back: the
  -- upload goes to a bucket from which `presignRead` of the returned key gives a download URL,
  -- without any error. The user's id and the new uuid are made of key characters and the content
  -- type is an allowed one; `presign` may throw where the storage is not configured.
  pub presign-ReadBack :
      Post (ReadBack w content_type) (λ _. Unit) (run (presign user_id purpose content_type) w)
  unfolding presign presign_put get_client public_url
  presign-ReadBack =
      Post-call _ _ (bucket_for (is_private purpose)) _ w _ (bucket_for-Post (is_private purpose) w)
        (λ bucket here.
          Post->>= _ _ (presign_put bucket key content_type (ttl w)) _ w1
            (Post-guard _ _ (signs w) _ _ w1 (result-ReadBack bucket (here private)) (λ _. tt)))
