-- ===== src/Outcomes/Uploading/Minting.antt =====
-- What the patterns of upload-purpose.ts say of the keys that `presign` mints.
use mathlib.Core.Path.{ap₂}
use mathlib.Core.Bool.{true≢false}
use text.Mathlib.TextLemmas.{nil-append, append-nil}
use help_mi.Common.{
  ℕ, ◌≡◌, refl, sym, ap, ◌∙◌, String, Bool, true, false, ◌&&◌, ◌||◌, ◌==◌, List, [], ◌∷◌, concat,
  arith, nat_eq, &&-both, if◌then◌else◌, split,
}
use help_mi.Uploads.Keys.{
  UploadPurpose, is_private, is_content_type, extension, minted_key, is_key_char, all_key_chars,
  is_segment, is_extension, is_kyc_key, kyc_key_belongs_to, purpose_prefix, is_file_of, has_shape,
  is_owner, owner, is_subtype,
}
use help_mi.Outcomes.Uploading.Splitting.{glue, split-concat, split-whole}

key_char-slash : (c : ℕ) → is_key_char c ≡ true → nat_eq c b'/' ≡ false
key_char-slash c h = ground arith

key_char-dot : (c : ℕ) → is_key_char c ≡ true → nat_eq c b'.' ≡ false
key_char-dot c h = ground arith

segment-chars : (s : String) → is_segment s ≡ true → all_key_chars s ≡ true
unfolding is_segment
segment-chars s h = (&&-both (all_key_chars s) _ h).0

-- An extension that a key may have.
abbrev Fits : String → Type 0
Fits e = (all_key_chars e ≡ true) × (is_extension e ≡ true)

fits :
    (a b c : Bool)
    → a || (b || c) ≡ true
    → Fits (if a then "jpg" else if b then "png" else if c then "webp" else "undefined")
unfolding all_key_chars
fits true b c h = (refl, refl)
fits false true c h = (refl, refl)
fits false false true h = (refl, refl)
fits false false false h = absurd (true≢false (sym h))

extension-Fits : (t : String) → is_content_type t ≡ true → Fits (extension t)
extension-Fits t h = fits (t == "image/jpeg") (t == "image/png") (t == "image/webp") h

dot-pieces : (e : String) → all_key_chars e ≡ true → split b'.' (concat "." e) ≡ "" ∷ e ∷ []
unfolding split
dot-pieces e h =
    split-concat b'.' "." e
    ∙ ap (glue ("" ∷ "" ∷ [])) (split-whole b'.' e key_char-dot h)
    ∙ ap (λ x. "" ∷ x ∷ []) (nil-append e)

slash-pieces :
    (s x : String) (xs : List String)
    → (split b'/' s ≡ x ∷ xs)
    → (split b'/' (concat "/" s) ≡ "" ∷ x ∷ xs)
unfolding split
slash-pieces s x xs h =
    split-concat b'/' "/" s ∙ ap (glue ("" ∷ "" ∷ [])) h ∙ ap (λ y. "" ∷ y ∷ xs) (nil-append x)

-- A whole text before pieces of which the first is empty.
before-pieces :
    (d : ℕ) (s t : String) (l : List String)
    → split d s ≡ s ∷ []
    → (split d t ≡ "" ∷ l)
    → (split d (concat s t) ≡ s ∷ l)
before-pieces d s t l h k = split-concat d s t ∙ ap₂ glue h k ∙ ap (λ x. x ∷ l) (append-nil s)

and_true : (b : Bool) → b && true ≡ b
and_true true = refl
and_true false = refl

module _ (user uuid e : String) (hu : is_segment user ≡ true) (hi : is_segment uuid ≡ true)
    (he : Fits e) where
  abbrev file : String
  file = concat uuid (concat "." e)

  file-is_file : is_file_of (split b'.' file) ≡ true
  file-is_file =
      ap is_file_of (
        before-pieces b'.' uuid (concat "." e) (e ∷ [])
          (split-whole b'.' uuid key_char-dot (segment-chars uuid hi)) (dot-pieces e he.0))
      ∙ ap₂ ◌&&◌ hi he.1

  file-whole : split b'/' file ≡ file ∷ []
  unfolding split
  file-whole =
      split-concat b'/' uuid (concat "." e)
      ∙ ap₂ glue (split-whole b'/' uuid key_char-slash (segment-chars uuid hi))
          (split-concat b'/' "." e ∙ ap (glue ("." ∷ [])) (split-whole b'/' e key_char-slash he.0))

  path-pieces : split b'/' (concat "/" (concat user (concat "/" file))) ≡ "" ∷ user ∷ file ∷ []
  path-pieces = slash-pieces (concat user (concat "/" file)) user (file ∷ []) (
      before-pieces b'/' user (concat "/" file) (file ∷ [])
        (split-whole b'/' user key_char-slash (segment-chars user hu))
        (slash-pieces file file [] file-whole))

  key-pieces :
      (purpose : UploadPurpose)
      → (split b'/' (concat (purpose_prefix purpose) (concat "/" (concat user (concat "/" file))))
          ≡ glue (split b'/' (purpose_prefix purpose)) ("" ∷ user ∷ file ∷ []))
  key-pieces purpose =
      split-concat b'/' (purpose_prefix purpose) _
      ∙ ap (glue (split b'/' (purpose_prefix purpose))) path-pieces

  -- What the shape of a key says of its pieces, for each purpose.
  shape :
      (purpose : UploadPurpose)
      → has_shape is_subtype (glue (split b'/' (purpose_prefix purpose)) ("" ∷ user ∷ file ∷ []))
        ≡ is_private purpose && (is_segment user && is_file_of (split b'.' file))
  unfolding split
  shape UploadPurpose.kyc_nic = refl
  shape UploadPurpose.kyc_selfie = refl
  shape UploadPurpose.kyc_address = refl
  shape UploadPurpose.kyc_police = refl
  shape UploadPurpose.kyc_license = refl
  shape UploadPurpose.kyc_skill = refl
  shape UploadPurpose.task_photo = refl
  shape UploadPurpose.completion_photo = refl
  shape UploadPurpose.profile_photo = refl

  owned :
      (purpose : UploadPurpose) (u : String)
      → is_private purpose
          && is_owner (owner (glue (split b'/' (purpose_prefix purpose)) ("" ∷ user ∷ file ∷ []))) u
        ≡ is_private purpose && (user == u)
  unfolding split
  owned UploadPurpose.kyc_nic u = refl
  owned UploadPurpose.kyc_selfie u = refl
  owned UploadPurpose.kyc_address u = refl
  owned UploadPurpose.kyc_police u = refl
  owned UploadPurpose.kyc_license u = refl
  owned UploadPurpose.kyc_skill u = refl
  owned UploadPurpose.task_photo u = refl
  owned UploadPurpose.completion_photo u = refl
  owned UploadPurpose.profile_photo u = refl

  key-Private :
      (purpose : UploadPurpose)
      → is_kyc_key (concat (purpose_prefix purpose) (concat "/" (concat user (concat "/" file))))
        ≡ is_private purpose
  unfolding is_kyc_key
  key-Private purpose =
      ap (has_shape is_subtype) (key-pieces purpose)
      ∙ shape purpose
      ∙ ap (λ b. is_private purpose && b) (ap₂ ◌&&◌ hu file-is_file)
      ∙ and_true (is_private purpose)

  key-Owned :
      (purpose : UploadPurpose) (u : String)
      → kyc_key_belongs_to
          (concat (purpose_prefix purpose) (concat "/" (concat user (concat "/" file))))
          u
        ≡ is_private purpose && (user == u)
  unfolding kyc_key_belongs_to
  key-Owned purpose u =
      ap₂ ◌&&◌ (key-Private purpose) (ap (λ l. is_owner (owner l) u) (key-pieces purpose))
      ∙ owned purpose u

-- The key that is minted for a user passes for a KYC document exactly if its purpose is private, and
-- then it belongs to that user and to no other; the user's id and the uuid are made of key
-- characters and the content type is an allowed one.
pub minted_key-Owned :
    (purpose : UploadPurpose) (user_id uuid content_type u : String)
    → is_segment user_id ≡ true
    → is_segment uuid ≡ true
    → is_content_type content_type ≡ true
    → (is_kyc_key (minted_key purpose user_id uuid content_type) ≡ is_private purpose)
      × (kyc_key_belongs_to (minted_key purpose user_id uuid content_type) u
          ≡ is_private purpose && (user_id == u))
minted_key-Owned purpose user_id uuid content_type u hu hi ht =
    let e = extension-Fits content_type ht in
    (
      key-Private user_id uuid (extension content_type) hu hi e purpose,
      key-Owned user_id uuid (extension content_type) hu hi e purpose u,
    )
