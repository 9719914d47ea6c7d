-- ===== src/Uploads/Keys.antt =====
-- backend/src/uploads/upload-purpose.ts: what an object is for, and the shape of a KYC key. The
-- anchored patterns are read as splits: a segment holds neither `/` nor `.`.
use Prim.Native.Char.{code}
use help_mi.Common.{
  ℕ, String, Option, none, some, Bool, true, false, ◌&&◌, ◌||◌, ◌==◌, List, [], ◌∷◌, leb, nat_eq,
  if◌then◌else◌, concat, units, split,
}

pub data UploadPurpose : Type 0 where
  kyc_nic kyc_selfie kyc_address kyc_police kyc_license kyc_skill task_photo completion_photo
        profile_photo :
      UploadPurpose

-- `PRIVATE_PURPOSES.has`
abbrev pub is_private : UploadPurpose → Bool
is_private UploadPurpose.task_photo = false
is_private UploadPurpose.completion_photo = false
is_private UploadPurpose.profile_photo = false
is_private _ = true

-- `PURPOSE_PREFIX`
abbrev pub purpose_prefix : UploadPurpose → String
purpose_prefix UploadPurpose.kyc_nic = "kyc/nic"
purpose_prefix UploadPurpose.kyc_selfie = "kyc/selfie"
purpose_prefix UploadPurpose.kyc_address = "kyc/address"
purpose_prefix UploadPurpose.kyc_police = "kyc/police"
purpose_prefix UploadPurpose.kyc_license = "kyc/license"
purpose_prefix UploadPurpose.kyc_skill = "kyc/skill"
purpose_prefix UploadPurpose.task_photo = "tasks/photos"
purpose_prefix UploadPurpose.completion_photo = "tasks/completion"
purpose_prefix UploadPurpose.profile_photo = "profiles"

-- `CONTENT_TYPE_EXT`; of any other type JavaScript prints `undefined`.
abbrev pub extension : String → String
extension content_type =
    if content_type == "image/jpeg"
    then "jpg"
    else if content_type == "image/png"
    then "png"
    else if content_type == "image/webp"
    then "webp"
    else "undefined"

abbrev pub is_content_type : String → Bool
is_content_type s = s == "image/jpeg" || (s == "image/png" || s == "image/webp")

-- The key that `presign` mints.
abbrev pub minted_key : UploadPurpose → String → String → String → String
minted_key purpose user_id uuid content_type =
    concat (purpose_prefix purpose)
      (concat "/" (concat user_id (concat "/" (concat uuid (concat "." (extension content_type))))))

-- `[A-Za-z0-9-]`
abbrev pub is_key_char : ℕ → Bool
is_key_char c =
    (leb b'A' c && leb c b'Z')
    || (leb b'a' c && leb c b'z')
    || ((leb b'0' c && leb c b'9') || nat_eq c b'-')

unfoldable pub all_key_chars : String → Bool
all_key_chars String.[] = true
all_key_chars (String.◌∷◌ c s) = is_key_char (code c) && all_key_chars s

-- `KEY_SEGMENT`
unfoldable pub is_segment : String → Bool
is_segment s = all_key_chars s && (leb 1 (units s) && leb (units s) 64)

-- `KEY_EXT`
abbrev pub is_extension : String → Bool
is_extension s = s == "jpg" || (s == "png" || s == "webp")

abbrev pub is_subtype : String → Bool
is_subtype s =
    s == "nic" || s == "selfie" || s == "address" || s == "police" || s == "license" || s == "skill"

-- `SEGMENT\.EXT`
abbrev pub is_file_of : List String → Bool
is_file_of (name ∷ ext ∷ []) = is_segment name && is_extension ext
is_file_of _ = false

abbrev pub has_shape : (String → Bool) → List String → Bool
has_shape subtype (root ∷ kind ∷ user_id ∷ file ∷ []) =
    root == "kyc" && (subtype kind && (is_segment user_id && is_file_of (split b'.' file)))
has_shape subtype _ = false

-- `kycKeyPattern(subtype).test`
unfoldable pub is_kyc_key_of : String → String → Bool
is_kyc_key_of kind key = has_shape (λ s. s == kind) (split b'/' key)

-- `ANY_KYC_KEY_PATTERN.test`
unfoldable pub is_kyc_key : String → Bool
is_kyc_key key = has_shape is_subtype (split b'/' key)

abbrev pub owner : List String → Option String
owner (root ∷ kind ∷ user_id ∷ rest) = some user_id
owner _ = none

abbrev pub is_owner : Option String → String → Bool
is_owner none user_id = false
is_owner (some s) user_id = s == user_id

-- `kycKeyBelongsTo`
unfoldable pub kyc_key_belongs_to : String → String → Bool
kyc_key_belongs_to key user_id = is_kyc_key key && is_owner (owner (split b'/' key)) user_id
