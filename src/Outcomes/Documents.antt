-- ===== src/Outcomes/Documents.antt =====
-- What an admin sees of the documents of a profile: `getKycDocuments` of admin.service.ts.
use help_mi.Common.{◌+◌, ◌*◌, ℕ, ◌≡◌, String, Option, none, some, true, List, [], ◌∷◌, given}
use help_mi.World.{World}
use help_mi.Auth.{config_number}
use help_mi.Uploads.Keys.{kyc_key_belongs_to}
use help_mi.Admin.Reads.{DocumentView}
use help_mi.Outcomes.Post.{Post}

-- A URL by which the object of the key can be read from the private bucket, and its end.
abbrev pub Reads : World → String → String × ℕ → Type 0
Reads w key u =
    let seconds = config_number w "UPLOAD_PRESIGN_TTL_SECONDS" 300 in
    (bucket : String) × (given (w.services.config "S3_PRIVATE_BUCKET") ≡ some bucket)
    × ((u.0 ≡ w.services.signed_url "GET" bucket key "" seconds) × (u.1 ≡ w.clock + seconds * 1000))

-- A view with a signed URL for an upload of the user's own.
abbrev pub Signed : World → String → DocumentView → Type 0
Signed w user_id v =
    (kyc_key_belongs_to v.key user_id ≡ true)
    × ((u : String × ℕ) × ((v.url ≡ some u) × Reads w v.key u))

-- The columns that hold a value, and what the views show.
abbrev pub filled : String → Option String → List (String × String) → List (String × String)
filled name none rest = rest
filled name (some key) rest = (name, key) ∷ rest

abbrev pub stored_keys : List (String × Option String) → List (String × String)
stored_keys [] = []
stored_keys ((name, value) ∷ fields) = filled name (given value) (stored_keys fields)

abbrev pub shown_keys : List DocumentView → List (String × String)
shown_keys [] = []
shown_keys (v ∷ vs) = (v.name, v.key) ∷ shown_keys vs
