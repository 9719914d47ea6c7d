-- ===== src/Examples/Uploads.antt =====
-- The theorems on uploads and documents at the sample world.
use help_mi.Common.{◌≡◌, refl, some, none, true, ◌&&◌, ◌==◌, [], ◌∷◌, map, units, split, decimal}
use help_mi.World.{World}
use help_mi.Handler.{run}
use help_mi.Handler.Interleave.{run_schedule}
use help_mi.Uploads.{presign}
use help_mi.Uploads.Keys.{
  UploadPurpose, is_private, minted_key, is_kyc_key, kyc_key_belongs_to, is_segment, all_key_chars,
}
use help_mi.Doer.{SubmitKycDto}
use help_mi.Payouts.{bank_details}
use help_mi.Outcomes.Post.{Post}
use help_mi.Outcomes.Uploading.{ReadBack, presign-ReadBack}
use help_mi.Outcomes.Uploading.Minting.{minted_key-Owned}
use help_mi.Outcomes.Profiles.Own.{AllOwn}
use help_mi.Outcomes.Profiles.{submits, approves, serve_profile, profiles-AllOwn}
use help_mi.Examples.Sample.{sample_world, sample_profile}

bob-is_segment : is_segment "bob" ≡ true
unfolding is_segment all_key_chars units
bob-is_segment = refl

uuid-is_segment : is_segment (sample_world.services.uuid sample_world.next_id) ≡ true
unfolding is_segment all_key_chars units decimal
uuid-is_segment = refl

file-is_segment : is_segment "id-007" ≡ true
unfolding is_segment all_key_chars units
file-is_segment = refl

minted_key-Owned_example :
    (is_kyc_key (minted_key UploadPurpose.kyc_nic "bob" "id-007" "image/png") ≡ true)
    × (kyc_key_belongs_to (minted_key UploadPurpose.kyc_nic "bob" "id-007" "image/png") "eve"
        ≡ is_private UploadPurpose.kyc_nic && ("bob" == "eve"))
minted_key-Owned_example =
    minted_key-Owned UploadPurpose.kyc_nic "bob" "id-007" "image/png" "eve" bob-is_segment
      file-is_segment refl

presign-ReadBack_example :
    Post
      (ReadBack sample_world "image/png")
      (λ _. Unit)
      (run (presign "bob" UploadPurpose.kyc_nic "image/png") sample_world)
presign-ReadBack_example =
    presign-ReadBack sample_world "bob" UploadPurpose.kyc_nic "image/png" refl bob-is_segment
      uuid-is_segment refl

abbrev documented_world : World
documented_world = record sample_world {
  profiles =
      record sample_profile {
        nic_photo_url = some "kyc/nic/bob/id-007.png";
        selfie_url = some "kyc/selfie/bob/id-008.jpg";
      }
      ∷ [];
}

documented-AllOwn : AllOwn documented_world
unfolding kyc_key_belongs_to is_kyc_key split is_segment all_key_chars units
documented-AllOwn = ((refl, (refl, (refl, (refl, (refl, refl))))), tt)

-- A body that carries a document of someone else.
abbrev stolen_documents : SubmitKycDto
stolen_documents = record {
  nic_photo_url = "kyc/nic/bob/id-007.png";
  selfie_url = "kyc/selfie/eve/a.jpg";
  address_proof_url = "kyc/address/eve/b.jpg";
  police_clearance_url = none;
  driving_license_url = none;
  skill_proof_url = none;
  references = sample_profile.references;
  preferred_payout_method = none;
  bank = bank_details none;
  wallet = sample_profile.wallet;
}

profiles-AllOwn_example :
    AllOwn
      (run_schedule
        (0 ∷ 1 ∷ 0 ∷ 1 ∷ 0 ∷ 1 ∷ [])
        (map serve_profile (submits "eve" stolen_documents ∷ approves "d1" "0770" none ∷ []))
        documented_world).1
profiles-AllOwn_example =
    profiles-AllOwn (0 ∷ 1 ∷ 0 ∷ 1 ∷ 0 ∷ 1 ∷ [])
      (submits "eve" stolen_documents ∷ approves "d1" "0770" none ∷ []) documented_world
      documented-AllOwn
