-- ===== src/Outcomes/Profiles/Own.antt =====
-- The documents of doer profiles, and what the check of `submitKyc` of doer.service.ts says of them.
use help_mi.Common.{
  ℕ, ◌≡◌, refl, ap, ◌∙◌, String, Option, none, some, Bool, true, ◌==◌, List, [], ◌∷◌, given,
  or_else, eq-path,
}
use help_mi.Schema.{DoerProfile}
use help_mi.Database.Every.{AllOf}
use help_mi.World.{World}
use help_mi.Handler.Interleave.{Keeps, returns, Keeps->>=, Keeps-guard, Keeps-weaken}
use help_mi.Uploads.Keys.{kyc_key_belongs_to}
use help_mi.Doer.{
  SubmitKycDto, check_keys, document_keys, with_given, resubmitted_row, submitted_row,
}

-- A column for a document holds nothing, or a key of the user's own uploads.
abbrev pub is_own : String → Option String → Bool
is_own user_id o = elim (given o) [ none ↦ true | some key ↦ kyc_key_belongs_to key user_id ]

-- The documents of a profile are its user's.
abbrev pub OwnDocuments : DoerProfile → Type 0
OwnDocuments p =
    (is_own p.user_id p.nic_photo_url ≡ true)
    × ((is_own p.user_id p.selfie_url ≡ true)
        × ((is_own p.user_id p.address_proof_url ≡ true)
            × ((is_own p.user_id p.police_clearance_url ≡ true)
                × ((is_own p.user_id p.driving_license_url ≡ true)
                    × (is_own p.user_id p.skill_proof_url ≡ true)))))

abbrev pub AllOwn : World → Type 0
AllOwn w = AllOf OwnDocuments w.profiles

or_else-own :
    (user_id : String) (new old : Option String)
    → is_own user_id new ≡ true
    → is_own user_id old ≡ true
    → is_own user_id (or_else new old) ≡ true
or_else-own user_id none old h k = k
or_else-own user_id (some key) old h k = h

module _ (user_id : String) where
  abbrev pub Belongs : String → Type 0
  Belongs key = kyc_key_belongs_to key user_id ≡ true

  with_given-own :
      (o : Option String) (keys : List String)
      → AllOf Belongs (with_given (given o) keys)
      → (is_own user_id o ≡ true) × AllOf Belongs keys
  with_given-own o keys h = with_some (given o) h
    where
      with_some :
          (g : Option String)
          → AllOf Belongs (with_given g keys)
          → (elim g [ none ↦ true | some key ↦ kyc_key_belongs_to key user_id ] ≡ true)
            × AllOf Belongs keys
      with_some none h = (refl, h)
      with_some (some key) h = h

  pub check_keys-Keeps :
      (Inv : World → Type 0) (keys : List String)
      → Keeps Inv (λ _. AllOf Belongs keys) (check_keys user_id keys)
  unfolding check_keys
  check_keys-Keeps Inv [] = returns tt
  check_keys-Keeps Inv (key ∷ keys) =
      Keeps->>= (Keeps-guard (kyc_key_belongs_to key user_id) _)
        (λ _ here. Keeps-weaken (λ _ rest. (here, rest)) (check_keys-Keeps Inv keys))

  -- What the check of `submitKyc` says of each document of the body.
  module _ (dto : SubmitKycDto) (checked : AllOf Belongs (document_keys dto)) where
    pub submitted-Own : (id : String) → OwnDocuments (submitted_row user_id dto id)
    submitted-Own id =
        let (nic, rest1) = with_given-own (some dto.nic_photo_url) _ checked in
        let (selfie, rest2) = with_given-own (some dto.selfie_url) _ rest1 in
        let (address, rest3) = with_given-own (some dto.address_proof_url) _ rest2 in
        let (police, rest4) = with_given-own dto.police_clearance_url _ rest3 in
        let (license, rest5) = with_given-own dto.driving_license_url _ rest4 in
        let (skill, _) = with_given-own dto.skill_proof_url [] rest5 in
        (nic, (selfie, (address, (police, (license, skill)))))

    pub resubmitted-Own :
        (now : ℕ) (p : DoerProfile)
        → p.user_id == user_id ≡ true
        → OwnDocuments p
        → OwnDocuments (resubmitted_row dto now p)
    resubmitted-Own now p h (_, (_, (_, (police, (license, skill))))) =
        let same = eq-path p.user_id user_id h in
        let mine =
          λ (o : Option String) (k : is_own user_id o ≡ true). ap (λ u. is_own u o) same ∙ k in
        let (nic', (selfie', (address', (police', (license', skill'))))) = submitted-Own p.id in
        (
          mine (some dto.nic_photo_url) nic',
          (
            mine (some dto.selfie_url) selfie',
            (
              mine (some dto.address_proof_url) address',
              (
                or_else-own p.user_id dto.police_clearance_url p.police_clearance_url
                    (mine dto.police_clearance_url police') police,
                (
                  or_else-own p.user_id dto.driving_license_url p.driving_license_url
                      (mine dto.driving_license_url license') license,
                  or_else-own p.user_id dto.skill_proof_url p.skill_proof_url
                      (mine dto.skill_proof_url skill') skill,
                ),
              ),
            ),
          ),
        )
