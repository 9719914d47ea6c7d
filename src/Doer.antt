-- ===== src/Doer.antt =====
-- backend/src/doer: the profile of a doer, its KYC documents and where it is paid
-- (doer.service.ts), with the rules of the two DTOs. An optional field is there or left out; a null
-- in its place is not told apart. The orders of the lists are left out.
use Prim.Native.Char.{code}
use help_mi.Common.{
  ℕ, String, Option, none, some, Bool, true, false, not, ◌&&◌, ◌==◌, List, [], ◌∷◌, leb, units,
  points, or_else, or_default, given, opt_is,
}
use help_mi.Schema.{
  User, DoerProfile, DoerTier, KycStatus, PayoutMethod, Payout, Task, BankDetails, References,
  MobileWallet, kyc_is,
}
use help_mi.World.{users, profiles, tasks}
use help_mi.Handler.{Handler, pure, ◌>>=◌, ◌>>◌, guard, or_throw, not_found, forbidden, conflict}
use help_mi.Handler.Calls.{find, find_all, update, upsert}
use help_mi.Payouts.{list_for_doer}
use help_mi.Uploads.Keys.{is_kyc_key_of, kyc_key_belongs_to}

pub record SubmitKycDto : Type 0 where
  pub nic_photo_url : String
  pub selfie_url : String
  pub address_proof_url : String
  pub police_clearance_url : Option String
  pub driving_license_url : Option String
  pub skill_proof_url : Option String
  pub references : References
  pub preferred_payout_method : Option PayoutMethod
  pub bank : BankDetails
  pub wallet : MobileWallet

pub record PayoutMethodDto : Type 0 where
  pub preferred_payout_method : PayoutMethod
  pub bank_account_name : String
  pub bank_account_number : String
  pub bank_name : String
  pub bank_branch : Option String
  pub wallet : MobileWallet

-- `@IsIn(['BANK'])`
abbrev pub is_bank : PayoutMethod → Bool
is_bank PayoutMethod.bank = true
is_bank PayoutMethod.mobile_wallet = false

abbrev pub if_given {ℓ} : {A : Type ℓ} → (A → Bool) → Option A → Bool
if_given p none = true
if_given p (some a) = p a

-- The rules of submit-kyc.dto.ts.
abbrev pub is_submit_kyc : SubmitKycDto → Bool
is_submit_kyc dto =
    (is_kyc_key_of "nic" dto.nic_photo_url
      && (is_kyc_key_of "selfie" dto.selfie_url && is_kyc_key_of "address" dto.address_proof_url))
    && ((if_given (is_kyc_key_of "police") dto.police_clearance_url
          && (if_given (is_kyc_key_of "license") dto.driving_license_url
              && if_given (is_kyc_key_of "skill") dto.skill_proof_url))
        && if_given is_bank dto.preferred_payout_method)

unfoldable pub all_digits : String → Bool
all_digits String.[] = true
all_digits (String.◌∷◌ c s) = leb b'0' (code c) && leb (code c) b'9' && all_digits s

-- `/^[0-9]{6,18}$/`
abbrev pub is_account_number : String → Bool
is_account_number s = all_digits s && (leb 6 (units s) && leb (units s) 18)

-- The rules of payout-method.dto.ts.
abbrev pub is_payout_method : PayoutMethodDto → Bool
is_payout_method dto =
    is_bank dto.preferred_payout_method
    && (leb 2 (points dto.bank_account_name)
        && (is_account_number dto.bank_account_number && leb 2 (points dto.bank_name)))

-- `getProfile`, less the five newest reviews that it joins.
unfoldable pub get_profile : String → Handler DoerProfile
get_profile user_id = do
  row ← find profiles (λ p. p.user_id == user_id)
  or_throw row (not_found "Doer profile not found. Submit KYC to become a doer.")

-- The texts that are neither absent nor empty.
abbrev pub with_given : Option String → List String → List String
with_given none keys = keys
with_given (some key) keys = key ∷ keys

abbrev pub document_keys : SubmitKycDto → List String
document_keys dto = with_given (given (some dto.nic_photo_url)) (
    with_given (given (some dto.selfie_url)) (
      with_given (given (some dto.address_proof_url)) (
        with_given (given dto.police_clearance_url) (
          with_given (given dto.driving_license_url) (with_given (given dto.skill_proof_url) [])))))

unfoldable pub check_keys : String → List String → Handler (Unit {0})
check_keys user_id [] = pure tt
check_keys user_id (key ∷ keys) =
    guard (kyc_key_belongs_to key user_id)
      (forbidden "KYC document keys must come from your own uploads")
    >> check_keys user_id keys

abbrev pub is_approved : Option DoerProfile → Bool
is_approved none = false
is_approved (some p) = kyc_is p.kyc_status KycStatus.approved

-- A field that the body leaves out keeps its column.
abbrev pub merged_bank : BankDetails → BankDetails → BankDetails
merged_bank new old = record {
  bank_account_name = or_else new.bank_account_name old.bank_account_name;
  bank_account_number = or_else new.bank_account_number old.bank_account_number;
  bank_name = or_else new.bank_name old.bank_name;
  bank_branch = or_else new.bank_branch old.bank_branch;
}

abbrev pub merged_wallet : MobileWallet → MobileWallet → MobileWallet
merged_wallet new old = record {
  mobile_wallet_provider = or_else new.mobile_wallet_provider old.mobile_wallet_provider;
  mobile_wallet_number = or_else new.mobile_wallet_number old.mobile_wallet_number;
}

abbrev pub merged_references : References → References → References
merged_references new old = record {
  ref1_name = or_else new.ref1_name old.ref1_name;
  ref1_phone = or_else new.ref1_phone old.ref1_phone;
  ref2_name = or_else new.ref2_name old.ref2_name;
  ref2_phone = or_else new.ref2_phone old.ref2_phone;
}

-- The `update` of the upsert.
abbrev pub resubmitted_row : SubmitKycDto → ℕ → DoerProfile → DoerProfile
resubmitted_row dto now p = record p {
  nic_photo_url = some dto.nic_photo_url;
  selfie_url = some dto.selfie_url;
  address_proof_url = some dto.address_proof_url;
  police_clearance_url = or_else dto.police_clearance_url p.police_clearance_url;
  driving_license_url = or_else dto.driving_license_url p.driving_license_url;
  skill_proof_url = or_else dto.skill_proof_url p.skill_proof_url;
  references = merged_references dto.references p.references;
  preferred_payout_method = or_default dto.preferred_payout_method p.preferred_payout_method;
  bank = merged_bank dto.bank p.bank;
  wallet = merged_wallet dto.wallet p.wallet;
  kyc_status = KycStatus.pending;
  kyc_reviewed_at = none;
  kyc_review_note = none;
}

-- The `create` of the upsert, with the defaults of the schema.
abbrev pub submitted_row : String → SubmitKycDto → String → DoerProfile
submitted_row user_id dto id = record {
  id = id;
  user_id = user_id;
  tier = DoerTier.bronze;
  kyc_status = KycStatus.pending;
  nic_photo_url = some dto.nic_photo_url;
  selfie_url = some dto.selfie_url;
  address_proof_url = some dto.address_proof_url;
  police_clearance_url = dto.police_clearance_url;
  driving_license_url = dto.driving_license_url;
  skill_proof_url = dto.skill_proof_url;
  references = dto.references;
  preferred_payout_method = or_default dto.preferred_payout_method PayoutMethod.bank;
  bank = dto.bank;
  wallet = dto.wallet;
  total_jobs_completed = 0;
  avg_rating = 0;
  on_time_rate = 0;
  kyc_reviewed_at = none;
  kyc_review_note = none;
}

abbrev pub doer_row : ℕ → User → User
doer_row now u = record u { is_doer = true }

-- `submitKyc`
unfoldable pub submit_kyc : String → SubmitKycDto → Handler DoerProfile
submit_kyc user_id dto = do
  check_keys user_id (document_keys dto)
  existing ← find profiles (λ p. p.user_id == user_id)
  guard (not (is_approved existing)) (conflict "KYC already approved")
  profile ←
      upsert profiles (λ p. p.user_id == user_id) (resubmitted_row dto)
        (λ id now. submitted_row user_id dto id)
  update users (λ u. u.id == user_id) doer_row
  pure profile

abbrev pub destination_row : PayoutMethodDto → ℕ → DoerProfile → DoerProfile
destination_row dto now p = record p {
  preferred_payout_method = dto.preferred_payout_method;
  bank = record {
    bank_account_name = some dto.bank_account_name;
    bank_account_number = some dto.bank_account_number;
    bank_name = some dto.bank_name;
    bank_branch = or_else dto.bank_branch p.bank.bank_branch;
  };
  wallet = merged_wallet dto.wallet p.wallet;
}

-- `setPayoutMethod`
unfoldable pub set_payout_method : String → PayoutMethodDto → Handler DoerProfile
set_payout_method user_id dto = do
  row ← find profiles (λ p. p.user_id == user_id)
  profile ← or_throw row (not_found "Doer profile not found. Submit KYC first.")
  update profiles (λ p. p.user_id == user_id) (destination_row dto)

-- `getPayouts`
unfoldable pub get_payouts : String → Handler (List Payout)
get_payouts user_id = list_for_doer user_id

-- `getMyTasks`, less the category and the poster that it joins.
unfoldable pub get_my_tasks : String → Handler (List Task)
get_my_tasks user_id = find_all tasks (λ t. opt_is t.doer_id user_id)
