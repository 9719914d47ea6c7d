-- ===== src/Outcomes/Profiles.antt =====
-- The documents of doer profiles: `submitKyc` of doer.service.ts and the other writers of profiles.
pub mod Own
use help_mi.Common.{
  ℕ, ◌≡◌, refl, ap, ◌∙◌, String, Option, none, some, Bool, true, false, not, ◌==◌, List, [], ◌∷◌,
  map, given, or_else, or_default, eq-path,
}
use help_mi.Schema.{DoerProfile, DoerTier, KycReview, KycStatus, Event, kyc_reviewed}
use help_mi.Database.{find_first}
use help_mi.Database.Every.{AllOf, AllOf-update_rows, AllOf-add_row}
use help_mi.World.{World, profiles, users, kyc_reviews}
use help_mi.Handler.{Handler, pure, ◌>>◌}
use help_mi.Handler.Calls.{update, create, emit}
use help_mi.Handler.Interleave.{
  Keeps, returns, steps, Any, Keeps->>=, Keeps-guard, Keeps-or_throw, Keeps-weaken, AllKeep,
  run_schedule, run_schedule-Keeps,
}
use help_mi.Handler.Inserts.{Keeps-create, Keeps-update, Keeps-upsert}
use help_mi.Uploads.Keys.{kyc_key_belongs_to}
use help_mi.Doer.{
  SubmitKycDto, PayoutMethodDto, submit_kyc, set_payout_method, check_keys, document_keys,
  is_approved, with_given, resubmitted_row, submitted_row, doer_row,
}
use help_mi.Admin.{new_review, approve_kyc, reject_kyc}
use help_mi.Outcomes.Profiles.Own.{
  is_own, OwnDocuments, AllOwn, check_keys-Keeps, submitted-Own, resubmitted-Own,
}

module _ (user_id : String) where
  submit_kyc-Keeps : (dto : SubmitKycDto) → Keeps AllOwn Any (submit_kyc user_id dto)
  unfolding submit_kyc
  submit_kyc-Keeps dto =
      Keeps->>= (check_keys-Keeps user_id AllOwn (document_keys dto)) (λ _ checked.
        steps (λ w i. i)
          (λ w i.
            Keeps->>=
              (Keeps-guard (not (is_approved (find_first (λ p. p.user_id == user_id) w.profiles)))
                _)
              (λ _ _.
                Keeps->>=
                  {k = λ profile. update users (λ u. u.id == user_id) doer_row >> pure profile}
                  (Keeps-upsert profiles (λ p. p.user_id == user_id) (resubmitted_row dto)
                    (λ id now. submitted_row user_id dto id)
                    (λ v j.
                      AllOf-update_rows OwnDocuments (λ p. p.user_id == user_id)
                        (resubmitted_row dto v.clock) v.profiles
                        (λ p h. resubmitted-Own user_id dto checked v.clock p h) j)
                    (λ v j.
                      AllOf-add_row OwnDocuments
                        (submitted_row user_id dto (v.services.uuid v.next_id)) v.profiles
                        (submitted-Own user_id dto checked (v.services.uuid v.next_id)) j))
                  (λ profile _.
                    Keeps->>= {k = λ _. pure profile}
                      (Keeps-update users (λ u. u.id == user_id) doer_row (λ w i. i))
                      (λ _ _. returns tt)))))

  set_payout_method-Keeps :
      (dto : PayoutMethodDto) → Keeps AllOwn Any (set_payout_method user_id dto)
  unfolding set_payout_method
  set_payout_method-Keeps dto =
      steps (λ w i. i)
        (λ w i.
          Keeps->>= (Keeps-or_throw (find_first (λ p. p.user_id == user_id) w.profiles) _) (λ _ _.
            Keeps-update profiles (λ p. p.user_id == user_id) _
              (λ v j. AllOf-update_rows OwnDocuments _ _ v.profiles (λ p _ own. own) j)))

-- Of a review, what follows the write of the profile.
abbrev record_review : (String → KycReview) → Event → DoerProfile → Handler DoerProfile
record_review make e p =
    create kyc_reviews (λ new r. r.id == new.id) (λ id now. make id) >> (emit e >> pure p)

reviewed-Keeps :
    (make : String → KycReview) (e : Event) (p : DoerProfile)
    → Keeps AllOwn Any (record_review make e p)
reviewed-Keeps make e p =
    Keeps->>= {k = λ _. emit e >> pure p}
      (Keeps-create kyc_reviews (λ new r. r.id == new.id) (λ id now. make id) (λ v new j _ _. j))
      (λ _ _. steps (λ v j. j) (λ v j. returns tt))

-- A write of profiles that leaves their documents alone.
written-Keeps :
    (q : DoerProfile → Bool) (f : ℕ → DoerProfile → DoerProfile)
    → ((now : ℕ) (p : DoerProfile) → OwnDocuments p → OwnDocuments (f now p))
    → Keeps AllOwn Any (update profiles q f)
written-Keeps q f h =
    Keeps-update profiles q f (λ v j.
      AllOf-update_rows OwnDocuments q (f v.clock) v.profiles (λ p _ own. h v.clock p own) j)

module _ (id phone : String) where
  approve_kyc-Keeps : (tier : Option DoerTier) → Keeps AllOwn Any (approve_kyc id phone tier)
  unfolding approve_kyc
  approve_kyc-Keeps tier =
      steps (λ w i. i)
        (λ w i. Keeps->>= (Keeps-or_throw (find_first (λ p. p.id == id) w.profiles) _) (λ profile _.
          let make = new_review id phone KycStatus.approved none in
          let event =
            kyc_reviewed profile.user_id true (some (or_default tier DoerTier.bronze)) none in
          Keeps->>= {k = record_review make event}
            (written-Keeps (λ p. p.id == id) _ (λ _ _ own. own))
            (λ updated _. reviewed-Keeps make event updated)))

  reject_kyc-Keeps : (note : String) → Keeps AllOwn Any (reject_kyc id phone note)
  unfolding reject_kyc
  reject_kyc-Keeps note =
      steps (λ w i. i)
        (λ w i. Keeps->>= (Keeps-or_throw (find_first (λ p. p.id == id) w.profiles) _) (λ profile _.
          let make = new_review id phone KycStatus.rejected (some note) in
          let event = kyc_reviewed profile.user_id false none (some note) in
          Keeps->>= {k = record_review make event}
            (written-Keeps (λ p. p.id == id) _ (λ _ _ own. own))
            (λ updated _. reviewed-Keeps make event updated)))

-- The requests that write doer profiles for their owners and for the reviewers of documents.
pub data ProfileRequest : Type 0 where
  submits : (user_id : String) (dto : SubmitKycDto) → ProfileRequest
  sets_destination : (user_id : String) (dto : PayoutMethodDto) → ProfileRequest
  approves : (id phone : String) (tier : Option DoerTier) → ProfileRequest
  rejects : (id phone note : String) → ProfileRequest

abbrev pub serve_profile : ProfileRequest → Handler (Unit {0})
serve_profile (submits user_id dto) = submit_kyc user_id dto >> pure tt
serve_profile (sets_destination user_id dto) = set_payout_method user_id dto >> pure tt
serve_profile (approves id phone tier) = approve_kyc id phone tier >> pure tt
serve_profile (rejects id phone note) = reject_kyc id phone note >> pure tt

quiet : {A : Type 0} {m : Handler A} → Keeps AllOwn Any m → Keeps AllOwn Any (m >> pure tt)
quiet h = Keeps->>= h (λ _ _. returns tt)

serve_profile-Keeps : (r : ProfileRequest) → Keeps AllOwn Any (serve_profile r)
serve_profile-Keeps (submits user_id dto) = quiet (submit_kyc-Keeps user_id dto)
serve_profile-Keeps (sets_destination user_id dto) = quiet (set_payout_method-Keeps user_id dto)
serve_profile-Keeps (approves id phone tier) = quiet (approve_kyc-Keeps id phone tier)
serve_profile-Keeps (rejects id phone note) = quiet (reject_kyc-Keeps id phone note)

all-Keep : (rs : List ProfileRequest) → AllKeep AllOwn (map serve_profile rs)
all-Keep [] = tt
all-Keep (r ∷ rs) = (serve_profile-Keeps r, all-Keep rs)

-- However submissions, changes of payout destinations and reviews run into each other, if every
-- document key of every profile is of its user's own uploads before, it is so after.
pub profiles-AllOwn :
    (schedule : List ℕ) (requests : List ProfileRequest) (w : World)
    → AllOwn w
    → AllOwn (run_schedule schedule (map serve_profile requests) w).1
profiles-AllOwn schedule requests w i =
    run_schedule-Keeps AllOwn schedule (map serve_profile requests) w (all-Keep requests) i
