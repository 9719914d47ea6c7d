-- ===== src/Admin/Reads.antt =====
-- backend/src/admin/admin.service.ts: what an admin reads. The rows that a list joins are left out,
-- and a list is in the order of the table, which is that of creation.
use help_mi.Common.{
  ℕ, zero, suc, ◌+◌, ◌-◌, ◌*◌, ◌==◌, String, Option, none, some, Bool, true, List, [], ◌∷◌, ◌++◌,
  if◌then◌else◌, given,
}
use help_mi.Schema.{
  KycStatus, DisputeStatus, EscrowStatus, TaskStatus, PayoutStatus, DoerProfile, User, Dispute,
  Escrow, Task, Payout, escrow_is, task_is, dispute_is, kyc_is,
}
use help_mi.Database.{take_rows, rows_in, newest_first, find_many, count_rows}
use help_mi.World.{profiles, disputes}
use help_mi.Handler.{Handler, pure, ◌>>=◌, or_throw, not_found}
use help_mi.Handler.Calls.{reads, find, find_all}
use help_mi.Payouts.{admin_list}
use help_mi.Payouts.Export.{export_csv}
use help_mi.Uploads.{presign_read}
use help_mi.Uploads.Keys.{is_kyc_key}

-- `getPendingKyc`
unfoldable pub get_pending_kyc : Handler (List DoerProfile)
get_pending_kyc = find_all profiles (λ p. kyc_is p.kyc_status KycStatus.pending)

-- A document of a profile: its name, its key, and the URL with the time of its end, unless the
-- value is from before the keys (`legacy`).
pub record DocumentView : Type 0 where
  pub name : String
  pub key : String
  pub url : Option (String × ℕ)

abbrev pub kyc_fields : DoerProfile → List (String × Option String)
kyc_fields p =
    ("nicPhoto", p.nic_photo_url)
    ∷ ("selfie", p.selfie_url)
    ∷ ("addressProof", p.address_proof_url)
    ∷ ("policeClearance", p.police_clearance_url)
    ∷ ("drivingLicense", p.driving_license_url)
    ∷ ("skillProof", p.skill_proof_url)
    ∷ []

-- A key is signed, any other value is flagged.
unfoldable pub view_key : String → String → Handler DocumentView
view_key name key =
    if is_kyc_key key
    then presign_read key >>= (λ url. pure (record { name = name; key = key; url = some url }))
    else pure (record { name = name; key = key; url = none })

abbrev pub view_field : String → Option String → Handler (List DocumentView)
view_field name none = pure []
view_field name (some key) = view_key name key >>= (λ view. pure (view ∷ []))

-- The loop of `getKycDocuments`; an empty value is skipped as an absent one is.
unfoldable pub view_documents : List (String × Option String) → Handler (List DocumentView)
view_documents [] = pure []
view_documents ((name, value) ∷ fields) = do
  first ← view_field name (given value)
  rest ← view_documents fields
  pure (first ++ rest)

-- `getKycDocuments`
unfoldable pub get_kyc_documents : String → Handler (DoerProfile × List DocumentView)
get_kyc_documents profile_id = do
  row ← find profiles (λ p. p.id == profile_id)
  profile ← or_throw row (not_found "Doer profile not found")
  documents ← view_documents (kyc_fields profile)
  pure (profile, documents)

unfoldable pub drop_rows {ℓ} : {A : Type ℓ} → ℕ → List A → List A
drop_rows zero rows = rows
drop_rows (suc n) [] = []
drop_rows (suc n) (r ∷ rows) = drop_rows n rows

-- A page of the rows, counted from 1, the newest first: `skip: (page - 1) * limit, take: limit`.
abbrev pub page_of {ℓ} : {A : Type ℓ} → ℕ → ℕ → List A → List A
page_of page limit rows = take_rows limit (drop_rows ((page - 1) * limit) (newest_first rows))

-- `getUsers`
unfoldable pub get_users : ℕ → ℕ → Handler (List User)
get_users page limit = reads (λ w. page_of page limit w.users)

abbrev pub dispute_fits : Option DisputeStatus → Dispute → Bool
dispute_fits none d = true
dispute_fits (some status) d = dispute_is d.status status

-- `getDisputes`
unfoldable pub get_disputes : Option DisputeStatus → Handler (List Dispute)
get_disputes status = find_all disputes (dispute_fits status)

abbrev pub task_fits : Option TaskStatus → Task → Bool
task_fits none t = true
task_fits (some status) t = task_is t.status status

-- `listTasks`
unfoldable pub list_tasks : Option TaskStatus → ℕ → ℕ → Handler (List Task)
list_tasks status page limit =
    reads (λ w. page_of page limit (find_many (task_fits status) w.tasks))

pub record Stats : Type 0 where
  pub users : ℕ
  pub tasks : ℕ
  pub completed_tasks : ℕ
  pub open_disputes : ℕ
  pub escrow_held : ℕ

unfoldable pub held_total : List Escrow → ℕ
held_total [] = 0
held_total (e ∷ es) =
    let rest = held_total es in
    if escrow_is e.status EscrowStatus.held then e.task_budget + rest else rest

-- `getStats`: five queries, with the sum of the HELD budgets in cents.
unfoldable pub get_stats : Handler Stats
get_stats = do
  users ← reads (λ w. rows_in w.users)
  tasks ← reads (λ w. rows_in w.tasks)
  completed ← reads (λ w. count_rows (λ t. task_is t.status TaskStatus.completed) w.tasks)
  open_ ← reads (λ w. count_rows (λ d. dispute_is d.status DisputeStatus.open_) w.disputes)
  held ← reads (λ w. held_total w.escrows)
  pure (record {
    users = users;
    tasks = tasks;
    completed_tasks = completed;
    open_disputes = open_;
    escrow_held = held;
  })

-- `listPayouts`
abbrev pub list_payouts : Option PayoutStatus → Handler (List Payout)
list_payouts = admin_list

-- `exportPayoutsCsv`
abbrev pub export_payouts_csv : Option PayoutStatus → Handler String
export_payouts_csv = export_csv
