-- ===== src/Admin.antt =====
-- backend/src/admin/admin.service.ts: what an admin writes.
pub mod Reads
use help_mi.Common.{
  ℕ, String, Option, none, some, Bool, true, false, not, ◌==◌, if◌then◌else◌, concat, or_default,
}
use help_mi.Schema.{
  DoerTier, KycStatus, DisputeStatus, EscrowStatus, TaskStatus, RefundReason, DoerProfile,
  KycReview, User, Dispute, Escrow, Task, Refund, Payout, escrow_is, kyc_reviewed,
}
use help_mi.Database.{find_first}
use help_mi.World.{World, profiles, kyc_reviews, users, disputes, escrows, tasks}
use help_mi.Handler.{
  Handler, pure, ◌>>=◌, ◌>>◌, transaction, guard, or_throw, not_found, bad_request,
}
use help_mi.Handler.Calls.{reads, find, update, create, emit}
use help_mi.Refunds.{initiate_for_escrow, retry}
use help_mi.Payouts.{mark_paid}
use help_mi.Tasks.Cancel.{force_cancel}

abbrev pub new_review : String → String → KycStatus → Option String → String → KycReview
new_review profile_id admin_phone action note id = record {
  id = id;
  doer_profile_id = profile_id;
  reviewer_phone = admin_phone;
  action = action;
  note = note;
}

-- `approveKyc`; the tier is BRONZE by default.
unfoldable pub approve_kyc : String → String → Option DoerTier → Handler DoerProfile
approve_kyc profile_id admin_phone tier = do
  row ← find profiles (λ p. p.id == profile_id)
  profile ← or_throw row (not_found "Doer profile not found")
  let given_tier = or_default tier DoerTier.bronze
  updated ←
      update profiles (λ p. p.id == profile_id)
        (λ now p. record p {
          kyc_status = KycStatus.approved;
          tier = given_tier;
          kyc_reviewed_at = some now;
        })
  create kyc_reviews (λ new r. r.id == new.id)
      (λ id now. new_review profile_id admin_phone KycStatus.approved none id)
  emit (kyc_reviewed profile.user_id true (some given_tier) none)
  pure updated

-- `rejectKyc`
unfoldable pub reject_kyc : String → String → String → Handler DoerProfile
reject_kyc profile_id admin_phone note = do
  row ← find profiles (λ p. p.id == profile_id)
  profile ← or_throw row (not_found "Doer profile not found")
  updated ←
      update profiles (λ p. p.id == profile_id)
        (λ now p. record p {
          kyc_status = KycStatus.rejected;
          kyc_reviewed_at = some now;
          kyc_review_note = some note;
        })
  create kyc_reviews (λ new r. r.id == new.id)
      (λ id now. new_review profile_id admin_phone KycStatus.rejected (some note) id)
  emit (kyc_reviewed profile.user_id false none (some note))
  pure updated

unfoldable pub set_banned : Bool → String → Handler User
set_banned banned user_id = do
  row ← find users (λ u. u.id == user_id)
  user ← or_throw row (not_found "User not found")
  update users (λ u. u.id == user_id) (λ now u. record u { is_banned = banned })

-- `banUser`
abbrev pub ban_user : String → Handler User
ban_user = set_banned true

-- `unbanUser`
abbrev pub unban_user : String → Handler User
unban_user = set_banned false

-- The dispute with its task and the task's escrow, as `include` reads them.
abbrev pub escrow_of_task : World → String → Option Escrow
escrow_of_task w task_id = elim (find_first (λ t. t.id == task_id) w.tasks) [
  | none ↦ none
  | some t ↦ find_first (λ e. e.task_id == t.id) w.escrows
]

abbrev pub find_dispute : String → World → Option (Dispute × Option Escrow)
find_dispute dispute_id w = elim (find_first (λ d. d.id == dispute_id) w.disputes) [
  | none ↦ none
  | some d ↦ some (d, escrow_of_task w d.task_id)
]

abbrev pub decided : Bool → ℕ → Escrow → Escrow
decided refund_poster now e =
    if refund_poster
    then record e { status = EscrowStatus.refunded; refunded_at = some now }
    else record e { status = EscrowStatus.released; released_at = some now }

unfoldable pub decide_escrow : Option Escrow → String → Bool → Handler (Unit {0})
decide_escrow none task_id refund_poster = pure tt
decide_escrow (some e) task_id refund_poster =
    update escrows (λ e. e.task_id == task_id) (decided refund_poster) >> pure tt

abbrev pub resolved_row : String → String → ℕ → Dispute → Dispute
resolved_row admin_phone note now d = record d {
  status = DisputeStatus.resolved;
  resolution_note = some note;
  resolved_by_phone = some admin_phone;
  resolved_at = some now;
}

abbrev pub resolved_task : ℕ → Task → Task
resolved_task now t = record t { status = TaskStatus.completed }

-- The transaction of `resolveDispute`.
unfoldable pub record_resolution :
    Dispute → Option Escrow → String → String → Bool → Handler (Unit {0})
record_resolution dispute escrow admin_phone note refund_poster = do
  update disputes (λ d. d.id == dispute.id) (resolved_row admin_phone note)
  decide_escrow escrow dispute.task_id refund_poster
  update tasks (λ t. t.id == dispute.task_id) resolved_task
  pure tt

-- `resolveDispute`
unfoldable pub resolve_dispute : String → String → String → Bool → Handler (Unit {0})
resolve_dispute dispute_id admin_phone note refund_poster = do
  row ← reads (find_dispute dispute_id)
  (dispute, escrow) ← or_throw row (not_found "Dispute not found")
  transaction (record_resolution dispute escrow admin_phone note refund_poster)

-- `initiateEscrowRefund`
unfoldable pub initiate_escrow_refund : String → String → Handler Refund
initiate_escrow_refund task_id admin_phone = do
  row ← find escrows (λ e. e.task_id == task_id)
  escrow ← or_throw row (not_found "Escrow not found for this task")
  guard (not (escrow_is escrow.status EscrowStatus.disputed))
      (bad_request "Escrow is disputed — resolve the dispute instead")
  initiate_for_escrow (record {
    escrow_id = escrow.id;
    task_id = task_id;
    reason = RefundReason.admin;
    initiated_by = concat "admin:" admin_phone;
  })

-- `retryRefund`
abbrev pub retry_refund : String → String → Handler Refund
retry_refund = retry

-- `forceCancelTask`
abbrev pub force_cancel_task : String → String → Handler Task
force_cancel_task = force_cancel

-- `markPayoutPaid`
abbrev pub mark_payout_paid : String → Option String → Handler Payout
mark_payout_paid = mark_paid
