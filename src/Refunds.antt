-- ===== src/Refunds.antt =====
-- backend/src/payments/refund.service.ts.
pub mod Reconcile
use help_mi.Common.{
  ℕ, zero, suc, ◌+◌, String, Option, none, some, Bool, true, false, not, ◌&&◌, ◌||◌, List, [], ◌∷◌,
  ◌==◌, nat_eq, if◌then◌else◌, concat, or_default, truthy,
}
use help_mi.Schema.{
  Refund, Escrow, RefundReason, RefundStatus, EscrowStatus, TaskStatus, refund_is, escrow_is,
  task_is,
}
use help_mi.Database.{find_first, find_many}
use help_mi.World.{World, RefundReply, refunds, escrows}
use help_mi.Handler.{
  Handler, pure, ◌>>=◌, ◌>>◌, catch, transaction, guard, or_throw, not_found, bad_request,
}
use help_mi.Handler.Calls.{find_all, reads, find, find_or_throw, update, update_many, create}
use help_mi.PayHere.{is_configured, refund_payment}

pub record InitiateRefundInput : Type 0 where
  pub escrow_id : String
  pub task_id : String
  pub reason : RefundReason
  pub initiated_by : String

-- `COMPLETED` or `PROCESSING`: nothing to do for a caller.
abbrev pub is_settled : RefundStatus → Bool
is_settled RefundStatus.completed = true
is_settled RefundStatus.processing = true
is_settled _ = false

-- `status: { in: ['PENDING', 'FAILED'] }`
abbrev pub is_claimable : RefundStatus → Bool
is_claimable RefundStatus.pending = true
is_claimable RefundStatus.failed = true
is_claimable _ = false

-- `REFUNDABLE_ESCROW_STATES`
abbrev pub is_refundable : EscrowStatus → Bool
is_refundable EscrowStatus.held = true
is_refundable EscrowStatus.disputed = true
is_refundable EscrowStatus.refund_pending = true
is_refundable _ = false

abbrev pub escrow_text : EscrowStatus → String
escrow_text EscrowStatus.pending = "PENDING"
escrow_text EscrowStatus.held = "HELD"
escrow_text EscrowStatus.released = "RELEASED"
escrow_text EscrowStatus.refunded = "REFUNDED"
escrow_text EscrowStatus.disputed = "DISPUTED"
escrow_text EscrowStatus.refund_pending = "REFUND_PENDING"

abbrev pub reason_text : RefundReason → String
reason_text RefundReason.cancel = "CANCEL"
reason_text RefundReason.dispute = "DISPUTE"
reason_text RefundReason.admin = "ADMIN"

abbrev pub refund_description : Refund → String
refund_description r =
    concat (concat "HelpMi " (reason_text r.reason)) (concat " refund for task " r.task_id)

abbrev pub completed_row : RefundReply → ℕ → Refund → Refund
completed_row result now r = record r {
  status = RefundStatus.completed;
  provider_ref = result.provider_ref;
  failure_reason = none;
  completed_at = some now;
}

abbrev pub refunded_row : ℕ → Escrow → Escrow
refunded_row now e = record e { status = EscrowStatus.refunded; refunded_at = some now }

abbrev pub refund_pending_row : ℕ → Escrow → Escrow
refund_pending_row now e = record e { status = EscrowStatus.refund_pending }

-- The transaction of `execute` once the provider has confirmed.
unfoldable pub record_success : Refund → RefundReply → Handler Refund
record_success refund result = do
  updated ← update refunds (λ r. r.id == refund.id) (completed_row result)
  update escrows (λ e. e.id == refund.escrow_id) refunded_row
  pure updated

unfoldable pub record_failure : Refund → RefundReply → Handler Refund
record_failure refund result =
    update refunds (λ r. r.id == refund.id)
      (λ now r. record r {
        status = RefundStatus.failed;
        failure_reason = some (or_default result.error "Refund failed");
      })

-- The rest of `execute` once the provider has replied.
unfoldable pub settle : Refund → RefundReply → Handler Refund
settle refund result =
    if result.success
    then transaction (record_success refund result)
    else record_failure refund result

-- Of `execute`, from the claim on: only the executor whose conditional write moved the row calls
-- the provider.
unfoldable pub attempt : Refund → Option String → String → Handler Refund
attempt refund payment_id actor = do
  claimed ←
      update_many refunds (λ r. r.id == refund.id && is_claimable r.status)
        (λ now r. record r {
          status = RefundStatus.processing;
          attempts = r.attempts + 1;
          last_attempted_by = some actor;
        })
  if nat_eq claimed 0
      then find_or_throw refunds (λ r. r.id == refund.id)
      else (refund_payment payment_id (refund_description refund) >>= settle refund)

-- A row of `refund` with its escrow's captured payment, as `include: { escrow: true }` reads them.
abbrev pub with_payment : World → Refund → Refund × Option String
with_payment w r = (
  r,
  elim (find_first (λ e. e.id == r.escrow_id) w.escrows) [
    | none ↦ none
    | some e ↦ e.payhere_payment_id
  ],
)

unfoldable pub find_refund : String → World → Option (Refund × Option String)
find_refund refund_id w = elim (find_first (λ r. r.id == refund_id) w.refunds) [
  | none ↦ none
  | some r ↦ some (with_payment w r)
]

-- The queued branch of `execute`: no credentials yet.
unfoldable pub queue : Refund → String → Handler Refund
queue refund actor =
    update refunds (λ r. r.id == refund.id)
      (λ now r. record r {
        failure_reason = some "PayHere Merchant API not configured; refund queued";
        last_attempted_by = some actor;
      })

unfoldable pub execute : String → String → Handler Refund
execute refund_id actor = do
  row ← reads (find_refund refund_id)
  (refund, payment_id) ← or_throw row (not_found "Refund not found")
  configured ← reads is_configured
  if is_settled refund.status
      then pure refund
      else (if configured then attempt refund payment_id actor else queue refund actor)

-- What both look-ups of `initiateForEscrow` do with a refund that is there already.
unfoldable pub resume : Refund → String → Handler Refund
resume r actor = if is_settled r.status then pure r else execute r.id actor

unfoldable pub duplicate : Escrow → String → Handler Refund
duplicate escrow actor = do
  dup ← find refunds (λ r. r.escrow_id == escrow.id)
  r ← or_throw dup (bad_request "Could not create refund record")
  resume r actor

abbrev pub new_refund : Escrow → InitiateRefundInput → String → Refund
new_refund escrow input id = record {
  id = id;
  escrow_id = escrow.id;
  task_id = input.task_id;
  amount = escrow.task_budget + escrow.platform_fee_from_poster;
  reason = input.reason;
  status = RefundStatus.pending;
  provider_ref = none;
  failure_reason = none;
  initiated_by = input.initiated_by;
  last_attempted_by = none;
  attempts = 0;
  completed_at = none;
}

unfoldable pub create_refund : Escrow → InitiateRefundInput → Handler Refund
create_refund escrow input =
    create refunds (λ new r. r.id == new.id || r.escrow_id == new.escrow_id)
      (λ id now. new_refund escrow input id)

-- The insert of `initiateForEscrow`: none if the unique constraint refuses it.
unfoldable pub insert_refund : Escrow → InitiateRefundInput → Handler (Option Refund)
insert_refund escrow input =
    catch (create_refund escrow input >>= λ r. pure (some r)) (λ _. pure none)

abbrev pub execute_created : Escrow → String → Option Refund → Handler Refund
execute_created escrow actor none = duplicate escrow actor
execute_created escrow actor (some r) = execute r.id actor

-- `initiateForEscrow` where no refund was found: claim the money, record the refund, execute it.
unfoldable pub start : Escrow → InitiateRefundInput → Handler Refund
start escrow input = do
  guard (is_refundable escrow.status) (
      bad_request
        (concat (concat "Escrow is " (escrow_text escrow.status)) "; there is nothing to refund"))
  guard (truthy escrow.payhere_payment_id)
      (bad_request "No captured payment on this escrow; nothing to refund")
  update_many escrows
      (λ e.
        e.id == escrow.id
        && (escrow_is e.status EscrowStatus.held || escrow_is e.status EscrowStatus.disputed))
      refund_pending_row
  created ← insert_refund escrow input
  execute_created escrow input.initiated_by created

abbrev pub resume_or_start : Escrow → InitiateRefundInput → Option Refund → Handler Refund
resume_or_start escrow input (some r) = resume r input.initiated_by
resume_or_start escrow input none = start escrow input

unfoldable pub initiate_for_escrow : InitiateRefundInput → Handler Refund
initiate_for_escrow input = do
  row ← find escrows (λ e. e.id == input.escrow_id)
  escrow ← or_throw row (not_found "Escrow not found")
  existing ← find refunds (λ r. r.escrow_id == escrow.id)
  resume_or_start escrow input existing

-- `retry`, the admin's.
unfoldable pub retry : String → String → Handler Refund
retry refund_id admin_phone = do
  row ← find refunds (λ r. r.id == refund_id)
  refund ← or_throw row (not_found "Refund not found")
  guard (not (refund_is refund.status RefundStatus.completed))
      (bad_request "Refund already completed")
  guard (not (refund_is refund.status RefundStatus.processing))
      (bad_request "Refund is currently processing")
  execute refund_id (concat "admin:" admin_phone)

abbrev pub refund_fits : Option RefundStatus → Refund → Bool
refund_fits none r = true
refund_fits (some status) r = refund_is r.status status

-- `list`, less the order.
unfoldable pub list_refunds : Option RefundStatus → Handler (List Refund)
list_refunds status = find_all refunds (refund_fits status)
