-- ===== src/Payments/Webhook.antt =====
-- `handleWebhook` of payments.service.ts, and how a captured payment is applied.
use help_mi.Common.{
  ℕ, String, Option, none, some, Bool, true, not, ◌&&◌, ◌||◌, ◌==◌, nat_eq, if◌then◌else◌, opt_is,
  concat,
}
use help_mi.Schema.{
  TaskStatus, EscrowStatus, PostingFeeStatus, RefundReason, Task, Escrow, PostingFee, task_is,
  escrow_is, fee_is, task_posted,
}
use help_mi.World.{World, tasks, escrows, fees}
use help_mi.Handler.{Handler, pure, ◌>>=◌, ◌>>◌, catch, transaction, guard, bad_request}
use help_mi.Handler.Calls.{reads, find, update_many, emit}
use help_mi.Refunds.{initiate_for_escrow}
use help_mi.Payments.Checkout.{config_or, md5_upper}

pub record WebhookBody : Type 0 where
  pub merchant_id : String
  pub order_id : String
  pub payhere_amount : String
  pub payhere_currency : String
  pub status_code : String
  pub md5sig : String
  pub payment_id : String

-- `'open' | 'refund' | 'held-only'`
pub data PaymentOutcome : Type 0 where
  opened to_refund held_only : PaymentOutcome

abbrev pub opened_task : ℕ → Task → Task
opened_task now t = record t { status = TaskStatus.open_ }

abbrev pub promotes : String → Task → Bool
promotes task_id t = t.id == task_id && task_is t.status TaskStatus.pending_payment

-- The conditional promotion of the task, which decides the outcome.
abbrev pub promote_task : String → Handler ℕ
promote_task task_id = update_many tasks (promotes task_id) opened_task

abbrev pub is_dead : Option Task → Bool
is_dead none = true
is_dead (some t) = task_is t.status TaskStatus.cancelled

abbrev pub captures : String → Escrow → Bool
captures escrow_id e = e.id == escrow_id && escrow_is e.status EscrowStatus.pending

abbrev pub captured_row : String → EscrowStatus → ℕ → Escrow → Escrow
captured_row payment_id status now e = record e {
  status = status;
  payhere_payment_id = some payment_id;
  held_at = some now;
}

-- The escrow of a captured payment moves on from PENDING.
abbrev pub capture_escrow : String → String → EscrowStatus → Handler ℕ
capture_escrow escrow_id payment_id status =
    update_many escrows (captures escrow_id) (captured_row payment_id status)

unfoldable pub capture_unpromoted : Escrow → String → Handler PaymentOutcome
capture_unpromoted escrow payment_id = do
  task ← find tasks (λ t. t.id == escrow.task_id)
  if is_dead task
      then (capture_escrow escrow.id payment_id EscrowStatus.refund_pending
          >> pure PaymentOutcome.to_refund)
      else (capture_escrow escrow.id payment_id EscrowStatus.held >> pure PaymentOutcome.held_only)

-- The transaction of `applyEscrowPayment`.
unfoldable pub fund_escrow : Escrow → String → Handler PaymentOutcome
fund_escrow escrow payment_id = do
  promoted ← promote_task escrow.task_id
  if nat_eq promoted 1
      then (capture_escrow escrow.id payment_id EscrowStatus.held >> pure PaymentOutcome.opened)
      else capture_unpromoted escrow payment_id

abbrev pub announce : Option Task → Handler (Unit {0})
announce none = pure tt
announce (some t) = emit (task_posted t.id t.poster_id t.title t.required_tier)

-- `announceTask`
unfoldable pub announce_task : String → Handler (Unit {0})
announce_task task_id = do task ← find tasks (λ t. t.id == task_id); announce task

-- What follows the transaction of `applyEscrowPayment`; a failed refund is caught and logged.
abbrev pub after_funding : Escrow → PaymentOutcome → Handler (Unit {0})
after_funding escrow PaymentOutcome.opened = announce_task escrow.task_id
after_funding escrow PaymentOutcome.to_refund =
    catch
      (initiate_for_escrow (record {
        escrow_id = escrow.id;
        task_id = escrow.task_id;
        reason = RefundReason.cancel;
        initiated_by = "system:webhook";
      })
        >> pure tt)
      (λ _. pure tt)
after_funding escrow PaymentOutcome.held_only = pure tt

-- `applyEscrowPayment`, on the escrow as the webhook has read it.
unfoldable pub apply_escrow_payment : Escrow → String → Handler (Unit {0})
apply_escrow_payment escrow payment_id =
    if not (escrow_is escrow.status EscrowStatus.pending)
      || opt_is escrow.payhere_payment_id payment_id
    then pure tt
    else (transaction (fund_escrow escrow payment_id) >>= after_funding escrow)

abbrev pub capture_fee : String → String → PostingFeeStatus → Handler ℕ
capture_fee fee_id payment_id status =
    update_many fees (λ f. f.id == fee_id && fee_is f.status PostingFeeStatus.pending)
      (λ now f. record f {
        status = status;
        payhere_payment_id = some payment_id;
        paid_at = some now;
      })

unfoldable pub capture_fee_unpromoted : PostingFee → String → Handler PaymentOutcome
capture_fee_unpromoted fee payment_id = do
  task ← find tasks (λ t. t.id == fee.task_id)
  if is_dead task
      then (capture_fee fee.id payment_id PostingFeeStatus.refunded
          >> pure PaymentOutcome.to_refund)
      else (capture_fee fee.id payment_id PostingFeeStatus.paid >> pure PaymentOutcome.held_only)

-- The transaction of `applyPostingFeePayment`.
unfoldable pub pay_fee : PostingFee → String → Handler PaymentOutcome
pay_fee fee payment_id = do
  promoted ← promote_task fee.task_id
  if nat_eq promoted 1
      then (capture_fee fee.id payment_id PostingFeeStatus.paid >> pure PaymentOutcome.opened)
      else capture_fee_unpromoted fee payment_id

abbrev pub after_fee : PostingFee → PaymentOutcome → Handler (Unit {0})
after_fee fee PaymentOutcome.opened = announce_task fee.task_id
after_fee fee _ = pure tt

-- `applyPostingFeePayment`
unfoldable pub apply_posting_fee_payment : PostingFee → String → Handler (Unit {0})
apply_posting_fee_payment fee payment_id =
    if not (fee_is fee.status PostingFeeStatus.pending) || opt_is fee.payhere_payment_id payment_id
    then pure tt
    else (transaction (pay_fee fee payment_id) >>= after_fee fee)

abbrev pub expected_signature : World → WebhookBody → String
expected_signature w b = md5_upper w (
    concat b.merchant_id (
      concat b.order_id (
        concat b.payhere_amount (
          concat b.payhere_currency
            (concat b.status_code (md5_upper w (config_or w "PAYHERE_MERCHANT_SECRET" "")))))))

abbrev pub is_authentic : World → WebhookBody → Bool
is_authentic w b =
    expected_signature w b == b.md5sig && b.merchant_id == config_or w "PAYHERE_MERCHANT_ID" ""

abbrev pub apply_to_fee : Option PostingFee → String → Handler (Unit {0})
apply_to_fee none payment_id = pure tt
apply_to_fee (some fee) payment_id = apply_posting_fee_payment fee payment_id

unfoldable pub route_to_fee : WebhookBody → Handler (Unit {0})
route_to_fee body = do
  fee ← find fees (λ f. opt_is f.payhere_order_id body.order_id)
  apply_to_fee fee body.payment_id

abbrev pub apply_to_escrow : WebhookBody → Option Escrow → Handler (Unit {0})
apply_to_escrow body none = route_to_fee body
apply_to_escrow body (some escrow) = apply_escrow_payment escrow body.payment_id

-- Which record owns the order id.
unfoldable pub route_payment : WebhookBody → Handler (Unit {0})
route_payment body = do
  escrow ← find escrows (λ e. opt_is e.payhere_order_id body.order_id)
  apply_to_escrow body escrow

-- `handleWebhook`: every return is `{ received: true }`.
unfoldable pub handle_webhook : WebhookBody → Handler (Unit {0})
handle_webhook body = do
  authentic ← reads (λ w. is_authentic w body)
  guard authentic (bad_request "Invalid webhook signature")
  if body.status_code == "2" then route_payment body else pure tt
