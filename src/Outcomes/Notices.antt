-- ===== src/Outcomes/Notices.antt =====
-- `handleWebhook` of payments.service.ts: which notices change anything.
use help_mi.Common.{
  ◌≡◌, refl, Bool, false, not, ◌&&◌, ◌||◌, ◌==◌, Option, none, some, String, arith, opt_is,
}
use help_mi.Schema.{Escrow, PostingFee, EscrowStatus, PostingFeeStatus, escrow_is, fee_is}
use help_mi.Database.{find_first}
use help_mi.World.{World}
use help_mi.Handler.{run}
use help_mi.Payments.Webhook.{
  WebhookBody, handle_webhook, is_authentic, route_payment, apply_to_escrow, route_to_fee,
  apply_to_fee, apply_escrow_payment, apply_posting_fee_payment,
}
use help_mi.Outcomes.Post.{Post, Post-guard, Post-if}

-- The posting fee waits for this payment.
abbrev pub fee_waits : String → Option PostingFee → Bool
fee_waits payment_id none = false
fee_waits payment_id (some f) =
    fee_is f.status PostingFeeStatus.pending && not (opt_is f.payhere_payment_id payment_id)

-- The record that owns the order, an escrow before a posting fee, waits for this payment.
abbrev pub waits_for : World → WebhookBody → Option Escrow → Bool
waits_for w body (some e) =
    escrow_is e.status EscrowStatus.pending && not (opt_is e.payhere_payment_id body.payment_id)
waits_for w body none =
    fee_waits body.payment_id (find_first (λ f. opt_is f.payhere_order_id body.order_id) w.fees)

-- A notice that counts: signed, of a success, and for an order that waits for it.
abbrev pub counts : World → WebhookBody → Bool
counts w body =
    is_authentic w body
    && (body.status_code == "2"
        && waits_for w body (find_first (λ e. opt_is e.payhere_order_id body.order_id) w.escrows))

module _ (w : World) (body : WebhookBody) where
  abbrev Same : World → Type 0
  Same w' = w' ≡ w

  fee-Same :
      (o : Option PostingFee)
      → fee_waits body.payment_id o ≡ false
      → Post (λ _. Same) Same (run (apply_to_fee o body.payment_id) w)
  unfolding apply_posting_fee_payment
  fee-Same none h = refl
  fee-Same (some f) h =
      Post-if _ _
        (not (fee_is f.status PostingFeeStatus.pending)
          || opt_is f.payhere_payment_id body.payment_id)
        _ _ _ (λ _. refl) (λ n. ground arith)

  escrow-Same :
      (o : Option Escrow)
      → waits_for w body o ≡ false
      → Post (λ _. Same) Same (run (apply_to_escrow body o) w)
  unfolding apply_escrow_payment route_to_fee
  escrow-Same none h = fee-Same (find_first (λ f. opt_is f.payhere_order_id body.order_id) w.fees) h
  escrow-Same (some e) h =
      Post-if _ _
        (not (escrow_is e.status EscrowStatus.pending)
          || opt_is e.payhere_payment_id body.payment_id)
        _ _ _ (λ _. refl) (λ n. ground arith)

  -- A notice that is forged, not of a success, repeated, or for no order that waits for it changes
  -- nothing at all.
  pub handle_webhook-Same :
      counts w body ≡ false → Post (λ _. Same) Same (run (handle_webhook body) w)
  unfolding handle_webhook route_payment
  handle_webhook-Same h =
      Post-guard _ _ (is_authentic w body) _ _ _
        (λ authentic.
          Post-if _ _ (body.status_code == "2") _ _ _
            (λ success.
              escrow-Same (find_first (λ e. opt_is e.payhere_order_id body.order_id) w.escrows)
                (ground arith))
            (λ _. refl))
        (λ _. refl)
