-- ===== src/Safety/Payments.antt =====
-- The payment and dispute handlers keep whatever is stable.
use help_mi.Common.{◌≡◌, refl, Bool, ◌==◌, Option, none, some, List, String, arith}
use help_mi.Schema.{Task, Escrow, PostingFee, Dispute}
use help_mi.World.{tasks, disputes}
use help_mi.Handler.Interleave.{
  Keeps, returns, steps, Any, Keeps->>=, Keeps-transaction, Keeps-guard, Keeps-or_throw, Keeps-if,
  run-Ends,
}
use help_mi.Handler.Inserts.{Keeps-update}
use help_mi.Payments.Webhook.{
  WebhookBody, opened_task, fund_escrow, apply_escrow_payment, pay_fee, apply_posting_fee_payment,
  apply_to_fee, route_to_fee, apply_to_escrow, route_payment, handle_webhook, is_authentic,
}
use help_mi.Admin.{resolved_row, resolved_task, record_resolution, resolve_dispute, find_dispute}
use help_mi.Safety.Stable.{OfRows, Stable}
use help_mi.Safety.Quiet.{quiet}
use help_mi.Safety.Checkout

module _ {P : List Task → List Escrow → Type 0} {Known : Task → Type 0}
    {KnownEscrow : Escrow → Type 0} (s : Stable P Known KnownEscrow) where
  apply_escrow_payment-Keeps :
      (e : Escrow) (payment_id : String)
      → KnownEscrow e
      → Keeps (OfRows P) Any (apply_escrow_payment e payment_id)
  unfolding apply_escrow_payment
  apply_escrow_payment-Keeps e payment_id known = Keeps-if _ (returns tt) (
      Keeps->>=
        (Keeps-transaction Any (fund_escrow e payment_id) (λ w i. s.funded e payment_id w known i))
        (λ o _. Checkout.after_funding-Keeps (quiet s) e o))

  pay_fee-Keeps :
      (f : PostingFee) (payment_id : String) → Keeps (OfRows P) Any (pay_fee f payment_id)
  unfolding pay_fee
  pay_fee-Keeps f payment_id =
      steps (λ w i. s.moved _ (opened_task w.clock) _ _ (λ t. ground arith) (λ t p. ground arith) i)
        λ w i.
          Keeps-if _ (steps (λ w i. i) (λ w i. returns tt))
            (Checkout.unpromoted-Keeps (quiet s) f payment_id)

  apply_to_fee-Keeps :
      (f : Option PostingFee) (payment_id : String)
      → Keeps (OfRows P) Any (apply_to_fee f payment_id)
  unfolding apply_posting_fee_payment
  apply_to_fee-Keeps none payment_id = returns tt
  apply_to_fee-Keeps (some f) payment_id = Keeps-if _ (returns tt) (
      Keeps->>=
        (Keeps-transaction Any (pay_fee f payment_id)
          (λ w i. run-Ends w (pay_fee-Keeps f payment_id) i))
        (λ o _. Checkout.after_fee-Keeps (quiet s) f o))

  apply_to_escrow-Keeps :
      (body : WebhookBody) (o : Option Escrow)
      → ((e : Escrow) → o ≡ some e → KnownEscrow e)
      → Keeps (OfRows P) Any (apply_to_escrow body o)
  unfolding route_to_fee
  apply_to_escrow-Keeps body none known =
      steps (λ w i. i) (λ w i. apply_to_fee-Keeps _ body.payment_id)
  apply_to_escrow-Keeps body (some e) known =
      apply_escrow_payment-Keeps e body.payment_id (known e refl)

  pub handle_webhook-Keeps : (body : WebhookBody) → Keeps (OfRows P) Any (handle_webhook body)
  unfolding handle_webhook route_payment
  handle_webhook-Keeps body =
      steps (λ w i. i)
        λ w i. Keeps->>= (Keeps-guard (is_authentic w body) _) λ _ _.
          Keeps-if _
            (steps (λ w i. i)
              (λ w i.
                apply_to_escrow-Keeps body _
                  (λ e found. s.known_escrow _ w.tasks w.escrows i found)))
            (returns tt)

  record_resolution-Keeps :
      (d : Dispute) (o : Option Escrow) (admin note : String) (b : Bool)
      → Keeps (OfRows P) Any (record_resolution d o admin note b)
  unfolding record_resolution
  record_resolution-Keeps d o admin note b =
      Keeps->>= (Keeps-update disputes (λ x. x.id == d.id) (resolved_row admin note) (λ w i. i))
        λ _ _. Keeps->>= (Checkout.decide_escrow-Keeps (quiet s) o d.task_id b) λ _ _.
          Keeps->>=
            (Keeps-update tasks (λ t. t.id == d.task_id) resolved_task
              (λ w i.
                s.moved _ (resolved_task w.clock) _ _ (λ t. ground arith) (λ t p. ground arith) i))
            λ _ _. returns tt

  pub resolve_dispute-Keeps :
      (id admin note : String) (b : Bool) → Keeps (OfRows P) Any (resolve_dispute id admin note b)
  unfolding resolve_dispute
  resolve_dispute-Keeps id admin note b =
      steps (λ w i. i)
        λ w i. Keeps->>= (Keeps-or_throw (find_dispute id w) _) λ found _.
          Keeps-transaction Any (record_resolution found.0 found.1 admin note b)
            (λ w i. run-Ends w (record_resolution-Keeps found.0 found.1 admin note b) i)
