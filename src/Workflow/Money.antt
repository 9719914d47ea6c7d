-- ===== src/Workflow/Money.antt =====
-- The captured payments take their step of the task's life.
use help_mi.Common.{
  refl, sym, subst, Bool, not, ◌==◌, ◌||◌, Option, none, some, List, String, ℕ, nat_eq,
  if◌then◌else◌, opt_is, &&-both,
}
use help_mi.Schema.{
  Task, Escrow, PostingFee, TaskStatus, EscrowStatus, PostingFeeStatus, escrow_is, fee_is,
}
use help_mi.Database.{find_first, update_rows, count_rows}
use help_mi.World.{World}
use help_mi.Handler.{transaction, pure, ◌>>◌}
use help_mi.Handler.Interleave.{Keeps, Any, returns, steps, Keeps-if}
use help_mi.Payments.Webhook.{
  WebhookBody, PaymentOutcome, capture_escrow, capture_fee, capture_fee_unpromoted, promotes,
  opened_task, fund_escrow, capture_unpromoted, pay_fee, apply_escrow_payment,
  apply_posting_fee_payment, apply_to_fee, apply_to_escrow, route_to_fee, route_payment,
  handle_webhook, is_authentic,
}
use help_mi.Outcomes.Post.{Post-guard, Post-if}
use help_mi.Requests.{Request, notifies}
use help_mi.Safety.Checkout
use help_mi.Workflow.{TaskState, in_state, Step, stays, opened}
use help_mi.Workflow.Leaves.{Leaves, Leaves-transaction, Ends-Keeps}
use help_mi.Workflow.View.{
  quiet_after, Leaves-rest, From, Step-update_rows, state, view, task_is-path,
}

module _ (i : String) (r : Request) (v : TaskState) where
  captured-Keeps :
      (e : Escrow) (payment_id : String) (n : ℕ)
      → Keeps (From i r v) Any (
          if nat_eq n 1
          then (capture_escrow e.id payment_id EscrowStatus.held >> pure PaymentOutcome.opened)
          else capture_unpromoted e payment_id)
  unfolding capture_unpromoted
  captured-Keeps e payment_id n = Keeps-if _ (steps (λ w i. i) (λ w i. returns tt)) (
      steps (λ w i. i)
        (λ w i.
          Keeps-if _ (steps (λ w i. i) (λ w i. returns tt)) (steps (λ w i. i) (λ w i. returns tt))))

  fee_captured-Keeps :
      (f : PostingFee) (payment_id : String) (n : ℕ)
      → Keeps (From i r v) Any (
          if nat_eq n 1
          then (capture_fee f.id payment_id PostingFeeStatus.paid >> pure PaymentOutcome.opened)
          else capture_fee_unpromoted f payment_id)
  fee_captured-Keeps f payment_id n =
      Keeps-if _ (steps (λ w i. i) (λ w i. returns tt))
        (Checkout.unpromoted-Keeps (quiet_after i r v) f payment_id)

module _ (i : String) where
  opened-Step :
      (body : WebhookBody) (id : String) (now : ℕ) (ts : List Task) (d : Bool)
      → Step i
          (notifies body)
          (state i ts d)
          (state i (update_rows (promotes id) (opened_task now) ts) d)
  opened-Step body id now ts d =
      Step-update_rows i _ (promotes id) (opened_task now) ts d (λ t. refl)
        λ t here fits.
          subst (λ s. Step i (notifies body) (in_state s d) (in_state TaskStatus.open_ d))
            (sym (task_is-path t.status TaskStatus.pending_payment (&&-both (t.id == id) _ fits).1))
            opened

  module _ (body : WebhookBody) where
    paid-Leaves :
        (e : Escrow) (payment_id : String) (w : World)
        → Leaves (From i (notifies body) (view i w)) (apply_escrow_payment e payment_id) w
    unfolding apply_escrow_payment fund_escrow
    paid-Leaves e payment_id w =
        Post-if _ _
          (not (escrow_is e.status EscrowStatus.pending) || opt_is e.payhere_payment_id payment_id)
          _ _ w (λ _. stays)
          (λ _.
            Leaves-rest i r v {Q = Any} (transaction (fund_escrow e payment_id)) _ w
              (Leaves-transaction (From i r v) (fund_escrow e payment_id) w stays (
                Ends-Keeps _ {Q = Any} _
                  (captured-Keeps i r v e payment_id (count_rows (promotes e.task_id) w.tasks))
                  (opened-Step body e.task_id w.clock w.tasks _)))
              (λ o. Checkout.after_funding-Keeps (quiet_after i r v) e o))
      where
        r : Request
        r = notifies body

        v : TaskState
        v = view i w

    fee_paid-Leaves :
        (f : PostingFee) (payment_id : String) (w : World)
        → Leaves (From i (notifies body) (view i w)) (apply_posting_fee_payment f payment_id) w
    unfolding apply_posting_fee_payment pay_fee
    fee_paid-Leaves f payment_id w =
        Post-if _ _
          (not (fee_is f.status PostingFeeStatus.pending) || opt_is f.payhere_payment_id payment_id)
          _ _ w (λ _. stays)
          (λ _.
            Leaves-rest i r v {Q = Any} (transaction (pay_fee f payment_id)) _ w
              (Leaves-transaction (From i r v) (pay_fee f payment_id) w stays (
                Ends-Keeps _ {Q = Any} _
                  (fee_captured-Keeps i r v f payment_id (count_rows (promotes f.task_id) w.tasks))
                  (opened-Step body f.task_id w.clock w.tasks _)))
              (λ o. Checkout.after_fee-Keeps (quiet_after i r v) f o))
      where
        r : Request
        r = notifies body

        v : TaskState
        v = view i w

    routed-Leaves :
        (o : Option Escrow) (w : World)
        → Leaves (From i (notifies body) (view i w)) (apply_to_escrow body o) w
    unfolding route_to_fee
    routed-Leaves none w = to_fee (find_first (λ f. opt_is f.payhere_order_id body.order_id) w.fees)
      where
        to_fee :
            (o : Option PostingFee)
            → Leaves (From i (notifies body) (view i w)) (apply_to_fee o body.payment_id) w
        to_fee none = stays
        to_fee (some f) = fee_paid-Leaves f body.payment_id w
    routed-Leaves (some e) w = paid-Leaves e body.payment_id w

    pub handle_webhook-Leaves :
        (w : World) → Leaves (From i (notifies body) (view i w)) (handle_webhook body) w
    unfolding handle_webhook route_payment
    handle_webhook-Leaves w =
        Post-guard _ _ (is_authentic w body) _ _ w
          (λ _.
            Post-if _ _ (body.status_code == "2") _ _ w
              (λ _.
                routed-Leaves (find_first (λ e. opt_is e.payhere_order_id body.order_id) w.escrows)
                  w)
              (λ _. stays))
          (λ _. stays)
