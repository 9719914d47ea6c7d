-- ===== src/Safety/Checkout.antt =====
-- What comes after a payment, the checkout, and the money of a decided dispute are quiet.
use help_mi.Common.{Bool, not, ◌||◌, ◌==◌, Option, none, some, List, String, arith}
use help_mi.Schema.{
  Task, Escrow, PostingFee, Dispute, EscrowStatus, PostingFeeStatus, escrow_is, fee_is,
}
use help_mi.Database.{find_first}
use help_mi.World.{escrows, fees}
use help_mi.Handler.Interleave.{
  Keeps, returns, steps, Any, Keeps->>=, Keeps-guard, Keeps-or_throw, Keeps-if,
}
use help_mi.Handler.Inserts.{Keeps-update}
use help_mi.Payments.Checkout.{
  ordered_escrow, ordered_fee, escrow_order, fee_order, order_of, callback_urls, callback_urls_of,
  initiate_payment, find_task_with_escrow,
}
use help_mi.Payments.Webhook.{
  PaymentOutcome, opened, to_refund, held_only, after_funding, announce, announce_task,
  capture_fee_unpromoted, after_fee,
}
use help_mi.Admin.{decided, decide_escrow, initiate_escrow_refund}
use help_mi.Tasks.Lifecycle.{freeze_escrow, disputed_escrow}
use help_mi.Safety.Quiet.{OfTables, Quiet}
use help_mi.Safety.Refunds

module _ {P : List Task → List Escrow → List Dispute → Type 0} (q : Quiet P) where
  pub unpromoted-Keeps :
      (f : PostingFee) (payment_id : String)
      → Keeps (OfTables P) Any (capture_fee_unpromoted f payment_id)
  unfolding capture_fee_unpromoted
  unpromoted-Keeps f payment_id =
      steps (λ w i. i)
        λ w i.
          Keeps-if _ (steps (λ w i. i) (λ w i. returns tt)) (steps (λ w i. i) (λ w i. returns tt))

  announce_task-Keeps : (id : String) → Keeps (OfTables P) Any (announce_task id)
  unfolding announce_task
  announce_task-Keeps id = steps (λ w i. i) (λ w i. announced _)
    where
      announced : (o : Option Task) → Keeps (OfTables P) Any (announce o)
      announced none = returns tt
      announced (some t) = steps (λ w i. i) (λ w i. returns tt)

  pub after_funding-Keeps :
      (e : Escrow) (o : PaymentOutcome) → Keeps (OfTables P) Any (after_funding e o)
  after_funding-Keeps e opened = announce_task-Keeps e.task_id
  after_funding-Keeps e to_refund = Refunds.dropped-Keeps q _
  after_funding-Keeps e held_only = returns tt

  pub after_fee-Keeps :
      (f : PostingFee) (o : PaymentOutcome) → Keeps (OfTables P) Any (after_fee f o)
  after_fee-Keeps f opened = announce_task-Keeps f.task_id
  after_fee-Keeps f to_refund = returns tt
  after_fee-Keeps f held_only = returns tt

  escrow_order-Keeps :
      (id : String) (o : Option Escrow) → Keeps (OfTables P) Any (escrow_order id o)
  unfolding escrow_order
  escrow_order-Keeps id o = Keeps->>= (Keeps-or_throw o _) λ e _.
      Keeps->>= (Keeps-guard (escrow_is e.status EscrowStatus.pending) _) λ _ _.
        Keeps->>=
          (Keeps-update escrows (λ e. e.task_id == id) (ordered_escrow id)
            (λ w i. q.lowered _ (ordered_escrow id w.clock) _ _ _ (λ e. ground arith) i))
          λ _ _. returns tt

  fee_order-Keeps : (id : String) → Keeps (OfTables P) Any (fee_order id)
  unfolding fee_order
  fee_order-Keeps id =
      steps (λ w i. i)
        λ w i. Keeps->>= (Keeps-or_throw (find_first (λ f. f.task_id == id) w.fees) _) λ f _.
          Keeps->>= (Keeps-guard (fee_is f.status PostingFeeStatus.pending) _) λ _ _.
            Keeps->>= (Keeps-update fees (λ f. f.task_id == id) (ordered_fee id) (λ w i. i))
              λ _ _. returns tt

  order_of-Keeps :
      (t : Task) (id : String) (o : Option Escrow) → Keeps (OfTables P) Any (order_of t id o)
  unfolding order_of
  order_of-Keeps t id o = Keeps-if _ (escrow_order-Keeps id o) (fee_order-Keeps id)

  callback_urls-Keeps : Keeps (OfTables P) Any callback_urls
  unfolding callback_urls
  callback_urls-Keeps =
      steps (λ w i. i)
        λ w i.
          let urls = callback_urls_of w in
          Keeps->>=
            (Keeps-guard
              (not (urls.return_url == "" || urls.cancel_url == "" || urls.notify_url == "")) _)
            λ _ _. returns tt

  pub initiate_payment-Keeps :
      (id user : String) → Keeps (OfTables P) Any (initiate_payment id user)
  unfolding initiate_payment
  initiate_payment-Keeps id user =
      steps (λ w i. i)
        λ w i. Keeps->>= (Keeps-or_throw (find_task_with_escrow id w) _) λ found _.
          Keeps->>= (Keeps-guard (found.0.poster_id == user) _) λ _ _.
            Keeps->>= (order_of-Keeps found.0 id found.1) λ order _.
              Keeps->>= callback_urls-Keeps λ urls _. steps (λ w i. i) (λ w i. returns tt)

  pub freeze_escrow-Keeps : (t : Task) (id : String) → Keeps (OfTables P) Any (freeze_escrow t id)
  unfolding freeze_escrow
  freeze_escrow-Keeps t id =
      Keeps-if _
        (Keeps->>=
          (Keeps-update escrows (λ e. e.task_id == id) disputed_escrow
            (λ w i. q.lowered _ (disputed_escrow w.clock) _ _ _ (λ e. ground arith) i))
          (λ _ _. returns tt))
        (returns tt)

  pub decide_escrow-Keeps :
      (o : Option Escrow) (id : String) (b : Bool) → Keeps (OfTables P) Any (decide_escrow o id b)
  unfolding decide_escrow
  decide_escrow-Keeps none id b = returns tt
  decide_escrow-Keeps (some e) id b =
      Keeps->>=
        (Keeps-update escrows (λ e. e.task_id == id) (decided b)
          (λ w i. q.lowered _ (decided b w.clock) _ _ _ (λ e. ground arith) i))
        (λ _ _. returns tt)

  pub initiate_escrow_refund-Keeps :
      (id admin : String) → Keeps (OfTables P) Any (initiate_escrow_refund id admin)
  unfolding initiate_escrow_refund
  initiate_escrow_refund-Keeps id admin =
      steps (λ w i. i)
        λ w i. Keeps->>= (Keeps-or_throw (find_first (λ e. e.task_id == id) w.escrows) _) λ e _.
          Keeps->>= (Keeps-guard (not (escrow_is e.status EscrowStatus.disputed)) _)
            λ _ _. Refunds.initiate-Keeps q _
