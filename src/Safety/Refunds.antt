-- ===== src/Safety/Refunds.antt =====
-- The refund and payout handlers keep what withstands lowering an escrow.
use help_mi.Common.{not, Option, none, some, List, [], ◌∷◌, ◌==◌, ◌||◌, String, truthy, arith}
use help_mi.Schema.{Task, Escrow, Dispute, Refund, RefundStatus, refund_is}
use help_mi.Database.{find_first}
use help_mi.World.{RefundReply, refunds, escrows}
use help_mi.Handler.{pure, catch, ◌>>◌}
use help_mi.Handler.Inserts.{Keeps-create, Keeps-update}
use help_mi.Handler.Interleave.{
  Keeps, returns, steps, Any, Keeps->>=, Keeps-catch, Keeps-transaction, Keeps-guard,
  Keeps-or_throw, Keeps-found, Keeps-if, run-Ends,
}
use help_mi.Refunds.{
  InitiateRefundInput, settle, record_success, record_failure, attempt, queue, execute, resume,
  duplicate, start, initiate_for_escrow, retry, find_refund, new_refund, create_refund,
  insert_refund, execute_created, resume_or_start, is_refundable, completed_row, refunded_row,
  refund_pending_row,
}
use help_mi.Refunds.Reconcile.{drive, drive_all, reconcile}
use help_mi.Safety.Quiet.{OfTables, Quiet}

module _ {P : List Task → List Escrow → List Dispute → Type 0} (q : Quiet P) where
  record_success-Keeps :
      (r : Refund) (reply : RefundReply) → Keeps (OfTables P) Any (record_success r reply)
  unfolding record_success
  record_success-Keeps r reply =
      Keeps->>= (Keeps-update refunds (λ x. x.id == r.id) (completed_row reply) (λ w i. i)) λ _ _.
        Keeps->>=
          (Keeps-update escrows (λ e. e.id == r.escrow_id) refunded_row
            (λ w i. q.lowered _ (refunded_row w.clock) _ _ _ (λ e. ground arith) i))
          λ _ _. returns tt

  settle-Keeps : (r : Refund) (reply : RefundReply) → Keeps (OfTables P) Any (settle r reply)
  unfolding settle record_failure
  settle-Keeps r reply =
      Keeps-if reply.success
        (Keeps-transaction Any (record_success r reply)
          λ w i. run-Ends w (record_success-Keeps r reply) i)
        (steps (λ w i. i) λ w i. Keeps-found _ _ (λ _. tt))

  attempt-Keeps :
      (r : Refund) (payment_id : Option String) (actor : String)
      → Keeps (OfTables P) Any (attempt r payment_id actor)
  unfolding attempt
  attempt-Keeps r payment_id actor =
      steps (λ w i. i)
        λ w i.
          Keeps-if _ (steps (λ w i. i) λ w i. Keeps-found _ _ (λ _. tt))
            (steps (λ w i. i) λ w i. settle-Keeps r _)

  pub execute-Keeps : (id actor : String) → Keeps (OfTables P) Any (execute id actor)
  unfolding execute queue
  execute-Keeps id actor =
      steps (λ w i. i)
        λ w i. Keeps->>= (Keeps-or_throw (find_refund id w) _) λ found _.
          steps (λ w i. i)
            λ w i. Keeps-if _ (returns tt) (
              Keeps-if _ (attempt-Keeps found.0 found.1 actor)
                (steps (λ w i. i) λ w i. Keeps-found _ _ (λ _. tt)))

  pub resume-Keeps : (r : Refund) (actor : String) → Keeps (OfTables P) Any (resume r actor)
  unfolding resume
  resume-Keeps r actor = Keeps-if _ (returns tt) (execute-Keeps r.id actor)

  duplicate-Keeps : (e : Escrow) (actor : String) → Keeps (OfTables P) Any (duplicate e actor)
  unfolding duplicate
  duplicate-Keeps e actor =
      steps (λ w i. i) λ w i. Keeps->>= (Keeps-or_throw _ _) λ r _. resume-Keeps r actor

  create_refund-Keeps :
      (e : Escrow) (input : InitiateRefundInput) → Keeps (OfTables P) Any (create_refund e input)
  unfolding create_refund
  create_refund-Keeps e input =
      Keeps-create refunds (λ new r. r.id == new.id || r.escrow_id == new.escrow_id)
        (λ id now. new_refund e input id) (λ w new i _ _. i)

  insert-Keeps :
      (e : Escrow) (input : InitiateRefundInput) → Keeps (OfTables P) Any (insert_refund e input)
  unfolding insert_refund
  insert-Keeps e input =
      Keeps-catch (Keeps->>= (create_refund-Keeps e input) (λ r _. returns tt)) (λ _. returns tt)

  executed-Keeps :
      (e : Escrow) (actor : String) (created : Option Refund)
      → Keeps (OfTables P) Any (execute_created e actor created)
  executed-Keeps e actor none = duplicate-Keeps e actor
  executed-Keeps e actor (some r) = execute-Keeps r.id actor

  start-Keeps : (e : Escrow) (input : InitiateRefundInput) → Keeps (OfTables P) Any (start e input)
  unfolding start
  start-Keeps e input = Keeps->>= (Keeps-guard (is_refundable e.status) _) λ _ _.
      Keeps->>= (Keeps-guard (truthy e.payhere_payment_id) _) λ _ _.
        steps (λ w i. q.lowered _ (refund_pending_row w.clock) _ _ _ (λ e. ground arith) i)
          λ w i.
            Keeps->>= (insert-Keeps e input)
              (λ created _. executed-Keeps e input.initiated_by created)

  pub initiate-Keeps :
      (input : InitiateRefundInput) → Keeps (OfTables P) Any (initiate_for_escrow input)
  unfolding initiate_for_escrow
  initiate-Keeps input =
      steps (λ w i. i)
        λ w i.
          Keeps->>= (Keeps-or_throw (find_first (λ e. e.id == input.escrow_id) w.escrows) _) λ e _.
            steps (λ w i. i) (λ w i. chosen e (find_first (λ r. r.escrow_id == e.id) w.refunds))
    where
      chosen :
          (e : Escrow) (existing : Option Refund)
          → Keeps (OfTables P) Any (resume_or_start e input existing)
      chosen e none = start-Keeps e input
      chosen e (some r) = resume-Keeps r input.initiated_by

  -- `catch` of the calls whose failure is dropped.
  pub dropped-Keeps :
      (input : InitiateRefundInput)
      → Keeps (OfTables P) Any (catch (initiate_for_escrow input >> pure tt) (λ _. pure tt))
  dropped-Keeps input =
      Keeps-catch (Keeps->>= (initiate-Keeps input) (λ _ _. returns tt)) (λ _. returns tt)

  pub retry-Keeps : (id admin : String) → Keeps (OfTables P) Any (retry id admin)
  unfolding retry
  retry-Keeps id admin =
      steps (λ w i. i)
        λ w i. Keeps->>= (Keeps-or_throw (find_first (λ r. r.id == id) w.refunds) _) λ r _.
          Keeps->>= (Keeps-guard (not (refund_is r.status RefundStatus.completed)) _) λ _ _.
            Keeps->>= (Keeps-guard (not (refund_is r.status RefundStatus.processing)) _)
              λ _ _. execute-Keeps id _

  drive-Keeps : (e : Escrow) → Keeps (OfTables P) Any (drive e)
  unfolding drive
  drive-Keeps e = Keeps-catch (Keeps->>= (initiate-Keeps _) (λ _ _. returns tt)) (λ _. returns tt)

  drive_all-Keeps : (es : List Escrow) → Keeps (OfTables P) Any (drive_all es)
  unfolding drive_all
  drive_all-Keeps [] = returns tt
  drive_all-Keeps (e ∷ es) =
      Keeps->>= (drive-Keeps e) λ n _. Keeps->>= (drive_all-Keeps es) λ m _. returns tt

  pub reconcile-Keeps : Keeps (OfTables P) Any reconcile
  unfolding reconcile
  reconcile-Keeps =
      steps (λ w i. i)
        λ w i.
          Keeps->>= (drive_all-Keeps _)
            λ n _. steps (λ w i. i) λ w i. Keeps->>= (drive_all-Keeps _) λ m _. returns tt
