-- ===== src/Refunds/Reconcile.antt =====
-- `reconcile` of backend/src/payments/refund.service.ts.
use help_mi.Common.{ℕ, ◌+◌, none, some, Bool, false, ◌&&◌, List, [], ◌∷◌, ◌==◌, if◌then◌else◌}
use help_mi.Schema.{
  Escrow, RefundReason, RefundStatus, EscrowStatus, TaskStatus, refund_is, escrow_is, task_is,
}
use help_mi.Database.{find_first, find_many, take_rows, rows_in}
use help_mi.World.{World}
use help_mi.Handler.{Handler, pure, ◌>>=◌, catch}
use help_mi.Handler.Calls.{reads}
use help_mi.Refunds.{initiate_for_escrow}

pub record ReconcileResult : Type 0 where
  pub scanned : ℕ
  pub completed : ℕ

-- One round of the loops of `reconcile`: 1 if the refund is complete, 0 if not or if it throws.
unfoldable pub drive : Escrow → Handler ℕ
drive e =
    catch
      (initiate_for_escrow (record {
        escrow_id = e.id;
        task_id = e.task_id;
        reason = RefundReason.admin;
        initiated_by = "system:reconcile";
      })
        >>= λ r. pure (if refund_is r.status RefundStatus.completed then 1 else 0))
      (λ _. pure 0)

unfoldable pub drive_all : List Escrow → Handler ℕ
drive_all [] = pure 0
drive_all (e ∷ es) = do n ← drive e; m ← drive_all es; pure (n + m)

-- `where: { status: 'HELD', task: { status: 'CANCELLED' } }`
abbrev pub on_cancelled_task : World → Escrow → Bool
on_cancelled_task w e = elim (find_first (λ t. t.id == e.task_id) w.tasks) [
  | none ↦ false
  | some t ↦ task_is t.status TaskStatus.cancelled
]

unfoldable pub reconcile : Handler ReconcileResult
reconcile = do
  pending_escrows ← reads (λ w.
      take_rows 100 (find_many (λ e. escrow_is e.status EscrowStatus.refund_pending) w.escrows))
  first ← drive_all pending_escrows
  anomalies ← reads (λ w.
      take_rows 100
        (find_many (λ e. escrow_is e.status EscrowStatus.held && on_cancelled_task w e) w.escrows))
  second ← drive_all anomalies
  pure
      (record { scanned = rows_in pending_escrows + rows_in anomalies; completed = first + second })
