-- ===== src/Tasks/Cancel.antt =====
-- `cancel`, `forceCancel` and `executeCancel` of tasks.service.ts.
use help_mi.Common.{
  ℕ, String, Option, none, some, Bool, true, false, not, ◌&&◌, ◌||◌, ◌==◌, nat_eq, if◌then◌else◌,
  opt_is, concat,
}
use help_mi.Schema.{
  TaskStatus, EscrowStatus, RefundReason, Task, Escrow, escrow_is, is_escrow, task_cancelled,
}
use help_mi.World.{tasks, escrows}
use help_mi.Handler.{Handler, pure, ◌>>=◌, ◌>>◌, catch, transaction, guard, bad_request, forbidden}
use help_mi.Handler.Calls.{find, find_or_throw, update_many, emit}
use help_mi.Refunds.{initiate_for_escrow, refund_pending_row}
use help_mi.Tasks.Lifecycle.{find_task}

-- `CANCELLABLE_STATUSES`
abbrev pub is_cancellable : TaskStatus → Bool
is_cancellable TaskStatus.pending_payment = true
is_cancellable TaskStatus.open_ = true
is_cancellable TaskStatus.assigned = true
is_cancellable TaskStatus.in_progress = true
is_cancellable _ = false

abbrev pub cancel_message : String
cancel_message = "Task cannot be cancelled in its current state"

unfoldable pub claim_escrow : Task → Handler (Unit {0})
claim_escrow task =
    if is_escrow task.payment_mode
    then (update_many escrows (λ e. e.task_id == task.id && escrow_is e.status EscrowStatus.held)
          refund_pending_row
        >> pure tt)
    else pure tt

abbrev pub cancelled_task : ℕ → Task → Task
cancelled_task now t = record t { status = TaskStatus.cancelled }

-- The transaction of `executeCancel`.
unfoldable pub move_to_cancelled : Task → Handler (Unit {0})
move_to_cancelled task = do
  cancelled ← update_many tasks (λ t. t.id == task.id && is_cancellable t.status) cancelled_task
  guard (not (nat_eq cancelled 0)) (bad_request cancel_message)
  claim_escrow task

unfoldable pub refund_if_pending : Task → String → Option Escrow → Handler (Unit {0})
refund_if_pending task by_user_id none = pure tt
refund_if_pending task by_user_id (some escrow) =
    if escrow_is escrow.status EscrowStatus.refund_pending
    then catch
        (initiate_for_escrow (record {
          escrow_id = escrow.id;
          task_id = task.id;
          reason = RefundReason.cancel;
          initiated_by = by_user_id;
        })
          >> pure tt)
        (λ _. pure tt)
    else pure tt

-- The refund of `executeCancel`, after the transaction; a failure is caught and dropped.
unfoldable pub refund_cancelled : Task → String → Handler (Unit {0})
refund_cancelled task by_user_id = do
  escrow ← find escrows (λ e. e.task_id == task.id)
  refund_if_pending task by_user_id escrow

unfoldable pub refund_by_mode : Task → String → Handler (Unit {0})
refund_by_mode task by_user_id =
    if is_escrow task.payment_mode then refund_cancelled task by_user_id else pure tt

-- `executeCancel`, on the task as the caller has read it.
unfoldable pub execute_cancel : Task → String → Handler Task
execute_cancel task by_user_id = do
  guard (is_cancellable task.status) (bad_request cancel_message)
  transaction (move_to_cancelled task)
  refund_by_mode task by_user_id
  emit (task_cancelled task.id task.poster_id task.doer_id by_user_id task.title)
  find_or_throw tasks (λ t. t.id == task.id)

-- `cancel` of the poster or the doer.
unfoldable pub cancel : String → String → Handler Task
cancel task_id user_id = do
  task ← find_task task_id
  guard (task.poster_id == user_id || opt_is task.doer_id user_id) (forbidden "Not authorized")
  execute_cancel task user_id

-- `forceCancel` of the admin.
unfoldable pub force_cancel : String → String → Handler Task
force_cancel task_id admin_phone = do
  task ← find_task task_id
  execute_cancel task (concat "admin:" admin_phone)
