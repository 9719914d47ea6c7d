-- ===== src/Tasks/Release.antt =====
-- `confirm` and `releaseEscrow` of tasks.service.ts.
use help_mi.Common.{
  ℕ, ◌+◌, String, Option, none, some, Bool, true, false, ◌&&◌, ◌==◌, nat_eq, if◌then◌else◌, or_else,
  or_default, given,
}
use help_mi.Schema.{
  TaskStatus, EscrowStatus, Task, Escrow, task_is, escrow_is, is_escrow, task_confirmed,
  payment_released,
}
use help_mi.World.{tasks, escrows, profiles}
use help_mi.Handler.{Handler, pure, ◌>>=◌, ◌>>◌, catch, transaction, guard, bad_request}
use help_mi.Handler.Calls.{find, find_or_throw, update, update_many, emit}
use help_mi.Payouts.{create_for_escrow_release}
use help_mi.Tasks.Lifecycle.{ensure_task_poster, check_held}

-- One more job for the doer, if the escrow was released and there is a doer.
unfoldable pub count_job : Bool → Option String → Handler (Unit {0})
count_job true (some doer_id) =
    update_many profiles (λ p. p.user_id == doer_id)
      (λ now p. record p { total_jobs_completed = p.total_jobs_completed + 1 })
    >> pure tt
count_job _ _ = pure tt

abbrev pub confirmed_task : ℕ → Task → Task
confirmed_task now t = record t { confirmed_at = some now }

unfoldable pub confirm_row : Bool → String → Handler (Unit {0})
confirm_row true task_id = update tasks (λ t. t.id == task_id) confirmed_task >> pure tt
confirm_row false task_id = pure tt

abbrev pub released_row : Option String → ℕ → Escrow → Escrow
released_row doer_id now e = record e {
  status = EscrowStatus.released;
  released_at = some now;
  doer_id = or_else (given doer_id) e.doer_id;
}

-- The transaction of `releaseEscrow`: whether this call released the money.
unfoldable pub move_to_released : String → Option String → Bool → Handler Bool
move_to_released task_id doer_id mark_confirmed = do
  released ←
      update_many escrows (λ e. e.task_id == task_id && escrow_is e.status EscrowStatus.held)
        (released_row doer_id)
  let did_release = nat_eq released 1
  count_job did_release (given doer_id)
  confirm_row mark_confirmed task_id
  pure did_release

abbrev pub amount_of : Option Escrow → ℕ
amount_of none = 0
amount_of (some e) = or_default e.net_doer_payout 0

-- The payout of a release; a failure is caught and dropped.
unfoldable pub pay_doer : String → Option Escrow → Option String → Handler (Unit {0})
pay_doer task_id (some escrow) (some doer_id) =
    catch
      (create_for_escrow_release (record {
        escrow_id = escrow.id;
        task_id = task_id;
        doer_id = doer_id;
        amount = or_default escrow.net_doer_payout 0;
      })
        >> pure tt)
      (λ _. pure tt)
pay_doer task_id _ _ = pure tt

-- What follows a release: the payout and the event.
unfoldable pub after_release : String → Option String → Bool → Handler (Unit {0})
after_release task_id doer_id auto = do
  escrow ← find escrows (λ e. e.task_id == task_id)
  pay_doer task_id escrow (given doer_id)
  emit (payment_released task_id doer_id (amount_of escrow) auto)

unfoldable pub announce_release : Bool → String → Option String → Bool → Handler (Unit {0})
announce_release released task_id doer_id auto =
    if released then after_release task_id doer_id auto else pure tt

-- `releaseEscrow`: the options are `markConfirmed` and `auto`.
unfoldable pub release_escrow : String → Option String → Bool → Bool → Handler Bool
release_escrow task_id doer_id mark_confirmed auto = do
  released ← transaction (move_to_released task_id doer_id mark_confirmed)
  announce_release released task_id doer_id auto
  pure released

abbrev pub held_message : String
held_message = "Escrow funds are not held for this task; payment cannot be released"

-- `confirm` of an ESCROW task.
unfoldable pub confirm_escrow : Task → String → Handler Task
confirm_escrow task task_id = do
  check_held task_id held_message
  release_escrow task_id task.doer_id true false
  emit (task_confirmed task_id task.poster_id task.doer_id task.title)
  find_or_throw tasks (λ t. t.id == task_id)

-- `confirm` of a CASH task.
unfoldable pub confirm_cash : Task → String → Handler Task
confirm_cash task task_id = do
  updated ← update tasks (λ t. t.id == task_id) confirmed_task
  emit (task_confirmed task_id task.poster_id task.doer_id task.title)
  pure updated

unfoldable pub confirm : String → String → Handler Task
confirm task_id poster_id = do
  task ← ensure_task_poster task_id poster_id
  guard (task_is task.status TaskStatus.completed)
      (bad_request "Task must be marked complete by doer first")
  if is_escrow task.payment_mode then confirm_escrow task task_id else confirm_cash task task_id
