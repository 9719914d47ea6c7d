-- ===== src/Tasks/Lifecycle.antt =====
-- The doer's way through a task in tasks.service.ts: `accept`, `markStarted`, `markComplete`, and
-- `raiseDispute` of either side.
use help_mi.Common.{
  ℕ, String, Option, none, some, Bool, true, false, not, ◌&&◌, ◌||◌, ◌==◌, ltb, nat_eq,
  if◌then◌else◌, opt_is, concat,
}
use help_mi.Schema.{
  DoerTier, TaskStatus, EscrowStatus, KycStatus, DisputeStatus, Task, Escrow, DoerProfile, Dispute,
  task_is, escrow_is, kyc_is, is_escrow, tier_rank, task_accepted, task_completed, task_disputed,
}
use help_mi.World.{tasks, escrows, profiles, disputes}
use help_mi.Handler.{
  Handler, pure, ◌>>=◌, ◌>>◌, transaction, guard, or_throw, not_found, bad_request, forbidden,
}
use help_mi.Handler.Calls.{find, find_or_throw, update, update_many, create, emit}

abbrev pub is_none {ℓ} : {A : Type ℓ} → Option A → Bool
is_none none = true
is_none (some a) = false

abbrev pub tier_text : DoerTier → String
tier_text DoerTier.bronze = "BRONZE"
tier_text DoerTier.silver = "SILVER"
tier_text DoerTier.gold = "GOLD"

unfoldable pub find_task : String → Handler Task
find_task task_id = do
  row ← find tasks (λ t. t.id == task_id)
  or_throw row (not_found "Task not found")

-- The checks of `accept` on the doer's profile.
abbrev pub profile_qualifies : Task → DoerProfile → Handler (Unit {0})
profile_qualifies task profile = do
  guard (kyc_is profile.kyc_status KycStatus.approved)
      (forbidden "Complete KYC verification before accepting tasks")
  guard (not (ltb (tier_rank profile.tier) (tier_rank task.required_tier))) (
      forbidden (
        concat (concat "This task requires " (tier_text task.required_tier))
          (concat " tier. Your tier is " (concat (tier_text profile.tier) "."))))

unfoldable pub check_doer : Task → String → Handler (Unit {0})
check_doer task doer_id = do
  row ← find profiles (λ p. p.user_id == doer_id)
  profile ← or_throw row (forbidden "Complete KYC verification before accepting tasks")
  profile_qualifies task profile

abbrev pub is_held : Option Escrow → Bool
is_held none = false
is_held (some e) = escrow_is e.status EscrowStatus.held

-- The escrow check of `accept` and of `confirm`, with the message of each.
unfoldable pub check_held : String → String → Handler (Unit {0})
check_held task_id message = do
  row ← find escrows (λ e. e.task_id == task_id)
  guard (is_held row) (bad_request message)

abbrev pub claims : String → Task → Bool
claims task_id t = t.id == task_id && (task_is t.status TaskStatus.open_ && is_none t.doer_id)

abbrev pub claimed_row : String → ℕ → Task → Task
claimed_row doer_id now t = record t {
  status = TaskStatus.assigned;
  doer_id = some doer_id;
  accepted_at = some now;
}

-- The conditional write of `accept`, which alone decides who gets the task.
abbrev pub claim_task : String → String → Handler ℕ
claim_task task_id doer_id = update_many tasks (claims task_id) (claimed_row doer_id)

-- `accept`, from the conditional write on.
unfoldable pub assign : Task → String → String → Handler Task
assign task task_id doer_id = do
  claimed ← claim_task task_id doer_id
  guard (not (nat_eq claimed 0)) (bad_request "Task is no longer available")
  updated ← find_or_throw tasks (λ t. t.id == task_id)
  emit (task_accepted task_id task.poster_id doer_id task.title)
  pure updated

-- The escrow check of `accept`.
unfoldable pub check_funds : Task → String → Handler (Unit {0})
check_funds task task_id =
    if is_escrow task.payment_mode
    then check_held task_id "Funds are not yet secured for this task"
    else pure tt

unfoldable pub accept : String → String → Handler Task
accept task_id doer_id = do
  task ← find_task task_id
  guard (task_is task.status TaskStatus.open_) (bad_request "Task is no longer available")
  guard (not (task.poster_id == doer_id)) (forbidden "Cannot accept your own task")
  check_doer task doer_id
  check_funds task task_id
  assign task task_id doer_id

-- `ensureTaskDoer`
unfoldable pub ensure_task_doer : String → String → Handler Task
ensure_task_doer task_id doer_id = do
  task ← find_task task_id
  guard (opt_is task.doer_id doer_id) (forbidden "Not the assigned doer")
  pure task

-- `ensureTaskPoster`
unfoldable pub ensure_task_poster : String → String → Handler Task
ensure_task_poster task_id poster_id = do
  task ← find_task task_id
  guard (task.poster_id == poster_id) (forbidden "Not the task poster")
  pure task

abbrev pub started_row : ℕ → Task → Task
started_row now t = record t { status = TaskStatus.in_progress; started_at = some now }

-- `markStarted`
unfoldable pub mark_started : String → String → Handler Task
mark_started task_id doer_id = do
  task ← ensure_task_doer task_id doer_id
  guard (task_is task.status TaskStatus.assigned)
      (bad_request "Task must be in ASSIGNED state to start")
  update tasks (λ t. t.id == task_id) started_row

abbrev pub completed_task : String → ℕ → Task → Task
completed_task photo_url now t = record t {
  status = TaskStatus.completed;
  completed_at = some now;
  completion_photo_url = some photo_url;
}

-- `markComplete`
unfoldable pub mark_complete : String → String → String → Handler Task
mark_complete task_id doer_id completion_photo_url = do
  task ← ensure_task_doer task_id doer_id
  guard (task_is task.status TaskStatus.assigned || task_is task.status TaskStatus.in_progress)
      (bad_request "Task cannot be marked complete in its current state")
  updated ← update tasks (λ t. t.id == task_id) (completed_task completion_photo_url)
  emit (task_completed task_id task.poster_id doer_id task.title)
  pure updated

abbrev pub is_disputable : TaskStatus → Bool
is_disputable TaskStatus.assigned = true
is_disputable TaskStatus.in_progress = true
is_disputable TaskStatus.completed = true
is_disputable _ = false

abbrev pub new_dispute : String → String → String → String → Dispute
new_dispute task_id user_id reason id = record {
  id = id;
  task_id = task_id;
  raised_by_id = user_id;
  reason = reason;
  status = DisputeStatus.open_;
  resolution_note = none;
  resolved_by_phone = none;
  resolved_at = none;
}

abbrev pub disputed_task : ℕ → Task → Task
disputed_task now t = record t { status = TaskStatus.disputed }

abbrev pub disputed_escrow : ℕ → Escrow → Escrow
disputed_escrow now e = record e { status = EscrowStatus.disputed }

unfoldable pub create_dispute : String → String → String → Handler Dispute
create_dispute task_id user_id reason =
    create disputes (λ new d. d.id == new.id || d.task_id == new.task_id)
      (λ id now. new_dispute task_id user_id reason id)

unfoldable pub freeze_escrow : Task → String → Handler (Unit {0})
freeze_escrow task task_id =
    if is_escrow task.payment_mode
    then (update escrows (λ e. e.task_id == task_id) disputed_escrow >> pure tt)
    else pure tt

-- The transaction of `raiseDispute`.
unfoldable pub record_dispute : Task → String → String → String → Handler Task
record_dispute task task_id user_id reason = do
  updated ← update tasks (λ t. t.id == task_id) disputed_task
  create_dispute task_id user_id reason
  freeze_escrow task task_id
  pure updated

-- `raiseDispute`
unfoldable pub raise_dispute : String → String → String → Handler Task
raise_dispute task_id user_id reason = do
  task ← find_task task_id
  guard (task.poster_id == user_id || opt_is task.doer_id user_id)
      (forbidden "Not a participant of this task")
  guard (is_disputable task.status) (bad_request "Cannot raise dispute for this task status")
  updated ← transaction (record_dispute task task_id user_id reason)
  emit (task_disputed task_id task.poster_id task.doer_id user_id task.title)
  pure updated
