-- ===== src/Workflow.antt =====
-- A task as its sides see it: the steps of its life, which of the requests takes each, and nothing
-- of how the handlers of tasks.service.ts, payments.service.ts and admin.service.ts take it.
pub mod Leaves
pub mod View
pub mod Doer
pub mod Disputes
pub mod Resolution
pub mod Create
pub mod Cancel
pub mod Money
pub mod Refine
pub mod Life
use help_mi.Common.{◌≡◌, Bool, true, false, ◌==◌, Option, none, some, String}
use help_mi.Schema.{TaskStatus}
use help_mi.Tasks.Cancel.{is_cancellable}
use help_mi.Tasks.Lifecycle.{is_disputable}
use help_mi.Tasks.Create.{CreateTaskDto}
use help_mi.Payments.Webhook.{WebhookBody}
use help_mi.Requests.{
  Request, creates, accepts, starts, completes, disputes, cancels, force_cancels, notifies,
  resolves,
}

-- The status of the task, if there is one, and whether anyone has ever disputed it.
pub record TaskState : Type 0 where
  pub status : Option TaskStatus
  pub disputed : Bool

abbrev pub in_state : TaskStatus → Bool → TaskState
in_state s disputed = record { status = some s; disputed = disputed }

-- What a request may do to the task `i`.
pub data Step (i : String) : Request → TaskState → TaskState → Type 0 where
  stays : {r : Request} {s : TaskState} → Step i r s s
  posted :
      {poster : String} {dto : CreateTaskDto} {d : Bool}
      → Step i
          (creates poster dto)
          (record { status = none; disputed = d })
          (in_state TaskStatus.pending_payment d)
  opened :
      {body : WebhookBody} {d : Bool}
      → Step i (notifies body) (in_state TaskStatus.pending_payment d) (in_state TaskStatus.open_ d)
  taken :
      {id user : String} {d : Bool}
      → (id == i) ≡ true
      → Step i (accepts id user) (in_state TaskStatus.open_ d) (in_state TaskStatus.assigned d)
  begun :
      {id user : String} {d : Bool}
      → (id == i) ≡ true
      → Step i (starts id user) (in_state TaskStatus.assigned d) (in_state TaskStatus.in_progress d)
  finished_early :
      {id user text : String} {d : Bool}
      → (id == i) ≡ true
      → Step i
          (completes id user text)
          (in_state TaskStatus.assigned d)
          (in_state TaskStatus.completed d)
  finished :
      {id user text : String} {d : Bool}
      → (id == i) ≡ true
      → Step i
          (completes id user text)
          (in_state TaskStatus.in_progress d)
          (in_state TaskStatus.completed d)
  called_off :
      {id user : String} {s : TaskStatus} {d : Bool}
      → (id == i) ≡ true
      → is_cancellable s ≡ true
      → Step i (cancels id user) (in_state s d) (in_state TaskStatus.cancelled d)
  forced_off :
      {id user : String} {s : TaskStatus} {d : Bool}
      → (id == i) ≡ true
      → is_cancellable s ≡ true
      → Step i (force_cancels id user) (in_state s d) (in_state TaskStatus.cancelled d)
  -- A task is disputed once.
  contested :
      {id user text : String} {s : TaskStatus}
      → (id == i) ≡ true
      → is_disputable s ≡ true
      → Step i (disputes id user text) (in_state s false) (in_state TaskStatus.disputed true)
  -- The admin may settle a dispute again and again.
  settled :
      {id admin note : String} {refund_poster : Bool} {s : TaskStatus}
      → Step i
          (resolves id admin note refund_poster)
          (in_state s true)
          (in_state TaskStatus.completed true)
