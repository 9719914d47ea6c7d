-- ===== src/Tasks/Reads.antt =====
-- The reads of tasks.service.ts: who sees what of a task (`findById`), and a user's tasks. The
-- category, names and pictures that a read joins are left out.
use help_mi.Common.{
  ℕ, map, String, Option, none, some, Bool, false, ◌==◌, List, opt_is, given, if◌then◌else◌,
}
use help_mi.Schema.{Task, Escrow, EscrowStatus, Dispute}
use help_mi.Database.{find_first, find_many, newest_first}
use help_mi.World.{World}
use help_mi.Handler.{Handler, ◌>>=◌, or_throw, not_found}
use help_mi.Handler.Calls.{reads}
use help_mi.Messages.{is_participant}

-- A task as a side of it sees it, with its escrow and its dispute, and as everyone else does:
-- without them, and without its doer.
pub data TaskView : Type 0 where
  whole : (task : Task) (escrow : Option Escrow) (dispute : Option Dispute) → TaskView
  public_part : (task : Task) → TaskView

-- `!!requesterId && (task.posterId === requesterId || task.doerId === requesterId)`
abbrev pub is_side : Task → Option String → Bool
is_side t none = false
is_side t (some requester_id) = is_participant t requester_id

-- `const { escrow, dispute, doer, doerId, ...pub } = task`
abbrev pub stripped : Task → Task
stripped t = record t { doer_id = none }

abbrev pub view_of : World → Option String → Task → TaskView
view_of w requester_id t =
    if is_side t requester_id
    then whole t (find_first (λ e. e.task_id == t.id) w.escrows)
        (find_first (λ d. d.task_id == t.id) w.disputes)
    else public_part (stripped t)

abbrev pub viewed : World → String → Option String → Option TaskView
viewed w id requester_id = elim (find_first (λ t. t.id == id) w.tasks) [
  | none ↦ none
  | some t ↦ some (view_of w (given requester_id) t)
]

-- `findById`: one query with its joins.
unfoldable pub view_task : String → Option String → Handler TaskView
view_task id requester_id = do
  row ← reads (λ w. viewed w id requester_id)
  or_throw row (not_found "Task not found")

-- What the lists join of a task's escrow.
abbrev pub escrow_part : World → Task → Option (EscrowStatus × Option ℕ)
escrow_part w t = elim (find_first (λ e. e.task_id == t.id) w.escrows) [
  | none ↦ none
  | some e ↦ some (e.status, e.net_doer_payout)
]

-- `getAcceptedTasks`, in the order of the table: `updatedAt` is left out.
unfoldable pub get_accepted_tasks :
    String → Handler (List (Task × Option (EscrowStatus × Option ℕ)))
get_accepted_tasks user_id =
    reads (λ w. map (λ t. (t, escrow_part w t)) (find_many (λ t. opt_is t.doer_id user_id) w.tasks))

-- `getPostedTasks`
unfoldable pub get_posted_tasks : String → Handler (List (Task × Option (EscrowStatus × Option ℕ)))
get_posted_tasks user_id = reads (λ w.
    map (λ t. (t, escrow_part w t))
      (newest_first (find_many (λ t. t.poster_id == user_id) w.tasks)))
