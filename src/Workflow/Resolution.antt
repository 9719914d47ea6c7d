-- ===== src/Workflow/Resolution.antt =====
-- `resolveDispute` takes its step of the task's life.
use mathlib.Core.Option
use help_mi.Common.{
  ◌≡◌, refl, sym, ap, ◌∙◌, subst, Bool, true, ◌==◌, Option, some, List, String, ℕ, arith,
}
use help_mi.Schema.{Task, Escrow, Dispute, TaskStatus}
use help_mi.Database.{find_first, update_rows, has_row}
use help_mi.Database.Laws.{found-has_row, has_row-update_rows}
use help_mi.World.{World, tasks}
use help_mi.Handler.Calls.{update}
use help_mi.Handler.{run, transaction, pure, ◌>>◌}
use help_mi.Admin.{
  resolved_task, resolved_row, record_resolution, resolve_dispute, find_dispute, decide_escrow,
}
use help_mi.Requests.{Request, resolves}
use help_mi.Outcomes.Post.{Post, Post-found, Post-or_throw, Post->>=, Post-weaken}
use help_mi.Safety.Checkout
use help_mi.Workflow.{TaskState, in_state, Step, stays, settled}
use help_mi.Workflow.Leaves.{Leaves, Leaves-transaction, Ends-Keeps}
use help_mi.Workflow.View.{
  From, Same, Quiet-state, Step-update_rows, names, state, view, found_at, contested_at,
}

module _ (i : String) where
  resolved-Step :
      (id task_id admin note : String) (b : Bool) (now : ℕ) (ts : List Task) (d : Bool)
      → ((task_id == i) ≡ true → d ≡ true)
      → Step i
          (resolves id admin note b)
          (state i ts d)
          (state i (update_rows (λ t. t.id == task_id) (resolved_task now) ts) d)
  resolved-Step id task_id admin note b now ts d disputed =
      Step-update_rows i _ (λ t. t.id == task_id) (resolved_task now) ts d (λ t. refl)
        λ t here reached.
          subst
            (λ d.
              Step i (resolves id admin note b) (in_state t.status d)
                (in_state TaskStatus.completed d))
            (sym (disputed (names i task_id ts here reached))) settled

  record_resolution-Leaves :
      (id admin note : String) (b : Bool) (d : Dispute) (e : Option Escrow) (w : World)
      → ((d.task_id == i) ≡ true → has_row (contested_at i) w.disputes ≡ true)
      → Leaves
          (From i (resolves id admin note b) (view i w))
          (transaction (record_resolution d e admin note b))
          w
  unfolding record_resolution
  record_resolution-Leaves id admin note b d e w disputed =
      Leaves-transaction (From i r v) (record_resolution d e admin note b) w stays (
        Post-found _ _ (find_first (λ x. x.id == d.id) w.disputes) (resolved_row admin note w.clock)
          _ _
          (λ _ _. Post->>= _ _ (decide_escrow e d.task_id b) _ _ (
            Post-weaken (λ _. Same i v) _ (λ _. Unit) _ (run (decide_escrow e d.task_id b) marked)
              (λ _ w same. written w same) (λ _ _. tt)
              (Ends-Keeps (Same i v) marked
                (Checkout.decide_escrow-Keeps (Quiet-state i (λ s. s ≡ v)) e d.task_id b)
                unmarked)))
          (λ _. tt))
    where
      r : Request
      r = resolves id admin note b

      v : TaskState
      v = view i w

      marked : World
      marked = record w {
        disputes = update_rows (λ x. x.id == d.id) (resolved_row admin note w.clock) w.disputes;
      }

      unmarked : Same i v marked
      unmarked =
          ap
            (λ d. record {
              status = Option.map (λ t. t.status) (find_first (found_at i) w.tasks);
              disputed = d;
            })
            (has_row-update_rows (contested_at i) (λ x. x.id == d.id)
              (resolved_row admin note w.clock) w.disputes (λ x. refl))

      written :
          (w : World)
          → Same i v w
          → Post
              (λ _. From i r v)
              (λ _. Unit {0})
              (run (update tasks (λ t. t.id == d.task_id) resolved_task >> pure (tt {0})) w)
      written w same =
          let step =
            subst
              (λ v. Step i r v (
                state i (update_rows (λ t. t.id == d.task_id) (resolved_task w.clock) w.tasks)
                  (has_row (contested_at i) w.disputes)))
              same
              (resolved-Step id d.task_id admin note b w.clock w.tasks _
                (λ k. ap (λ s. s.disputed) same ∙ disputed k)) in
          Post-found _ _ (find_first (λ t. t.id == d.task_id) w.tasks) (resolved_task w.clock) _ _
            (λ _ _. step) (λ _. tt)

  pub resolve_dispute-Leaves :
      (id admin note : String) (b : Bool) (w : World)
      → Leaves (From i (resolves id admin note b) (view i w)) (resolve_dispute id admin note b) w
  unfolding resolve_dispute
  resolve_dispute-Leaves id admin note b w =
      Post-or_throw _ _ (find_dispute id w) _ _ w
        (λ found here.
          record_resolution-Leaves id admin note b found.0 found.1 w
            (λ k. found-has_row (λ d. d.id == id) (contested_at i) w.disputes (read found here) k))
        (λ _. stays)
    where
      read :
          (found : Dispute × Option Escrow)
          → find_dispute id w ≡ some found
          → find_first (λ d. d.id == id) w.disputes ≡ some found.0
      read found here = ground arith
