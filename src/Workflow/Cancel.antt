-- ===== src/Workflow/Cancel.antt =====
-- The cancels take their step of the task's life.
use help_mi.Common.{
  ◌≡◌, refl, Bool, true, not, ◌==◌, ◌||◌, List, String, ℕ, nat_eq, opt_is, &&-both, eq-meet,
}
use help_mi.Schema.{Task, TaskStatus}
use help_mi.Database.{find_first, update_rows, count_rows}
use help_mi.Database.Laws.{find_first-fits}
use help_mi.World.{World}
use help_mi.Handler.{transaction}
use help_mi.Handler.Interleave.{Keeps, Any, returns, steps, Keeps->>=, Keeps-if, Keeps-found}
use help_mi.Tasks.Lifecycle.{find_task}
use help_mi.Tasks.Cancel.{
  move_to_cancelled, claim_escrow, cancelled_task, execute_cancel, is_cancellable, cancel,
  force_cancel,
}
use help_mi.Outcomes.Post.{Post-guard, Post-or_throw}
use help_mi.Outcomes.Cancelling
use help_mi.Requests.{Request, cancels, force_cancels}
use help_mi.Safety.Release
use help_mi.Workflow.{TaskState, in_state, Step, stays, called_off, forced_off}
use help_mi.Workflow.Leaves.{Leaves, Leaves-transaction, Ends-Keeps}
use help_mi.Workflow.View.{quiet_after, Leaves-rest, From, Step-update_rows, names, state, view}

module _ (i : String) (r : Request) (v : TaskState) where
  claim_escrow-Keeps : (t : Task) → Keeps (From i r v) Any (claim_escrow t)
  unfolding claim_escrow
  claim_escrow-Keeps t = Keeps-if _ (steps (λ w i. i) (λ w i. returns tt)) (returns tt)

module _ (i : String) where
  -- The two requests that may call a task off.
  abbrev Off : Request → String → Type 0
  Off r id =
      (s : TaskStatus) (d : Bool)
      → (id == i) ≡ true
      → is_cancellable s ≡ true
      → Step i r (in_state s d) (in_state TaskStatus.cancelled d)

  module _ (r : Request) (id : String) (off : Off r id) where
    cancelled-Step :
        (t : Task) (now : ℕ) (ts : List Task) (d : Bool)
        → (t.id == id) ≡ true
        → Step i r
            (state i ts d)
            (state i (update_rows (Cancelling.cancels t) (cancelled_task now) ts) d)
    cancelled-Step t now ts d read =
        Step-update_rows i _ (Cancelling.cancels t) (cancelled_task now) ts d (λ x. refl)
          λ x here fits.
            let (reached, open_still) = &&-both (x.id == t.id) _ fits in
            off _ _ (eq-meet t.id id i read (names i t.id ts here reached)) open_still

    move_to_cancelled-Leaves :
        (t : Task) (w : World)
        → (t.id == id) ≡ true
        → Leaves (From i r (view i w)) (transaction (move_to_cancelled t)) w
    unfolding move_to_cancelled claim_escrow
    move_to_cancelled-Leaves t w read =
        Leaves-transaction (From i r (view i w)) (move_to_cancelled t) w stays (
          Post-guard _ _ (not (nat_eq (count_rows (Cancelling.cancels t) w.tasks) 0)) _ _ _
            (λ _.
              Ends-Keeps _ {Q = Any} _ (claim_escrow-Keeps i r (view i w) t)
                (cancelled-Step t w.clock w.tasks _ read))
            (λ _. tt))

    execute_cancel-Leaves :
        (t : Task) (by : String) (w : World)
        → (t.id == id) ≡ true
        → Leaves (From i r (view i w)) (execute_cancel t by) w
    unfolding execute_cancel
    execute_cancel-Leaves t by w read =
        Post-guard _ _ (is_cancellable t.status) _ _ w
          (λ _.
            Leaves-rest i r (view i w) {Q = Any} (transaction (move_to_cancelled t)) _ w
              (move_to_cancelled-Leaves t w read)
              (λ _.
                Keeps->>= (Release.refund_by_mode-Keeps (quiet_after i r (view i w)) t by)
                  λ _ _. steps (λ w i. i) λ w i. steps (λ w i. i) λ w i. Keeps-found _ _ (λ _. tt)))
          (λ _. stays)

  pub cancel-Leaves :
      (id user : String) (w : World)
      → Leaves (From i (cancels id user) (view i w)) (cancel id user) w
  unfolding cancel find_task
  cancel-Leaves id user w =
      Post-or_throw _ _ (find_first (λ t. t.id == id) w.tasks) _ _ w
        (λ t here.
          Post-guard _ _ (t.poster_id == user || opt_is t.doer_id user) _ _ w
            (λ _.
              execute_cancel-Leaves (cancels id user) id (λ s d. called_off) t user w
                (find_first-fits (λ t. t.id == id) w.tasks here))
            (λ _. stays))
        (λ _. stays)

  pub force_cancel-Leaves :
      (id admin : String) (w : World)
      → Leaves (From i (force_cancels id admin) (view i w)) (force_cancel id admin) w
  unfolding force_cancel find_task
  force_cancel-Leaves id admin w =
      Post-or_throw _ _ (find_first (λ t. t.id == id) w.tasks) _ _ w
        (λ t here.
          execute_cancel-Leaves (force_cancels id admin) id (λ s d. forced_off) t _ w
            (find_first-fits (λ t. t.id == id) w.tasks here))
        (λ _. stays)
