-- ===== src/Safety/Tasks.antt =====
-- The handlers of tasks.service.ts keep whatever is stable.
use help_mi.Common.{not, ◌||◌, ◌==◌, List, String, nat_eq, opt_is, arith}
use help_mi.Schema.{Task, Escrow, TaskStatus, task_is}
use help_mi.Database.{find_first, count_rows}
use help_mi.World.{tasks, disputes}
use help_mi.Handler.Interleave.{
  Keeps, returns, steps, Any, Keeps->>=, Keeps-weaken, Keeps-transaction, Keeps-guard,
  Keeps-or_throw, Keeps-found, run-Ends,
}
use help_mi.Handler.Inserts.{Keeps-create, Keeps-update}
use help_mi.Tasks.Lifecycle.{
  find_task, assign, accept, ensure_task_doer, mark_started, mark_complete, started_row,
  completed_task, create_dispute, new_dispute, disputed_task, record_dispute, raise_dispute,
  is_disputable, claims,
}
use help_mi.Safety.Stable.{OfRows, Stable}
use help_mi.Safety.Checkout
use help_mi.Safety.Quiet.{quiet, check_doer-Keeps, check_funds-Keeps}

module _ {P : List Task → List Escrow → Type 0} {Known : Task → Type 0}
    {KnownEscrow : Escrow → Type 0} (s : Stable P Known KnownEscrow) where
  pub find_task-Keeps : (id : String) → Keeps (OfRows P) Known (find_task id)
  unfolding find_task
  find_task-Keeps id =
      steps (λ w i. i)
        λ w i.
          Keeps-weaken (λ t e. s.known id w.tasks w.escrows i e)
            (Keeps-or_throw (find_first (λ t. t.id == id) w.tasks) _)

  assign-Keeps : (t : Task) (id doer : String) → Keeps (OfRows P) Any (assign t id doer)
  unfolding assign
  assign-Keeps t id doer =
      steps (λ w i. s.claimed id doer w.clock w.tasks w.escrows i)
        λ w i. Keeps->>= (Keeps-guard (not (nat_eq (count_rows (claims id) w.tasks) 0)) _) λ _ _.
          steps (λ w i. i)
            λ w i.
              Keeps->>=
                (Keeps-found {Q = Any} (find_first (λ t. t.id == id) w.tasks) (λ t. t) (λ _. tt))
                λ _ _. steps (λ w i. i) (λ w i. returns tt)

  pub accept-Keeps : (id doer : String) → Keeps (OfRows P) Any (accept id doer)
  unfolding accept
  accept-Keeps id doer = Keeps->>= (find_task-Keeps id) λ t _.
      Keeps->>= (Keeps-guard (task_is t.status TaskStatus.open_) _) λ _ _.
        Keeps->>= (Keeps-guard (not (t.poster_id == doer)) _) λ _ _.
          Keeps->>= (check_doer-Keeps t doer)
            λ _ _. Keeps->>= (check_funds-Keeps t id) λ _ _. assign-Keeps t id doer

  ensure_task_doer-Keeps : (id doer : String) → Keeps (OfRows P) Any (ensure_task_doer id doer)
  unfolding ensure_task_doer
  ensure_task_doer-Keeps id doer =
      Keeps->>= (find_task-Keeps id)
        λ t _. Keeps->>= (Keeps-guard (opt_is t.doer_id doer) _) λ _ _. returns tt

  pub mark_started-Keeps : (id doer : String) → Keeps (OfRows P) Any (mark_started id doer)
  unfolding mark_started
  mark_started-Keeps id doer = Keeps->>= (ensure_task_doer-Keeps id doer) λ t _.
      Keeps->>= (Keeps-guard (task_is t.status TaskStatus.assigned) _) λ _ _.
        Keeps-update tasks (λ t. t.id == id) started_row
          (λ w i. s.moved _ (started_row w.clock) _ _ (λ t. ground arith) (λ t p. ground arith) i)

  pub mark_complete-Keeps :
      (id doer url : String) → Keeps (OfRows P) Any (mark_complete id doer url)
  unfolding mark_complete
  mark_complete-Keeps id doer url = Keeps->>= (ensure_task_doer-Keeps id doer) λ t _.
      Keeps->>=
        (Keeps-guard
          (task_is t.status TaskStatus.assigned || task_is t.status TaskStatus.in_progress) _)
        λ _ _.
          Keeps->>=
            (Keeps-update tasks (λ t. t.id == id) (completed_task url)
              (λ w i.
                s.moved _ (completed_task url w.clock) _ _ (λ t. ground arith) (λ t p. ground arith)
                  i))
            λ _ _. steps (λ w i. i) (λ w i. returns tt)

  create_dispute-Keeps :
      (id user reason : String) → Keeps (OfRows P) Any (create_dispute id user reason)
  unfolding create_dispute
  create_dispute-Keeps id user reason =
      Keeps-create disputes (λ new d. d.id == new.id || d.task_id == new.task_id)
        (λ d now. new_dispute id user reason d) (λ w new i _ _. i)

  record_dispute-Keeps :
      (t : Task) (id user reason : String) → Keeps (OfRows P) Any (record_dispute t id user reason)
  unfolding record_dispute
  record_dispute-Keeps t id user reason =
      Keeps->>=
        (Keeps-update tasks (λ t. t.id == id) disputed_task
          (λ w i.
            s.moved _ (disputed_task w.clock) _ _ (λ t. ground arith) (λ t p. ground arith) i))
        λ _ _.
          Keeps->>= (create_dispute-Keeps id user reason)
            λ _ _. Keeps->>= (Checkout.freeze_escrow-Keeps (quiet s) t id) λ _ _. returns tt

  pub raise_dispute-Keeps :
      (id user reason : String) → Keeps (OfRows P) Any (raise_dispute id user reason)
  unfolding raise_dispute
  raise_dispute-Keeps id user reason = Keeps->>= (find_task-Keeps id) λ t _.
      Keeps->>= (Keeps-guard (t.poster_id == user || opt_is t.doer_id user) _) λ _ _.
        Keeps->>= (Keeps-guard (is_disputable t.status) _) λ _ _.
          Keeps->>=
            (Keeps-transaction Any (record_dispute t id user reason)
              (λ w i. run-Ends w (record_dispute-Keeps t id user reason) i))
            λ _ _. steps (λ w i. i) (λ w i. returns tt)
