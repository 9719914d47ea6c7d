-- ===== src/Safety/Release.antt =====
-- `confirm`, `releaseEscrow`, the scheduler's release and the refund of a cancel are quiet.
use help_mi.Common.{
  Bool, true, false, ◌==◌, Option, none, some, List, [], ◌∷◌, String, given, arith,
}
use help_mi.Schema.{Task, Escrow, Dispute, TaskStatus, task_is}
use help_mi.World.{tasks}
use help_mi.Handler.Interleave.{
  Keeps, returns, steps, Any, Keeps->>=, Keeps-catch, Keeps-transaction, Keeps-guard, Keeps-found,
  Keeps-if, run-Ends,
}
use help_mi.Handler.Inserts.{Keeps-update}
use help_mi.Tasks.Release.{
  count_job, confirm_row, confirmed_task, released_row, move_to_released, pay_doer, after_release,
  announce_release, release_escrow, confirm_escrow, confirm_cash, confirm, held_message,
}
use help_mi.Tasks.Cancel.{refund_if_pending, refund_cancelled, refund_by_mode}
use help_mi.Scheduler.{auto_release, auto_release_all, auto_release_escrows}
use help_mi.Safety.Quiet.{OfTables, Quiet, check_held-Keeps, ensure_task_poster-Keeps}
use help_mi.Safety.Refunds
use help_mi.Safety.Payouts

module _ {P : List Task → List Escrow → List Dispute → Type 0} (q : Quiet P) where
  count_job-Keeps : (b : Bool) (d : Option String) → Keeps (OfTables P) Any (count_job b d)
  unfolding count_job
  count_job-Keeps true (some d) = steps (λ w i. i) (λ w i. returns tt)
  count_job-Keeps true none = returns tt
  count_job-Keeps false d = returns tt

  confirm_row-Keeps : (b : Bool) (id : String) → Keeps (OfTables P) Any (confirm_row b id)
  unfolding confirm_row
  confirm_row-Keeps true id =
      Keeps->>=
        (Keeps-update tasks (λ t. t.id == id) confirmed_task
          (λ w i. q.confirmed id w.clock _ _ _ i))
        (λ _ _. returns tt)
  confirm_row-Keeps false id = returns tt

  move_to_released-Keeps :
      (id : String) (doer : Option String) (mark : Bool)
      → Keeps (OfTables P) Any (move_to_released id doer mark)
  unfolding move_to_released
  move_to_released-Keeps id doer mark =
      steps (λ w i. q.lowered _ (released_row doer w.clock) _ _ _ (λ e. ground arith) i)
        λ w i.
          Keeps->>= (count_job-Keeps _ _)
            λ _ _. Keeps->>= (confirm_row-Keeps mark id) λ _ _. returns tt

  pay_doer-Keeps :
      (id : String) (e : Option Escrow) (doer : Option String)
      → Keeps (OfTables P) Any (pay_doer id e doer)
  unfolding pay_doer
  pay_doer-Keeps id (some e) (some d) =
      Keeps-catch (Keeps->>= (Payouts.create_for_escrow_release-Keeps P _) (λ _ _. returns tt))
        (λ _. returns tt)
  pay_doer-Keeps id (some e) none = returns tt
  pay_doer-Keeps id none d = returns tt

  announce_release-Keeps :
      (b : Bool) (id : String) (doer : Option String) (auto : Bool)
      → Keeps (OfTables P) Any (announce_release b id doer auto)
  unfolding announce_release after_release
  announce_release-Keeps b id doer auto =
      Keeps-if _
        (steps (λ w i. i)
          λ w i.
            Keeps->>= (pay_doer-Keeps id _ (given doer))
              λ _ _. steps (λ w i. i) (λ w i. returns tt))
        (returns tt)

  pub release_escrow-Keeps :
      (id : String) (doer : Option String) (mark auto : Bool)
      → Keeps (OfTables P) Any (release_escrow id doer mark auto)
  unfolding release_escrow
  release_escrow-Keeps id doer mark auto =
      Keeps->>=
        (Keeps-transaction Any (move_to_released id doer mark)
          (λ w i. run-Ends w (move_to_released-Keeps id doer mark) i))
        λ did _. Keeps->>= (announce_release-Keeps did id doer auto) λ _ _. returns tt

  confirm_escrow-Keeps : (t : Task) (id : String) → Keeps (OfTables P) Any (confirm_escrow t id)
  unfolding confirm_escrow
  confirm_escrow-Keeps t id = Keeps->>= (check_held-Keeps id held_message) λ _ _.
      Keeps->>= (release_escrow-Keeps id t.doer_id true false)
        λ _ _. steps (λ w i. i) λ w i. steps (λ w i. i) λ w i. Keeps-found _ _ (λ _. tt)

  confirm_cash-Keeps : (t : Task) (id : String) → Keeps (OfTables P) Any (confirm_cash t id)
  unfolding confirm_cash
  confirm_cash-Keeps t id =
      Keeps->>=
        (Keeps-update tasks (λ t. t.id == id) confirmed_task
          (λ w i. q.confirmed id w.clock _ _ _ i))
        λ _ _. steps (λ w i. i) (λ w i. returns tt)

  pub confirm-Keeps : (id poster : String) → Keeps (OfTables P) Any (confirm id poster)
  unfolding confirm
  confirm-Keeps id poster = Keeps->>= (ensure_task_poster-Keeps id poster) λ t _.
      Keeps->>= (Keeps-guard (task_is t.status TaskStatus.completed) _)
        λ _ _. Keeps-if _ (confirm_escrow-Keeps t id) (confirm_cash-Keeps t id)

  refund_if_pending-Keeps :
      (t : Task) (by : String) (e : Option Escrow)
      → Keeps (OfTables P) Any (refund_if_pending t by e)
  unfolding refund_if_pending
  refund_if_pending-Keeps t by none = returns tt
  refund_if_pending-Keeps t by (some e) = Keeps-if _ (Refunds.dropped-Keeps q _) (returns tt)

  pub refund_by_mode-Keeps : (t : Task) (by : String) → Keeps (OfTables P) Any (refund_by_mode t by)
  unfolding refund_by_mode refund_cancelled
  refund_by_mode-Keeps t by =
      Keeps-if _ (steps (λ w i. i) (λ w i. refund_if_pending-Keeps t by _)) (returns tt)

  auto_release-Keeps : (t : Task) → Keeps (OfTables P) Any (auto_release t)
  unfolding auto_release
  auto_release-Keeps t =
      Keeps-catch (Keeps->>= (release_escrow-Keeps t.id t.doer_id false true) (λ _ _. returns tt))
        (λ _. returns tt)

  auto_release_all-Keeps : (ts : List Task) → Keeps (OfTables P) Any (auto_release_all ts)
  unfolding auto_release_all
  auto_release_all-Keeps [] = returns tt
  auto_release_all-Keeps (t ∷ ts) =
      Keeps->>= (auto_release-Keeps t)
        λ n _. Keeps->>= (auto_release_all-Keeps ts) λ m _. returns tt

  pub auto_release_escrows-Keeps : Keeps (OfTables P) Any auto_release_escrows
  unfolding auto_release_escrows
  auto_release_escrows-Keeps =
      steps (λ w i. i) λ w i. Keeps->>= (auto_release_all-Keeps _) λ n _. returns tt
