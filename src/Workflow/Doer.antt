-- ===== src/Workflow/Doer.antt =====
-- `accept`, `markStarted`, `markComplete` and `raiseDispute` take their step of the task's life.
use help_mi.Common.{
  ◌≡◌, refl, sym, ap, ◌∙◌, subst, Bool, true, not, ◌==◌, ◌||◌, nat_eq, some, List, String, ℕ,
  &&-both, opt_is,
}
use mathlib.Core.Bool.{true≢false}
use help_mi.Schema.{Task, TaskStatus, task_is}
use help_mi.Database.{find_first, update_rows, count_rows}
use help_mi.World.{World}
use help_mi.Handler.{run}
use help_mi.Handler.Interleave.{Keeps-guard}
use help_mi.Tasks.Lifecycle.{
  claims, claimed_row, assign, accept, find_task, ensure_task_doer, started_row, completed_task,
  mark_started, mark_complete,
}
use help_mi.Requests.{Request, accepts, starts, completes}
use help_mi.Outcomes.Post.{Post, Post-guard, Post-found, Post-found-end, Post-or_throw, Post-call}
use help_mi.Safety.Quiet.{find_task-looks, check_doer-Keeps, check_funds-Keeps}
use help_mi.Workflow.{TaskState, in_state, Step, stays, taken, begun, finished, finished_early}
use help_mi.Workflow.Leaves.{Leaves}
use help_mi.Workflow.View.{
  From, Leaves-looks, Step-update_rows, names, same_row, state, view, task_is-path,
}

module _ (i : String) where
  claimed-Step :
      (id user : String) (now : ℕ) (ts : List Task) (d : Bool)
      → Step i
          (accepts id user)
          (state i ts d)
          (state i (update_rows (claims id) (claimed_row user now) ts) d)
  claimed-Step id user now ts d =
      Step-update_rows i _ (claims id) (claimed_row user now) ts d (λ t. refl)
        λ t here fits.
          let (reached, free) = &&-both (t.id == id) _ fits in
          subst (λ s. Step i (accepts id user) (in_state s d) (in_state TaskStatus.assigned d))
            (sym (task_is-path t.status TaskStatus.open_ (&&-both _ _ free).0))
            (taken (names i id ts here reached))

  assign-Leaves :
      (t : Task) (id user : String) (v : TaskState) (w : World)
      → view i w ≡ v
      → Leaves (From i (accepts id user) v) (assign t id user) w
  unfolding assign
  assign-Leaves t id user v w same =
      Post-guard _ _ (not (nat_eq (count_rows (claims id) w.tasks) 0)) _ _ (after w)
        (λ _.
          Post-found _ _ (find_first (λ t. t.id == id) (after w).tasks) (λ t. t) _ (after w)
            (λ _ _. step) (λ _. step))
        (λ _. step)
    where
      after : World → World
      after w = record w { tasks = update_rows (claims id) (claimed_row user w.clock) w.tasks }

      step : Step i (accepts id user) v (view i (after w))
      step =
          subst (λ v. Step i (accepts id user) v (view i (after w))) same
            (claimed-Step id user w.clock w.tasks _)

  pub accept-Leaves :
      (id user : String) (w : World)
      → Leaves (From i (accepts id user) (view i w)) (accept id user) w
  unfolding accept
  accept-Leaves id user w = Leaves-looks i r v _ w (find_task-looks id) refl λ t w same.
      Leaves-looks i r v _ w (Keeps-guard (task_is t.status TaskStatus.open_) _) same λ _ w same.
        Leaves-looks i r v _ w (Keeps-guard (not (t.poster_id == user)) _) same λ _ w same.
          Leaves-looks i r v _ w (check_doer-Keeps t user) same λ _ w same.
            Leaves-looks i r v _ w (check_funds-Keeps t id) same
              λ _ w same. assign-Leaves t id user v w same
    where
      r : Request
      r = accepts id user

      v : TaskState
      v = view i w

  -- What the doer's handlers know of the row that they have read.
  ensure_task_doer-Post :
      (id user : String) (r : Request) (w : World)
      → Post
          (λ t w'. (w' ≡ w) × (find_first (λ t. t.id == id) w.tasks ≡ some t))
          (From i r (view i w))
          (run (ensure_task_doer id user) w)
  unfolding ensure_task_doer find_task
  ensure_task_doer-Post id user r w =
      Post-or_throw _ _ (find_first (λ t. t.id == id) w.tasks) _ _ w
        (λ t here. Post-guard _ _ (opt_is t.doer_id user) _ _ w (λ _. (refl, here)) (λ _. stays))
        (λ _. stays)

  started-Step :
      (id user : String) (now : ℕ) (u : Task) (ts : List Task) (d : Bool)
      → find_first (λ t. t.id == id) ts ≡ some u
      → u.status ≡ TaskStatus.assigned
      → Step i
          (starts id user)
          (state i ts d)
          (state i (update_rows (λ t. t.id == id) (started_row now) ts) d)
  started-Step id user now u ts d read assigned =
      Step-update_rows i _ (λ t. t.id == id) (started_row now) ts d (λ t. refl)
        λ t here reached.
          subst (λ s. Step i (starts id user) (in_state s d) (in_state TaskStatus.in_progress d))
            (sym (ap (λ t. t.status) (same_row i id ts read here reached) ∙ assigned))
            (begun (names i id ts here reached))

  pub mark_started-Leaves :
      (id user : String) (w : World)
      → Leaves (From i (starts id user) (view i w)) (mark_started id user) w
  unfolding mark_started
  mark_started-Leaves id user w =
      Post-call _ _ (ensure_task_doer id user) _ w _ (ensure_task_doer-Post id user _ w) λ t here.
        Post-guard _ _ (task_is t.status TaskStatus.assigned) _ _ w
          (λ assigned.
            let step =
              started-Step id user w.clock t w.tasks _ here
                (task_is-path t.status TaskStatus.assigned assigned) in
            Post-found-end _ _ (find_first (λ t. t.id == id) w.tasks) (started_row w.clock) _
              (λ _ _. step) (λ _. step))
          (λ _. stays)

  completed-Step :
      (id user text : String) (now : ℕ) (u : Task) (ts : List Task) (d : Bool)
      → find_first (λ t. t.id == id) ts ≡ some u
      → (task_is u.status TaskStatus.assigned || task_is u.status TaskStatus.in_progress) ≡ true
      → Step i
          (completes id user text)
          (state i ts d)
          (state i (update_rows (λ t. t.id == id) (completed_task text now) ts) d)
  completed-Step id user text now u ts d read underway =
      Step-update_rows i _ (λ t. t.id == id) (completed_task text now) ts d (λ t. refl)
        λ t here reached. of_status (names i id ts here reached) t.status (
          subst
            (λ t.
              (task_is t.status TaskStatus.assigned || task_is t.status TaskStatus.in_progress)
              ≡ true)
            (sym (same_row i id ts read here reached)) underway)
    where
      of_status :
          (id == i) ≡ true
          → (s : TaskStatus)
          → (task_is s TaskStatus.assigned || task_is s TaskStatus.in_progress) ≡ true
          → Step i (completes id user text) (in_state s d) (in_state TaskStatus.completed d)
      of_status named TaskStatus.assigned h = finished_early named
      of_status named TaskStatus.in_progress h = finished named
      of_status named TaskStatus.open_ h = absurd (true≢false (sym h))
      of_status named TaskStatus.completed h = absurd (true≢false (sym h))
      of_status named TaskStatus.cancelled h = absurd (true≢false (sym h))
      of_status named TaskStatus.disputed h = absurd (true≢false (sym h))
      of_status named TaskStatus.pending_payment h = absurd (true≢false (sym h))

  pub mark_complete-Leaves :
      (id user text : String) (w : World)
      → Leaves (From i (completes id user text) (view i w)) (mark_complete id user text) w
  unfolding mark_complete
  mark_complete-Leaves id user text w =
      Post-call _ _ (ensure_task_doer id user) _ w _ (ensure_task_doer-Post id user _ w) λ t here.
        Post-guard _ _
          (task_is t.status TaskStatus.assigned || task_is t.status TaskStatus.in_progress) _ _ w
          (λ underway.
            let step = completed-Step id user text w.clock t w.tasks _ here underway in
            Post-found _ _ (find_first (λ t. t.id == id) w.tasks) (completed_task text w.clock) _ _
              (λ _ _. step) (λ _. step))
          (λ _. stays)
