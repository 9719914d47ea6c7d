-- ===== src/Workflow/Refine.antt =====
-- The handlers refine the life of a task: served one after the other, requests take its steps.
use help_mi.Common.{List, [], ◌∷◌, String}
use help_mi.Database.{has_row}
use help_mi.World.{World}
use help_mi.Handler.{Result, ok, err, Handler, run, pure, ◌>>◌}
use help_mi.Handler.Interleave.{Keeps, Any}
use help_mi.Scheduler.{reconcile_refunds, auto_release_escrows}
use help_mi.Refunds.{retry}
use help_mi.Refunds.Reconcile.{reconcile}
use help_mi.Payouts.{mark_paid}
use help_mi.Tasks.Create.{create_task}
use help_mi.Tasks.Lifecycle.{accept, mark_started, mark_complete, raise_dispute}
use help_mi.Tasks.Release.{confirm}
use help_mi.Tasks.Cancel.{cancel, force_cancel}
use help_mi.Payments.Checkout.{initiate_payment}
use help_mi.Admin.{initiate_escrow_refund}
use help_mi.Requests.{
  Request, creates, accepts, starts, confirms, cancels, force_cancels, pays, refunds_escrow,
  retries, completes, disputes, notifies, resolves, marks_paid, reconciles, auto_releases, waits,
  serve,
}
use help_mi.Outcomes.Post.{Post}
use help_mi.Safety.Quiet.{Quiet}
use help_mi.Safety.Refunds
use help_mi.Safety.Payouts
use help_mi.Safety.Release
use help_mi.Safety.Checkout
use help_mi.Workflow.{TaskState, Step, stays}
use help_mi.Workflow.Leaves.{Leaves, Leaves-Keeps, Leaves-silent}
use help_mi.Workflow.View.{From, Quiet-state, state, view, contested_at}
use help_mi.Workflow.Doer.{accept-Leaves, mark_started-Leaves, mark_complete-Leaves}
use help_mi.Workflow.Disputes.{raise_dispute-Leaves}
use help_mi.Workflow.Create.{create_task-Leaves}
use help_mi.Workflow.Cancel.{cancel-Leaves, force_cancel-Leaves}
use help_mi.Workflow.Money.{handle_webhook-Leaves}
use help_mi.Workflow.Resolution.{resolve_dispute-Leaves}

-- The requests are served one after the other, each to its end.
unfoldable pub serve_each : List Request → World → World
serve_each [] w = w
serve_each (r ∷ rs) w = serve_each rs (run (serve r) w).1

-- The steps that the requests take, one for each.
pub data Steps (i : String) : List Request → TaskState → TaskState → Type 0 where
  done : {s : TaskState} → Steps i [] s s
  next :
      {r : Request} {rs : List Request} {s t u : TaskState}
      → Step i r s t
      → Steps i rs t u
      → Steps i (r ∷ rs) s u

left : {A : Type 0} (Inv : World → Type 0) (x : Result A × World) → Post (λ _. Inv) Inv x → Inv x.1
left Inv (ok a, w) h = h
left Inv (err e, w) h = h

module _ (i : String) where
  quiet-Leaves :
      {A : Type 0} (r : Request) (w : World) (m : Handler A)
      → (Quiet (λ ts es ds. Step i r (view i w) (state i ts (has_row (contested_at i) ds)))
          → Keeps (From i r (view i w)) Any m)
      → Leaves (From i r (view i w)) (m >> pure tt) w
  quiet-Leaves r w m keeps =
      Leaves-silent (From i r (view i w)) m w
        (Leaves-Keeps _ w (keeps (Quiet-state i (Step i r (view i w)))) stays)

  serve-Leaves : (r : Request) (w : World) → Leaves (From i r (view i w)) (serve r) w
  unfolding reconcile_refunds
  serve-Leaves (creates poster dto) w =
      Leaves-silent _ (create_task poster dto) w (create_task-Leaves i poster dto w)
  serve-Leaves (accepts id user) w = Leaves-silent _ (accept id user) w (accept-Leaves i id user w)
  serve-Leaves (starts id user) w =
      Leaves-silent _ (mark_started id user) w (mark_started-Leaves i id user w)
  serve-Leaves (completes id user text) w =
      Leaves-silent _ (mark_complete id user text) w (mark_complete-Leaves i id user text w)
  serve-Leaves (cancels id user) w = Leaves-silent _ (cancel id user) w (cancel-Leaves i id user w)
  serve-Leaves (force_cancels id user) w =
      Leaves-silent _ (force_cancel id user) w (force_cancel-Leaves i id user w)
  serve-Leaves (disputes id user text) w =
      Leaves-silent _ (raise_dispute id user text) w (raise_dispute-Leaves i id user text w)
  serve-Leaves (notifies body) w = handle_webhook-Leaves i body w
  serve-Leaves (resolves id admin note b) w = resolve_dispute-Leaves i id admin note b w
  serve-Leaves (confirms id user) w =
      quiet-Leaves _ w (confirm id user) (λ q. Release.confirm-Keeps q id user)
  serve-Leaves (pays id user) w =
      quiet-Leaves _ w (initiate_payment id user) (λ q. Checkout.initiate_payment-Keeps q id user)
  serve-Leaves (refunds_escrow id user) w =
      quiet-Leaves _ w (initiate_escrow_refund id user)
        (λ q. Checkout.initiate_escrow_refund-Keeps q id user)
  serve-Leaves (retries id user) w =
      quiet-Leaves _ w (retry id user) (λ q. Refunds.retry-Keeps q id user)
  serve-Leaves (marks_paid id ref) w = quiet-Leaves _ w (mark_paid id ref) (λ q.
      Payouts.mark_paid-Keeps
        (λ ts es ds.
          Step i (marks_paid id ref) (view i w) (state i ts (has_row (contested_at i) ds)))
        id ref)
  serve-Leaves reconciles w = quiet-Leaves _ w reconcile (λ q. Refunds.reconcile-Keeps q)
  serve-Leaves auto_releases w =
      quiet-Leaves _ w auto_release_escrows (λ q. Release.auto_release_escrows-Keeps q)
  serve-Leaves (waits n) w = stays

  -- A request that is served alone takes at most its step of a task's life.
  pub serve-Step : (r : Request) (w : World) → Step i r (view i w) (view i (run (serve r) w).1)
  serve-Step r w = left (From i r (view i w)) (run (serve r) w) (serve-Leaves r w)

-- Whatever the world, requests that are served one after the other, each to its end and with or
-- without an error, take a task through the steps of its life: each request makes at most the one
-- step that is its own, from a status that this step starts from.
pub serve_each-Steps :
    (i : String) (requests : List Request) (w : World)
    → Steps i requests (view i w) (view i (serve_each requests w))
unfolding serve_each
serve_each-Steps i [] w = done
serve_each-Steps i (r ∷ rs) w = next (serve-Step i r w) (serve_each-Steps i rs (run (serve r) w).1)
