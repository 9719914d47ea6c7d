-- ===== src/Safety/Server.antt =====
-- What is stable holds at every moment of a server with any requests, in any order of their steps.
use help_mi.Common.{ℕ, List, [], ◌∷◌, map}
use help_mi.Schema.{Task, Escrow}
use help_mi.World.{World}
use help_mi.Handler.{Handler, ◌>>◌, pure}
use help_mi.Handler.Interleave.{Keeps, returns, steps, Any, Keeps->>=, AllKeep, run_schedule-Keeps}
use help_mi.Requests.{
  Request, creates, accepts, starts, confirms, cancels, force_cancels, pays, refunds_escrow,
  retries, completes, disputes, notifies, resolves, marks_paid, reconciles, auto_releases, waits,
  serve, serve_all,
}
use help_mi.Scheduler.{reconcile_refunds}
use help_mi.Safety.Stable.{OfRows, Stable}
use help_mi.Safety.Quiet.{quiet}
use help_mi.Safety.Refunds
use help_mi.Safety.Release
use help_mi.Safety.Checkout
use help_mi.Safety.Payouts
use help_mi.Safety.Tasks.{
  accept-Keeps, mark_started-Keeps, mark_complete-Keeps, raise_dispute-Keeps,
}
use help_mi.Safety.Money.{create_task-Keeps, cancel-Keeps, force_cancel-Keeps}
use help_mi.Safety.Payments.{handle_webhook-Keeps, resolve_dispute-Keeps}

module _ {P : List Task → List Escrow → Type 0} {Known : Task → Type 0}
    {KnownEscrow : Escrow → Type 0} (s : Stable P Known KnownEscrow) where
  silent-Keeps :
      {A : Type 0} {h : Handler A} → Keeps (OfRows P) Any h → Keeps (OfRows P) Any (h >> pure tt)
  silent-Keeps k = Keeps->>= k (λ _ _. returns tt)

  serve-Keeps : (r : Request) → Keeps (OfRows P) Any (serve r)
  unfolding reconcile_refunds
  serve-Keeps (creates poster dto) = silent-Keeps (create_task-Keeps s poster dto)
  serve-Keeps (accepts id user) = silent-Keeps (accept-Keeps s id user)
  serve-Keeps (starts id user) = silent-Keeps (mark_started-Keeps s id user)
  serve-Keeps (completes id user text) = silent-Keeps (mark_complete-Keeps s id user text)
  serve-Keeps (confirms id user) = silent-Keeps (Release.confirm-Keeps (quiet s) id user)
  serve-Keeps (cancels id user) = silent-Keeps (cancel-Keeps s id user)
  serve-Keeps (force_cancels id user) = silent-Keeps (force_cancel-Keeps s id user)
  serve-Keeps (disputes id user text) = silent-Keeps (raise_dispute-Keeps s id user text)
  serve-Keeps (pays id user) = silent-Keeps (Checkout.initiate_payment-Keeps (quiet s) id user)
  serve-Keeps (notifies body) = handle_webhook-Keeps s body
  serve-Keeps (resolves id admin note b) = resolve_dispute-Keeps s id admin note b
  serve-Keeps (refunds_escrow id user) =
      silent-Keeps (Checkout.initiate_escrow_refund-Keeps (quiet s) id user)
  serve-Keeps (retries id user) = silent-Keeps (Refunds.retry-Keeps (quiet s) id user)
  serve-Keeps (marks_paid id ref) =
      silent-Keeps (Payouts.mark_paid-Keeps (λ ts es ds. P ts es) id ref)
  serve-Keeps reconciles = silent-Keeps (Refunds.reconcile-Keeps (quiet s))
  serve-Keeps auto_releases = silent-Keeps (Release.auto_release_escrows-Keeps (quiet s))
  serve-Keeps (waits n) = steps (λ w i. i) (λ w i. returns tt)

  all-Keep : (rs : List Request) → AllKeep (OfRows P) (map serve rs)
  all-Keep [] = tt
  all-Keep (r ∷ rs) = (serve-Keeps r, all-Keep rs)

  pub serve_all-Stable :
      (schedule : List ℕ) (requests : List Request) (w : World)
      → P w.tasks w.escrows
      → P (serve_all schedule requests w).tasks (serve_all schedule requests w).escrows
  unfolding serve_all
  serve_all-Stable schedule requests w i =
      run_schedule-Keeps (OfRows P) schedule (map serve requests) w (all-Keep requests) i
