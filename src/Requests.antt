-- ===== src/Requests.antt =====
-- The requests that the controllers, the payment provider, the admin console and the two timers put
-- to the services of tasks and money, and a server in which their handlers run at the same time. The
-- other services write neither tasks nor escrows.
use help_mi.Common.{ℕ, ◌+◌, Bool, String, Option, List, map}
use help_mi.World.{World}
use help_mi.Handler.{Handler, ◌>>◌, pure}
use help_mi.Handler.Calls.{writes}
use help_mi.Handler.Interleave.{run_schedule}
use help_mi.Refunds.{retry}
use help_mi.Payouts.{mark_paid}
use help_mi.Tasks.Create.{CreateTaskDto, create_task}
use help_mi.Tasks.Lifecycle.{accept, mark_started, mark_complete, raise_dispute}
use help_mi.Tasks.Release.{confirm}
use help_mi.Tasks.Cancel.{cancel, force_cancel}
use help_mi.Payments.Checkout.{initiate_payment}
use help_mi.Payments.Webhook.{WebhookBody, handle_webhook}
use help_mi.Scheduler.{auto_release_escrows, reconcile_refunds}
use help_mi.Admin.{resolve_dispute, initiate_escrow_refund}

pub data Request : Type 0 where
  creates : (poster : String) (dto : CreateTaskDto) → Request
  accepts starts confirms cancels force_cancels pays refunds_escrow retries :
      (id user : String) → Request
  completes disputes : (id user text : String) → Request
  notifies : (body : WebhookBody) → Request
  resolves : (id admin note : String) (refund_poster : Bool) → Request
  marks_paid : (id : String) (provider_ref : Option String) → Request
  reconciles auto_releases : Request
  -- Time passes.
  waits : (n : ℕ) → Request

-- The handler of a request, its reply left out.
abbrev pub serve : Request → Handler (Unit {0})
serve (creates poster dto) = create_task poster dto >> pure tt
serve (accepts id user) = accept id user >> pure tt
serve (starts id user) = mark_started id user >> pure tt
serve (completes id user text) = mark_complete id user text >> pure tt
serve (confirms id user) = confirm id user >> pure tt
serve (cancels id user) = cancel id user >> pure tt
serve (force_cancels id user) = force_cancel id user >> pure tt
serve (disputes id user text) = raise_dispute id user text >> pure tt
serve (pays id user) = initiate_payment id user >> pure tt
serve (notifies body) = handle_webhook body
serve (resolves id admin note refund_poster) = resolve_dispute id admin note refund_poster
serve (refunds_escrow id user) = initiate_escrow_refund id user >> pure tt
serve (retries id user) = retry id user >> pure tt
serve (marks_paid id provider_ref) = mark_paid id provider_ref >> pure tt
serve reconciles = reconcile_refunds >> pure tt
serve auto_releases = auto_release_escrows >> pure tt
serve (waits n) = writes (λ w. record w { clock = w.clock + n })

-- The world after the handlers of the requests have made the steps of the schedule.
unfoldable pub serve_all : List ℕ → List Request → World → World
serve_all schedule requests w = (run_schedule schedule (map serve requests) w).1
