-- ===== src/Safety/Stable.antt =====
-- What a statement about the tasks and the escrows must withstand: the writes of the services.
use help_mi.Common.{◌≤◌, true, ℕ, ◌≡◌, Bool, ◌||◌, ◌==◌, false, String, Option, some, List}
use help_mi.Schema.{Task, Escrow, TaskStatus, EscrowStatus, PaymentMode, DoerTier}
use help_mi.Database.{find_first, update_rows, add_row, has_row}
use help_mi.World.{World}
use help_mi.Handler.{run}
use help_mi.Handler.Interleave.{Ends, Any}
use help_mi.Tasks.Lifecycle.{claims, claimed_row}
use help_mi.Tasks.Cancel.{move_to_cancelled}
use help_mi.Payments.Webhook.{fund_escrow}

-- What is said of the tasks and the escrows, said of the world.
abbrev pub OfRows : (List Task → List Escrow → Type 0) → World → Type 0
OfRows P w = P w.tasks w.escrows

-- How far a task has come: unpaid, on offer, or beyond.
abbrev pub stage : TaskStatus → ℕ
stage TaskStatus.pending_payment = 0
stage TaskStatus.open_ = 1
stage _ = 2

-- What the poster has ordered.
pub record Order : Type 0 where
  pub poster : String
  pub category : String
  pub title : String
  pub description : String
  pub budget : ℕ
  pub mode : PaymentMode
  pub tier : DoerTier
  pub photos : List String
  pub place : ℕ × (ℕ × String)
  pub schedule : Option ℕ × Option ℕ

abbrev pub order_of : Task → Order
order_of t = record {
  poster = t.poster_id;
  category = t.category_id;
  title = t.title;
  description = t.description;
  budget = t.budget;
  mode = t.payment_mode;
  tier = t.required_tier;
  photos = t.photo_urls;
  place = (t.location_lat, (t.location_lng, t.location_address));
  schedule = (t.scheduled_start, t.scheduled_end);
}

-- A write to a task that leaves its identity, and does not cancel it.
pub record Moves (t t' : Task) : Type 0 where
  pub same_id : t'.id ≡ t.id
  pub same_doer : t'.doer_id ≡ t.doer_id
  pub same_mode : t'.payment_mode ≡ t.payment_mode
  pub same_terms : order_of t' ≡ order_of t
  pub no_cancel : t'.status ≡ TaskStatus.cancelled → t.status ≡ TaskStatus.cancelled

-- What an escrow is about: the budget, the fees of both sides and the doer's pay.
pub record EscrowTerms : Type 0 where
  pub of_task : String
  pub budget : ℕ
  pub poster_fee : ℕ
  pub doer_fee : ℕ
  pub doer_pay : Option ℕ

abbrev pub terms_of : Escrow → EscrowTerms
terms_of e = record {
  of_task = e.task_id;
  budget = e.task_budget;
  poster_fee = e.platform_fee_from_poster;
  doer_fee = e.platform_fee_from_doer;
  doer_pay = e.net_doer_payout;
}

-- A write to an escrow that leaves its identity, its terms and its payment, and neither puts money
-- into it nor makes it wait for a payment again.
pub record Lowers (e e' : Escrow) : Type 0 where
  pub same_id : e'.id ≡ e.id
  pub same_task : e'.task_id ≡ e.task_id
  pub same_terms : terms_of e' ≡ terms_of e
  pub same_payment : e'.payhere_payment_id ≡ e.payhere_payment_id
  pub no_hold : e'.status ≡ EscrowStatus.held → e.status ≡ EscrowStatus.held
  pub no_reset : e'.status ≡ EscrowStatus.pending → e.status ≡ EscrowStatus.pending

-- `P` of the tasks and the escrows survives every kind of write. `Known` and `KnownEscrow` are
-- what a handler knows for good of a row that it has read.
pub record Stable (P : List Task → List Escrow → Type 0) (Known : Task → Type 0)
    (KnownEscrow : Escrow → Type 0) : Type 0 where
  pub known :
      (i : String) (ts : List Task) (es : List Escrow) {t : Task}
      → P ts es
      → find_first (λ r. r.id == i) ts ≡ some t
      → Known t
  pub known_escrow :
      (p : Escrow → Bool) (ts : List Task) (es : List Escrow) {e : Escrow}
      → P ts es
      → find_first p es ≡ some e
      → KnownEscrow e
  pub moved :
      (p : Task → Bool) (f : Task → Task) (ts : List Task) (es : List Escrow)
      → ((t : Task) → Moves t (f t))
      → ((t : Task) → p t ≡ true → stage t.status ≤ stage (f t).status)
      → P ts es
      → P (update_rows p f ts) es
  pub lowered :
      (p : Escrow → Bool) (f : Escrow → Escrow) (ts : List Task) (es : List Escrow)
      → ((e : Escrow) → Lowers e (f e))
      → P ts es
      → P ts (update_rows p f es)
  pub claimed :
      (i doer : String) (now : ℕ) (ts : List Task) (es : List Escrow)
      → P ts es
      → P (update_rows (claims i) (claimed_row doer now) ts) es
  pub cancelled :
      (t : Task) (w : World)
      → Known t
      → P w.tasks w.escrows
      → Ends (OfRows P) Any (run (move_to_cancelled t) w)
  pub funded :
      (e : Escrow) (payment_id : String) (w : World)
      → KnownEscrow e
      → P w.tasks w.escrows
      → Ends (OfRows P) Any (run (fund_escrow e payment_id) w)
  pub new_task :
      (t : Task) (ts : List Task) (es : List Escrow)
      → has_row (λ r. r.id == t.id) ts ≡ false
      → P ts es
      → P (add_row t ts) es
  pub new_escrow :
      (e : Escrow) (ts : List Task) (es : List Escrow)
      → has_row (λ r. r.id == e.id || r.task_id == e.task_id) es ≡ false
      → P ts es
      → P ts (add_row e es)
