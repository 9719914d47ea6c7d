-- ===== src/Safety/Strand.antt =====
-- No interleaving of the services' handlers leaves money HELD on a CANCELLED task.
pub mod Funding
use help_mi.Common.{
  ℕ, ◌≡◌, refl, sym, ap, ◌∙◌, subst, Bool, true, false, not, ◌&&◌, ◌==◌, some, List, String, arith,
  nat_eq, if◌then◌else◌, eq-path, eq-meet, eq-join, Bool-cases, inl, inr,
}
use mathlib.Core.Option
use help_mi.Schema.{
  Task, Escrow, PaymentMode, TaskStatus, EscrowStatus, escrow_is, task_is, is_escrow,
}
use help_mi.Database.{find_first, update_rows, count_rows}
use help_mi.Database.Laws.{find_first-fits, find_first-update_rows}
use help_mi.Database.Counts.{count_rows-lowered, count_rows-unfit, only-row}
use help_mi.World.{World}
use help_mi.Handler.{Handler, run, Error, guard, ◌>>◌}
use help_mi.Handler.Interleave.{Ends, Any}
use help_mi.Requests.{Request, serve_all}
use help_mi.Tasks.Lifecycle.{claims, claimed_row}
use help_mi.Refunds.{refund_pending_row}
use help_mi.Tasks.Cancel.{move_to_cancelled, claim_escrow, cancelled_task, is_cancellable}
use help_mi.Payments.Webhook.{
  fund_escrow, capture_unpromoted, opened_task, is_dead, promotes, captures, captured_row,
}
use help_mi.Safety.Stable.{OfRows, Lowers, Stable}
use help_mi.Safety.Secured.{
  Secured, strands, mislinked, moved-Secured, written-Secured, new_task-Secured, new_escrow-Secured,
}
use help_mi.Safety.Server.{serve_all-Stable}
use help_mi.Safety.Strand.Funding.{
  Ends-if, Ends-guard, KnownTask, KnownEscrow, known_task, known_escrow, funded-MoneyOf,
}

module _ (id x : String) where
  abbrev cancels : Task → Task → Bool
  cancels t r = r.id == t.id && is_cancellable r.status

  other-MoneyOf :
      (t : Task) (now : ℕ) {ts : List Task} {es : List Escrow}
      → (t.id == id) ≡ false
      → Secured id x ts es
      → Secured id x (update_rows (cancels t) (cancelled_task now) ts) es
  other-MoneyOf t now other s =
      moved-Secured id x s (cancels t) (cancelled_task now) (λ t. refl) (λ t. refl)
        (λ fits p c. ground (arith, eq-meet s.task.id t.id id))

  lowered-MoneyOf :
      (p : Escrow → Bool) (f : Escrow → Escrow) (ts : List Task) (es : List Escrow)
      → ((e : Escrow) → Lowers e (f e))
      → Secured id x ts es
      → Secured id x ts (update_rows p f es)
  lowered-MoneyOf p f ts es l s =
      written-Secured id x s p f (λ e. (l e).same_id) (λ e. (l e).same_task)
        (λ c e. ground (arith, (l e).same_task, (l e).no_hold))

  -- The claim of a cancel leaves no money held on the task.
  claimed-none :
      (t : Task) (now : ℕ) (es : List Escrow)
      → (t.id == id) ≡ true
      → count_rows (mislinked id x) es ≡ 0
      → count_rows (strands id) (
          update_rows
            (λ e. e.task_id == t.id && escrow_is e.status EscrowStatus.held)
            (refund_pending_row now)
            es)
        ≡ 0
  claimed-none t now es own linked =
      count_rows-lowered (strands id) (mislinked id x)
        (λ e. e.task_id == t.id && escrow_is e.status EscrowStatus.held) (refund_pending_row now) es
        (λ e. ground (arith, eq-join e.task_id t.id id)) linked

  own-MoneyOf :
      (t : Task) (now : ℕ) {ts : List Task} {es : List Escrow}
      → (t.id == id) ≡ true
      → Secured id x ts es
      → Secured id x (update_rows (cancels t) (cancelled_task now) ts) (
          update_rows
            (λ e. e.task_id == t.id && escrow_is e.status EscrowStatus.held)
            (refund_pending_row now)
            es)
  own-MoneyOf t now {ts} {es} own s =
      moved-Secured id x
        (lowered-MoneyOf (λ e. e.task_id == t.id && escrow_is e.status EscrowStatus.held)
          (refund_pending_row now) ts es (λ e. ground arith) s)
        (cancels t) (cancelled_task now) (λ t. refl) (λ t. refl)
        (λ _ _ _. claimed-none t now es own s.linked)

  cancelled-MoneyOf :
      (t : Task) (w : World)
      → KnownTask id x t
      → Secured id x w.tasks w.escrows
      → Ends (OfRows (Secured id x)) Any (run (move_to_cancelled t) w)
  unfolding move_to_cancelled claim_escrow
  cancelled-MoneyOf t w known s =
      Ends-guard (OfRows (Secured id x)) (not (nat_eq (count_rows (cancels t) w.tasks) 0)) _ _ _
        (elim (Bool-cases (t.id == id)) [
          | inl own ↦
              Ends-if (OfRows (Secured id x)) (is_escrow t.payment_mode) _ _ _
                (λ _. (own-MoneyOf t w.clock own s, tt)) (λ h. ground (arith, known own))
          | inr other ↦
              Ends-if (OfRows (Secured id x)) (is_escrow t.payment_mode) _ _ _
                (λ _. (
                  lowered-MoneyOf _ (refund_pending_row w.clock) _ _ (λ e. ground arith)
                      (other-MoneyOf t w.clock other s),
                  tt,
                ))
                (λ _. (other-MoneyOf t w.clock other s, tt))
        ])

  MoneyOf-Stable : Stable (Secured id x) (KnownTask id x) (KnownEscrow id x)
  MoneyOf-Stable = record {
    known = λ i ts es s e. known_task id x i ts es s e;
    known_escrow = λ p ts es s e. known_escrow id x p ts es s e;
    moved = λ p f ts es m _ s.
        moved-Secured id x s p f (λ t. (m t).same_id) (λ t. (m t).same_mode)
          (λ _ _ c. s.no_strand ((m s.task).no_cancel c));
    lowered = lowered-MoneyOf;
    claimed = λ i d now ts es s.
        moved-Secured id x s (claims i) (claimed_row d now) (λ t. refl) (λ t. refl)
          (λ _ _ c. ground arith);
    cancelled = cancelled-MoneyOf;
    funded = funded-MoneyOf id x;
    new_task = λ t ts es fresh s. new_task-Secured id x s t fresh;
    new_escrow = λ e ts es fresh s. new_escrow-Secured id x s e fresh;
  }

-- An ESCROW task that has its one escrow row: whatever requests are served at the same time, in
-- any order of their steps, whenever the task is CANCELLED no row of its escrow is HELD.
pub serve_all-Secured :
    (schedule : List ℕ) (requests : List Request) (w : World) (id x : String)
    → Secured id x w.tasks w.escrows
    → Secured id x (serve_all schedule requests w).tasks (serve_all schedule requests w).escrows
serve_all-Secured schedule requests w id x s =
    serve_all-Stable (MoneyOf-Stable id x) schedule requests w s
