-- ===== src/Safety/Advance.antt =====
-- The writes to a task only advance it: what an advance keeps is stable.
use mathlib.Core.Option
use help_mi.Common.{
  ◌≤◌, ◌≡◌, refl, ap, Bool, true, false, not, ◌&&◌, ◌==◌, some, List, String, arith, nat_eq,
  if◌then◌else◌,
}
use help_mi.Schema.{Task, Escrow}
use help_mi.Database.{find_first, update_rows, count_rows, add_row}
use help_mi.Database.Laws.{find_first-update_rows, find_first-add_row}
use help_mi.Handler.Interleave.{
  Keeps, returns, steps, Any, Keeps->>=, Keeps-guard, Keeps-if, run-Ends,
}
use help_mi.Tasks.Lifecycle.{claims, claimed_row}
use help_mi.Tasks.Cancel.{move_to_cancelled, claim_escrow, cancelled_task, is_cancellable}
use help_mi.Payments.Webhook.{fund_escrow, capture_unpromoted, opened_task, promotes}
use help_mi.Safety.Stable.{OfRows, Stable, Moves, stage, order_of}

-- A later state of a task: the same order, at least as far, and never another doer.
pub record Advances (t t' : Task) : Type 0 where
  pub same_id : t'.id ≡ t.id
  pub same_order : order_of t' ≡ order_of t
  pub further : stage t.status ≤ stage t'.status
  pub same_doer : (d : String) → t.doer_id ≡ some d → t'.doer_id ≡ some d

-- `P` holds of the task of the id, which is there.
abbrev pub HasTask : String → (Task → Type 0) → List Task → Type 0
HasTask id P ts = (t : Task) × ((find_first (λ r. r.id == id) ts ≡ some t) × P t)

module _ (id : String) (P : Task → Type 0) (kept : (t t' : Task) → Advances t t' → P t → P t') where
  abbrev Of : List Task → List Escrow → Type 0
  Of ts es = HasTask id P ts

  written-P : (b : Bool) (t t' : Task) → (b ≡ true → Advances t t') → P t → P (if b then t' else t)
  written-P true t t' h k = kept t t' (h refl) k
  written-P false t t' h k = k

  write-Of :
      (p : Task → Bool) (f : Task → Task) (ts : List Task)
      → ((t : Task) → (f t).id ≡ t.id)
      → ((t : Task) → p t ≡ true → Advances t (f t))
      → HasTask id P ts
      → HasTask id P (update_rows p f ts)
  write-Of p f ts same h (t, (found, k)) = (
    if p t then f t else t,
    (
      rw (find_first-update_rows (λ r. r.id == id) p f ts (λ r. ap (λ i. i == id) (same r)))
          (ap (Option.map (λ r. if p r then f r else r)) found),
      written-P (p t) t (f t) (h t) k,
    ),
  )

  added-Of : (t : Task) (ts : List Task) → HasTask id P ts → HasTask id P (add_row t ts)
  added-Of t ts (t', (found, k)) =
      (t', (ground (arith, find_first-add_row (λ r. r.id == id) t ts), k))

  claim_escrow-Keeps : (t : Task) → Keeps (OfRows Of) Any (claim_escrow t)
  unfolding claim_escrow
  claim_escrow-Keeps t = Keeps-if _ (steps (λ w i. i) (λ w i. returns tt)) (returns tt)

  move_to_cancelled-Keeps : (t : Task) → Keeps (OfRows Of) Any (move_to_cancelled t)
  unfolding move_to_cancelled
  move_to_cancelled-Keeps t =
      steps (λ w i. write-Of _ (cancelled_task w.clock) w.tasks (λ t. refl) (λ t p. ground arith) i)
        λ w i.
          Keeps->>=
            (Keeps-guard
              (not (nat_eq (count_rows (λ r. r.id == t.id && is_cancellable r.status) w.tasks) 0))
              _)
            λ _ _. claim_escrow-Keeps t

  fund_escrow-Keeps :
      (e : Escrow) (payment_id : String) → Keeps (OfRows Of) Any (fund_escrow e payment_id)
  unfolding fund_escrow capture_unpromoted
  fund_escrow-Keeps e payment_id =
      steps
        (λ w i.
          write-Of (promotes e.task_id) (opened_task w.clock) w.tasks (λ t. refl)
            (λ t p. ground arith) i)
        λ w i. Keeps-if _ (steps (λ w i. i) (λ w i. returns tt)) (
          steps (λ w i. i)
            λ w i.
              Keeps-if _ (steps (λ w i. i) (λ w i. returns tt))
                (steps (λ w i. i) (λ w i. returns tt)))

  moved-Advances : (t t' : Task) → Moves t t' → stage t.status ≤ stage t'.status → Advances t t'
  moved-Advances t t' m further = record {
    same_id = m.same_id;
    same_order = m.same_terms;
    further = further;
    same_doer = λ d h. ground (arith, m.same_doer);
  }

  pub HasTask-Stable : Stable Of (λ _. Unit) (λ _. Unit)
  HasTask-Stable = record {
    known = λ i ts es h e. tt;
    known_escrow = λ p ts es h e. tt;
    moved = λ p f ts es m further h.
        write-Of p f ts (λ t. (m t).same_id) (λ t c. moved-Advances t (f t) (m t) (further t c)) h;
    lowered = λ p f ts es l h. h;
    claimed = λ i d now ts es h.
        write-Of (claims i) (claimed_row d now) ts (λ t. refl) (λ t c. ground arith) h;
    cancelled = λ t w k h. run-Ends w (move_to_cancelled-Keeps t) h;
    funded = λ e payment_id w k h. run-Ends w (fund_escrow-Keeps e payment_id) h;
    new_task = λ t ts es fresh h. added-Of t ts h;
    new_escrow = λ e ts es fresh h. h;
  }
