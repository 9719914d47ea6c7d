-- ===== src/Safety/Terms.antt =====
-- What an escrow is about, and the payment that it holds, are stable.
use mathlib.Core.Option
use help_mi.Common.{
  ℕ, ◌≡◌, refl, ap, ◌∙◌, Bool, true, false, not, ◌&&◌, ◌==◌, some, List, String, arith, nat_eq,
  if◌then◌else◌,
}
use help_mi.Schema.{Task, Escrow, EscrowStatus, escrow_is}
use help_mi.Database.{find_first, update_rows, count_rows, add_row}
use help_mi.Database.Laws.{find_first-update_rows, find_first-add_row}
use help_mi.World.{World}
use help_mi.Handler.Interleave.{
  Keeps, returns, steps, Any, Keeps->>=, Keeps-guard, Keeps-if, run-Ends,
}
use help_mi.Requests.{Request, serve_all}
use help_mi.Refunds.{refund_pending_row}
use help_mi.Tasks.Cancel.{move_to_cancelled, claim_escrow, is_cancellable}
use help_mi.Payments.Webhook.{fund_escrow, capture_unpromoted, captures, captured_row}
use help_mi.Safety.Stable.{OfRows, Stable, EscrowTerms, terms_of, Lowers}
use help_mi.Safety.Server.{serve_all-Stable}

-- `P` holds of the escrow of the id, which is there.
abbrev pub HasEscrow : String → (Escrow → Type 0) → List Escrow → Type 0
HasEscrow x P es = (e : Escrow) × ((find_first (λ r. r.id == x) es ≡ some e) × P e)

module _ (x : String) (P : Escrow → Type 0) (kept : (e e' : Escrow) → Lowers e e' → P e → P e')
    (captured : (e : Escrow) (payment_id : String) (s : EscrowStatus) (now : ℕ)
      → escrow_is e.status EscrowStatus.pending ≡ true
      → escrow_is s EscrowStatus.pending ≡ false
      → P e
      → P (captured_row payment_id s now e)) where
  abbrev Of : List Task → List Escrow → Type 0
  Of ts es = HasEscrow x P es

  written-P : (b : Bool) (e e' : Escrow) → (b ≡ true → P e → P e') → P e → P (if b then e' else e)
  written-P true e e' h k = h refl k
  written-P false e e' h k = k

  write-Of :
      (p : Escrow → Bool) (f : Escrow → Escrow) (es : List Escrow)
      → ((e : Escrow) → (f e).id ≡ e.id)
      → ((e : Escrow) → p e ≡ true → P e → P (f e))
      → HasEscrow x P es
      → HasEscrow x P (update_rows p f es)
  write-Of p f es same h (e, (found, k)) = (
    if p e then f e else e,
    (
      rw (find_first-update_rows (λ r. r.id == x) p f es (λ r. ap (λ i. i == x) (same r)))
          (ap (Option.map (λ r. if p r then f r else r)) found),
      written-P (p e) e (f e) (h e) k,
    ),
  )

  lowered-Of :
      (p : Escrow → Bool) (f : Escrow → Escrow) (es : List Escrow)
      → ((e : Escrow) → Lowers e (f e))
      → HasEscrow x P es
      → HasEscrow x P (update_rows p f es)
  lowered-Of p f es l h = write-Of p f es (λ e. (l e).same_id) (λ e _ k. kept e (f e) (l e) k) h

  captured-Of :
      (i payment_id : String) (s : EscrowStatus) (now : ℕ) (es : List Escrow)
      → escrow_is s EscrowStatus.pending ≡ false
      → HasEscrow x P es
      → HasEscrow x P (update_rows (captures i) (captured_row payment_id s now) es)
  captured-Of i payment_id s now es n h =
      write-Of (captures i) (captured_row payment_id s now) es (λ e. refl)
        (λ e c k. captured e payment_id s now (ground arith) n k) h

  added-Of : (e : Escrow) (es : List Escrow) → HasEscrow x P es → HasEscrow x P (add_row e es)
  added-Of e es (e', (found, k)) =
      (e', (ground (arith, find_first-add_row (λ r. r.id == x) e es), k))

  claim_escrow-Keeps : (t : Task) → Keeps (OfRows Of) Any (claim_escrow t)
  unfolding claim_escrow
  claim_escrow-Keeps t =
      Keeps-if _
        (steps (λ w i. lowered-Of _ (refund_pending_row w.clock) w.escrows (λ e. ground arith) i)
          (λ w i. returns tt))
        (returns tt)

  move_to_cancelled-Keeps : (t : Task) → Keeps (OfRows Of) Any (move_to_cancelled t)
  unfolding move_to_cancelled
  move_to_cancelled-Keeps t =
      steps (λ w i. i)
        λ w i.
          Keeps->>=
            (Keeps-guard
              (not (nat_eq (count_rows (λ r. r.id == t.id && is_cancellable r.status) w.tasks) 0))
              _)
            λ _ _. claim_escrow-Keeps t

  fund_escrow-Keeps :
      (e : Escrow) (payment_id : String) → Keeps (OfRows Of) Any (fund_escrow e payment_id)
  unfolding fund_escrow capture_unpromoted
  fund_escrow-Keeps e payment_id =
      steps (λ w i. i)
        λ w i.
          Keeps-if _
            (steps (λ w i. captured-Of e.id payment_id EscrowStatus.held w.clock w.escrows refl i)
              (λ w i. returns tt))
            (steps (λ w i. i)
              λ w i.
                Keeps-if _
                  (steps
                    (λ w i.
                      captured-Of e.id payment_id EscrowStatus.refund_pending w.clock w.escrows refl
                        i)
                    (λ w i. returns tt))
                  (steps
                    (λ w i. captured-Of e.id payment_id EscrowStatus.held w.clock w.escrows refl i)
                    (λ w i. returns tt)))

  Of-Stable : Stable Of (λ _. Unit) (λ _. Unit)
  Of-Stable = record {
    known = λ i ts es h e. tt;
    known_escrow = λ p ts es h e. tt;
    moved = λ p f ts es m _ h. h;
    lowered = λ p f ts es l h. lowered-Of p f es l h;
    claimed = λ i d now ts es h. h;
    cancelled = λ t w k h. run-Ends w (move_to_cancelled-Keeps t) h;
    funded = λ e payment_id w k h. run-Ends w (fund_escrow-Keeps e payment_id) h;
    new_task = λ t ts es fresh h. h;
    new_escrow = λ e ts es fresh h. added-Of e es h;
  }

abbrev pub HasTerms : EscrowTerms → Escrow → Type 0
HasTerms terms e = terms_of e ≡ terms

-- The task, the budget, the fees and the doer's pay of an escrow never change, whatever requests
-- are served at the same time, in any order of their steps.
pub serve_all-HasTerms :
    (schedule : List ℕ) (requests : List Request) (w : World) (x : String) (terms : EscrowTerms)
    → HasEscrow x (HasTerms terms) w.escrows
    → HasEscrow x (HasTerms terms) (serve_all schedule requests w).escrows
serve_all-HasTerms schedule requests w x terms h =
    serve_all-Stable
      (Of-Stable x (HasTerms terms) (λ e e' l k. l.same_terms ∙ k) (λ e payment_id s now _ _ k. k))
      schedule requests w h

-- The escrow has been paid for by this payment.
pub record PaidBy (payment_id : String) (e : Escrow) : Type 0 where
  pub payment : e.payhere_payment_id ≡ some payment_id
  pub left_pending : escrow_is e.status EscrowStatus.pending ≡ false

kept-PaidBy :
    (payment_id : String) (e e' : Escrow) → Lowers e e' → PaidBy payment_id e → PaidBy payment_id e'
kept-PaidBy payment_id e e' l h = record {
  payment = l.same_payment ∙ h.payment;
  left_pending = ground (arith, l.no_reset, h.left_pending);
}

-- An escrow that a payment has been captured for keeps that payment and never waits for one again,
-- whatever requests (other payment notices among them) are served at the same time, in any order
-- of their steps.
pub serve_all-PaidBy :
    (schedule : List ℕ) (requests : List Request) (w : World) (x payment_id : String)
    → HasEscrow x (PaidBy payment_id) w.escrows
    → HasEscrow x (PaidBy payment_id) (serve_all schedule requests w).escrows
serve_all-PaidBy schedule requests w x payment_id h =
    serve_all-Stable
      (Of-Stable x (PaidBy payment_id) (kept-PaidBy payment_id)
        (λ e p s now pending n k. ground (arith, k.left_pending)))
      schedule requests w h
