-- ===== src/Safety/Payouts.antt =====
-- The payout handlers write neither tasks, escrows nor disputes.
use help_mi.Common.{◌⊎◌, inl, inr, ◌==◌, ◌||◌, String, Option, none, some, List}
use help_mi.Schema.{Task, Escrow, Dispute, Payout, BankDetails}
use help_mi.Database.{find_first}
use help_mi.World.{payouts}
use help_mi.Handler.{Error}
use help_mi.Handler.Interleave.{
  Keeps, returns, steps, Any, Keeps->>=, Keeps-weaken, Keeps-catch, Keeps-or_throw, Keeps-found,
}
use help_mi.Handler.Inserts.{Keeps-create}
use help_mi.Payouts.{
  CreatePayoutInput, dispatched, created_elsewhere, new_payout, new_payout_row, create_payout,
  insert_payout, dispatch_or, payout_or_new, create_for_escrow_release, mark_paid,
}
use help_mi.Safety.Quiet.{OfTables}

module _ (P : List Task → List Escrow → List Dispute → Type 0) where
  dispatched-Keeps : (p : Payout) → Keeps (OfTables P) Any (dispatched p)
  unfolding dispatched
  dispatched-Keeps p = steps (λ w i. i) λ w i. steps (λ w i. i) λ w i. Keeps-found _ _ (λ _. tt)

  created_elsewhere-Keeps :
      (id : String) (e : Error) → Keeps (OfTables P) Any (created_elsewhere id e)
  unfolding created_elsewhere
  created_elsewhere-Keeps id e =
      steps (λ w i. i) λ w i. Keeps-weaken (λ _ _. tt) (Keeps-or_throw _ _)

  create_payout-Keeps :
      (input : CreatePayoutInput) (d : BankDetails) → Keeps (OfTables P) Any (create_payout input d)
  unfolding create_payout
  create_payout-Keeps input d =
      Keeps-create payouts (λ new p. p.id == new.id || p.escrow_id == new.escrow_id)
        (λ id now. new_payout_row input d id now) (λ w new i _ _. i)

  insert_payout-Keeps :
      (input : CreatePayoutInput) (d : BankDetails) → Keeps (OfTables P) Any (insert_payout input d)
  unfolding insert_payout
  insert_payout-Keeps input d =
      Keeps-catch (Keeps->>= (create_payout-Keeps input d) (λ _ _. returns tt)) (λ _. returns tt)

  dispatch_or-Keeps : (id : String) (r : Payout ⊎ Error) → Keeps (OfTables P) Any (dispatch_or id r)
  dispatch_or-Keeps id (inl p) = dispatched-Keeps p
  dispatch_or-Keeps id (inr e) = created_elsewhere-Keeps id e

  new_payout-Keeps : (input : CreatePayoutInput) → Keeps (OfTables P) Any (new_payout input)
  unfolding new_payout
  new_payout-Keeps input =
      steps (λ w i. i)
        λ w i. Keeps->>= (insert_payout-Keeps input _) (λ r _. dispatch_or-Keeps input.escrow_id r)

  payout_or_new-Keeps :
      (input : CreatePayoutInput) (o : Option Payout)
      → Keeps (OfTables P) Any (payout_or_new input o)
  payout_or_new-Keeps input none = new_payout-Keeps input
  payout_or_new-Keeps input (some p) = returns tt

  pub create_for_escrow_release-Keeps :
      (input : CreatePayoutInput) → Keeps (OfTables P) Any (create_for_escrow_release input)
  unfolding create_for_escrow_release
  create_for_escrow_release-Keeps input = steps (λ w i. i) (λ w i. payout_or_new-Keeps input _)

  pub mark_paid-Keeps :
      (id : String) (ref : Option String) → Keeps (OfTables P) Any (mark_paid id ref)
  unfolding mark_paid
  mark_paid-Keeps id ref =
      steps (λ w i. i)
        λ w i.
          Keeps->>= (Keeps-or_throw (find_first (λ p. p.id == id) w.payouts) _)
            λ p _. steps (λ w i. i) λ w i. Keeps-found _ _ (λ _. tt)
