-- ===== src/Outcomes/Paying.antt =====
-- `createForEscrowRelease` of payout.service.ts: what it pays, and that it pays once.
use mathlib.Core.Option.{none-ne-some}
use help_mi.Common.{
  suc, ◌≡◌, refl, sym, ap, ◌∙◌, subst, String, Option, none, some, Bool, true, false, ◌||◌, ◌==◌,
  List, [], ◌∷◌, arith, ◌⊎◌, inl, inr, eq_refl, if◌then◌else◌,
}
use help_mi.Schema.{DoerProfile, Payout, PayoutMethod, PayoutStatus, BankDetails}
use help_mi.Database.{find_first, update_rows, add_row, has_row}
use help_mi.Database.Laws.{find_first-added, none-narrower}
use help_mi.World.{World}
use help_mi.Handler.{run, ◌>>=◌, catch, pure, throw, unique_violation}
use help_mi.Payouts.{
  CreatePayoutInput, create_for_escrow_release, payout_or_new, new_payout, insert_payout,
  create_payout, new_payout_row, dispatch_or, dispatched, created_elsewhere, bank_details,
}
use help_mi.Outcomes.Post.{Post, Post-given}
use help_mi.Outcomes.Success.{Post-updated-end}
use help_mi.Outcomes.Initiating.{or-left}

-- A write to the row that was just added, where no other row has its key.
update_rows-added :
    {A : Type 0} (p : A → Bool) (f : A → A) (new : A) (rows : List A)
    → find_first p rows ≡ none
    → p new ≡ true
    → update_rows p f (add_row new rows) ≡ add_row (f new) rows
unfolding update_rows add_row find_first
update_rows-added p f new [] nothing fits = ground arith
update_rows-added p f new (r ∷ rows) nothing fits = ground (arith, update_rows-added p f new rows)

-- The account of the doer, as the profile names it now; none where there is no profile.
abbrev pub Account : World → String → BankDetails → Type 0
Account w doer_id d =
    ((p : DoerProfile) × ((find_first (λ p. p.user_id == doer_id) w.profiles ≡ some p)
        × (d ≡ p.bank)))
    ⊎ ((find_first (λ p. p.user_id == doer_id) w.profiles ≡ none)
        × (((d.bank_account_name ≡ none) × (d.bank_account_number ≡ none))
            × ((d.bank_name ≡ none) × (d.bank_branch ≡ none))))

-- The escrow had no payout, and this one, as the input has it, PENDING for a bank transfer to the
-- account of the doer, is the only change.
pub record Made (w : World) (input : CreatePayoutInput) (p : Payout) (w' : World) : Type 0 where
  pub first : find_first (λ r. r.escrow_id == input.escrow_id) w.payouts ≡ none
  pub of_release : (p.escrow_id ≡ input.escrow_id) × (p.task_id ≡ input.task_id)
  pub to_doer : (p.doer_id ≡ input.doer_id) × (p.amount ≡ input.amount)
  pub by_bank : (p.method ≡ PayoutMethod.bank) × (p.status ≡ PayoutStatus.pending)
  pub unpaid : (p.paid_at ≡ none) × (p.created_at ≡ w.clock)
  pub account : Account w input.doer_id p.destination_snapshot
  pub added : w' ≡ record w { payouts = add_row p w.payouts; next_id = suc w.next_id }

-- The payout of the escrow, and that whoever asks again gets it and changes nothing.
pub record PaidOnce (w : World) (input : CreatePayoutInput) (p : Payout) (w' : World) : Type 0 where
  pub how :
      ((find_first (λ r. r.escrow_id == input.escrow_id) w.payouts ≡ some p) × (w' ≡ w))
      ⊎ Made w input p w'
  pub again :
      (next : CreatePayoutInput)
      → next.escrow_id ≡ input.escrow_id
      → Post (λ u v. (u ≡ p) × (v ≡ w')) (λ _. ⊥) (run (create_for_escrow_release next) w')

known-Same :
    (w : World) (p : Payout) (input : CreatePayoutInput)
    → find_first (λ r. r.escrow_id == input.escrow_id) w.payouts ≡ some p
    → Post (λ u v. (u ≡ p) × (v ≡ w)) (λ _. ⊥) (run (create_for_escrow_release input) w)
unfolding create_for_escrow_release
known-Same w p input known =
    subst (λ o. Post (λ u v. (u ≡ p) × (v ≡ w)) (λ _. ⊥) (run (payout_or_new input o) w))
      (sym known) (refl, refl)

bank_details-Account :
    (w : World) (doer_id : String) (o : Option DoerProfile)
    → find_first (λ p. p.user_id == doer_id) w.profiles ≡ o
    → Account w doer_id (bank_details o)
bank_details-Account w doer_id none found = inr (found, ((refl, refl), (refl, refl)))
bank_details-Account w doer_id (some p) found = inl (p, (found, refl))

module _ (w : World) (input : CreatePayoutInput) where
  abbrev Refused : World → Type 0
  Refused w' = w' ≡ w

  abbrev asked : Payout → Bool
  asked r = r.escrow_id == input.escrow_id

  abbrev new : Payout
  new =
      new_payout_row input (bank_details (find_first (λ p. p.user_id == input.doer_id) w.profiles))
        (w.services.uuid w.next_id) w.clock

  abbrev clashes : Payout → Bool
  clashes r = r.id == new.id || r.escrow_id == new.escrow_id

  abbrev recorded : World
  recorded = record w { payouts = add_row new w.payouts; next_id = suc w.next_id }

  made : (w' : World) → find_first asked w.payouts ≡ none → w' ≡ recorded → PaidOnce w input new w'
  made w' first same = record {
    how = inr (record {
      first = first;
      of_release = (refl, refl);
      to_doer = (refl, refl);
      by_bank = (refl, refl);
      unpaid = (refl, refl);
      account = bank_details-Account w input.doer_id _ refl;
      added = same;
    });
    again = λ next e.
        subst
          (λ v. Post (λ u x. (u ≡ new) × (x ≡ v)) (λ _. ⊥) (run (create_for_escrow_release next) v))
          (sym same)
          (known-Same recorded new next (
            ap (λ i. find_first (λ r. r.escrow_id == i) recorded.payouts) e
            ∙ find_first-added asked new w.payouts first (eq_refl input.escrow_id)));
  }

  inserted :
      (b : Bool)
      → has_row clashes w.payouts ≡ b
      → find_first asked w.payouts ≡ none
      → Post (PaidOnce w input) Refused (
          run
            (catch
                ((if b then throw unique_violation else pure new) >>= λ r. pure (inl r))
                (λ x. pure (inr x))
              >>= dispatch_or input.escrow_id)
            (if b then w else recorded))
  unfolding dispatched created_elsewhere
  inserted true clash first =
      Post-given _ _ (find_first asked w.payouts) _ w
        (λ p found. absurd (none-ne-some _ (sym first ∙ found))) (λ _. refl)
  inserted false clash first =
      let free =
        none-narrower clashes (λ r. r.id == new.id) w.payouts
          (λ r h. or-left _ (r.escrow_id == new.escrow_id) h) clash in
      Post-updated-end _ _ (find_first (λ r. r.id == new.id) recorded.payouts) _ _ new
        (find_first-added (λ r. r.id == new.id) new w.payouts free (eq_refl new.id))
        (made _ first (
          ap (λ l. record recorded { payouts = l })
            (update_rows-added (λ r. r.id == new.id) _ new w.payouts free (eq_refl new.id))))

  chosen :
      (o : Option Payout)
      → find_first asked w.payouts ≡ o
      → Post (PaidOnce w input) Refused (run (payout_or_new input o) w)
  unfolding new_payout insert_payout create_payout
  chosen none first = inserted (has_row clashes w.payouts) refl first
  chosen (some p) known = record {
    how = inl (known, refl);
    again = λ next e.
        known-Same w p next (ap (λ i. find_first (λ r. r.escrow_id == i) w.payouts) e ∙ known);
  }

  -- The payout that `createForEscrowRelease` returns is the one that the escrow had, and nothing
  -- changes, or the escrow had none and one row is added: the input's, PENDING, for a bank transfer
  -- to the account that the profile of the doer names. Either way a later call for the same escrow,
  -- whatever doer and amount it names, returns that payout and changes nothing. A call that throws
  -- changes nothing.
  pub create_for_escrow_release-Outcome :
      Post (PaidOnce w input) (λ w'. w' ≡ w) (run (create_for_escrow_release input) w)
  unfolding create_for_escrow_release
  create_for_escrow_release-Outcome = chosen (find_first asked w.payouts) refl
