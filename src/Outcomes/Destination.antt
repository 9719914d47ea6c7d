-- ===== src/Outcomes/Destination.antt =====
-- From a doer's payout destination to a payout: `setPayoutMethod` of doer.service.ts, then
-- `createForEscrowRelease` of payout.service.ts.
use help_mi.Common.{
  ℕ, suc, ◌≡◌, refl, sym, subst, String, none, some, true, false, ◌||◌, ◌==◌, leb, points, inl, inr,
  &&-both, eq_refl, if◌then◌else◌,
}
use help_mi.Schema.{DoerProfile, Payout, BankDetails}
use help_mi.Database.{find_first, update_rows, add_row, has_row}
use help_mi.Database.Laws.{find_first-written, find_first-added, find_first-fits, none-narrower}
use help_mi.World.{World}
use help_mi.Handler.{run, ◌>>=◌, ◌>>◌, catch, pure, throw, unique_violation}
use help_mi.Doer.{
  PayoutMethodDto, set_payout_method, destination_row, is_payout_method, is_account_number, is_bank,
}
use help_mi.Payouts.{
  CreatePayoutInput, create_for_escrow_release, payout_or_new, new_payout, insert_payout,
  create_payout, new_payout_row, dispatch_or, dispatched, bank_details,
}
use help_mi.Outcomes.Post.{Post, Post->>=}
use help_mi.Outcomes.Success.{Post-present, Post-updated-end}
use help_mi.Outcomes.Initiating.{or-left, or-right}

-- A destination that a transfer can be made to.
pub record Payable (d : BankDetails) : Type 0 where
  pub name : String
  pub number : String
  pub bank : String
  pub names : (d.bank_account_name ≡ some name) × (d.bank_name ≡ some bank)
  pub numbers : (d.bank_account_number ≡ some number) × (is_account_number number ≡ true)
  pub long_enough : (leb 2 (points name) ≡ true) × (leb 2 (points bank) ≡ true)

-- The payout of the input is stored and payable.
abbrev pub PaidOut : CreatePayoutInput → Payout → World → Type 0
PaidOut input out w' =
    (find_first (λ r. r.id == out.id) w'.payouts ≡ some out)
    × ((out.doer_id ≡ input.doer_id)
        × ((out.amount ≡ input.amount) × Payable out.destination_snapshot))

module _ (dto : PayoutMethodDto) (valid : is_payout_method dto ≡ true) where
  destination-Payable : (p : DoerProfile) (now : ℕ) → Payable (destination_row dto now p).bank
  destination-Payable p now =
      let (_, rest) = &&-both (is_bank dto.preferred_payout_method) _ valid in
      let (name, rest') = &&-both (leb 2 (points dto.bank_account_name)) _ rest in
      let (number, bank) = &&-both (is_account_number dto.bank_account_number) _ rest' in
      record {
        name = dto.bank_account_name;
        number = dto.bank_account_number;
        bank = dto.bank_name;
        names = (refl, refl);
        numbers = (refl, number);
        long_enough = (name, bank);
      }

module _ (w : World) (input : CreatePayoutInput) (dto : PayoutMethodDto) (p : DoerProfile)
    (valid : is_payout_method dto ≡ true)
    (found : find_first (λ p. p.user_id == input.doer_id) w.profiles ≡ some p)
    (unclaimed : has_row
        (λ r. r.id == w.services.uuid w.next_id || r.escrow_id == input.escrow_id)
        w.payouts
      ≡ false) where
  abbrev set : World
  set = record w {
    profiles =
        update_rows (λ p. p.user_id == input.doer_id) (destination_row dto w.clock) w.profiles;
  }

  abbrev new : Payout
  new =
      new_payout_row input (destination_row dto w.clock p).bank (w.services.uuid w.next_id) w.clock

  set-found :
      find_first (λ p. p.user_id == input.doer_id) set.profiles
      ≡ some (destination_row dto w.clock p)
  set-found =
      find_first-written (λ p. p.user_id == input.doer_id) (λ p. p.user_id == input.doer_id)
        (destination_row dto w.clock) w.profiles (λ _. refl) found
        (find_first-fits (λ p. p.user_id == input.doer_id) w.profiles {r = p} found)

  no_payout : find_first (λ r. r.escrow_id == input.escrow_id) w.payouts ≡ none
  no_payout =
      none-narrower _ (λ r. r.escrow_id == input.escrow_id) w.payouts
        (λ r h. or-right (r.id == w.services.uuid w.next_id) _ h) unclaimed

  stored : find_first (λ r. r.id == new.id) (add_row new w.payouts) ≡ some new
  stored =
      find_first-added (λ r. r.id == new.id) new w.payouts
        (none-narrower _ (λ r. r.id == new.id) w.payouts
          (λ r h. or-left _ (r.escrow_id == input.escrow_id) h) unclaimed)
        (eq_refl new.id)

  abbrev recorded : World
  recorded = record set { payouts = add_row new w.payouts; next_id = suc w.next_id }

  dispatched-PaidOut : Post (PaidOut input) (λ _. ⊥) (run (dispatched new) recorded)
  unfolding dispatched
  dispatched-PaidOut =
      Post-updated-end (PaidOut input) _ (find_first (λ r. r.id == new.id) recorded.payouts) _ _ new
        stored
        (
          find_first-written (λ r. r.id == new.id) (λ r. r.id == new.id) _ recorded.payouts
              (λ _. refl) stored (eq_refl new.id),
          (refl, (refl, destination-Payable dto valid p w.clock)),
        )

  new_payout-PaidOut : Post (PaidOut input) (λ _. ⊥) (run (new_payout input) set)
  unfolding new_payout insert_payout create_payout
  new_payout-PaidOut =
      subst
        (λ o.
          Post (PaidOut input) (λ _. ⊥)
            (run (insert_payout input (bank_details o) >>= dispatch_or input.escrow_id) set))
        (sym set-found)
        (subst
          (λ b.
            Post (PaidOut input) (λ _. ⊥)
              (run
                (catch ((if b then throw unique_violation else pure new) >>= λ r. pure (inl r))
                    (λ x. pure (inr x))
                  >>= dispatch_or input.escrow_id)
                (if b then set else recorded)))
          (sym unclaimed) dispatched-PaidOut)

  -- Once a doer with a profile has set a payout destination that its DTO accepts, the payout of a
  -- release that has none yet is made without an error, for that doer and that amount, and its
  -- snapshot names an account with a number of 6 to 18 digits, a holder and a bank.
  pub set_payout_method-PaidOut :
      Post
        (PaidOut input)
        (λ _. ⊥)
        (run (set_payout_method input.doer_id dto >> create_for_escrow_release input) w)
  unfolding set_payout_method create_for_escrow_release
  set_payout_method-PaidOut = Post->>= _ _ (set_payout_method input.doer_id dto) _ w (
      Post-present _ _ (find_first (λ p. p.user_id == input.doer_id) w.profiles) _ _ w p found (
        Post-updated-end _ _ (find_first (λ p. p.user_id == input.doer_id) w.profiles) _ _ p found (
          subst (λ o. Post (PaidOut input) (λ _. ⊥) (run (payout_or_new input o) set))
            (sym no_payout) new_payout-PaidOut)))
