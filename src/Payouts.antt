-- ===== src/Payouts.antt =====
-- backend/src/payments/payout.service.ts and providers/payout.provider.ts.
pub mod Export
use help_mi.Common.{
  Bool, true, ℕ, ◌⊎◌, inl, inr, String, Option, none, some, List, ◌==◌, ◌||◌, or_else, truthy,
  concat, if◌then◌else◌,
}
use help_mi.Schema.{payout_is, Payout, DoerProfile, BankDetails, PayoutMethod, PayoutStatus}
use help_mi.Database.{find_many, newest_first}
use help_mi.World.{World, payouts, profiles}
use help_mi.Handler.{Error, Handler, pure, ◌>>=◌, catch, or_throw, not_found}
use help_mi.Handler.Calls.{reads, find, find_all, update, create}

pub record CreatePayoutInput : Type 0 where
  pub escrow_id : String
  pub task_id : String
  pub doer_id : String
  pub amount : ℕ

pub record PayoutDispatchResult : Type 0 where
  pub status : PayoutStatus
  pub provider_ref : Option String
  pub failure_reason : Option String

-- `PayoutProvider.dispatchWallet`: the endpoint is not called yet, so nothing in it can throw.
abbrev pub dispatch_wallet : String → World → PayoutDispatchResult
dispatch_wallet payout_id w =
    if truthy (w.services.config "PAYHERE_PAYOUT_API_KEY")
    then record {
      status = PayoutStatus.processing;
      provider_ref = some (concat "wallet-" payout_id);
      failure_reason = none;
    }
    else record { status = PayoutStatus.processing; provider_ref = none; failure_reason = none }

-- `PayoutProvider.dispatch`
abbrev pub dispatch : PayoutMethod → String → World → PayoutDispatchResult
dispatch PayoutMethod.bank payout_id w = record {
  status = PayoutStatus.pending;
  provider_ref = none;
  failure_reason = none;
}
dispatch PayoutMethod.mobile_wallet payout_id w = dispatch_wallet payout_id w

abbrev pub bank_details : Option DoerProfile → BankDetails
bank_details none = record {
  bank_account_name = none;
  bank_account_number = none;
  bank_name = none;
  bank_branch = none;
}
bank_details (some p) = p.bank

abbrev pub paid_time : PayoutStatus → ℕ → Option ℕ → Option ℕ
paid_time PayoutStatus.paid now old = some now
paid_time _ now old = old

-- The rest of `createForEscrowRelease` once the row is there: dispatch it and store the outcome.
-- An `undefined` field of the data leaves the column as it is.
unfoldable pub dispatched : Payout → Handler Payout
dispatched payout = do
  result ← reads (dispatch PayoutMethod.bank payout.id)
  update payouts (λ p. p.id == payout.id)
      (λ now p. record p {
        status = result.status;
        provider_ref = or_else result.provider_ref p.provider_ref;
        failure_reason = or_else result.failure_reason p.failure_reason;
        paid_at = paid_time result.status now p.paid_at;
      })

-- The `catch` of the insert: the row that another path created, or the error again.
unfoldable pub created_elsewhere : String → Error → Handler Payout
created_elsewhere escrow_id e = do
  dup ← find payouts (λ p. p.escrow_id == escrow_id)
  or_throw dup e

abbrev pub new_payout_row : CreatePayoutInput → BankDetails → String → ℕ → Payout
new_payout_row input destination id now = record {
  id = id;
  escrow_id = input.escrow_id;
  task_id = input.task_id;
  doer_id = input.doer_id;
  amount = input.amount;
  method = PayoutMethod.bank;
  status = PayoutStatus.pending;
  provider_ref = none;
  failure_reason = none;
  destination_snapshot = destination;
  created_at = now;
  paid_at = none;
}

unfoldable pub create_payout : CreatePayoutInput → BankDetails → Handler Payout
create_payout input destination =
    create payouts (λ new p. p.id == new.id || p.escrow_id == new.escrow_id)
      (λ id now. new_payout_row input destination id now)

-- The insert, with its error caught.
unfoldable pub insert_payout : CreatePayoutInput → BankDetails → Handler (Payout ⊎ Error)
insert_payout input destination =
    catch (create_payout input destination >>= λ p. pure (inl p)) (λ e. pure (inr e))

-- An insert that went through is dispatched; of one that did not, the error is handled.
abbrev pub dispatch_or : String → Payout ⊎ Error → Handler Payout
dispatch_or escrow_id (inl p) = dispatched p
dispatch_or escrow_id (inr e) = created_elsewhere escrow_id e

unfoldable pub new_payout : CreatePayoutInput → Handler Payout
new_payout input = do
  profile ← find profiles (λ p. p.user_id == input.doer_id)
  inserted ← insert_payout input (bank_details profile)
  dispatch_or input.escrow_id inserted

abbrev pub payout_or_new : CreatePayoutInput → Option Payout → Handler Payout
payout_or_new input (some p) = pure p
payout_or_new input none = new_payout input

unfoldable pub create_for_escrow_release : CreatePayoutInput → Handler Payout
create_for_escrow_release input = do
  existing ← find payouts (λ p. p.escrow_id == input.escrow_id)
  payout_or_new input existing

-- `markPaid`
unfoldable pub mark_paid : String → Option String → Handler Payout
mark_paid payout_id provider_ref = do
  row ← find payouts (λ p. p.id == payout_id)
  payout ← or_throw row (not_found "Payout not found")
  update payouts (λ p. p.id == payout_id)
      (λ now p. record p {
        status = PayoutStatus.paid;
        paid_at = some now;
        provider_ref = or_else provider_ref payout.provider_ref;
      })

-- `listForDoer`
unfoldable pub list_for_doer : String → Handler (List Payout)
list_for_doer doer_id = reads (λ w. newest_first (find_many (λ p. p.doer_id == doer_id) w.payouts))

abbrev pub payout_fits : Option PayoutStatus → Payout → Bool
payout_fits none p = true
payout_fits (some status) p = payout_is p.status status

-- `adminList`
unfoldable pub admin_list : Option PayoutStatus → Handler (List Payout)
admin_list status = reads (λ w. newest_first (find_many (payout_fits status) w.payouts))
