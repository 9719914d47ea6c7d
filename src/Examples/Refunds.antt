-- ===== src/Examples/Refunds.antt =====
-- The theorems on refunds that succeed and on what a stranger sees, at the sample world.
use help_mi.Common.{◌≡◌, refl, some, none, true, false, [], ◌∷◌, ◌==◌, ◌||◌, units, points}
use help_mi.Schema.{Task, Refund, RefundReason, RefundStatus, EscrowStatus, PayoutMethod}
use help_mi.Database.{find_first, has_row}
use help_mi.World.{World}
use help_mi.Handler.{run, ◌>>◌}
use help_mi.Payouts.{CreatePayoutInput, create_for_escrow_release}
use help_mi.Doer.{PayoutMethodDto, is_payout_method, all_digits, set_payout_method}
use help_mi.Outcomes.Destination.{PaidOut, set_payout_method-PaidOut}
use help_mi.Refunds.{InitiateRefundInput, initiate_for_escrow, retry, new_refund}
use help_mi.Tasks.Reads.{view_task}
use help_mi.Outcomes.Post.{Post}
use help_mi.Outcomes.Retrying.{Refunded, retry-Refunded}
use help_mi.Outcomes.Initiating.{
  Refundable, initiate_for_escrow-Refunded, initiate_for_escrow-again,
}
use help_mi.Outcomes.Stuck.{processing-Same}
use help_mi.Outcomes.Privacy.{Stranger, view_task-Same}
use help_mi.Examples.Sample.{sample_world, sample_task, sample_escrow, sample_profile}

abbrev by_admin : InitiateRefundInput
by_admin = record {
  escrow_id = "e1";
  task_id = "t1";
  reason = RefundReason.admin;
  initiated_by = "admin:0770";
}

sample-Refundable : Refundable sample_world by_admin sample_escrow
unfolding find_first
sample-Refundable = record {
  found = refl;
  captured = refl;
  unclaimed = refl;
  ready = refl;
  pays = refl;
}

initiate_for_escrow-Refunded_example :
    Post
      (Refunded sample_world (sample_world.services.uuid sample_world.next_id))
      (λ _. ⊥)
      (run (initiate_for_escrow by_admin) sample_world)
initiate_for_escrow-Refunded_example =
    initiate_for_escrow-Refunded sample_world by_admin sample_escrow sample-Refundable

abbrev by_poster : InitiateRefundInput
by_poster = record {
  escrow_id = "e1";
  task_id = "t1";
  reason = RefundReason.cancel;
  initiated_by = "ann";
}

initiate_for_escrow-again_example :
    Post
      (λ u v.
        (u.status ≡ RefundStatus.completed)
        × Post (λ u' v'. (u' ≡ u) × (v' ≡ v)) (λ _. ⊥) (run (initiate_for_escrow by_poster) v))
      (λ _. ⊥)
      (run (initiate_for_escrow by_admin) sample_world)
initiate_for_escrow-again_example =
    initiate_for_escrow-again sample_world by_admin sample_escrow sample-Refundable by_poster refl

abbrev failed_refund : Refund
failed_refund = record (new_refund sample_escrow by_admin "r1") {
  status = RefundStatus.failed;
  failure_reason = some "timeout";
  attempts = 1;
}

abbrev failed_world : World
failed_world = record sample_world {
  refunds = failed_refund ∷ [];
  escrows = record sample_escrow { status = EscrowStatus.refund_pending } ∷ [];
}

failed-found : find_first (λ r. r.id == "r1") failed_world.refunds ≡ some failed_refund
unfolding find_first
failed-found = refl

failed-escrow :
    find_first (λ e. e.id == "e1") failed_world.escrows
    ≡ some (record sample_escrow { status = EscrowStatus.refund_pending })
unfolding find_first
failed-escrow = refl

retry-Refunded_example :
    Post (Refunded failed_world "r1") (λ _. ⊥) (run (retry "r1" "0770") failed_world)
retry-Refunded_example =
    retry-Refunded failed_world failed_refund
      (record sample_escrow { status = EscrowStatus.refund_pending }) failed-found refl
      failed-escrow refl refl "0770"

-- The task with another doer, and with no escrow.
abbrev hidden_task : Task
hidden_task = record sample_task { doer_id = some "bob" }

abbrev hidden_world : World
hidden_world = record sample_world { tasks = hidden_task ∷ []; escrows = [] }

open-Stranger : Stranger sample_world "t1" (some "eve") sample_task
unfolding find_first
open-Stranger = record { found = refl; outside = refl }

hidden-Stranger : Stranger hidden_world "t1" (some "eve") hidden_task
unfolding find_first
hidden-Stranger = record { found = refl; outside = refl }

view_task-Same_example :
    (run (view_task "t1" (some "eve")) sample_world).0
    ≡ (run (view_task "t1" (some "eve")) hidden_world).0
view_task-Same_example =
    view_task-Same "t1" (some "eve") sample_world hidden_world sample_task hidden_task open-Stranger
      hidden-Stranger refl

abbrev bob_payout : CreatePayoutInput
bob_payout = record { escrow_id = "e1"; task_id = "t1"; doer_id = "bob"; amount = 425000 }

abbrev bob_bank : PayoutMethodDto
bob_bank = record {
  preferred_payout_method = PayoutMethod.bank;
  bank_account_name = "B. Perera";
  bank_account_number = "100254789632";
  bank_name = "Commercial Bank";
  bank_branch = none;
  wallet = sample_profile.wallet;
}

bob_bank-is_payout_method : is_payout_method bob_bank ≡ true
unfolding units points all_digits
bob_bank-is_payout_method = refl

bob-found : find_first (λ p. p.user_id == "bob") sample_world.profiles ≡ some sample_profile
unfolding find_first
bob-found = refl

bob-unclaimed :
    has_row
      (λ r.
        r.id == sample_world.services.uuid sample_world.next_id
        || r.escrow_id == bob_payout.escrow_id)
      sample_world.payouts
    ≡ false
unfolding find_first
bob-unclaimed = refl

set_payout_method-PaidOut_example :
    Post
      (PaidOut bob_payout)
      (λ _. ⊥)
      (run (set_payout_method "bob" bob_bank >> create_for_escrow_release bob_payout) sample_world)
set_payout_method-PaidOut_example =
    set_payout_method-PaidOut sample_world bob_payout bob_bank sample_profile
      bob_bank-is_payout_method bob-found bob-unclaimed

abbrev busy_refund : Refund
busy_refund = record (new_refund sample_escrow by_admin "r1") { status = RefundStatus.processing }

abbrev busy_world : World
busy_world = record failed_world { refunds = busy_refund ∷ [] }

busy-found : find_first (λ r. r.id == "r1") busy_world.refunds ≡ some busy_refund
unfolding find_first
busy-found = refl

busy-claimed : find_first (λ r. r.escrow_id == "e1") busy_world.refunds ≡ some busy_refund
unfolding find_first
busy-claimed = refl

processing-Same_example :
    Post (λ _ _. ⊥) (λ w'. w' ≡ busy_world) (run (retry "r1" "0770") busy_world)
    × Post
        (λ u w'. (u ≡ busy_refund) × (w' ≡ busy_world))
        (λ _. ⊥)
        (run (initiate_for_escrow by_admin) busy_world)
processing-Same_example =
    processing-Same busy_world busy_refund
      (record sample_escrow { status = EscrowStatus.refund_pending }) by_admin "0770" refl
      busy-found failed-escrow busy-claimed
