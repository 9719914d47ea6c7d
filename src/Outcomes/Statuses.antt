-- ===== src/Outcomes/Statuses.antt =====
-- What the tests of a status say.
use mathlib.Core.Bool.{true≢false}
use help_mi.Common.{◌≡◌, refl, sym, true, none, some, Option}
use help_mi.Schema.{TaskStatus, EscrowStatus, KycStatus, kyc_is, task_is, escrow_is}
use help_mi.Tasks.Lifecycle.{is_none}

pub is_open : (s : TaskStatus) → task_is s TaskStatus.open_ ≡ true → s ≡ TaskStatus.open_
is_open TaskStatus.open_ h = refl
is_open TaskStatus.assigned h = absurd (true≢false (sym h))
is_open TaskStatus.in_progress h = absurd (true≢false (sym h))
is_open TaskStatus.completed h = absurd (true≢false (sym h))
is_open TaskStatus.cancelled h = absurd (true≢false (sym h))
is_open TaskStatus.disputed h = absurd (true≢false (sym h))
is_open TaskStatus.pending_payment h = absurd (true≢false (sym h))

pub is_held_status :
    (s : EscrowStatus) → escrow_is s EscrowStatus.held ≡ true → s ≡ EscrowStatus.held
is_held_status EscrowStatus.held h = refl
is_held_status EscrowStatus.pending h = absurd (true≢false (sym h))
is_held_status EscrowStatus.released h = absurd (true≢false (sym h))
is_held_status EscrowStatus.refunded h = absurd (true≢false (sym h))
is_held_status EscrowStatus.disputed h = absurd (true≢false (sym h))
is_held_status EscrowStatus.refund_pending h = absurd (true≢false (sym h))

pub is_absent {ℓ} : {A : Type ℓ} (o : Option A) → is_none o ≡ true → o ≡ none
is_absent none h = refl
is_absent (some x) h = absurd (true≢false (sym h))

pub is_approved : (s : KycStatus) → kyc_is s KycStatus.approved ≡ true → s ≡ KycStatus.approved
is_approved KycStatus.approved h = refl
is_approved KycStatus.pending h = absurd (true≢false (sym h))
is_approved KycStatus.rejected h = absurd (true≢false (sym h))

pub is_completed :
    (s : TaskStatus) → task_is s TaskStatus.completed ≡ true → s ≡ TaskStatus.completed
is_completed TaskStatus.completed h = refl
is_completed TaskStatus.open_ h = absurd (true≢false (sym h))
is_completed TaskStatus.assigned h = absurd (true≢false (sym h))
is_completed TaskStatus.in_progress h = absurd (true≢false (sym h))
is_completed TaskStatus.cancelled h = absurd (true≢false (sym h))
is_completed TaskStatus.disputed h = absurd (true≢false (sym h))
is_completed TaskStatus.pending_payment h = absurd (true≢false (sym h))
