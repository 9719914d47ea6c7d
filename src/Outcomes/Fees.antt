-- ===== src/Outcomes/Fees.antt =====
-- The fees of a new escrow in tasks.service.ts.
use help_mi.Common.{ℕ, ◌+◌, ◌*◌, ◌≤◌, String, or_default, arith}
use help_mi.Schema.{Task}
use help_mi.Tasks.Create.{new_escrow}

-- `+(x).toFixed(2)` of a percentage is within half a cent of it.
pub record Rounds (fixed_percent : ℕ → ℕ → ℕ) : Type 0 where
  pub not_above : (p b : ℕ) → 100 * fixed_percent p b ≤ p * b + 50
  pub not_below : (p b : ℕ) → p * b ≤ 100 * fixed_percent p b + 50

module _ (fixed_percent : ℕ → ℕ → ℕ) (rounds : Rounds fixed_percent) (task : Task)
    (id : String) where
  -- The doer's pay and the platform's fee from the doer are the budget, up to a cent.
  pub new_escrow-split :
      (or_default (new_escrow fixed_percent task id).net_doer_payout 0
          + (new_escrow fixed_percent task id).platform_fee_from_doer
        ≤ task.budget + 1)
      × (task.budget
          ≤ or_default (new_escrow fixed_percent task id).net_doer_payout 0
            + (new_escrow fixed_percent task id).platform_fee_from_doer
            + 1)
  new_escrow-split = (
    omega (
      arith,
      rounds.not_above 85 task.budget,
      rounds.not_above 15 task.budget,
      rounds.not_below 85 task.budget,
      rounds.not_below 15 task.budget,
    ),
    omega (
      arith,
      rounds.not_above 85 task.budget,
      rounds.not_above 15 task.budget,
      rounds.not_below 85 task.budget,
      rounds.not_below 15 task.budget,
    ),
  )
