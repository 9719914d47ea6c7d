-- ===== src/Examples/Flows.antt =====
-- Whole flows of the sample world.
use mathlib.Core.Option
use help_mi.Common.{◌≡◌, refl, Option, some, true, [], ◌∷◌, ◌==◌, digit, decimal}
use help_mi.Schema.{EscrowStatus, TaskStatus}
use help_mi.Database.{find_first, update_rows, count_rows, add_row}
use help_mi.World.{World}
use help_mi.Handler.{run, ◌>>◌}
use help_mi.Refunds.{
  initiate_for_escrow, start, insert_refund, create_refund, execute, find_refund, attempt, settle,
  record_success,
}
use help_mi.Tasks.Lifecycle.{
  find_task, raise_dispute, record_dispute, create_dispute, freeze_escrow,
}
use help_mi.Tasks.Cancel.{
  cancel, execute_cancel, move_to_cancelled, claim_escrow, refund_by_mode, refund_cancelled,
  refund_if_pending,
}
use help_mi.Admin.{resolve_dispute, record_resolution, decide_escrow}
use help_mi.Handler.Interleave.{run_schedule, step_pool}
use help_mi.Auth.{issue_otp, send_code, latest, messages_sent}
use help_mi.Examples.Sample.{otp_world, sample_world, sample_task, sample_escrow}

-- The status of the sample escrow.
abbrev escrow_status : World → Option EscrowStatus
escrow_status w = Option.map (λ e. e.status) (find_first (λ e. e.id == "e1") w.escrows)

-- A cancel of the poster gives the money back at once.
cancel_test : escrow_status (run (cancel "t1" "ann") sample_world).1 ≡ some EscrowStatus.refunded
unfolding find_first update_rows count_rows add_row cancel execute_cancel find_task
    move_to_cancelled claim_escrow refund_by_mode refund_cancelled refund_if_pending
    initiate_for_escrow start insert_refund create_refund execute find_refund attempt settle
    record_success digit decimal
cancel_test = refl

-- The task is complete and confirmed, and its money is released.
abbrev released_world : World
released_world = record sample_world {
  tasks =
      record sample_task {
        status = TaskStatus.completed;
        doer_id = some "bob";
        confirmed_at = some 950;
      }
      ∷ [];
  escrows = record sample_escrow { status = EscrowStatus.released; released_at = some 950 } ∷ [];
}

-- A dispute after the release, resolved for the poster, marks the same money as refunded.
late_dispute_test :
    escrow_status
      (run
        (raise_dispute "t1" "ann" "late" >> resolve_dispute "id-7" "077" "ok" true)
        released_world).1
    ≡ some EscrowStatus.refunded
unfolding find_first update_rows count_rows add_row find_task raise_dispute record_dispute
    create_dispute freeze_escrow resolve_dispute record_resolution decide_escrow digit decimal
late_dispute_test = refl

-- Two requests for a code that run at the same time both find no recent one, and two codes go out.
cooldown_race_test :
    messages_sent
      (run_schedule
        (0 ∷ 1 ∷ 0 ∷ 1 ∷ 0 ∷ 1 ∷ 0 ∷ 1 ∷ 0 ∷ 1 ∷ [])
        (issue_otp "0771" ∷ issue_otp "0771" ∷ [])
        (record otp_world { otp_tokens = [] })).1.sms
    ≡ 2
unfolding find_first add_row issue_otp send_code latest digit decimal run_schedule step_pool
cooldown_race_test = refl
