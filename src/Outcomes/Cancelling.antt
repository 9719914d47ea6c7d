-- ===== src/Outcomes/Cancelling.antt =====
-- `executeCancel` of tasks.service.ts: what its transaction does.
use mathlib.Core.Bool.{true≢false}
use mathlib.Core.Path.{ap₂}
use help_mi.Common.{
  ap, sym, ◌∙◌, &&-both, eq-path, path-eq, ◌≡◌, refl, Bool, true, not, ◌&&◌, ◌==◌, arith, nat_eq,
}
use help_mi.Schema.{Task, TaskStatus, PaymentMode, Escrow, EscrowStatus, escrow_is, is_escrow}
use help_mi.Database.{count_rows}
use help_mi.Database.Rowwise.{Wrote, Wrote-update_rows, Has, Has-counted}
use help_mi.World.{World}
use help_mi.Handler.{run, transaction}
use help_mi.Refunds.{refund_pending_row}
use help_mi.Tasks.Cancel.{move_to_cancelled, claim_escrow, cancelled_task, is_cancellable}
use help_mi.Outcomes.Statuses.{is_held_status}
use help_mi.Outcomes.Post.{Post, Post-guard, Post-if, Post-transaction}

abbrev pub cancels : Task → Task → Bool
cancels t r = r.id == t.id && is_cancellable r.status

-- Money that is held for the task.
abbrev pub held_of : Task → Escrow → Bool
held_of t e = e.task_id == t.id && escrow_is e.status EscrowStatus.held

-- The statuses that a task can be cancelled in.
pub data CanStop : TaskStatus → Type 0 where
  unpaid : CanStop TaskStatus.pending_payment
  on_offer : CanStop TaskStatus.open_
  taken : CanStop TaskStatus.assigned
  started : CanStop TaskStatus.in_progress

can_stop : (s : TaskStatus) → is_cancellable s ≡ true → CanStop s
can_stop TaskStatus.pending_payment h = unpaid
can_stop TaskStatus.open_ h = on_offer
can_stop TaskStatus.assigned h = taken
can_stop TaskStatus.in_progress h = started
can_stop TaskStatus.completed h = absurd (true≢false (sym h))
can_stop TaskStatus.cancelled h = absurd (true≢false (sym h))
can_stop TaskStatus.disputed h = absurd (true≢false (sym h))

stops : {s : TaskStatus} → CanStop s → is_cancellable s ≡ true
stops unpaid = refl
stops on_offer = refl
stops taken = refl
stops started = refl

-- The task, while it can still be cancelled, and its money, while it is HELD.
abbrev pub Stoppable : Task → Task → Type 0
Stoppable t r = (r.id ≡ t.id) × CanStop r.status

abbrev pub HeldOf : Task → Escrow → Type 0
HeldOf t e = (e.task_id ≡ t.id) × (e.status ≡ EscrowStatus.held)

cancels-Stoppable : (t r : Task) → cancels t r ≡ true → Stoppable t r
cancels-Stoppable t r h =
    let (same, can) = &&-both (r.id == t.id) _ h in (eq-path r.id t.id same, can_stop r.status can)

Stoppable-cancels : (t r : Task) → Stoppable t r → cancels t r ≡ true
Stoppable-cancels t r (same, can) = ap₂ ◌&&◌ (path-eq r.id t.id same) (stops can)

held_of-HeldOf : (t : Task) (e : Escrow) → held_of t e ≡ true → HeldOf t e
held_of-HeldOf t e h =
    let (same, held) = &&-both (e.task_id == t.id) _ h in
    (eq-path e.task_id t.id same, is_held_status e.status held)

HeldOf-held_of : (t : Task) (e : Escrow) → HeldOf t e → held_of t e ≡ true
HeldOf-held_of t e (same, held) =
    ap₂ ◌&&◌ (path-eq e.task_id t.id same) (ap (λ s. escrow_is s EscrowStatus.held) held)

-- What a cancel has done once it has committed: the task could be cancelled and is CANCELLED, the
-- HELD money of an ESCROW task is REFUND_PENDING, and nothing else of both tables has changed.
pub record Cancelled (t : Task) (w w' : World) : Type 0 where
  pub possible : Has (Stoppable t) w.tasks
  pub tasks_after :
      Wrote (Stoppable t) (λ r r'. r' ≡ record r { status = TaskStatus.cancelled }) w.tasks w'.tasks
  pub money_claimed :
      t.payment_mode ≡ PaymentMode.escrow
      → Wrote
          (HeldOf t)
          (λ e e'. e' ≡ record e { status = EscrowStatus.refund_pending })
          w.escrows
          w'.escrows
  pub cash_apart : t.payment_mode ≡ PaymentMode.cash → w'.escrows ≡ w.escrows

-- The transaction of a cancel makes the task, which was waiting for its payment, on offer, ASSIGNED
-- or IN_PROGRESS, CANCELLED, and all HELD money of an ESCROW task REFUND_PENDING, and leaves every
-- other task and escrow as it was; or it throws and changes nothing at all.
pub move_to_cancelled-Post :
    (t : Task) (w : World)
    → Post (λ _ w'. Cancelled t w w') (λ w'. w' ≡ w) (run (transaction (move_to_cancelled t)) w)
unfolding move_to_cancelled claim_escrow
move_to_cancelled-Post t w = Post-transaction _ w (move_to_cancelled t) (
    let tasks_after =
      Wrote-update_rows (Stoppable t) (λ r r'. r' ≡ record r { status = TaskStatus.cancelled })
        (cancels t) (cancelled_task w.clock) w.tasks (cancels-Stoppable t) (Stoppable-cancels t)
        (λ _. refl) in
    Post-guard _ _ (not (nat_eq (count_rows (cancels t) w.tasks) 0)) _ _ _
      (λ some_row.
        let possible =
          Has-counted (Stoppable t) (cancels t) w.tasks (cancels-Stoppable t) (λ z. ground arith) in
        Post-if _ _ (is_escrow t.payment_mode) _ _ _
          (λ mode. record {
            possible = possible;
            tasks_after = tasks_after;
            money_claimed = λ _.
                Wrote-update_rows (HeldOf t)
                  (λ e e'. e' ≡ record e { status = EscrowStatus.refund_pending }) (held_of t)
                  (refund_pending_row w.clock) w.escrows (held_of-HeldOf t) (HeldOf-held_of t)
                  (λ _. refl);
            cash_apart = λ cash. absurd (true≢false (sym mode ∙ ap is_escrow cash));
          })
          (λ mode. record {
            possible = possible;
            tasks_after = tasks_after;
            money_claimed = λ m. absurd (true≢false (sym (ap is_escrow m) ∙ mode));
            cash_apart = λ _. refl;
          }))
      (λ _. tt))
