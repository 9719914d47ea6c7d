-- ===== src/Outcomes/Releasing/Overdue.antt =====
-- Which tasks `autoReleaseEscrows` of scheduler.service.ts takes.
use mathlib.Core.Path.{ap₂}
use mathlib.Core.Bool.{true≢false}
use help_mi.Common.{
  subst, ℕ, ◌+◌, ◌≤◌, ◌≡◌, refl, sym, ap, ◌∙◌, String, Option, none, some, true, ◌&&◌, ◌==◌, List,
  [], ◌∷◌, arith, inl, inr, &&-both, if◌then◌else◌,
}
use help_mi.Schema.{
  Task, Escrow, TaskStatus, EscrowStatus, PaymentMode, task_is, escrow_is, is_escrow,
}
use help_mi.Database.{find_first, find_many}
use help_mi.Database.Every.{if-either}
use help_mi.Database.Rowwise.{Has}
use help_mi.World.{World}
use help_mi.Tasks.Lifecycle.{is_none, is_held}
use help_mi.Scheduler.{is_due, due_since}
use help_mi.Outcomes.Statuses.{is_completed, is_held_status, is_absent}

-- A release is due: the task was completed a day ago or earlier and is not confirmed, it is an
-- ESCROW task, and its money is HELD.
pub record Due (w : World) (t : Task) : Type 0 where
  pub completed : t.status ≡ TaskStatus.completed
  pub mode : t.payment_mode ≡ PaymentMode.escrow
  pub unconfirmed : t.confirmed_at ≡ none
  pub at : ℕ
  pub done_at : t.completed_at ≡ some at
  pub a_day_ago : at + 86400000 ≤ w.clock
  pub escrow : Escrow
  pub found : find_first (λ e. e.task_id == t.id) w.escrows ≡ some escrow
  pub held : escrow.status ≡ EscrowStatus.held

pub is_due-Due : (w : World) (t : Task) → is_due w t ≡ true → Due w t
is_due-Due w t h =
    let kind = task_is t.status TaskStatus.completed && is_escrow t.payment_mode in
    let time = is_none t.confirmed_at && due_since t.completed_at w.clock in
    let (both, held) = &&-both (kind && time) _ h in
    let (first, times) = &&-both kind time both in
    let (done, mode) = &&-both (task_is t.status TaskStatus.completed) _ first in
    let (open_, late) = &&-both (is_none t.confirmed_at) _ times in
    let (at, done_at, ago) = since t.completed_at late in
    let (e, found, status) = of_escrow (find_first (λ e. e.task_id == t.id) w.escrows) held in
    record {
      completed = is_completed t.status done;
      mode = by_escrow t.payment_mode mode;
      unconfirmed = is_absent t.confirmed_at open_;
      at = at;
      done_at = done_at;
      a_day_ago = ago;
      escrow = e;
      found = found;
      held = status;
    }
  where
    since :
        (o : Option ℕ)
        → due_since o w.clock ≡ true
        → (at : ℕ) × (o ≡ some at) × (at + 86400000 ≤ w.clock)
    since none h = absurd (true≢false (sym h))
    since (some at) h = (at, refl, ground arith)

    by_escrow : (m : PaymentMode) → is_escrow m ≡ true → m ≡ PaymentMode.escrow
    by_escrow PaymentMode.escrow h = refl
    by_escrow PaymentMode.cash h = absurd (true≢false (sym h))

    of_escrow :
        (o : Option Escrow)
        → is_held o ≡ true
        → (e : Escrow) × (o ≡ some e) × (e.status ≡ EscrowStatus.held)
    of_escrow none h = absurd (true≢false (sym h))
    of_escrow (some e) h = (e, refl, is_held_status e.status h)

Due-is_due : (w : World) (t : Task) → Due w t → is_due w t ≡ true
Due-is_due w t d =
    ap₂ ◌&&◌
      (ap₂ ◌&&◌
        (ap₂ ◌&&◌ (ap (λ s. task_is s TaskStatus.completed) d.completed) (ap is_escrow d.mode))
        (ap₂ ◌&&◌ (ap (λ o. is_none o) d.unconfirmed)
          (ap (λ o. due_since o w.clock) d.done_at ∙ late d.at d.a_day_ago)))
      (ap is_held d.found ∙ ap (λ s. escrow_is s EscrowStatus.held) d.held)
  where
    late : (at : ℕ) → at + 86400000 ≤ w.clock → due_since (some at) w.clock ≡ true
    late at h = ground arith

pub find_many-Has :
    (w : World) (x : String) (ts : List Task)
    → Has (λ t. (t.id ≡ x) × Due w t) ts
    → Has (λ t. t.id ≡ x) (find_many (is_due w) ts)
unfolding find_many
find_many-Has w x [] none_there = absurd none_there
find_many-Has w x (t ∷ ts) (inl (same, d)) =
    subst
      (λ b.
        Has (λ t. t.id ≡ x) (if b then t ∷ find_many (is_due w) ts else find_many (is_due w) ts))
      (sym (Due-is_due w t d)) (inl same)
find_many-Has w x (t ∷ ts) (inr later) =
    if-either (Has (λ t. t.id ≡ x)) (is_due w t) (t ∷ find_many (is_due w) ts)
      (find_many (is_due w) ts) (λ _. inr (find_many-Has w x ts later))
      (λ _. find_many-Has w x ts later)
