-- ===== src/Safety/Strand/Funding.antt =====
-- How the funding of an escrow keeps what is said of a task's money: `applyEscrowPayment` of
-- payments.service.ts.
use help_mi.Common.{
  ℕ, ◌≡◌, refl, sym, ap, ◌∙◌, subst, Bool, true, false, ◌==◌, some, List, String, arith, nat_eq,
  if◌then◌else◌, eq-path, eq-meet, eq-join,
}
use mathlib.Core.Option
use help_mi.Schema.{Task, Escrow, PaymentMode, TaskStatus, EscrowStatus, task_is}
use help_mi.Database.{find_first, update_rows, count_rows}
use help_mi.Database.Laws.{find_first-fits, find_first-update_rows}
use help_mi.Database.Counts.{count_rows-unfit, only-row}
use help_mi.World.{World}
use help_mi.Handler.{Handler, run, Error, guard, ◌>>◌}
use help_mi.Handler.Interleave.{Ends, Any}
use help_mi.Payments.Webhook.{
  fund_escrow, capture_unpromoted, opened_task, is_dead, promotes, captures, captured_row,
}
use help_mi.Safety.Stable.{OfRows}
use help_mi.Safety.Secured.{Secured, mislinked, moved-Secured, written-Secured}

pub Ends-if :
    {A : Type 0} (Inv : World → Type 0) (b : Bool) (m n : Handler A) (w : World)
    → (b ≡ true → Ends Inv Any (run m w))
    → (b ≡ false → Ends Inv Any (run n w))
    → Ends Inv Any (run (if b then m else n) w)
Ends-if Inv true m n w h k = h refl
Ends-if Inv false m n w h k = k refl

pub Ends-guard :
    {A : Type 0} (Inv : World → Type 0) (b : Bool) (e : Error) (m : Handler A) (w : World)
    → Ends Inv Any (run m w)
    → Ends Inv Any (run (guard b e >> m) w)
Ends-guard Inv true e m w h = h
Ends-guard Inv false e m w h = tt

not-true : (b : Bool) → (b ≡ true → ⊥) → b ≡ false
not-true true h = absurd (h refl)
not-true false h = refl

module _ (id x : String) where
  abbrev pub MoneyOf : List Task → List Escrow → Type 0
  MoneyOf = Secured id x

  abbrev pub KnownTask : Task → Type 0
  KnownTask t = (t.id == id) ≡ true → t.payment_mode ≡ PaymentMode.escrow

  abbrev pub KnownEscrow : Escrow → Type 0
  KnownEscrow e = (e.id == x) ≡ (e.task_id == id)

  pub known_task :
      (i : String) (ts : List Task) (es : List Escrow) {t : Task}
      → MoneyOf ts es
      → find_first (λ r. r.id == i) ts ≡ some t
      → KnownTask t
  known_task i ts es {t} s e own =
      let fits = find_first-fits (λ r. r.id == i) ts e in
      let same = sym (eq-path t.id i fits) ∙ eq-path t.id id own in
      let e' = subst (λ j. find_first (λ r. r.id == j) ts ≡ some t) same e in
      ground (arith, s.found, s.mode)

  pub known_escrow :
      (p : Escrow → Bool) (ts : List Task) (es : List Escrow) {e : Escrow}
      → MoneyOf ts es
      → find_first p es ≡ some e
      → KnownEscrow e
  known_escrow p ts es s e = ground (arith, count_rows-unfit p (mislinked id x) es e s.linked)

  -- Money that is put into an escrow strands none here, if it is another task's or if this task
  -- is not CANCELLED.
  hold-Secured :
      (e : Escrow) (p : Escrow → Bool) (f : Escrow → Escrow) (ts : List Task) (es : List Escrow)
      → KnownEscrow e
      → ((r : Escrow) → (f r).id ≡ r.id)
      → ((r : Escrow) → (f r).task_id ≡ r.task_id)
      → ((r : Escrow) → p r ≡ true → (r.id == e.id) ≡ true)
      → (s : MoneyOf ts es) → ((e.task_id == id) ≡ true → s.task.status ≡ TaskStatus.cancelled → ⊥)
      → MoneyOf ts (update_rows p f es)
  hold-Secured e p f ts es known same_id same_task own s alive =
      written-Secured id x s p f same_id same_task λ c r.
        let other = not-true (e.task_id == id) (λ h. alive h c) in
        ground (arith, same_task r, own r, eq-meet r.id e.id x, known, other)

  promoted-MoneyOf :
      (e : Escrow) (now : ℕ) (ts : List Task) (es : List Escrow)
      → MoneyOf ts es
      → MoneyOf (update_rows (promotes e.task_id) (opened_task now) ts) es
  promoted-MoneyOf e now ts es s =
      moved-Secured id x s (promotes e.task_id) (opened_task now) (λ t. refl) (λ t. refl)
        (λ _ _ c. ground arith)

  no-cancel :
      (e : Escrow) (now : ℕ) (t t' : Task)
      → some t' ≡ some (if promotes e.task_id t then opened_task now t else t)
      → (t.id == e.task_id) ≡ true
      → task_is t.status TaskStatus.pending_payment ≡ true
      → t'.status ≡ TaskStatus.cancelled
      → ⊥
  no-cancel e now t t' h own pending c = ground arith

  -- The one task of the id that was promoted is no longer CANCELLED.
  opened-alive :
      (e : Escrow) (now : ℕ) (ts : List Task) (es : List Escrow) (s : MoneyOf ts es)
      → nat_eq (count_rows (promotes e.task_id) ts) 1 ≡ true
      → (e.task_id == id) ≡ true
      → (promoted-MoneyOf e now ts es s).task.status ≡ TaskStatus.cancelled
      → ⊥
  opened-alive e now ts es s one own =
      let one' =
        subst (λ i. nat_eq (count_rows (promotes i) ts) 1 ≡ true) (eq-path e.task_id id own) one in
      let pending =
        only-row (λ t. t.id == id) (λ t. task_is t.status TaskStatus.pending_payment) ts s.found
          s.unique (ground arith) in
      let fits = find_first-fits (λ t. t.id == id) ts s.found in
      let after =
        find_first-update_rows (λ t. t.id == id) (promotes e.task_id) (opened_task now) ts
          (λ t. refl) in
      let written =
        ap (Option.map (λ t. if promotes e.task_id t then opened_task now t else t)) s.found in
      let own_task = eq-join s.task.id e.task_id id fits own in
      no-cancel e now s.task (promoted-MoneyOf e now ts es s).task
        (sym (promoted-MoneyOf e now ts es s).found ∙ after ∙ written) own_task pending

  found-alive :
      (e : Escrow) (ts : List Task) (es : List Escrow) (s : MoneyOf ts es)
      → is_dead (find_first (λ t. t.id == e.task_id) ts) ≡ false
      → (e.task_id == id) ≡ true
      → s.task.status ≡ TaskStatus.cancelled
      → ⊥
  found-alive e ts es s alive own =
      let alive' =
        subst (λ i. is_dead (find_first (λ t. t.id == i) ts) ≡ false) (eq-path e.task_id id own)
          alive in
      ground (arith, s.found)

  pub funded-MoneyOf :
      (e : Escrow) (payment_id : String) (w : World)
      → KnownEscrow e
      → MoneyOf w.tasks w.escrows
      → Ends (OfRows MoneyOf) Any (run (fund_escrow e payment_id) w)
  unfolding fund_escrow capture_unpromoted
  funded-MoneyOf e payment_id w known s =
      let s' = promoted-MoneyOf e w.clock w.tasks w.escrows s in
      let ts' = update_rows (promotes e.task_id) (opened_task w.clock) w.tasks in
      Ends-if (OfRows MoneyOf) (nat_eq (count_rows (promotes e.task_id) w.tasks) 1) _ _ _
        (λ one. (
          hold-Secured e (captures e.id) (captured_row payment_id EscrowStatus.held w.clock) ts'
              w.escrows known (λ r. refl) (λ r. refl) (λ r. ground arith) s'
              (opened-alive e w.clock w.tasks w.escrows s one),
          tt,
        ))
        (λ _.
          Ends-if (OfRows MoneyOf) (is_dead (find_first (λ t. t.id == e.task_id) ts')) _ _ _
            (λ d. (
              written-Secured id x s' (captures e.id)
                  (captured_row payment_id EscrowStatus.refund_pending w.clock) (λ r. refl)
                  (λ r. refl) (λ c r. ground arith),
              tt,
            ))
            (λ d. (
              hold-Secured e (captures e.id) (captured_row payment_id EscrowStatus.held w.clock) ts'
                  w.escrows known (λ r. refl) (λ r. refl) (λ r. ground arith) s'
                  (found-alive e ts' w.escrows s' d),
              tt,
            )))
