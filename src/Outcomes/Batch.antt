-- ===== src/Outcomes/Batch.antt =====
-- The reconciliation always returns, whatever its refunds meet, and counts what it did.
use help_mi.Common.{ℕ, ◌≤◌, Bool, true, false, List, [], ◌∷◌, arith, if◌then◌else◌, zero, suc, ◌&&◌}
use help_mi.Schema.{Escrow, EscrowStatus, RefundStatus, escrow_is, refund_is}
use help_mi.Database.{take_rows, rows_in, find_many}
use help_mi.World.{World}
use help_mi.Handler.{Handler, pure, throw, await, ◌>>=◌, catch}
use help_mi.Refunds.{initiate_for_escrow}
use help_mi.Refunds.Reconcile.{reconcile, drive, drive_all, on_cancelled_task}

-- The handler never throws, and `Q` holds of what it returns, whatever worlds its steps meet.
pub data Returns {A : Type 0} (Q : A → Type 0) : Handler A → Type 0 where
  at_once : {a : A} → Q a → Returns Q (pure a)
  after_step :
      {f : World → World} {rest : World → Handler A}
      → ((w : World) → Returns Q (rest w))
      → Returns Q (await f rest)

Returns->>= :
    {A B : Type 0} {Q : A → Type 0} {R : B → Type 0} {m : Handler A} {k : A → Handler B}
    → Returns Q m
    → ((a : A) → Q a → Returns R (k a))
    → Returns R (m >>= k)
Returns->>= (at_once {a} q) next = next a q
Returns->>= (after_step h) next = after_step (λ w. Returns->>= (h w) next)

-- A handler whose every error is caught returns.
Returns-catch :
    {A B : Type 0} {Q : B → Type 0} (m : Handler A) (k : A → B) (b : B)
    → ((a : A) → Q (k a))
    → Q b
    → Returns Q (catch (m >>= λ a. pure (k a)) (λ _. pure b))
Returns-catch (pure a) k b h q = at_once (h a)
Returns-catch (throw e) k b h q = at_once q
Returns-catch (await f rest) k b h q = after_step (λ w. Returns-catch (rest w) k b h q)

one_or_none : (b : Bool) → (if b then 1 else 0) ≤ 1
one_or_none true = omega arith
one_or_none false = omega arith

drive-Returns : (e : Escrow) → Returns (λ n. n ≤ 1) (drive e)
unfolding drive
drive-Returns e =
    Returns-catch (initiate_for_escrow _)
      (λ r. if refund_is r.status RefundStatus.completed then 1 else 0) 0
      (λ r. one_or_none (refund_is r.status RefundStatus.completed)) (omega arith)

drive_all-Returns : (es : List Escrow) → Returns (λ n. n ≤ rows_in es) (drive_all es)
unfolding drive_all rows_in
drive_all-Returns [] = at_once (omega arith)
drive_all-Returns (e ∷ es) =
    Returns->>= (drive-Returns e)
      λ n h. Returns->>= (drive_all-Returns es) λ m k. at_once (omega arith)

rows_in-take_rows : {A : Type 0} (n : ℕ) (rows : List A) → rows_in (take_rows n rows) ≤ n
unfolding rows_in take_rows
rows_in-take_rows zero rows = omega arith
rows_in-take_rows (suc n) [] = omega arith
rows_in-take_rows (suc n) (r ∷ rows) = omega (arith, rows_in-take_rows n rows)

-- A reconciliation never throws, drives at most 200 escrows, and completes no more refunds than
-- it has driven, also when other handlers run between its steps.
pub reconcile-Returns : Returns (λ r. (r.completed ≤ r.scanned) × (r.scanned ≤ 200)) reconcile
unfolding reconcile
reconcile-Returns = after_step λ w.
    let b =
      rows_in-take_rows 100
        (find_many (λ e. escrow_is e.status EscrowStatus.refund_pending) w.escrows) in
    Returns->>= (drive_all-Returns _) λ n h. after_step λ w'.
      let b' = rows_in-take_rows 100 (
        find_many (λ e. escrow_is e.status EscrowStatus.held && on_cancelled_task w' e)
          w'.escrows) in
      Returns->>= (drive_all-Returns _) λ m k. at_once (omega (arith, b, b'), omega (arith, b, b'))
