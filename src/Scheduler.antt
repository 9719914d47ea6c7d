-- ===== src/Scheduler.antt =====
-- backend/src/scheduler/scheduler.service.ts.
use help_mi.Common.{
  ℕ, ◌+◌, ◌*◌, Option, none, some, Bool, true, false, ◌&&◌, List, [], ◌∷◌, ◌==◌, leb, if◌then◌else◌,
}
use help_mi.Schema.{TaskStatus, Task, task_is, is_escrow}
use help_mi.Database.{rows_in, find_first, find_many}
use help_mi.World.{World}
use help_mi.Handler.{Handler, pure, ◌>>=◌, catch}
use help_mi.Handler.Calls.{reads}
use help_mi.Refunds.Reconcile.{ReconcileResult, reconcile}
use help_mi.Tasks.Lifecycle.{is_none, is_held}
use help_mi.Tasks.Release.{release_escrow}

-- `AUTO_RELEASE_AFTER_HOURS` in milliseconds
abbrev pub auto_release_after : ℕ
auto_release_after = 24 * 60 * 60 * 1000

-- `completedAt: { lte: cutoff }` with `cutoff = now - 24 h`; null is no match.
abbrev pub due_since : Option ℕ → ℕ → Bool
due_since none now = false
due_since (some at) now = leb (at + auto_release_after) now

abbrev pub is_due : World → Task → Bool
is_due w t =
    (task_is t.status TaskStatus.completed && is_escrow t.payment_mode)
    && (is_none t.confirmed_at && due_since t.completed_at w.clock)
    && is_held (find_first (λ e. e.task_id == t.id) w.escrows)

pub record AutoReleaseResult : Type 0 where
  pub scanned : ℕ
  pub released : ℕ

-- One round of the loop: 1 if this call released the escrow, 0 if not or if it throws.
unfoldable pub auto_release : Task → Handler ℕ
auto_release t =
    catch (release_escrow t.id t.doer_id false true >>= λ did. pure (if did then 1 else 0))
      (λ _. pure 0)

unfoldable pub auto_release_all : List Task → Handler ℕ
auto_release_all [] = pure 0
auto_release_all (t ∷ ts) = do n ← auto_release t; m ← auto_release_all ts; pure (n + m)

-- `autoReleaseEscrows`
unfoldable pub auto_release_escrows : Handler AutoReleaseResult
auto_release_escrows = do
  due ← reads (λ w. find_many (is_due w) w.tasks)
  released ← auto_release_all due
  pure (record { scanned = rows_in due; released = released })

-- `reconcileRefunds`
unfoldable pub reconcile_refunds : Handler ReconcileResult
reconcile_refunds = reconcile
