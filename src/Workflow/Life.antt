-- ===== src/Workflow/Life.antt =====
-- What the steps of a task's life come to: where a dispute leaves it, and that it only goes on.
use help_mi.Common.{◌≡◌, ◌≤◌, ℕ, Bool, true, false, not, none, some, List, String, arith}
use help_mi.Schema.{TaskStatus}
use help_mi.World.{World}
use help_mi.Tasks.Cancel.{is_cancellable}
use help_mi.Requests.{Request}
use help_mi.Workflow.{
  TaskState, Step, stays, posted, opened, taken, begun, finished_early, finished, called_off,
  forced_off, contested, settled,
}
use help_mi.Workflow.View.{view}
use help_mi.Workflow.Refine.{Steps, done, next, serve_each, serve_each-Steps}

-- A task with a dispute is DISPUTED or COMPLETED, and one without is not DISPUTED.
abbrev agrees : TaskStatus → Bool → Bool
agrees TaskStatus.disputed d = d
agrees TaskStatus.completed d = true
agrees _ d = not d

abbrev pub is_sound : TaskState → Bool
is_sound s = elim s.status [ none ↦ not s.disputed | some t ↦ agrees t s.disputed ]

-- How far a task has come; COMPLETED after a dispute is further than DISPUTED.
abbrev rank : TaskStatus → Bool → ℕ
rank TaskStatus.pending_payment d = 1
rank TaskStatus.open_ d = 2
rank TaskStatus.assigned d = 3
rank TaskStatus.in_progress d = 4
rank TaskStatus.completed false = 5
rank TaskStatus.disputed d = 6
rank TaskStatus.completed true = 7
rank TaskStatus.cancelled d = 8

abbrev pub progress : TaskState → ℕ
progress s = elim s.status [ none ↦ 0 | some t ↦ rank t s.disputed ]

cancelled-forward :
    (s : TaskStatus) (d : Bool)
    → is_cancellable s ≡ true
    → agrees s d ≡ true
    → (agrees TaskStatus.cancelled d ≡ true) × (rank s d ≤ 8)
cancelled-forward s d can ok = ground arith

module _ {i : String} where
  Step-forward :
      {r : Request} {s t : TaskState}
      → Step i r s t
      → is_sound s ≡ true
      → (is_sound t ≡ true) × (progress s ≤ progress t)
  Step-forward stays ok = (ok, ground arith)
  Step-forward (posted {d}) ok = ground arith
  Step-forward (opened {d}) ok = ground arith
  Step-forward (taken {d} p) ok = ground arith
  Step-forward (begun {d} p) ok = ground arith
  Step-forward (finished_early {d} p) ok = ground arith
  Step-forward (finished {d} p) ok = ground arith
  Step-forward (called_off {s} {d} p can) ok = cancelled-forward s d can ok
  Step-forward (forced_off {s} {d} p can) ok = cancelled-forward s d can ok
  Step-forward (contested {s} p can) ok = ground arith
  Step-forward (settled {s}) ok = ground arith

  Steps-forward :
      {rs : List Request} {s t : TaskState}
      → Steps i rs s t
      → is_sound s ≡ true
      → (is_sound t ≡ true) × (progress s ≤ progress t)
  Steps-forward done ok = (ok, ground arith)
  Steps-forward (next step rest) ok =
      let (ok', here) = Step-forward step ok in
      let (ok'', there) = Steps-forward rest ok' in (ok'', ground arith)

-- If the task is DISPUTED only where it has a dispute, and DISPUTED or COMPLETED where it has one,
-- then this is so after any requests that are served one after the other, and they never bring the
-- task back to an earlier stage of its life, in the order of waiting for payment, open, assigned,
-- in progress, completed, disputed, settled, cancelled.
pub serve_each-progress :
    (i : String) (requests : List Request) (w : World)
    → is_sound (view i w) ≡ true
    → (is_sound (view i (serve_each requests w)) ≡ true)
      × (progress (view i w) ≤ progress (view i (serve_each requests w)))
serve_each-progress i requests w ok = Steps-forward (serve_each-Steps i requests w) ok
