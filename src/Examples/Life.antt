-- ===== src/Examples/Life.antt =====
-- A task of the sample world goes through its life.
use help_mi.Common.{◌≡◌, refl, ◌≤◌, List, true, [], ◌∷◌, digit, decimal}
use help_mi.Schema.{TaskStatus}
use help_mi.Database.{find_first, update_rows, count_rows, add_row}
use help_mi.Requests.{Request, accepts, starts, completes, disputes}
use help_mi.Tasks.Lifecycle.{
  accept, assign, check_doer, check_funds, check_held, find_task, ensure_task_doer, mark_started,
  mark_complete, raise_dispute, record_dispute, create_dispute, freeze_escrow,
}
use help_mi.Workflow.{in_state}
use help_mi.Workflow.View.{view}
use help_mi.Workflow.Refine.{Steps, serve_each, serve_each-Steps}
use help_mi.Workflow.Life.{is_sound, progress, serve_each-progress}
use help_mi.Examples.Sample.{sample_world}

-- Bob takes the task, does it, and Ann disputes it.
abbrev life : List Request
life =
    accepts "t1" "bob"
    ∷ starts "t1" "bob"
    ∷ completes "t1" "bob" "photo"
    ∷ disputes "t1" "ann" "late"
    ∷ []

life_test : view "t1" (serve_each life sample_world) ≡ in_state TaskStatus.disputed true
unfolding find_first update_rows count_rows add_row serve_each accept assign check_doer check_funds
    check_held find_task ensure_task_doer mark_started mark_complete raise_dispute record_dispute
    create_dispute freeze_escrow digit decimal
life_test = refl

sample-is_sound : is_sound (view "t1" sample_world) ≡ true
unfolding find_first
sample-is_sound = refl

serve_each-Steps_example :
    Steps "t1" life (view "t1" sample_world) (view "t1" (serve_each life sample_world))
serve_each-Steps_example = serve_each-Steps "t1" life sample_world

serve_each-progress_example :
    (is_sound (view "t1" (serve_each life sample_world)) ≡ true)
    × (progress (view "t1" sample_world) ≤ progress (view "t1" (serve_each life sample_world)))
serve_each-progress_example = serve_each-progress "t1" life sample_world sample-is_sound
