-- ===== src/Outcomes/Privacy.antt =====
-- What `findById` of tasks.service.ts tells of a task to someone who is no side of it.
use help_mi.Common.{
  Bool, ◌≡◌, sym, ap, ◌∙◌, String, Option, none, some, false, ◌==◌, given, if◌then◌else◌,
}
use help_mi.Schema.{Task}
use help_mi.Database.{find_first}
use help_mi.World.{World}
use help_mi.Handler.{run, or_throw, not_found, ok}
use help_mi.Tasks.Reads.{TaskView, public_part, is_side, stripped, view_of, viewed, view_task}

-- The task is there, and the requester is no side of it.
pub record Stranger (w : World) (id : String) (requester_id : Option String) (t : Task)
    : Type 0 where
  pub found : find_first (λ t. t.id == id) w.tasks ≡ some t
  pub outside : is_side t (given requester_id) ≡ false

second : (b : Bool) (x y : TaskView) → b ≡ false → (if b then x else y) ≡ y
second b x y h = ap (λ b. if b then x else y) h

module _ (id : String) (requester_id : Option String) where
  Stranger-viewed :
      (w : World) (t : Task)
      → Stranger w id requester_id t
      → viewed w id requester_id ≡ some (public_part (stripped t))
  Stranger-viewed w t s =
      ap (λ o. elim o [ none ↦ none | some x ↦ some (view_of w (given requester_id) x) ]) s.found
      ∙ ap some (second (is_side t (given requester_id)) _ _ s.outside)

  Stranger-run :
      (w : World) (t : Task)
      → Stranger w id requester_id t
      → (run (view_task id requester_id) w).0 ≡ ok (public_part (stripped t))
  unfolding view_task
  Stranger-run w t s =
      ap (λ o. (run (or_throw o (not_found "Task not found")) w).0) (Stranger-viewed w t s)

  -- In two worlds in which the task's public part is the same, a requester who is no side of it gets
  -- the same answer, whatever its doer, its escrow, its dispute and everything else there are.
  pub view_task-Same :
      (w w' : World) (t t' : Task)
      → Stranger w id requester_id t
      → Stranger w' id requester_id t'
      → stripped t ≡ stripped t'
      → (run (view_task id requester_id) w).0 ≡ (run (view_task id requester_id) w').0
  view_task-Same w w' t t' s s' same =
      Stranger-run w t s ∙ ap (λ x. ok (public_part x)) same ∙ sym (Stranger-run w' t' s')
