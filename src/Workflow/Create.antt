-- ===== src/Workflow/Create.antt =====
-- `create` takes its step of the task's life.
use mathlib.Core.Option
use help_mi.Common.{
  ◌≡◌, refl, sym, subst, Bool, true, false, ◌==◌, ◌||◌, Option, none, some, List, String,
  if◌then◌else◌,
}
use help_mi.Schema.{Task, TaskStatus, is_escrow}
use help_mi.Database.{find_first, add_row, has_row}
use help_mi.Database.Laws.{find_first-add_row}
use help_mi.World.{World, escrows, fees}
use help_mi.Handler.Interleave.{Keeps, Any, returns, steps, Keeps->>=, Keeps-if}
use help_mi.Handler.Inserts.{Keeps-create}
use help_mi.Tasks.Create.{
  CreateTaskDto, new_task, new_escrow, create_escrow, add_escrow, create_fee, new_fee, add_fee,
  create_task_row, create_task,
}
use help_mi.Outcomes.Post.{Post-guard, Post-or_throw, Post-created}
use help_mi.Requests.{Request, creates}
use help_mi.Workflow.{TaskState, in_state, Step, stays, posted}
use help_mi.Workflow.Leaves.{Leaves, Leaves-Keeps}
use help_mi.Workflow.View.{From, state, view, found_at}

module _ (i : String) (r : Request) (v : TaskState) where
  priced-Keeps :
      (t : Task)
      → Keeps (From i r v) Any (if is_escrow t.payment_mode then add_escrow t else add_fee t)
  unfolding add_escrow add_fee create_escrow create_fee
  priced-Keeps t =
      Keeps-if _
        (steps (λ w i. i)
          λ w i.
            Keeps->>=
              (Keeps-create escrows (λ new e. e.id == new.id || e.task_id == new.task_id)
                (λ id now. new_escrow w.services.fixed_percent t id) (λ w new j _ _. j))
              (λ _ _. returns tt))
        (Keeps->>=
          (Keeps-create fees (λ new f. f.id == new.id || f.task_id == new.task_id)
            (λ id now. new_fee t id) (λ w new j _ _. j))
          (λ _ _. returns tt))

module _ (i : String) where
  posted-Step :
      (poster : String) (dto : CreateTaskDto) (t : Task) (ts : List Task) (d : Bool)
      → t.status ≡ TaskStatus.pending_payment
      → Step i (creates poster dto) (state i ts d) (state i (add_row t ts) d)
  posted-Step poster dto t ts d fresh =
      subst
        (λ o.
          Step i r (state i ts d) (record { status = Option.map (λ t. t.status) o; disputed = d }))
        (sym (find_first-add_row (found_at i) t ts)) (of_found (find_first (found_at i) ts))
    where
      r : Request
      r = creates poster dto

      of_new :
          (b : Bool)
          → Step i r
              (record { status = none; disputed = d })
              (record {
                status = Option.map (λ t. t.status) (if b then some t else none);
                disputed = d;
              })
      of_new true =
          subst (λ s. Step i r (record { status = none; disputed = d }) (in_state s d)) (sym fresh)
            posted
      of_new false = stays

      of_found :
          (o : Option Task)
          → Step i r
              (record { status = Option.map (λ t. t.status) o; disputed = d })
              (record {
                status =
                    Option.map
                      (λ t. t.status)
                      (elim o [ none ↦ (if found_at i t then some t else none) | some u ↦ some u ]);
                disputed = d;
              })
      of_found none = of_new (found_at i t)
      of_found (some u) = stays

  pub create_task-Leaves :
      (poster : String) (dto : CreateTaskDto) (w : World)
      → Leaves (From i (creates poster dto) (view i w)) (create_task poster dto) w
  unfolding create_task create_task_row
  create_task-Leaves poster dto w =
      Post-or_throw _ _ (find_first (λ c. c.id == dto.category_id) w.categories) _ _ w
        (λ c _.
          Post-guard _ _ c.is_active _ _ w
            (λ _.
              let new = new_task poster dto c (w.services.uuid w.next_id) in
              Post-created _ _ (has_row (λ t. t.id == new.id) w.tasks) _ new _ _ _
                (λ _.
                  Leaves-Keeps _ {Q = Any} _ (priced-Keeps i (creates poster dto) (view i w) new)
                    (posted-Step poster dto new w.tasks _ refl))
                (λ _. stays))
            (λ _. stays))
        (λ _. stays)
