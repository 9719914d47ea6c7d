-- ===== src/Safety/Money.antt =====
-- `create`, `confirm`, `releaseEscrow` and the cancels keep whatever is stable, and so does the
-- scheduler's release.
use help_mi.Common.{ℕ, ◌||◌, ◌==◌, List, String, opt_is}
use help_mi.Schema.{Task, Escrow, Category}
use help_mi.Database.{find_first}
use help_mi.World.{tasks, escrows, fees}
use help_mi.Handler.Interleave.{
  Keeps, returns, steps, Any, Keeps->>=, Keeps-transaction, Keeps-guard, Keeps-or_throw,
  Keeps-found, Keeps-if,
}
use help_mi.Handler.Inserts.{Keeps-create}
use help_mi.Tasks.Create.{
  CreateTaskDto, new_task, new_escrow, new_fee, create_escrow, create_fee, create_task_row,
  add_escrow, add_fee, create_task,
}
use help_mi.Tasks.Cancel.{move_to_cancelled, execute_cancel, cancel, force_cancel, is_cancellable}
use help_mi.Safety.Stable.{OfRows, Stable}
use help_mi.Safety.Quiet.{quiet}
use help_mi.Safety.Release
use help_mi.Safety.Tasks.{find_task-Keeps}

module _ {P : List Task → List Escrow → Type 0} {Known : Task → Type 0}
    {KnownEscrow : Escrow → Type 0} (s : Stable P Known KnownEscrow) where
  create_escrow-Keeps : (f : ℕ → ℕ → ℕ) (t : Task) → Keeps (OfRows P) Any (create_escrow f t)
  unfolding create_escrow
  create_escrow-Keeps f t =
      Keeps-create escrows (λ new e. e.id == new.id || e.task_id == new.task_id)
        (λ id now. new_escrow f t id) (λ w new i _ h. s.new_escrow new w.tasks w.escrows h i)

  create_fee-Keeps : (t : Task) → Keeps (OfRows P) Any (create_fee t)
  unfolding create_fee
  create_fee-Keeps t =
      Keeps-create fees (λ new f. f.id == new.id || f.task_id == new.task_id)
        (λ id now. new_fee t id) (λ w new i _ _. i)

  create_task_row-Keeps :
      (poster : String) (dto : CreateTaskDto) (c : Category)
      → Keeps (OfRows P) Any (create_task_row poster dto c)
  unfolding create_task_row
  create_task_row-Keeps poster dto c =
      Keeps-create tasks (λ new t. t.id == new.id) (λ id now. new_task poster dto c id)
        (λ w new i _ h. s.new_task new w.tasks w.escrows h i)

  pub create_task-Keeps :
      (poster : String) (dto : CreateTaskDto) → Keeps (OfRows P) Any (create_task poster dto)
  unfolding create_task add_escrow add_fee
  create_task-Keeps poster dto =
      steps (λ w i. i)
        λ w i.
          Keeps->>= (Keeps-or_throw (find_first (λ c. c.id == dto.category_id) w.categories) _)
            λ c _. Keeps->>= (Keeps-guard c.is_active _) λ _ _.
              Keeps->>= (create_task_row-Keeps poster dto c) λ t _.
                Keeps-if _
                  (steps (λ w i. i) λ w i. Keeps->>= (create_escrow-Keeps _ t) (λ _ _. returns tt))
                  (Keeps->>= (create_fee-Keeps t) (λ _ _. returns tt))

  execute_cancel-Keeps :
      (t : Task) (by : String) → Known t → Keeps (OfRows P) Any (execute_cancel t by)
  unfolding execute_cancel
  execute_cancel-Keeps t by known = Keeps->>= (Keeps-guard (is_cancellable t.status) _) λ _ _.
      Keeps->>= (Keeps-transaction Any (move_to_cancelled t) (λ w i. s.cancelled t w known i))
        λ _ _.
          Keeps->>= (Release.refund_by_mode-Keeps (quiet s) t by)
            λ _ _. steps (λ w i. i) λ w i. steps (λ w i. i) λ w i. Keeps-found _ _ (λ _. tt)

  pub cancel-Keeps : (id user : String) → Keeps (OfRows P) Any (cancel id user)
  unfolding cancel
  cancel-Keeps id user = Keeps->>= (find_task-Keeps s id) λ t known.
      Keeps->>= (Keeps-guard (t.poster_id == user || opt_is t.doer_id user) _)
        λ _ _. execute_cancel-Keeps t user known

  pub force_cancel-Keeps : (id admin : String) → Keeps (OfRows P) Any (force_cancel id admin)
  unfolding force_cancel
  force_cancel-Keeps id admin =
      Keeps->>= (find_task-Keeps s id) λ t known. execute_cancel-Keeps t _ known
