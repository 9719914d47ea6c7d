-- ===== src/Workflow/View.antt =====
-- What the tables say of one task, and what the handlers do to that.
use mathlib.Core.Option
use mathlib.Core.Option.{some-injective}
use help_mi.Common.{
  ◌≡◌, refl, sym, ap, ◌∙◌, subst, Bool, true, false, ◌==◌, Option, none, some, List, String, arith,
  if◌then◌else◌, eq-path, eq-meet,
}
use help_mi.Schema.{Task, Dispute, TaskStatus, task_is}
use help_mi.Database.{find_first, update_rows, has_row}
use help_mi.Database.Laws.{find_first-update_rows, find_first-fits}
use help_mi.World.{World}
use help_mi.Handler.{Handler, run, ◌>>=◌}
use help_mi.Handler.Interleave.{Keeps}
use help_mi.Tasks.Release.{confirmed_task}
use help_mi.Requests.{Request}
use help_mi.Outcomes.Post.{Post-weaken, Post->>=}
use help_mi.Safety.Quiet.{Quiet}
use help_mi.Workflow.Leaves.{Leaves, Leaves-Keeps, Leaves-then}
use help_mi.Workflow.{TaskState, in_state, Step, stays}

pub task_is-path : (s u : TaskStatus) → task_is s u ≡ true → s ≡ u
task_is-path s u h = ground arith

module _ (i : String) where
  abbrev pub found_at : Task → Bool
  found_at t = t.id == i

  abbrev pub contested_at : Dispute → Bool
  contested_at d = d.task_id == i

  abbrev pub state : List Task → Bool → TaskState
  state ts d = record { status = Option.map (λ t. t.status) (find_first found_at ts); disputed = d }

  abbrev pub view : World → TaskState
  view w = state w.tasks (has_row contested_at w.disputes)

  -- The state is as it was, and the request has made at most its step from it.
  abbrev pub Same : TaskState → World → Type 0
  Same v w = view w ≡ v

  abbrev pub From : Request → TaskState → World → Type 0
  From r v w = Step i r v (view w)

  pub Same-From : (r : Request) (v : TaskState) (w : World) → Same v w → From r v w
  Same-From r v w same = subst (Step i r v) (sym same) stays

  pub Leaves-looks :
      {A B : Type 0} {Q : A → Type 0} (r : Request) (v : TaskState) {m : Handler A}
      (k : A → Handler B) (w : World)
      → Keeps (Same v) Q m
      → Same v w
      → ((a : A) (w : World) → Same v w → Leaves (From r v) (k a) w)
      → Leaves (From r v) (m >>= k) w
  Leaves-looks r v k w keeps same next =
      Leaves-then (Same v) (From r v) k w keeps same (Same-From r v) next

  -- A write moves the task as it moves the row that the table holds for it.
  pub Step-update_rows :
      (r : Request) (q : Task → Bool) (f : Task → Task) (ts : List Task) (d : Bool)
      → ((t : Task) → (f t).id ≡ t.id)
      → ((t : Task)
          → find_first found_at ts ≡ some t
          → q t ≡ true
          → Step i r (in_state t.status d) (in_state (f t).status d))
      → Step i r (state ts d) (state (update_rows q f ts) d)
  Step-update_rows r q f ts d keeps_id moves =
      subst
        (λ o.
          Step i r (state ts d) (record { status = Option.map (λ t. t.status) o; disputed = d }))
        (sym (find_first-update_rows found_at q f ts (λ t. ap (λ s. s == i) (keeps_id t))))
        (of_found (find_first found_at ts) moves)
    where
      of_row :
          (t : Task) (b : Bool)
          → (b ≡ true → Step i r (in_state t.status d) (in_state (f t).status d))
          → Step i r (in_state t.status d) (in_state (if b then f t else t).status d)
      of_row t true h = h refl
      of_row t false h = stays

      of_found :
          (o : Option Task)
          → ((t : Task)
              → o ≡ some t
              → q t ≡ true
              → Step i r (in_state t.status d) (in_state (f t).status d))
          → Step i r
              (record { status = Option.map (λ t. t.status) o; disputed = d })
              (record {
                status = Option.map (λ t. t.status) (Option.map (λ t. if q t then f t else t) o);
                disputed = d;
              })
      of_found none h = stays
      of_found (some t) h = of_row t (q t) (h t refl)

  -- A write under an id that reaches the task's row is under the task's id.
  pub names :
      (id : String) (ts : List Task) {t : Task}
      → find_first found_at ts ≡ some t
      → (t.id == id) ≡ true
      → (id == i) ≡ true
  names id ts {t} here reached = eq-meet t.id id i reached (find_first-fits found_at ts here)

  -- The row of the task is the row that a handler has read under an id, if its write reaches it.
  pub same_row :
      (id : String) (ts : List Task) {t u : Task}
      → find_first (λ t. t.id == id) ts ≡ some u
      → find_first found_at ts ≡ some t
      → (t.id == id) ≡ true
      → t ≡ u
  same_row id ts {t} {u} read here reached = some-injective _ _ (
      sym here
      ∙ ap (λ s. find_first (λ t. t.id == s) ts) (sym (eq-path id i (names id ts here reached)))
      ∙ read)

  -- A write that leaves every status leaves the state.
  pub state-update_rows :
      (q : Task → Bool) (f : Task → Task) (ts : List Task) (d : Bool)
      → ((t : Task) → (f t).id ≡ t.id)
      → ((t : Task) → (f t).status ≡ t.status)
      → state (update_rows q f ts) d ≡ state ts d
  state-update_rows q f ts d keeps_id keeps_status =
      ap (λ o. record { status = o; disputed = d })
        (ap (Option.map (λ t. t.status))
            (find_first-update_rows found_at q f ts (λ t. ap (λ s. s == i) (keeps_id t)))
          ∙ unmoved (find_first found_at ts))
    where
      of_row : (t : Task) (b : Bool) → (if b then f t else t).status ≡ t.status
      of_row t true = keeps_status t
      of_row t false = refl

      unmoved :
          (o : Option Task)
          → Option.map (λ t. t.status) (Option.map (λ t. if q t then f t else t) o)
            ≡ Option.map (λ t. t.status) o
      unmoved none = refl
      unmoved (some t) = ap some (of_row t (q t))

  -- What is said of the state alone withstands the quiet handlers.
  pub Quiet-state :
      (S : TaskState → Type 0) → Quiet (λ ts es ds. S (state ts (has_row contested_at ds)))
  Quiet-state S = record {
    lowered = λ p f ts es ds l h. h;
    confirmed = λ id now ts es ds h.
        subst S
          (sym (
            state-update_rows (λ t. t.id == id) (confirmed_task now) ts (has_row contested_at ds)
              (λ t. refl) (λ t. refl)))
          h;
  }

module _ (i : String) (r : Request) (v : TaskState) where
  pub quiet_after : Quiet (λ ts es ds. Step i r v (state i ts (has_row (contested_at i) ds)))
  quiet_after = Quiet-state i (Step i r v)

  -- A part that makes the step, and then a part that leaves the task alone.
  pub Leaves-rest :
      {A B : Type 0} {Q : B → Type 0} (m : Handler A) (k : A → Handler B) (w : World)
      → Leaves (From i r v) m w
      → ((a : A) → Keeps (From i r v) Q (k a))
      → Leaves (From i r v) (m >>= k) w
  Leaves-rest m k w h keeps = Post->>= _ _ m k w (
      Post-weaken (λ _. From i r v) _ (From i r v) (From i r v) (run m w)
        (λ a w' j. Leaves-Keeps _ w' (keeps a) j) (λ _ j. j) h)
