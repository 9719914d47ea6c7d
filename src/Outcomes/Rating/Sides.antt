-- ===== src/Outcomes/Rating/Sides.antt =====
-- The checks of `create` of ratings.service.ts: who rates whom.
use mathlib.Core.Option.{none-ne-some, some-injective}
use mathlib.Core.Bool.{true≢false}
use help_mi.Common.{
  ◌≡◌, refl, sym, ap, Bool, true, false, ◌||◌, ◌==◌, Option, none, some, String, inl, inr, ◌⊎◌,
  opt_is, given, eq-path, if◌then◌else◌,
}
use help_mi.Schema.{Task, TaskStatus, task_is}
use help_mi.Database.{find_first}
use help_mi.World.{World}
use help_mi.Handler.{run}
use help_mi.Tasks.Lifecycle.{find_task, is_none}
use help_mi.Ratings.{CreateRatingDto, check_rating, is_own_rating, ratee_of}
use help_mi.Outcomes.Post.{Post, Post-or_throw, Post-guard}
use help_mi.Outcomes.Statuses.{is_absent, is_completed}

-- The other side of the task.
abbrev pub OtherSide : Task → String → String → Type 0
OtherSide t rater ratee =
    ((t.poster_id ≡ rater) × (t.doer_id ≡ some ratee))
    ⊎ ((t.doer_id ≡ some rater) × (t.poster_id ≡ ratee))

-- What `create` has checked, and the other side that it found.
pub record Checked (w : World) (rater : String) (dto : CreateRatingDto) (ratee : String)
    : Type 0 where
  pub task : Task
  pub found : find_first (λ t. t.id == dto.task_id) w.tasks ≡ some task
  pub finished : task.status ≡ TaskStatus.completed
  pub participant : (task.poster_id == rater || opt_is task.doer_id rater) ≡ true
  pub other : ratee_of task rater ≡ some ratee
  pub first : find_first (is_own_rating dto.task_id rater) w.ratings ≡ none

unless_empty : (b : Bool) (s ratee : String) → (if b then none else some s) ≡ some ratee → s ≡ ratee
unless_empty true s ratee h = absurd (none-ne-some _ h)
unless_empty false s ratee h = some-injective _ _ h

given-path : (o : Option String) (ratee : String) → given o ≡ some ratee → o ≡ some ratee
given-path none ratee h = absurd (none-ne-some _ h)
given-path (some s) ratee h = ap some (unless_empty (s == "") s ratee h)

opt_is-path : (o : Option String) (s : String) → opt_is o s ≡ true → o ≡ some s
opt_is-path none s h = absurd (true≢false (sym h))
opt_is-path (some x) s h = ap some (eq-path x s h)

pub other_side :
    (t : Task) (rater ratee : String) (b : Bool)
    → (t.poster_id == rater) ≡ b
    → (b || opt_is t.doer_id rater) ≡ true
    → given (if b then t.doer_id else some t.poster_id) ≡ some ratee
    → OtherSide t rater ratee
other_side t rater ratee true e side h =
    inl (eq-path t.poster_id rater e, given-path t.doer_id ratee h)
other_side t rater ratee false e side h =
    inr
      (opt_is-path t.doer_id rater side, some-injective _ _ (given-path (some t.poster_id) ratee h))

module _ (w : World) (rater : String) (dto : CreateRatingDto) where
  abbrev pub Same : World → Type 0
  Same w' = w' ≡ w

  pub check_rating-Checked :
      Post (λ ratee w'. (w' ≡ w) × Checked w rater dto ratee) Same (run (check_rating rater dto) w)
  unfolding check_rating find_task
  check_rating-Checked =
      Post-or_throw _ _ (find_first (λ t. t.id == dto.task_id) w.tasks) _ _ _
        (λ t found.
          Post-guard _ _ (task_is t.status TaskStatus.completed) _ _ _
            (λ finished.
              Post-guard _ _ (t.poster_id == rater || opt_is t.doer_id rater) _ _ _
                (λ participant.
                  Post-or_throw _ _ (ratee_of t rater) _ _ _
                    (λ ratee other.
                      Post-guard _ _
                        (is_none (find_first (is_own_rating dto.task_id rater) w.ratings)) _ _ _
                        (λ absent. (
                          refl,
                          record {
                            task = t;
                            found = found;
                            finished = is_completed t.status finished;
                            participant = participant;
                            other = other;
                            first = is_absent _ absent;
                          },
                        ))
                        (λ _. refl))
                    (λ _. refl))
                (λ _. refl))
            (λ _. refl))
        (λ _. refl)
