-- ===== src/Outcomes/Rating.antt =====
-- `create` of ratings.service.ts: who rates whom, once, and what becomes of the averages.
pub mod Sides
use mathlib.Core.Path.{ap₂}
use mathlib.Core.Option.{none-ne-some, some-injective}
use mathlib.Core.Bool.{true≢false}
use help_mi.Common.{
  suc, ◌≡◌, refl, sym, ap, ◌∙◌, subst, Bool, true, false, not, ◌||◌, ◌&&◌, ◌==◌, Option, none, some,
  List, [], ◌∷◌, String, arith, inl, inr, ◌⊎◌, nat_eq, opt_is, given, eq-path, path-eq, eq_refl,
  if◌then◌else◌,
}
use help_mi.Schema.{Task, Rating, DoerProfile, TaskStatus, task_is}
use help_mi.Database.{find_first, find_many, count_rows, update_rows, add_row, has_row}
use help_mi.Database.Laws.{find_first-added}
use help_mi.Database.Rowwise.{Wrote, Wrote-update_rows}
use help_mi.World.{World}
use help_mi.Handler.{run, err, bad_request}
use help_mi.Tasks.Lifecycle.{find_task, is_none}
use help_mi.Ratings.{
  CreateRatingDto, create_rating, check_rating, create_rating_row, update_doer_stats, stats_of,
  write_stats, new_rating, is_own_rating, ratee_of, total_score, stats_row, is_true,
}
use help_mi.Outcomes.Post.{
  Post, Post->>=, Post-call, Post-created, Post-or_throw, Post-guard, Post-weaken,
}
use help_mi.Outcomes.Success.{Post-updated}
use help_mi.Outcomes.Statuses.{is_absent, is_completed}
use help_mi.Outcomes.Rating.Sides.{OtherSide, Checked, other_side, check_rating-Checked}

untouched :
    {A : Type 0} (q : A → Bool) (f : A → A) (rows : List A)
    → find_first q rows ≡ none
    → update_rows q f rows ≡ rows
unfolding update_rows find_first
untouched q f [] h = refl
untouched q f (r ∷ rows) h = ground (arith, untouched q f rows)

-- The mean score and the share of the ratings that were on time, of those that say so.
abbrev pub Rescored : World → List Rating → DoerProfile → DoerProfile → Type 0
Rescored w rs p p' =
    let said = count_rows (λ r. not (is_none r.is_on_time)) rs in
    let on_time = count_rows (λ r. is_true r.is_on_time) rs in
    p' ≡ record p {
      avg_rating = w.services.rounded_mean (total_score rs) (count_rows (λ _. true) rs);
      on_time_rate = if nat_eq said 0 then 0 else w.services.rounded_mean on_time said;
    }

-- The profiles once the ratings of the ratee are these: those of the ratee have their averages.
abbrev pub Averaged : World → String → List Rating → List DoerProfile → List DoerProfile → Type 0
Averaged w ratee rs = Wrote (λ p. p.user_id ≡ ratee) (Rescored w rs)

-- What `create` has done.
pub record Rated (w : World) (rater : String) (dto : CreateRatingDto) (r : Rating) (w' : World)
    : Type 0 where
  pub task : Task
  pub found : find_first (λ t. t.id == dto.task_id) w.tasks ≡ some task
  pub finished : task.status ≡ TaskStatus.completed
  pub sides : OtherSide task rater r.ratee_id
  pub first : find_first (is_own_rating dto.task_id rater) w.ratings ≡ none
  pub of_rater : (r.rater_id ≡ rater) × (r.task_id ≡ dto.task_id)
  pub says : (r.score ≡ dto.score) × ((r.comment ≡ dto.comment) × (r.is_on_time ≡ dto.is_on_time))
  pub added : w'.ratings ≡ add_row r w.ratings
  pub averaged :
      Averaged w r.ratee_id
        (find_many (λ x. x.ratee_id == r.ratee_id) w'.ratings)
        w.profiles
        w'.profiles
  pub again :
      (next : CreateRatingDto)
      → next.task_id ≡ dto.task_id
      → run (create_rating rater next) w' ≡ (err (bad_request "Already rated this task"), w')

module _ (w : World) (rater : String) (dto : CreateRatingDto) where
  abbrev Same : World → Type 0
  Same w' = w' ≡ w

  module _ (ratee : String) (c : Checked w rater dto ratee) where
    abbrev new : Rating
    new = new_rating dto rater ratee (w.services.uuid w.next_id)

    abbrev clashes : Rating → Bool
    clashes r = r.id == new.id || r.task_id == new.task_id && r.rater_id == new.rater_id

    abbrev recorded : World
    recorded = record w { ratings = add_row new w.ratings; next_id = suc w.next_id }

    abbrev of_ratee : List Rating
    of_ratee = find_many (λ r. r.ratee_id == ratee) recorded.ratings

    not_empty :
        (rows : List Rating) → find_many (λ r. r.ratee_id == ratee) (add_row new rows) ≡ [] → ⊥
    unfolding find_many add_row
    not_empty [] h = ground (arith, eq_refl ratee)
    not_empty (r ∷ rows) h = ground (arith, not_empty rows)

    refused_again :
        (w' : World) (next : CreateRatingDto)
        → next.task_id ≡ dto.task_id
        → w'.tasks ≡ w.tasks
        → w'.ratings ≡ add_row new w.ratings
        → run (create_rating rater next) w' ≡ (err (bad_request "Already rated this task"), w')
    unfolding create_rating check_rating find_task find_first
    refused_again w' next e same added =
        let here : find_first (λ t. t.id == next.task_id) w'.tasks ≡ some c.task =
          ap₂ (λ i ts. find_first (λ t. t.id == i) ts) e same ∙ c.found in
        let rated : find_first (is_own_rating next.task_id rater) w'.ratings ≡ some new =
          ap₂ (λ i rs. find_first (is_own_rating i rater) rs) e added
          ∙ find_first-added (is_own_rating dto.task_id rater) new w.ratings c.first
              (ap₂ ◌&&◌ (eq_refl dto.task_id) (eq_refl rater)) in
        let finished = ap (λ s. task_is s TaskStatus.completed) c.finished in
        rw (here, finished, c.participant, c.other, rated) refl

    rated :
        (w' : World)
        → w'.tasks ≡ w.tasks
        → w'.ratings ≡ add_row new w.ratings
        → Averaged w ratee of_ratee w.profiles w'.profiles
        → Rated w rater dto new w'
    rated w' same added averaged = record {
      task = c.task;
      found = c.found;
      finished = c.finished;
      sides = other_side c.task rater ratee (c.task.poster_id == rater) refl c.participant c.other;
      first = c.first;
      of_rater = (refl, refl);
      says = (refl, (refl, refl));
      added = added;
      averaged = rw added averaged;
      again = λ next e. refused_again w' next e same added;
    }

    abbrev with_stats : List Rating → World
    with_stats rs = record recorded {
      profiles = update_rows (λ p. p.user_id == ratee) (stats_row recorded rs w.clock) w.profiles;
    }

    written :
        (p : DoerProfile) (rs : List Rating)
        → find_first (λ p. p.user_id == ratee) w.profiles ≡ some p
        → of_ratee ≡ rs
        → Post (λ _ v. v ≡ with_stats rs) (λ _. ⊥) (run (write_stats ratee rs) recorded)
    unfolding write_stats
    written p [] here e = absurd (not_empty w.ratings e)
    written p (r ∷ rs) here e =
        Post-updated _ _ (find_first (λ p. p.user_id == ratee) w.profiles) _ _ _ p here refl

    stats_of-writes :
        (o : Option DoerProfile)
        → find_first (λ p. p.user_id == ratee) w.profiles ≡ o
        → Post (λ _ v. v ≡ with_stats of_ratee) (λ _. ⊥) (run (stats_of o ratee) recorded)
    unfolding stats_of
    stats_of-writes none here =
        ap (λ l. record recorded { profiles = l })
          (sym (untouched (λ p. p.user_id == ratee) _ w.profiles here))
    stats_of-writes (some p) here = written p of_ratee here refl

    with_stats-Averaged : Averaged w ratee of_ratee w.profiles (with_stats of_ratee).profiles
    with_stats-Averaged =
        Wrote-update_rows (λ p. p.user_id ≡ ratee) (Rescored w of_ratee) (λ p. p.user_id == ratee)
          (stats_row recorded of_ratee w.clock) w.profiles (λ p. eq-path p.user_id ratee)
          (λ p. path-eq p.user_id ratee) (λ _. refl)

  -- `create` returns the rating that it has added, of a COMPLETED task by one of its sides about the
  -- other, which had not rated the task before, as the request has it; the profile of the rated
  -- side, and no other, then has the mean of all ratings of that side and the share of them that
  -- were on time; and whatever the same side sends for the same task afterwards is refused as
  -- "Already rated this task" and changes nothing. A call that throws changes nothing.
  pub create_rating-Outcome : Post (Rated w rater dto) Same (run (create_rating rater dto) w)
  unfolding create_rating create_rating_row update_doer_stats
  create_rating-Outcome =
      Post-call _ _ (check_rating rater dto) _ w _ (check_rating-Checked w rater dto) (λ ratee c.
        Post-created _ _ (has_row (clashes ratee c) w.ratings) _ (new ratee c) _ _ _
          (λ _. Post->>= _ _ (update_doer_stats ratee) _ (recorded ratee c) (
            Post-weaken (λ _ v. v ≡ with_stats ratee c (of_ratee ratee c)) _ (λ _. ⊥) _ _
              (λ _ v same.
                rated ratee c _ (ap (λ (x : World). x.tasks) same)
                  (ap (λ (x : World). x.ratings) same)
                  (subst (λ x. Averaged w ratee (of_ratee ratee c) w.profiles x.profiles) (sym same)
                    (with_stats-Averaged ratee c)))
              (λ _ e. absurd e)
              (stats_of-writes ratee c (find_first (λ p. p.user_id == ratee) w.profiles) refl)))
          (λ _. refl))
