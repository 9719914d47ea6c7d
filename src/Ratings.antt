-- ===== src/Ratings.antt =====
-- backend/src/ratings/ratings.service.ts: `create` and `updateDoerStats`.
use help_mi.Common.{
  ℕ, ◌+◌, String, Option, none, some, Bool, true, false, not, ◌&&◌, ◌||◌, ◌==◌, List, [], ◌∷◌,
  nat_eq, if◌then◌else◌, opt_is, given,
}
use help_mi.Schema.{Task, Rating, DoerProfile, TaskStatus, task_is, rating_received}
use help_mi.Database.{count_rows, find_many, newest_first}
use help_mi.World.{World, profiles, ratings}
use help_mi.Handler.{Handler, pure, ◌>>=◌, ◌>>◌, guard, or_throw, bad_request, forbidden}
use help_mi.Handler.Calls.{reads, find, find_all, update, create, emit}
use help_mi.Tasks.Lifecycle.{find_task, is_none}

-- `CreateRatingDto`
pub record CreateRatingDto : Type 0 where
  pub task_id : String
  pub score : ℕ
  pub comment : Option String
  pub is_on_time : Option Bool

-- The other side of the task, if it is there.
abbrev pub ratee_of : Task → String → Option String
ratee_of t rater_id = given (if t.poster_id == rater_id then t.doer_id else some t.poster_id)

abbrev pub is_own_rating : String → String → Rating → Bool
is_own_rating task_id rater_id r = r.task_id == task_id && r.rater_id == rater_id

abbrev pub new_rating : CreateRatingDto → String → String → String → Rating
new_rating dto rater_id ratee_id id = record {
  id = id;
  task_id = dto.task_id;
  rater_id = rater_id;
  ratee_id = ratee_id;
  score = dto.score;
  comment = dto.comment;
  is_on_time = dto.is_on_time;
}

unfoldable pub total_score : List Rating → ℕ
total_score [] = 0
total_score (r ∷ rs) = r.score + total_score rs

abbrev pub is_true : Option Bool → Bool
is_true none = false
is_true (some b) = b

abbrev pub stats_row : World → List Rating → ℕ → DoerProfile → DoerProfile
stats_row w rs now p =
    let rated = count_rows (λ r. not (is_none r.is_on_time)) rs in
    record p {
      avg_rating = w.services.rounded_mean (total_score rs) (count_rows (λ r. true) rs);
      on_time_rate =
          if nat_eq rated 0
          then 0
          else w.services.rounded_mean (count_rows (λ r. is_true r.is_on_time) rs) rated;
    }

unfoldable pub write_stats : String → List Rating → Handler (Unit {0})
write_stats user_id [] = pure tt
write_stats user_id (r ∷ rs) = do
  world ← reads (λ w. w)
  update profiles (λ p. p.user_id == user_id) (stats_row world (r ∷ rs))
  pure tt

unfoldable pub stats_of : Option DoerProfile → String → Handler (Unit {0})
stats_of none user_id = pure tt
stats_of (some p) user_id = do
  rs ← find_all ratings (λ r. r.ratee_id == user_id)
  write_stats user_id rs

-- `updateDoerStats`
unfoldable pub update_doer_stats : String → Handler (Unit {0})
update_doer_stats user_id = do
  profile ← find profiles (λ p. p.user_id == user_id)
  stats_of profile user_id

unfoldable pub create_rating_row : CreateRatingDto → String → String → Handler Rating
create_rating_row dto rater_id ratee_id =
    create ratings
      (λ new r. r.id == new.id || r.task_id == new.task_id && r.rater_id == new.rater_id)
      (λ id now. new_rating dto rater_id ratee_id id)

-- The checks of `create`: whom the rater rates.
unfoldable pub check_rating : String → CreateRatingDto → Handler String
check_rating rater_id dto = do
  task ← find_task dto.task_id
  guard (task_is task.status TaskStatus.completed) (bad_request "Can only rate completed tasks")
  guard (task.poster_id == rater_id || opt_is task.doer_id rater_id)
      (forbidden "Not a participant of this task")
  ratee_id ← or_throw (ratee_of task rater_id) (bad_request "No doer assigned to this task")
  existing ← find ratings (is_own_rating dto.task_id rater_id)
  guard (is_none existing) (bad_request "Already rated this task")
  pure ratee_id

-- `create`
unfoldable pub create_rating : String → CreateRatingDto → Handler Rating
create_rating rater_id dto = do
  ratee_id ← check_rating rater_id dto
  rating ← create_rating_row dto rater_id ratee_id
  update_doer_stats ratee_id
  emit (rating_received ratee_id rater_id dto.task_id dto.score)
  pure rating

pub record RatingsSummary : Type 0 where
  pub total : ℕ
  pub average : ℕ
  pub on_time_rate : ℕ

-- The summary of `getForUser`: the average in tenths, the share in hundredths.
abbrev pub summary_of : World → List Rating → RatingsSummary
summary_of w rs =
    let count = count_rows (λ r. true) rs in
    if nat_eq count 0 then record { total = 0; average = 0; on_time_rate = 0 } else record {
      total = count;
      average = w.services.rounded_tenths (total_score rs) count;
      on_time_rate = w.services.rounded_mean (count_rows (λ r. is_true r.is_on_time) rs) count;
    }

-- `getForUser`; the raters and tasks that the query joins are left out.
unfoldable pub get_ratings : String → Handler (List Rating × RatingsSummary)
get_ratings user_id = reads (λ w.
    let rs = newest_first (find_many (λ r. r.ratee_id == user_id) w.ratings) in
    (rs, summary_of w rs))
