-- ===== src/Examples/Races.antt =====
-- The theorems on notices, cancels, ratings, messages and the auto-release at the sample world.
use help_mi.Common.{
  ◌≡◌, refl, none, some, true, false, [], ◌∷◌, ◌==◌, arith, to_upper_case, translate,
}
use help_mi.Schema.{Task, TaskStatus, Message, MessageType}
use help_mi.Database.{find_first, find_many, add_row, update_rows, count_rows}
use help_mi.Database.Every.{AllOf}
use help_mi.Database.Rowwise.{Wrote, Has}
use help_mi.World.{World}
use help_mi.Handler.{run, transaction}
use help_mi.Tasks.Cancel.{move_to_cancelled}
use help_mi.Payments.Webhook.{WebhookBody, handle_webhook, is_authentic}
use help_mi.Outcomes.Post.{Post}
use help_mi.Outcomes.Notices.{counts, handle_webhook-Same}
use help_mi.Outcomes.Cancelling.{Cancelled, move_to_cancelled-Post}
use help_mi.Messages.{get_messages, is_participant}
use help_mi.Outcomes.Reading.{Unread, get_messages-Post}
use help_mi.Scheduler.{auto_release_escrows}
use help_mi.Outcomes.Release.{held_for}
use help_mi.Outcomes.Releasing.Overdue.{Due}
use help_mi.Outcomes.Releasing.{of_task, auto_release_escrows-Due}
use help_mi.Tasks.Lifecycle.{find_task}
use help_mi.Ratings.{
  CreateRatingDto, create_rating, check_rating, create_rating_row, update_doer_stats, stats_of,
  write_stats, total_score,
}
use help_mi.Outcomes.Rating.{Rated, create_rating-Outcome}
use help_mi.Examples.Sample.{sample_world, sample_task, sample_escrow, sample_profile}

-- The notice of the payment that the sample escrow already holds, once more.
abbrev repeated : WebhookBody
repeated = record {
  merchant_id = "set";
  order_id = "HM-T1";
  payhere_amount = "5250.00";
  payhere_currency = "LKR";
  status_code = "2";
  md5sig = "SETHM-T15250.00LKR2SET";
  payment_id = "p2";
}

repeated-is_authentic : is_authentic sample_world repeated ≡ true
unfolding to_upper_case translate
repeated-is_authentic = refl

repeated-counts : counts sample_world repeated ≡ false
unfolding to_upper_case translate find_first
repeated-counts = refl

handle_webhook-Same_example :
    Post
      (λ _ w'. w' ≡ sample_world)
      (λ w'. w' ≡ sample_world)
      (run (handle_webhook repeated) sample_world)
handle_webhook-Same_example = handle_webhook-Same sample_world repeated repeated-counts

move_to_cancelled-Post_example :
    Post
      (λ _ w'. Cancelled sample_task sample_world w')
      (λ w'. w' ≡ sample_world)
      (run (transaction (move_to_cancelled sample_task)) sample_world)
move_to_cancelled-Post_example = move_to_cancelled-Post sample_task sample_world

abbrev sample_rating : CreateRatingDto
sample_rating = record { task_id = "t1"; score = 5; comment = none; is_on_time = some true }

-- The task is done, and the poster rates the doer.
abbrev done_world : World
done_world = record sample_world {
  tasks = record sample_task { status = TaskStatus.completed; doer_id = some "bob" } ∷ [];
}

create_rating-Outcome_example :
    Post
      (Rated done_world "ann" sample_rating)
      (λ w'. w' ≡ done_world)
      (run (create_rating "ann" sample_rating) done_world)
create_rating-Outcome_example = create_rating-Outcome done_world "ann" sample_rating

-- The rating is stored, and the doer has its average.
create_rating_test :
    (run (create_rating "ann" sample_rating) done_world).1.profiles
    ≡ record sample_profile { avg_rating = 500; on_time_rate = 100 } ∷ []
unfolding create_rating check_rating find_task create_rating_row update_doer_stats stats_of
    write_stats find_first find_many add_row update_rows count_rows total_score
create_rating_test = refl

-- The task was done at the start, and the day is over.
abbrev due_task : Task
due_task = record sample_task {
  status = TaskStatus.completed;
  doer_id = some "bob";
  completed_at = some 0;
}

abbrev due_world : World
due_world = record sample_world { clock = 86400000; tasks = due_task ∷ [] }

auto_release_escrows-Due_example :
    Post
      (λ _ w'.
        (Has (λ t. (t.id ≡ "t1") × Due due_world t) due_world.tasks
          → count_rows (held_for "t1") w'.escrows ≡ 0)
        × (AllOf (λ t. t.id ≡ "t1" → Due due_world t → ⊥) due_world.tasks
            → find_many (of_task "t1") w'.escrows ≡ find_many (of_task "t1") due_world.escrows))
      (λ _. ⊥)
      (run auto_release_escrows due_world)
auto_release_escrows-Due_example = auto_release_escrows-Due due_world "t1"

-- The sample task is due.
overdue_test : Due due_world due_task
unfolding find_first
overdue_test = record {
  completed = refl;
  mode = refl;
  unconfirmed = refl;
  at = 0;
  done_at = refl;
  a_day_ago = omega arith;
  escrow = sample_escrow;
  found = refl;
  held = refl;
}

-- The doer has written, and the poster reads.
abbrev sample_message : Message
sample_message = record {
  id = "m1";
  task_id = "t1";
  sender_id = "bob";
  content = "On my way";
  type = MessageType.text;
  read_at = none;
}

abbrev chat_world : World
chat_world = record done_world { messages = sample_message ∷ [] }

get_messages-Post_example :
    Post
      (λ ms w'.
        ((t : Task) × ((find_first (λ t. t.id == "t1") chat_world.tasks ≡ some t)
            × (is_participant t "ann" ≡ true)))
        × ((ms ≡ find_many (λ m. m.task_id == "t1") w'.messages)
            × Wrote
                (Unread "t1" "ann")
                (λ m m'. m' ≡ record m { read_at = some 1000 })
                chat_world.messages
                w'.messages))
      (λ w'. w' ≡ chat_world)
      (run (get_messages "t1" "ann") chat_world)
get_messages-Post_example = get_messages-Post chat_world "t1" "ann"
