-- ===== src/Schema/Events.antt =====
-- The events that the services emit, with their payloads.
use help_mi.Common.{ℕ, Bool, String, Option}
use help_mi.Schema.Status.{DoerTier}

pub data Event : Type 0 where
  task_posted : (task_id poster_id title : String) (required_tier : DoerTier) → Event
  task_accepted : (task_id poster_id doer_id title : String) → Event
  task_completed : (task_id poster_id doer_id title : String) → Event
  task_confirmed : (task_id poster_id : String) (doer_id : Option String) (title : String) → Event
  payment_released : (task_id : String) (doer_id : Option String) (amount : ℕ) (auto : Bool) → Event
  task_cancelled :
      (task_id poster_id : String) (doer_id : Option String) (by_user_id title : String) → Event
  task_disputed :
      (task_id poster_id : String) (doer_id : Option String) (by_user_id title : String) → Event
  message_sent : (task_id sender_id recipient_id preview : String) → Event
  kyc_reviewed :
      (user_id : String) (approved : Bool) (tier : Option DoerTier) (note : Option String) → Event
  rating_received : (ratee_id rater_id task_id : String) (score : ℕ) → Event
