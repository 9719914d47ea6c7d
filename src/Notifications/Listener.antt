-- ===== src/Notifications/Listener.antt =====
-- backend/src/notifications/notifications.listener.ts: which event notifies whom, and of what.
use help_mi.Common.{
  ℕ, suc, String, Option, none, some, Bool, true, false, not, ◌&&◌, ◌==◌, List, [], ◌∷◌, map, leb,
  concat, or_default, given, if◌then◌else◌, to_fixed, decimal,
}
use help_mi.Schema.{
  DoerProfile, DoerTier, KycStatus, NotificationType, Event, task_posted, task_accepted,
  task_completed, task_confirmed, payment_released, task_cancelled, task_disputed, message_sent,
  kyc_reviewed, rating_received, tier_rank, kyc_is,
}
use help_mi.Database.{take_rows, find_first, find_many}
use help_mi.World.{World}
use help_mi.Handler.{Handler, pure, ◌>>=◌, ◌>>◌}
use help_mi.Handler.Calls.{reads}
use help_mi.Notifications.{Notice, send, send_to_many}

abbrev pub tier_name : DoerTier → String
tier_name DoerTier.bronze = "BRONZE"
tier_name DoerTier.silver = "SILVER"
tier_name DoerTier.gold = "GOLD"

-- `user: { isBanned: false, id: { not: posterId } }`
abbrev pub is_other_user : World → String → String → Bool
is_other_user w poster_id user_id = elim (find_first (λ u. u.id == user_id) w.users) [
  | none ↦ false
  | some u ↦ not u.is_banned && not (u.id == poster_id)
]

-- The `where` of onTaskPosted, whose tiers are `tiersAtOrAbove`.
abbrev pub is_target : World → String → DoerTier → DoerProfile → Bool
is_target w poster_id required p =
    kyc_is p.kyc_status KycStatus.approved
    && (leb (tier_rank required) (tier_rank p.tier) && is_other_user w poster_id p.user_id)

-- `[e.posterId, e.doerId].filter(id => !!id && id !== e.byUserId)`
abbrev pub unless_by : Option String → String → List String → List String
unless_by none by_user_id ids = ids
unless_by (some id) by_user_id ids = if id == by_user_id then ids else id ∷ ids

abbrev pub others : String → Option String → String → List String
others poster_id doer_id by_user_id =
    unless_by (given (some poster_id)) by_user_id (unless_by (given doer_id) by_user_id [])

abbrev pub quoted : String → String → String → String
quoted before title after = concat before (concat "\"" (concat title (concat "\"" after)))

abbrev pub about_task : NotificationType → String → String → String → Notice
about_task type title body task_id = record {
  type = type;
  title = title;
  body = body;
  task_id = some task_id;
}

abbrev pub about_kyc : Bool → Option DoerTier → Option String → Notice
about_kyc true tier _ = record {
  type = NotificationType.kyc_approved;
  title = "Verification approved";
  body =
      concat "You are now a verified "
        (concat (tier_name (or_default tier DoerTier.bronze)) " doer.");
  task_id = none;
}
about_kyc false tier reason = record {
  type = NotificationType.kyc_rejected;
  title = "Verification rejected";
  body = elim (given reason) [
    | none ↦ "Your KYC submission was rejected."
    | some text ↦ concat "Reason: " text
  ];
  task_id = none;
}

abbrev pub send_if : Option String → Notice → Handler (Unit {0})
send_if none notice = pure tt
send_if (some user_id) notice = send user_id notice >> pure tt

abbrev pub released_body : ℕ → Bool → String
released_body amount auto = concat "Rs. " (
    concat (to_fixed amount) (
      concat " has been released to you"
        (concat (if auto then " (auto-released after 24h)" else "") ".")))

-- `onTaskPosted`
unfoldable pub on_task_posted : String → String → String → DoerTier → Handler (Unit {0})
on_task_posted task_id poster_id title required = do
  targets ← reads (λ w. take_rows 500 (find_many (is_target w poster_id required) w.profiles))
  send_to_many (map (λ p. p.user_id) targets)
      (about_task NotificationType.task_posted "New task nearby" title task_id)

-- The handlers of the listener.
unfoldable pub on_event : Event → Handler (Unit {0})
on_event (task_posted task_id poster_id title required) =
    on_task_posted task_id poster_id title required
on_event (task_accepted task_id poster_id doer_id title) =
    send poster_id (
      about_task NotificationType.task_accepted "Task accepted" (quoted "A doer accepted " title "")
        task_id)
    >> pure tt
on_event (task_completed task_id poster_id doer_id title) =
    send poster_id (
      about_task NotificationType.task_completed "Task completed"
        (quoted "The doer marked " title " complete. Please confirm.") task_id)
    >> pure tt
on_event (task_confirmed task_id poster_id doer_id title) = send_if (given doer_id) (
    about_task NotificationType.task_confirmed "Task confirmed"
      (quoted "The poster confirmed " title ".") task_id)
on_event (payment_released task_id doer_id amount auto) = send_if (given doer_id) (
    about_task NotificationType.payment_released "Payment released" (released_body amount auto)
      task_id)
on_event (task_cancelled task_id poster_id doer_id by_user_id title) =
    send_to_many (others poster_id doer_id by_user_id) (
      about_task NotificationType.task_cancelled "Task cancelled"
        (quoted "" title " was cancelled.") task_id)
on_event (task_disputed task_id poster_id doer_id by_user_id title) =
    send_to_many (others poster_id doer_id by_user_id) (
      about_task NotificationType.task_disputed "Task disputed"
        (quoted "A dispute was raised on " title ".") task_id)
on_event (message_sent task_id sender_id recipient_id preview) =
    send recipient_id (about_task NotificationType.new_message "New message" preview task_id)
    >> pure tt
on_event (kyc_reviewed user_id approved tier reason) =
    send user_id (about_kyc approved tier reason) >> pure tt
on_event (rating_received ratee_id rater_id task_id score) =
    send ratee_id (
      about_task NotificationType.rating_received "New rating"
        (concat "You received a " (concat (decimal (suc score) score) "-star rating.")) task_id)
    >> pure tt
