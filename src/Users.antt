-- ===== src/Users.antt =====
-- backend/src/users/users.service.ts. An optional field of a body is there or left out; a null in
-- its place is not told apart.
use mathlib.Core.Option
use help_mi.Common.{
  ℕ, String, Bool, Option, List, map, none, some, false, ◌==◌, concat, or_else, or_default, opt_is,
}
use help_mi.Schema.{
  User, DoerProfile, DoerTier, KycStatus, Task, Rating, Notification, Message, Dispute, Payout,
}
use help_mi.Database.{take_rows, find_first, find_many, newest_first}
use help_mi.World.{World, users, payouts}
use help_mi.Handler.{Handler, pure, ◌>>=◌, ◌>>◌, or_throw, not_found}
use help_mi.Handler.Calls.{find, find_all, reads, update}

-- `findById`, less the profile that it joins.
unfoldable pub find_by_id : String → Handler User
find_by_id id = do row ← find users (λ u. u.id == id); or_throw row (not_found "User not found")

-- What `deleteMe` leaves of a user.
abbrev pub erased_row : String → ℕ → User → User
erased_row id now u = record u {
  deleted_at = some now;
  is_active = false;
  name = none;
  email = none;
  avatar_url = none;
  fcm_token = none;
  phone = concat "deleted-" id;
}

-- `deleteMe`
unfoldable pub delete_me : String → Handler (Unit {0})
delete_me id = do find_by_id id; update users (λ u. u.id == id) (erased_row id); pure tt

-- update-user.dto.ts
pub record UpdateUserDto : Type 0 where
  pub name : Option String
  pub email : Option String
  pub avatar_url : Option String
  pub is_doer : Option Bool
  pub fcm_token : Option String

-- A field that the body leaves out keeps its column.
abbrev pub edited_row : UpdateUserDto → ℕ → User → User
edited_row dto now u = record u {
  name = or_else dto.name u.name;
  email = or_else dto.email u.email;
  avatar_url = or_else dto.avatar_url u.avatar_url;
  is_doer = or_default dto.is_doer u.is_doer;
  fcm_token = or_else dto.fcm_token u.fcm_token;
}

-- `update`, less the profile that it joins.
unfoldable pub update_user : String → UpdateUserDto → Handler User
update_user id dto = update users (λ u. u.id == id) (edited_row dto)

pub record PublicProfile : Type 0 where
  pub id : String
  pub name : Option String
  pub avatar_url : Option String
  pub is_doer : Bool
  pub doer_profile : Option (DoerTier × KycStatus × ℕ × ℕ × ℕ)
  pub ratings : List (ℕ × Option String × Option Bool)

abbrev pub public_columns : DoerProfile → DoerTier × KycStatus × ℕ × ℕ × ℕ
public_columns p = (p.tier, p.kyc_status, p.total_jobs_completed, p.avg_rating, p.on_time_rate)

abbrev pub public_profile : World → User → PublicProfile
public_profile w u = record {
  id = u.id;
  name = u.name;
  avatar_url = u.avatar_url;
  is_doer = u.is_doer;
  doer_profile = Option.map public_columns (find_first (λ p. p.user_id == u.id) w.profiles);
  ratings =
      map (λ r. (r.score, r.comment, r.is_on_time))
        (take_rows 10 (newest_first (find_many (λ r. r.ratee_id == u.id) w.ratings)));
}

-- `getPublicProfile`: one query with its joins.
unfoldable pub get_public_profile : String → Handler PublicProfile
get_public_profile id = do
  row ← reads (λ w. Option.map (public_profile w) (find_first (λ u. u.id == id) w.users))
  or_throw row (not_found "User not found")

-- What is held about a user.
pub record PersonalData : Type 0 where
  pub user : User
  pub doer_profile : Option DoerProfile
  pub posted_tasks : List Task
  pub accepted_tasks : List Task
  pub ratings_given : List Rating
  pub ratings_received : List Rating
  pub notifications : List Notification
  pub sent_messages : List Message
  pub disputes_raised : List Dispute

abbrev pub personal_data : World → User → PersonalData
personal_data w u = record {
  user = u;
  doer_profile = find_first (λ p. p.user_id == u.id) w.profiles;
  posted_tasks = find_many (λ t. t.poster_id == u.id) w.tasks;
  accepted_tasks = find_many (λ t. opt_is t.doer_id u.id) w.tasks;
  ratings_given = find_many (λ r. r.rater_id == u.id) w.ratings;
  ratings_received = find_many (λ r. r.ratee_id == u.id) w.ratings;
  notifications = find_many (λ n. n.user_id == u.id) w.notifications;
  sent_messages = find_many (λ m. m.sender_id == u.id) w.messages;
  disputes_raised = find_many (λ d. d.raised_by_id == u.id) w.disputes;
}

-- `exportMe`: the time of the export, the data, and the payouts.
unfoldable pub export_me : String → Handler (ℕ × PersonalData × List Payout)
export_me id = do
  row ← reads (λ w. Option.map (personal_data w) (find_first (λ u. u.id == id) w.users))
  found ← or_throw row (not_found "User not found")
  paid ← find_all payouts (λ p. p.doer_id == id)
  now ← reads (λ w. w.clock)
  pure (now, found, paid)
