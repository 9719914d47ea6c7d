-- ===== src/Notifications.antt =====
-- backend/src/notifications: the notifications of a user (notifications.service.ts). A push leaves
-- the device token, the title and the body in the world and, as the interface of push.provider.ts
-- promises, never throws; the JSON `data` of a row is left out.
pub mod Listener
use help_mi.Common.{
  ℕ, suc, String, Option, none, some, Bool, true, false, ◌&&◌, ◌==◌, List, [], ◌∷◌, ◌++◌, given,
  if◌then◌else◌,
}
use help_mi.Schema.{User, Notification, NotificationType}
use help_mi.Database.{take_rows, newest_first, find_many, count_rows, add_row, has_row}
use help_mi.World.{World, users, notifications}
use help_mi.Handler.{Handler, pure, throw, await, ◌>>=◌, ◌>>◌, catch, reference_missing}
use help_mi.Handler.Calls.{reads, writes, find, update_many}
use help_mi.Tasks.Lifecycle.{is_none}

-- `getForUser`: the rows stand in the order of their creation.
unfoldable pub get_for_user : String → Handler (List Notification)
get_for_user user_id =
    reads (λ w. take_rows 50 (newest_first (find_many (λ n. n.user_id == user_id) w.notifications)))

abbrev pub read_now : ℕ → Notification → Notification
read_now now n = record n { read_at = some now }

abbrev pub is_unread_of : String → Notification → Bool
is_unread_of user_id n = n.user_id == user_id && is_none n.read_at

-- `markRead`
unfoldable pub mark_read : String → String → Handler ℕ
mark_read id user_id = update_many notifications (λ n. n.id == id && n.user_id == user_id) read_now

-- `markAllRead`
unfoldable pub mark_all_read : String → Handler ℕ
mark_all_read user_id = update_many notifications (is_unread_of user_id) read_now

-- `getUnreadCount`
unfoldable pub get_unread_count : String → Handler ℕ
get_unread_count user_id =
    reads (λ w. count_rows (λ n. n.user_id == user_id && is_none n.read_at) w.notifications)

-- What a notification says: its type, title and body, and the task that it is about.
pub record Notice : Type 0 where
  pub type : NotificationType
  pub title : String
  pub body : String
  pub task_id : Option String

abbrev pub new_notification : String → Notice → String → Notification
new_notification user_id notice id = record {
  id = id;
  user_id = user_id;
  task_id = notice.task_id;
  type = notice.type;
  title = notice.title;
  body = notice.body;
  read_at = none;
}

-- The foreign keys of the row: its user, and its task if it names one.
abbrev pub refers : World → String → Option String → Bool
refers w user_id none = has_row (λ u. u.id == user_id) w.users
refers w user_id (some task_id) =
    has_row (λ u. u.id == user_id) w.users && has_row (λ t. t.id == task_id) w.tasks

abbrev pub with_notification : String → Notice → World → World
with_notification user_id notice w = record w {
  next_id = suc w.next_id;
  notifications =
      add_row (new_notification user_id notice (w.services.uuid w.next_id)) w.notifications;
}

-- `prisma.notification.create`
unfoldable pub create_notification : String → Notice → Handler Notification
create_notification user_id notice =
    await (λ w. if refers w user_id notice.task_id then with_notification user_id notice w else w)
      (λ w.
        if refers w user_id notice.task_id
        then pure (new_notification user_id notice (w.services.uuid w.next_id))
        else throw reference_missing)

-- `push.sendToToken`
unfoldable pub send_to_token : Option String → Notice → Handler (Unit {0})
send_to_token none notice = pure tt
send_to_token (some token) notice =
    writes (λ w. record w { pushes = w.pushes ++ (token, notice.title, notice.body) ∷ [] })

abbrev pub device : Option User → Option String
device none = none
device (some u) = given u.fcm_token

-- Of `send`, from the row on.
unfoldable pub push_row : String → Notice → Notification → Handler (Option Notification)
push_row user_id notice row = do
  user ← find users (λ u. u.id == user_id)
  send_to_token (device user) notice
  pure (some row)

-- `send`: an error is logged and gives null.
unfoldable pub send : String → Notice → Handler (Option Notification)
send user_id notice =
    catch (create_notification user_id notice >>= push_row user_id notice) (λ e. pure none)

-- `sendToMany`, one after the other: the program lets them run at the same time.
unfoldable pub send_to_many : List String → Notice → Handler (Unit {0})
send_to_many [] notice = pure tt
send_to_many (user_id ∷ user_ids) notice = send user_id notice >> send_to_many user_ids notice
