-- ===== src/Messages.antt =====
-- backend/src/messages/messages.service.ts.
use Prim.Native.Char.{code}
use help_mi.Common.{
  ℕ, ◌-◌, String, Option, none, some, Bool, true, false, not, ◌&&◌, ◌||◌, ◌==◌, List, ltb,
  if◌then◌else◌, or_default, opt_is, given,
}
use help_mi.Schema.{Task, Message, MessageType, TaskStatus, message_sent}
use help_mi.Database.{find_first, count_rows}
use help_mi.World.{World, messages}
use help_mi.Handler.{Handler, pure, ◌>>=◌, ◌>>◌, guard, forbidden}
use help_mi.Handler.Calls.{reads, find_all, update_many, create, emit}
use help_mi.Tasks.Lifecycle.{is_none, find_task}

abbrev pub is_participant : Task → String → Bool
is_participant t user_id = t.poster_id == user_id || opt_is t.doer_id user_id

abbrev pub read_row : ℕ → Message → Message
read_row now m = record m { read_at = some now }

-- The task of which the user is a side.
unfoldable pub participant_task : String → String → Handler Task
participant_task task_id user_id = do
  task ← find_task task_id
  guard (is_participant task user_id) (forbidden "Not a participant of this task")
  pure task

abbrev pub is_unread_by : String → String → Message → Bool
is_unread_by task_id user_id m =
    m.task_id == task_id && (not (m.sender_id == user_id) && is_none m.read_at)

-- `getMessages`, in the order of the table, which is that of creation.
unfoldable pub get_messages : String → String → Handler (List Message)
get_messages task_id user_id = do
  participant_task task_id user_id
  update_many messages (is_unread_by task_id user_id) read_row
  find_all messages (λ m. m.task_id == task_id)

abbrev pub is_closed : TaskStatus → Bool
is_closed TaskStatus.completed = true
is_closed TaskStatus.cancelled = true
is_closed _ = false

-- `slice(0, n)` in UTF-16 code units; a pair of them that does not fit is left out whole.
unfoldable pub slice : ℕ → String → String
slice n String.[] = ""
slice n (String.◌∷◌ c s) =
    let width = if ltb (code c) 65536 then 1 else 2 in
    let rest = slice (n - width) s in if ltb n width then "" else String.◌∷◌ c rest

abbrev pub new_message : String → String → String → Option MessageType → String → Message
new_message task_id sender_id content type id = record {
  id = id;
  task_id = task_id;
  sender_id = sender_id;
  content = content;
  type = or_default type MessageType.text;
  read_at = none;
}

unfoldable pub notify : Option String → String → String → String → Handler (Unit {0})
notify none task_id sender_id content = pure tt
notify (some recipient_id) task_id sender_id content =
    emit (message_sent task_id sender_id recipient_id (slice 80 content))

-- The other side of the task.
abbrev pub recipient : Task → String → Option String
recipient t sender_id = given (if t.poster_id == sender_id then t.doer_id else some t.poster_id)

-- `sendMessage`
unfoldable pub send_message : String → String → String → Option MessageType → Handler Message
send_message task_id sender_id content type = do
  task ← participant_task task_id sender_id
  guard (not (is_closed task.status)) (forbidden "Cannot send messages on a closed task")
  message ←
      create messages (λ new m. m.id == new.id)
        (λ id now. new_message task_id sender_id content type id)
  notify (recipient task sender_id) task_id sender_id content
  pure message

abbrev pub is_of_user : World → String → String → Bool
is_of_user w user_id task_id = elim (find_first (λ t. t.id == task_id) w.tasks) [
  | none ↦ false
  | some t ↦ is_participant t user_id
]

abbrev pub is_unread : World → String → Message → Bool
is_unread w user_id m =
    is_none m.read_at && (not (m.sender_id == user_id) && is_of_user w user_id m.task_id)

-- `getUnreadCount`
unfoldable pub get_unread_count : String → Handler ℕ
get_unread_count user_id = reads (λ w. count_rows (is_unread w user_id) w.messages)
