-- ===== src/Outcomes/Reading.antt =====
-- `getMessages` of messages.service.ts: who reads, and what is then read.
use mathlib.Core.Path.{ap₂}
use help_mi.Common.{
  ◌≡◌, refl, ap, Bool, true, false, not, ◌&&◌, ◌==◌, none, some, String, arith, eq-path, path-eq,
  &&-both,
}
use help_mi.Schema.{Task, Message}
use help_mi.Database.{find_first, find_many}
use help_mi.Database.Rowwise.{Wrote, Wrote-update_rows}
use help_mi.World.{World}
use help_mi.Handler.{run}
use help_mi.Tasks.Lifecycle.{find_task, is_none}
use help_mi.Messages.{get_messages, participant_task, is_participant, is_unread_by, read_row}
use help_mi.Outcomes.Statuses.{is_absent}
use help_mi.Outcomes.Post.{Post, Post->>=, Post-or_throw, Post-guard}

-- A message of the task that the other side has sent and that is not read.
abbrev pub Unread : String → String → Message → Type 0
Unread task_id user_id m =
    (m.task_id ≡ task_id) × ((m.sender_id ≡ user_id → ⊥) × (m.read_at ≡ none))

is_unread_by-Unread :
    (task_id user_id : String) (m : Message)
    → is_unread_by task_id user_id m ≡ true
    → Unread task_id user_id m
is_unread_by-Unread task_id user_id m h =
    let (same, rest) = &&-both (m.task_id == task_id) _ h in
    let (other, absent) = &&-both (not (m.sender_id == user_id)) _ rest in
    (
      eq-path m.task_id task_id same,
      (λ own. not_own (path-eq m.sender_id user_id own) other, is_absent m.read_at absent),
    )
  where
    not_own : {b : Bool} → b ≡ true → not b ≡ true → ⊥
    not_own {b} h k = ground arith

Unread-is_unread_by :
    (task_id user_id : String) (m : Message)
    → Unread task_id user_id m
    → is_unread_by task_id user_id m ≡ true
Unread-is_unread_by task_id user_id m (same, (other, absent)) =
    ap₂ ◌&&◌ (path-eq m.task_id task_id same) (
      ap₂ ◌&&◌ (differs (m.sender_id == user_id) (λ h. other (eq-path m.sender_id user_id h)))
        (ap (λ o. is_none o) absent))
  where
    differs : (b : Bool) → (b ≡ true → ⊥) → not b ≡ true
    differs true h = absurd (h refl)
    differs false h = refl

-- Only a side of the task reads. It gets the task's messages as they are then stored, and of all
-- messages exactly those of the task that the other side has sent and that were not read have
-- become read, at this time. A refusal changes nothing.
pub get_messages-Post :
    (w : World) (task_id user_id : String)
    → Post
        (λ ms w'.
          ((t : Task) × ((find_first (λ t. t.id == task_id) w.tasks ≡ some t)
              × (is_participant t user_id ≡ true)))
          × ((ms ≡ find_many (λ m. m.task_id == task_id) w'.messages)
              × Wrote
                  (Unread task_id user_id)
                  (λ m m'. m' ≡ record m { read_at = some w.clock })
                  w.messages
                  w'.messages))
        (λ w'. w' ≡ w)
        (run (get_messages task_id user_id) w)
unfolding get_messages participant_task find_task
get_messages-Post w task_id user_id = Post->>= _ _ (participant_task task_id user_id) _ _ (
    let marked =
      Wrote-update_rows (Unread task_id user_id) (λ m m'. m' ≡ record m { read_at = some w.clock })
        (is_unread_by task_id user_id) (read_row w.clock) w.messages
        (is_unread_by-Unread task_id user_id) (Unread-is_unread_by task_id user_id) (λ _. refl) in
    Post-or_throw _ _ (find_first (λ t. t.id == task_id) w.tasks) _ _ _
      (λ t found.
        Post-guard _ _ (is_participant t user_id) _ _ _
          (λ side. ((t, (found, side)), (refl, marked))) (λ _. refl))
      (λ _. refl))
