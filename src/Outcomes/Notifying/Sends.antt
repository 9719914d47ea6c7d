-- ===== src/Outcomes/Notifying/Sends.antt =====
-- `send` and `sendToMany` of notifications.service.ts: for whom a notification is added.
use mathlib.Core.List.{append_assoc, append-nil}
use help_mi.Common.{
  ◌≡◌, refl, sym, ap, ◌∙◌, String, Option, none, some, Bool, true, false, ◌==◌, List, [], ◌∷◌, ◌++◌,
  if◌then◌else◌,
}
use help_mi.Schema.{Notification}
use help_mi.Database.{find_first, add_row}
use help_mi.Database.Every.{AllOf, AllOf-++}
use help_mi.World.{World}
use help_mi.Handler.{pure, throw, ◌>>=◌, ◌>>◌, run, reference_missing}
use help_mi.Notifications.{
  Notice, send, send_to_many, push_row, create_notification, send_to_token, device, refers,
  with_notification,
}
use help_mi.Notifications.Listener.{send_if}
use help_mi.Outcomes.Post.{Post, Post->>=, Post-weaken, Post-catch}

-- Only notifications for users of whom `P` holds were added.
abbrev pub Sent : (String → Type 0) → World → World → Type 0
Sent P v w =
    (new : List Notification) × ((w.notifications ≡ v.notifications ++ new)
      × AllOf (λ n. P n.user_id) new)

module _ (P : String → Type 0) where
  pub none-Sent : (w : World) → Sent P w w
  none-Sent w = ([], (sym (append-nil w.notifications), tt))

  Sent-trans : (u v w : World) → Sent P u v → Sent P v w → Sent P u w
  Sent-trans u v w (a, (h, p)) (b, (k, q)) =
      (a ++ b, (k ∙ ap (λ l. l ++ b) h ∙ append_assoc u.notifications a b, AllOf-++ _ a b p q))

  -- A push leaves the rows alone.
  send_to_token-Post :
      (o : Option String) (notice : Notice) (v w : World)
      → Sent P v w
      → Post (λ _. Sent P v) (λ _. ⊥) (run (send_to_token o notice) w)
  unfolding send_to_token
  send_to_token-Post none notice v w h = h
  send_to_token-Post (some token) notice v w h = h

  push_row-Post :
      (user_id : String) (notice : Notice) (row : Notification) (v w : World)
      → Sent P v w
      → Post (λ _. Sent P v) (Sent P v) (run (push_row user_id notice row) w)
  unfolding push_row
  push_row-Post user_id notice row v w h =
      Post->>= _ _ (send_to_token (device (find_first (λ u. u.id == user_id) w.users)) notice) _ w (
        Post-weaken (λ _. Sent P v) _ (λ _. ⊥) _ _ (λ _ _ s. s) (λ _ e. absurd e)
          (send_to_token-Post (device (find_first (λ u. u.id == user_id) w.users)) notice v w h))

  created-Post :
      (user_id : String) (notice : Notice) (row : Notification) (b : Bool) (w : World)
      → P user_id
      → Post
          (λ _. Sent P w)
          (Sent P w)
          (run
            ((if b then pure row else throw reference_missing) >>= push_row user_id notice)
            (if b then with_notification user_id notice w else w))
  unfolding add_row
  created-Post user_id notice row true w p =
      push_row-Post user_id notice row w (with_notification user_id notice w) (_, (refl, (p, tt)))
  created-Post user_id notice row false w p = none-Sent w

  send-Post :
      (user_id : String) (notice : Notice) (w : World)
      → P user_id
      → Post (λ _. Sent P w) (λ _. ⊥) (run (send user_id notice) w)
  unfolding send create_notification
  send-Post user_id notice w p =
      Post-catch _ (create_notification user_id notice >>= push_row user_id notice) none w
        (created-Post user_id notice _ (refers w user_id notice.task_id) w p)

  pub send_to_many-Post :
      (user_ids : List String) (notice : Notice) (v w : World)
      → AllOf P user_ids
      → Sent P v w
      → Post (λ _. Sent P v) (λ _. ⊥) (run (send_to_many user_ids notice) w)
  unfolding send_to_many
  send_to_many-Post [] notice v w h s = s
  send_to_many-Post (user_id ∷ user_ids) notice v w (p, h) s =
      Post->>= _ _ (send user_id notice) _ w (
        Post-weaken (λ _. Sent P w) _ (λ _. ⊥) _ _
          (λ _ u more. send_to_many-Post user_ids notice v u h (Sent-trans v w u s more)) (λ _ e. e)
          (send-Post user_id notice w p))

  pub single-Post :
      (user_id : String) (notice : Notice) (w : World)
      → P user_id
      → Post (λ _. Sent P w) (λ _. ⊥) (run (send user_id notice >> pure tt) w)
  single-Post user_id notice w p = Post->>= _ _ (send user_id notice) _ w (
      Post-weaken (λ _. Sent P w) _ (λ _. ⊥) _ _ (λ _ _ s. s) (λ _ e. e)
        (send-Post user_id notice w p))

  pub send_if-Post :
      (o : Option String) (notice : Notice) (w : World)
      → ((u : String) → o ≡ some u → P u)
      → Post (λ _. Sent P w) (λ _. ⊥) (run (send_if o notice) w)
  send_if-Post none notice w p = none-Sent w
  send_if-Post (some u) notice w p = single-Post u notice w (p u refl)
