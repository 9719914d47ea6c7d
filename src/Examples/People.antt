-- ===== src/Examples/People.antt =====
-- The theorems on notifications and on who gets through, at the sample world.
use mathlib.Core.Bool.{true≢false}
use mathlib.Core.Option.{some-injective}
use help_mi.Common.{
  ◌≤◌, arith, sym, ap, ◌∙◌, ◌≡◌, refl, none, [], ◌∷◌, arith, trim, trim_start, trim_end, split,
}
use help_mi.Schema.{NotificationType, task_posted, DoerTier}
use help_mi.Database.{find_first, count_rows}
use help_mi.World.{World}
use help_mi.Handler.{run, ok, ◌>>◌}
use help_mi.Notifications.{Notice, new_notification, mark_all_read, get_unread_count, is_unread_of}
use help_mi.Auth.{issue_otp, config_number}
use help_mi.Outcomes.Cooldown.{AgainRefused, issue_otp-again}
use help_mi.Outcomes.Inbox.{mark_all_read-get_unread_count}
use help_mi.Requests.{cancels, accepts, serve_all}
use help_mi.Notifications.Listener.{on_event}
use help_mi.Guards.{admin_route, bans, is_admin, includes}
use help_mi.Users.{delete_me}
use help_mi.Admin.{ban_user}
use help_mi.Safety.Advance.{HasTask}
use help_mi.Safety.Stable.{order_of}
use help_mi.Safety.Doer.{AtLeast, serve_all-AtLeast}
use help_mi.Outcomes.Post.{Post}
use help_mi.Outcomes.Notifying.Sends.{Sent}
use help_mi.Outcomes.Notifying.{MayTell, on_event-MayTell}
use help_mi.Outcomes.Access.{MayAdminister, ShutOut, admin_route-Refused, tokens-ShutOut}
use help_mi.Examples.Sample.{sample_world, sample_task, sample_user, otp_world}

sample-AtLeast : HasTask "t1" (AtLeast (order_of sample_task) 1) sample_world.tasks
unfolding find_first
sample-AtLeast = (sample_task, (refl, (refl, omega arith)))

serve_all-AtLeast_example :
    HasTask "t1"
      (AtLeast (order_of sample_task) 1)
      (serve_all
        (0 ∷ 1 ∷ 0 ∷ 1 ∷ 0 ∷ [])
        (cancels "t1" "ann" ∷ accepts "t1" "bob" ∷ [])
        sample_world).tasks
serve_all-AtLeast_example =
    serve_all-AtLeast (0 ∷ 1 ∷ 0 ∷ 1 ∷ 0 ∷ []) (cancels "t1" "ann" ∷ accepts "t1" "bob" ∷ [])
      sample_world "t1" (order_of sample_task) 1 sample-AtLeast

on_event-MayTell_example :
    Post
      (λ _.
        Sent
          (MayTell sample_world (task_posted "t1" "ann" "Paint a wall" DoerTier.silver))
          sample_world)
      (λ _. ⊥)
      (run (on_event (task_posted "t1" "ann" "Paint a wall" DoerTier.silver)) sample_world)
on_event-MayTell_example =
    on_event-MayTell sample_world (task_posted "t1" "ann" "Paint a wall" DoerTier.silver)

-- The poster of the sample is there, but no admin.
ann-MayAdminister : MayAdminister otp_world "ann" → ⊥
unfolding find_first includes trim trim_start trim_end split
ann-MayAdminister (u, (here, (live, allowed))) =
    true≢false
      (sym allowed ∙ sym (ap (λ v. is_admin otp_world v.phone) (some-injective sample_user u here)))

admin_route-Refused_example :
    Post (λ _ _. ⊥) (λ w'. w' ≡ otp_world) (run (admin_route "ann" (bans "bob")) otp_world)
admin_route-Refused_example = admin_route-Refused otp_world "ann" (bans "bob") ann-MayAdminister

tokens-ShutOut_example :
    Post (λ _. ShutOut "ann") (λ w'. w' ≡ otp_world) (run (ban_user "ann") otp_world)
    × Post (λ _. ShutOut "ann") (λ w'. w' ≡ otp_world) (run (delete_me "ann") otp_world)
tokens-ShutOut_example = tokens-ShutOut otp_world "ann"

abbrev hello : Notice
hello = record {
  type = NotificationType.new_message;
  title = "New message";
  body = "Hi";
  task_id = none;
}

abbrev notified_world : World
notified_world = record sample_world {
  notifications = new_notification "ann" hello "n1" ∷ new_notification "bob" hello "n2" ∷ [];
}

mark_all_read-get_unread_count_example :
    ((run (mark_all_read "ann" >> get_unread_count "ann") notified_world).0 ≡ ok 0)
    × ((run (mark_all_read "ann" >> get_unread_count "bob") notified_world).0
        ≡ ok (count_rows (is_unread_of "bob") notified_world.notifications))
mark_all_read-get_unread_count_example =
    mark_all_read-get_unread_count notified_world "ann" "bob" refl

known-cooldown : 1 ≤ config_number sample_world "OTP_RESEND_COOLDOWN_SECONDS" 60
known-cooldown = omega arith

issue_otp-again_example :
    Post (λ _. AgainRefused "0771") (λ _. Unit) (run (issue_otp "0771") sample_world)
issue_otp-again_example = issue_otp-again sample_world "0771" known-cooldown
