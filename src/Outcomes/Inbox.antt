-- ===== src/Outcomes/Inbox.antt =====
-- `markAllRead` and `getUnreadCount` of notifications.service.ts.
use mathlib.Core.Path.{ap₂}
use help_mi.Common.{
  ℕ, suc, ◌≡◌, refl, ap, String, false, ◌==◌, List, [], ◌∷◌, arith, eq-meet, if◌then◌else◌,
}
use help_mi.Schema.{Notification}
use help_mi.Database.{update_rows, count_rows}
use help_mi.World.{World}
use help_mi.Handler.{run, ok, ◌>>◌}
use help_mi.Notifications.{mark_all_read, get_unread_count, is_unread_of, read_now}

none-left :
    (user_id : String) (now : ℕ) (ns : List Notification)
    → count_rows (is_unread_of user_id) (update_rows (is_unread_of user_id) (read_now now) ns) ≡ 0
unfolding count_rows update_rows
none-left user_id now [] = refl
none-left user_id now (n ∷ ns) = ground (arith, none-left user_id now ns)

apart :
    (user_id other : String) (now : ℕ) (n : Notification)
    → user_id == other ≡ false
    → is_unread_of other (if is_unread_of user_id n then read_now now n else n)
      ≡ is_unread_of other n
apart user_id other now n h = ground (arith, eq-meet n.user_id user_id other)

others-left :
    (user_id other : String) (now : ℕ) (ns : List Notification)
    → user_id == other ≡ false
    → count_rows (is_unread_of other) (update_rows (is_unread_of user_id) (read_now now) ns)
      ≡ count_rows (is_unread_of other) ns
unfolding count_rows update_rows
others-left user_id other now [] h = refl
others-left user_id other now (n ∷ ns) h =
    ap₂ (λ b k. if b then suc k else k) (apart user_id other now n h)
      (others-left user_id other now ns h)

-- After a user has marked all as read it has no unread notification, and the count of every other
-- user is what it was.
pub mark_all_read-get_unread_count :
    (w : World) (user_id other : String)
    → user_id == other ≡ false
    → ((run (mark_all_read user_id >> get_unread_count user_id) w).0 ≡ ok 0)
      × ((run (mark_all_read user_id >> get_unread_count other) w).0
          ≡ ok (count_rows (is_unread_of other) w.notifications))
unfolding mark_all_read get_unread_count
mark_all_read-get_unread_count w user_id other h = (
  ap ok (none-left user_id w.clock w.notifications),
  ap ok (others-left user_id other w.clock w.notifications h),
)
