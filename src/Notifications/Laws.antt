-- ===== src/Notifications/Laws.antt =====
-- The unread notifications of a user, as counted, listed and marked.
use oss_us_web_design_system.Base.{
  ℕ, ◌≡◌, refl, List, [], ◌∷◌, update_where, ok, ◌==◌, if◌then◌else◌, arith, Bool-cases, inl, inr,
}
use oss_us_web_design_system.Notifications.{
  Notification, NotificationDb, is_unread_of, unread_count, read_notification, mark_all_read,
}

mark_all-unread :
    (now k j : ℕ) (rows : List Notification)
    → unread_count j (update_where (is_unread_of k) (read_notification now) rows)
      ≡ (if j == k then 0 else unread_count j rows)
unfolding unread_count is_unread_of read_notification
mark_all-unread now k j [] = ground arith
mark_all-unread now k j (n ∷ rows) =
    let rest = mark_all-unread now k j rows in
    elim (Bool-cases (is_unread_of k n)) [
      | inl e ↦ rw e (ground arith)
      | inr e ↦ rw e (ground arith)
    ]

-- Marking all of a user's notifications as read reports how many were unread, leaves that user none,
-- and leaves every other user as many as before.
mark_all_read-unread_count :
    (now user_id j : ℕ) (db : NotificationDb)
    → let (r, db') = mark_all_read now user_id db in
      (r ≡ ok (unread_count user_id db.notifications))
      × (unread_count j db'.notifications
          ≡ (if j == user_id then 0 else unread_count j db.notifications))
unfolding mark_all_read
mark_all_read-unread_count now user_id j db = (refl, mark_all-unread now user_id j db.notifications)
