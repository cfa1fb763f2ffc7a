-- ===== src/Notifications.antt =====
-- In-app notifications (app/notifications/service.py). The creation stamp of a row is left out.
pub mod Laws
use oss_us_web_design_system.Base.{
  ℕ, zero, suc, ◌+◌, Bool, true, false, not, ◌&&◌, ◌||◌, Option, none, some, String, List, [], ◌∷◌,
  ◌++◌, filter, find?, length, update_where, Action, pure, raise_if, gets, modify, ◌>>=◌, ◌>>◌,
  ◌==◌, if◌then◌else◌, Text, strip, str_eq, sort_desc, take,
}

pub record Notification : Type 0 where
  pub id : ℕ
  pub user_id : ℕ
  pub organization_id : Option ℕ
  pub title : Text
  pub body : Text
  pub level : String
  pub is_read : Bool
  pub read_at : Option ℕ

pub record NotificationDb : Type 0 where
  pub notifications : List Notification
  pub next_id : ℕ

pub data NotificationError : Type 0 where
  title_required : NotificationError

-- `NOTIFICATION_LEVELS`.
unfoldable pub is_level : String → Bool
is_level level =
    str_eq level "info" || str_eq level "success" || str_eq level "warning" || str_eq level "error"

unfoldable pub is_empty : {A : Type 0} → List A → Bool
is_empty [] = true
is_empty (_ ∷ _) = false

-- The row that `notify` adds.
unfoldable pub new_notification : ℕ → ℕ → Text → Text → String → Option ℕ → Notification
unfolding is_level
new_notification id user_id title body level org_id = record {
  id = id;
  user_id = user_id;
  organization_id = org_id;
  title = take 255 (strip title);
  body = body;
  level = if is_level level then level else "info";
  is_read = false;
  read_at = none;
}

-- `notify`.
unfoldable pub notify :
    ℕ → Text → Text → String → Option ℕ → Action NotificationDb NotificationError Notification
unfolding is_empty new_notification
notify user_id title body level org_id = do
  raise_if (is_empty (strip title)) title_required
  id ← gets (λ db. db.next_id)
  let n = new_notification id user_id title body level org_id
  modify (λ db. record db { notifications = db.notifications ++ n ∷ []; next_id = id + 1 })
  pure n

unfoldable pub is_unread_of : ℕ → Notification → Bool
is_unread_of user_id n = n.user_id == user_id && not n.is_read

-- `list_for_user`.
unfoldable pub list_for_user : ℕ → Bool → ℕ → List Notification → List Notification
unfolding is_unread_of sort_desc
list_for_user user_id unread_only limit rows = take limit (
    sort_desc (λ n. n.id)
      (if unread_only
        then filter (is_unread_of user_id) rows
        else filter (λ n. n.user_id == user_id) rows))

-- `unread_count`.
unfoldable pub unread_count : ℕ → List Notification → ℕ
unfolding is_unread_of
unread_count user_id rows = length (filter (is_unread_of user_id) rows)

unfoldable pub read_notification : ℕ → Notification → Notification
read_notification now n = record n { is_read = true; read_at = some now }

-- `mark_read`: `none` if the user has no such notification.
unfoldable pub mark_read : ℕ → ℕ → ℕ → Action NotificationDb NotificationError (Option Notification)
unfolding read_notification
mark_read now notification_id user_id db =
    elim (find? (λ n. n.id == notification_id && n.user_id == user_id) db.notifications) [
      | none ↦ pure none db
      | some n ↦
          if n.is_read
          then pure (some n) db
          else pure (some (read_notification now n)) (record db {
            notifications =
                update_where (λ x. x.id == n.id) (λ _. read_notification now n) db.notifications;
          })
    ]

-- `mark_all_read`: the number of rows that the UPDATE changed.
unfoldable pub mark_all_read : ℕ → ℕ → Action NotificationDb NotificationError ℕ
unfolding is_unread_of read_notification unread_count
mark_all_read now user_id db = pure (unread_count user_id db.notifications) (record db {
  notifications = update_where (is_unread_of user_id) (read_notification now) db.notifications;
})
