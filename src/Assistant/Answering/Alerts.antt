-- ===== src/Assistant/Answering/Alerts.antt =====
-- Who is told that a question has no answer (`dispatch_unanswerable_alert`), and the alerts' own
-- calls (`acknowledge_question_alert`) in app/slots/accessibility_assistant/service.py.
use oss_us_web_design_system.Base.{
  ◌⊎◌, ap, ◌∙◌, Memᴰ, ℕ, ◌+◌, ◌≡◌, refl, true, false, Option, none, some, String, List, [], ◌∷◌,
  ◌++◌, filter, length, update_where, Action, pure, or_raise, gets, modify, ◌>>=◌, ◌>>◌, ◌==◌,
  if◌then◌else◌, arith, Bool-cases, inl, inr, Text, codes, strip,
}
use oss_us_web_design_system.Auth.User.{User}
use oss_us_web_design_system.Tenancy.{select_one}
use oss_us_web_design_system.Notifications.{
  Notification, NotificationDb, notify, is_empty, is_unread_of, unread_count, new_notification,
}
use oss_us_web_design_system.Assistant.Answering.{
  AnswerDb, has_org_role, QuestionAlert, notify_each, resolve_alert_recipients,
  resolve_org_and_platform_admins,
}
use oss_us_web_design_system.Assistant.Answering.Recipients.{
  IsAlertRecipient, is_alert_role, has_alert_role_sound, has_alert_role_complete, UniqueIds,
  count_one,
}
use oss_us_web_design_system.Assistant.Answering.Records.{alert_body, dispatch_unanswerable_alert}
use oss_us_web_design_system.Assistant.Answering.Egress.{dispatch_admin_alert}

unread_count-append_last :
    (j : ℕ) (rows : List Notification) (n : Notification)
    → unread_count j (rows ++ n ∷ []) ≡ unread_count j rows + (if is_unread_of j n then 1 else 0)
unfolding unread_count
unread_count-append_last j [] n = ground arith
unread_count-append_last j (m ∷ rows) n =
    let rest = unread_count-append_last j rows n in ground arith

notify-unread_count :
    (j k : ℕ) (title body : Text) (level : String) (org : Option ℕ) (db : NotificationDb)
    → is_empty (strip title) ≡ false
    → unread_count j (notify k title body level org db).1.notifications
      ≡ unread_count j db.notifications + (if k == j then 1 else 0)
unfolding notify is_unread_of new_notification
notify-unread_count j k title body level org db h = elim (Bool-cases (k == j)) [
  | inl e ↦
      rw
        (
          notify,
          h,
          unread_count-append_last j db.notifications
              (new_notification db.next_id k title body level org),
        )
        (ground arith)
  | inr e ↦
      rw
        (
          notify,
          h,
          unread_count-append_last j db.notifications
              (new_notification db.next_id k title body level org),
        )
        (ground arith)
]

-- Every recipient has one more unread notification for each place in the list of recipients.
notify_each-unread_count :
    (j : ℕ) (us : List User) (title body : Text) (level : String) (org_id : ℕ) (db : NotificationDb)
    → is_empty (strip title) ≡ false
    → unread_count j (notify_each us title body level org_id db).notifications
      ≡ unread_count j db.notifications + length (filter (λ u. u.id == j) us)
unfolding notify_each
notify_each-unread_count j [] title body level org_id db h = omega arith
notify_each-unread_count j (u ∷ us) title body level org_id db h =
    let rest =
      notify_each-unread_count j us title body level org_id
        (notify u.id title body level (some org_id) db).1 h in
    let one = notify-unread_count j u.id title body level (some org_id) db h in
    elim (Bool-cases (u.id == j)) [
      | inl e ↦ rw (e, rest, one, e) (omega arith)
      | inr e ↦ rw (e, rest, one, e) (omega arith)
    ]

-- Every place of a user among the recipients is one more unread notification of that user.
pub dispatch_unanswerable_alert-count :
    (j org_id : ℕ) (user : User) (question : Text) (db : AnswerDb)
    → unread_count j
        (dispatch_unanswerable_alert org_id user question db).notifications.notifications
      ≡ unread_count j db.notifications.notifications
        + length (filter (λ u. u.id == j) (resolve_alert_recipients org_id db))
unfolding dispatch_unanswerable_alert strip is_empty
dispatch_unanswerable_alert-count j org_id user question db =
    notify_each-unread_count j (resolve_alert_recipients org_id db)
      (codes "No answer available for a submitted question") (alert_body user question) "warning"
      org_id db.notifications refl

-- Where no two users have the same number, the alert about a question without an answer gives a user
-- who is an administrator or a content manager of the organization exactly one more unread
-- notification, and leaves the number of every other user as it was.
pub dispatch_unanswerable_alert-unread_count :
    (u : User) (org_id : ℕ) (user : User) (question : Text) (db : AnswerDb)
    → UniqueIds db.users
    → Memᴰ u db.users
    → let before = unread_count u.id db.notifications.notifications in
      let after =
        unread_count u.id
          (dispatch_unanswerable_alert org_id user question db).notifications.notifications in
      (IsAlertRecipient db.directory org_id u × (after ≡ before + 1))
      ⊎ ((IsAlertRecipient db.directory org_id u → ⊥) × (after ≡ before))
unfolding resolve_alert_recipients
dispatch_unanswerable_alert-unread_count u org_id user question db unique mem =
    let q = has_org_role db.directory org_id is_alert_role in
    let sent = dispatch_unanswerable_alert-count u.id org_id user question db in
    let one = count_one q db.users u unique mem in
    elim (Bool-cases (q u)) [
      | inl e ↦ inl (
        has_alert_role_sound db.directory org_id u e,
        sent
            ∙ ap (λ n. unread_count u.id db.notifications.notifications + n)
                (one ∙ ap (λ b. if b then 1 else 0) e),
      )
      | inr e ↦ inr (
        λ r.
            absurd
              (let k = has_alert_role_complete db.directory org_id u r in ground (arith, e, k)),
        sent
            ∙ ap (λ n. unread_count u.id db.notifications.notifications + n)
                (one ∙ ap (λ b. if b then 1 else 0) e)
            ∙ omega arith,
      )
    ]

-- The alert about an unavailable model gives every administrator of the organization and every
-- platform administrator one more unread notification, and nobody else.
pub dispatch_admin_alert-unread_count :
    (j org_id : ℕ) (title body : Text) (db : AnswerDb)
    → is_empty (strip title) ≡ false
    → unread_count j (dispatch_admin_alert org_id title body db).notifications.notifications
      ≡ unread_count j db.notifications.notifications
        + length (filter (λ u. u.id == j) (resolve_org_and_platform_admins org_id db))
unfolding dispatch_admin_alert
dispatch_admin_alert-unread_count j org_id title body db h =
    notify_each-unread_count j (resolve_org_and_platform_admins org_id db) title body "error" org_id
      db.notifications h

pub data AlertError : Type 0 where
  question_alert_not_found : AlertError

abbrev alert_org : QuestionAlert → ℕ
alert_org a = elim a.org_id [ none ↦ 0 | some org_id ↦ org_id ]

-- `acknowledge_question_alert`; an alert's organization is never missing in the table.
unfoldable pub acknowledge_question_alert : ℕ → User → ℕ → Action AnswerDb AlertError QuestionAlert
acknowledge_question_alert now user alert_id = do
  found ← gets (λ db. select_one alert_org db.current_org (λ a. a.id == alert_id) db.alerts)
  alert ← or_raise found question_alert_not_found
  let done = record alert {
    acknowledged = true;
    acknowledged_by_user_id = some user.id;
    acknowledged_at = some now;
  }
  modify (λ db. record db { alerts = update_where (λ a. a.id == alert.id) (λ _. done) db.alerts })
  pure done
