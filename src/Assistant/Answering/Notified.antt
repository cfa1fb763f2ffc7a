-- ===== src/Assistant/Answering/Notified.antt =====
-- Who hears of a question that no tier could answer (`resolve_question_tiered` in
-- app/slots/accessibility_assistant/service.py).
use oss_us_web_design_system.Base.{
  ℕ, ◌+◌, ◌≤◌, ◌≡◌, refl, ap, ◌∙◌, true, false, List, [], ◌∷◌, ok, filter, length, ◌==◌, ==_refl,
  arith, Bool-cases, Option-cases, Result-cases, inl, inr, Text, codes, Memᴰ, Memᴰ-filter,
  Memᴰ-cases, find?, str_eq, strip,
}
use oss_us_web_design_system.Auth.User.{User}
use oss_us_web_design_system.Directory.{Directory}
use oss_us_web_design_system.Llm.Crypto.{Cipher, CryptoSettings}
use oss_us_web_design_system.Notifications.{unread_count, is_empty}
use oss_us_web_design_system.Assistant.Retry.{LlmOutcome}
use oss_us_web_design_system.Assistant.Sanitizer.{Regex, check_content}
use oss_us_web_design_system.Assistant.Grants.{ensure_baseline_role_grants}
use oss_us_web_design_system.Assistant.Answering.{
  Message, AnswerDb, history_of, resolve_alert_recipients, has_org_role,
}
use oss_us_web_design_system.Assistant.Answering.Replies.{ChatReply, Json}
use oss_us_web_design_system.Assistant.Answering.Egress.{dispatch_admin_alert}
use oss_us_web_design_system.Assistant.Answering.Recipients.{
  IsAlertRecipient, by_membership, is_alert_role, has_alert_role_complete,
}
use oss_us_web_design_system.Assistant.Answering.Alerts.{
  dispatch_unanswerable_alert-count, dispatch_admin_alert-unread_count,
}
use oss_us_web_design_system.Assistant.Answering.Laws.{
  LeftBy, unchanged, model_alert, find_answer-LeftBy,
}
use oss_us_web_design_system.Assistant.Answering.Records.{
  AskQuestionCreate, Resolution, Found, dispatch_unanswerable_alert, log_turn,
}
use oss_us_web_design_system.Assistant.Answering.Questions.{
  resolve_question_tiered, find_answer, finish,
}

-- What the tiers leave for the recipients: the same users with the same roles, and no less to read.
LeftBy-unread :
    {org_id : ℕ} {db db' : AnswerDb} (j : ℕ)
    → LeftBy org_id db db'
    → (db'.users ≡ db.users)
      × (db'.directory ≡ db.directory)
      × (unread_count j db.notifications.notifications
          ≤ unread_count j db'.notifications.notifications)
unfolding dispatch_admin_alert is_empty strip
LeftBy-unread j unchanged = (refl, refl, omega arith)
LeftBy-unread {org_id} {db} j (model_alert body) =
    let q =
      dispatch_admin_alert-unread_count j org_id (codes "AI assistant unavailable") body db named in
    (refl, refl, omega (arith, q))
  where
    named : is_empty (strip (codes "AI assistant unavailable")) ≡ false
    named = refl

-- The grants for the baseline role change no membership and no role.
IsAlertRecipient-baseline :
    (d : Directory) (org_id : ℕ) (u : User)
    → IsAlertRecipient d org_id u
    → IsAlertRecipient (ensure_baseline_role_grants d) org_id u
unfolding ensure_baseline_role_grants
IsAlertRecipient-baseline d org_id u r =
    elim (Option-cases (find? (λ x. str_eq x.name "user") d.roles)) [
      | inl e ↦ rw (ensure_baseline_role_grants, e) r
      | inr (x, e) ↦
          rw (ensure_baseline_role_grants, e)
            (elim r [ by_membership m y a b c n ↦ by_membership m y a b c n ])
    ]

count_some : (us : List User) (u : User) → Memᴰ u us → 1 ≤ length (filter (λ v. v.id == u.id) us)
count_some [] u m = elim m [ ]
count_some (v ∷ us) u m = elim (Memᴰ-cases m) [
  | inl e ↦ rw (e, ==_refl v.id) (omega arith)
  | inr k ↦
      let rest = count_some us u k in
      elim (Bool-cases (v.id == u.id)) [ inl e ↦ rw e (omega arith) | inr e ↦ rw e rest ]
]

dispatch-unread :
    (u : User) (org_id : ℕ) (user : User) (question : Text) (db : AnswerDb)
    → Memᴰ u db.users
    → IsAlertRecipient db.directory org_id u
    → unread_count u.id db.notifications.notifications + 1
      ≤ unread_count u.id
          (dispatch_unanswerable_alert org_id user question db).notifications.notifications
unfolding resolve_alert_recipients
dispatch-unread u org_id user question db m r =
    let told = has_org_role db.directory org_id is_alert_role in
    let some_place =
      count_some (filter told db.users) u
        (Memᴰ-filter told m (has_alert_role_complete db.directory org_id u r)) in
    let q = dispatch_unanswerable_alert-count u.id org_id user question db in
    omega (arith, q, some_place)

module _ (cipher : Cipher) (settings : CryptoSettings) (json : Json) (re : Regex)
    (transport : Text → Text → List Message → ℕ → LlmOutcome ChatReply) where
  finish-unread :
      (now : ℕ) (user : User) (org_id : ℕ) (payload : AskQuestionCreate) (found : Found)
      (db : AnswerDb) (u : User)
      → Memᴰ u db.users
      → IsAlertRecipient db.directory org_id u
      → (finish cipher settings json re transport now user org_id payload true found
          db).0.alert_sent
        ≡ true
      → unread_count u.id db.notifications.notifications + 1
        ≤ unread_count u.id
            (finish cipher settings json re transport now user org_id payload true found
              db).1.notifications.notifications
  unfolding finish log_turn
  finish-unread now user org_id payload found db u m r sent =
      rw (finish, sent) (dispatch-unread u org_id user payload.question_text db m r)

  -- When `resolve_question_tiered`, asked to alert, returns that an alert was sent, every administrator
  -- and every content manager of the organization has at least one unread notification more than
  -- before.
  pub resolve_question_tiered-notifies :
      (now : ℕ) (user : User) (org_id : ℕ) (payload : AskQuestionCreate) (db : AnswerDb)
      (res : Resolution) (u : User)
      → Memᴰ u db.users
      → IsAlertRecipient db.directory org_id u
      → (resolve_question_tiered cipher settings json re transport now user org_id payload true
          db).0
        ≡ ok res
      → res.alert_sent ≡ true
      → unread_count u.id db.notifications.notifications + 1
        ≤ unread_count u.id
            (resolve_question_tiered cipher settings json re transport now user org_id payload true
              db).1.notifications.notifications
  unfolding resolve_question_tiered
  resolve_question_tiered-notifies now user org_id payload db res u m r h sent =
      elim (Option-cases (check_content re payload.question_text)) [
        | inr (reason, e) ↦ absurd (ground (arith, e))
        | inl e ↦
            let db1 : AnswerDb = record db {
              directory = ensure_baseline_role_grants db.directory;
            } in
            let history = history_of payload.session_id user.id db1 in
            let (us, d, more) =
              LeftBy-unread u.id
                (find_answer-LeftBy cipher settings json re transport payload history org_id db1) in
            elim (Result-cases
              (find_answer cipher settings json re transport payload history org_id db1).0) [
                | inr (x, f) ↦ absurd (ground (arith, e, f))
                | inl (found, f) ↦
                    let db2 =
                      (find_answer cipher settings json re transport payload history org_id
                        db1).1 in
                    let out =
                      finish cipher settings json re transport now user org_id payload true found
                        db2 in
                    let ho : ok out.0 ≡ ok res = rw (resolve_question_tiered, e, f) at h in
                    let q : out.0 ≡ res = cc in
                    let r1 = IsAlertRecipient-baseline db.directory org_id u r in
                    let r2 : IsAlertRecipient db2.directory org_id u = rw d r1 in
                    let m2 : Memᴰ u db2.users = rw us m in
                    let t =
                      finish-unread now user org_id payload found db2 u m2 r2
                        (ap (λ x. x.alert_sent) q ∙ sent) in
                    rw (resolve_question_tiered, e, f) (omega (arith, t, more))
              ]
      ]
