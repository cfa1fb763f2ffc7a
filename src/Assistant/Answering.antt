-- ===== src/Assistant/Answering.antt =====
-- What the assistant answers questions from (app/slots/accessibility_assistant/service.py): the
-- tables, the conversation so far, the fallback mode, the provider and the recipients of alerts. A
-- user has at most one membership in an organization, and a role at most one row for its name, as
-- their unique constraints say, so the joins below list each user once.
pub mod Records
pub mod Replies
pub mod Egress
pub mod Questions
pub mod Laws
pub mod Recipients
pub mod Alerts
pub mod Notified
pub mod Prompts
use oss_us_web_design_system.Base.{
  ℕ, ◌+◌, Bool, true, false, not, ◌&&◌, ◌||◌, Option, none, some, String, List, [], ◌∷◌, ◌++◌,
  filter, find?, any, map, ◌==◌, str_eq, opt_eq, ltb, if◌then◌else◌, Text, codes, text_eq, first,
  sort_by, sort_desc,
}
use oss_us_web_design_system.Auth.User.{User}
use oss_us_web_design_system.Directory.{Directory, Membership, Role}
use oss_us_web_design_system.Tenancy.{visible, select_where}
use oss_us_web_design_system.Notifications.{NotificationDb, notify}
use oss_us_web_design_system.Llm.Keys.{ProviderKey, KeyDb, org_allows_shared}
use oss_us_web_design_system.Assistant.Matching.{Faq}

pub record Citation : Type 0 where
  pub source_name : Text
  pub hyperlink : Text

pub record Message : Type 0 where
  pub role : String
  pub content : Text

-- A row of `InteractionLog`, with the columns that the questions write.
pub record Turn : Type 0 where
  pub id : ℕ
  pub org_id : Option ℕ
  pub user_id : ℕ
  pub question_category_id : Option ℕ
  pub session_id : Option Text
  pub question_text : Text
  pub response_text : Text
  pub reasoning : Text
  pub sources_json : Text
  pub rating : Option Bool
  pub created_at : ℕ

-- The columns of the configured sources and of the fallback modes that an answer reads.
pub record InformationSource : Type 0 where
  pub id : ℕ
  pub org_id : ℕ
  pub name : Text
  pub source_type : Text

pub record FallbackConfig : Type 0 where
  pub id : ℕ
  pub org_id : ℕ
  pub question_category_id : ℕ
  pub mode : String

-- An alert; its creation stamp is left out.
pub record QuestionAlert : Type 0 where
  pub id : ℕ
  pub org_id : Option ℕ
  pub alert_type : String
  pub question_text : Text
  pub submitting_user_id : ℕ
  pub submitting_user_name : String
  pub acknowledged : Bool
  pub acknowledged_by_user_id : Option ℕ
  pub acknowledged_at : Option ℕ

-- The tables that an answer reads or writes, and the organization bound to the request.
pub record AnswerDb : Type 0 where
  pub users : List User
  pub directory : Directory
  pub faqs : List Faq
  pub sources : List InformationSource
  pub configs : List FallbackConfig
  pub turns : List Turn
  pub alerts : List QuestionAlert
  pub notifications : NotificationDb
  pub keys : KeyDb
  pub current_org : Option ℕ
  pub next_turn_id : ℕ
  pub next_alert_id : ℕ

-- The two messages of a turn; an empty response has none.
unfoldable pub turn_messages : Turn → List Message
turn_messages t = elim t.response_text [
  | [] ↦ record { role = "user"; content = t.question_text } ∷ []
  | c ∷ cs ↦
      record { role = "user"; content = t.question_text }
      ∷ record { role = "assistant"; content = c ∷ cs }
      ∷ []
]

unfoldable pub flatten : List (List Message) → List Message
flatten [] = []
flatten (xs ∷ xss) = xs ++ flatten xss

abbrev pub opt_text_eq : Option Text → Text → Bool
opt_text_eq none t = false
opt_text_eq (some s) t = text_eq s t

unfoldable pub in_org : Option ℕ → Turn → Bool
in_org none t = true
in_org (some org_id) t = opt_eq t.org_id (some org_id)

-- `_get_conversation_history`.
unfoldable pub get_conversation_history : Text → ℕ → AnswerDb → List Message
unfolding turn_messages flatten in_org sort_by
get_conversation_history session_id user_id db =
    let rows =
      filter
        (λ t.
          in_org db.current_org t && opt_text_eq t.session_id session_id && t.user_id == user_id)
        db.turns in
    flatten (map turn_messages (sort_by (λ a b. ltb a.created_at b.created_at) rows))

-- `if session_id:` and the history of that session.
unfoldable pub history_of : Option Text → ℕ → AnswerDb → List Message
unfolding get_conversation_history
history_of none user_id db = []
history_of (some []) user_id db = []
history_of (some (c ∷ cs)) user_id db = get_conversation_history (c ∷ cs) user_id db

abbrev pub frontier_general_knowledge : String
frontier_general_knowledge = "frontier_general_knowledge"

abbrev pub retrieval_augmented : String
retrieval_augmented = "retrieval_augmented"

-- `_resolve_llm_fallback_mode`: the configuration with the smallest id.
unfoldable pub resolve_llm_fallback_mode : Option ℕ → AnswerDb → String
unfolding select_where sort_by
resolve_llm_fallback_mode none db = frontier_general_knowledge
resolve_llm_fallback_mode (some category) db =
    elim (first (
      sort_by (λ a b. ltb a.id b.id)
        (select_where (λ c. c.org_id) db.current_org (λ c. c.question_category_id == category)
          db.configs))) [ none ↦ frontier_general_knowledge | some c ↦ c.mode ]

-- The provider of the newest active key of a scope; an empty name counts as none.
unfoldable pub newest_provider : Option ℕ → KeyDb → Option Text
unfolding sort_desc
newest_provider org_id db =
    elim (first (
      sort_desc (λ k. k.id)
        (filter (λ k. opt_eq k.organization_id org_id && k.is_active) db.keys))) [
          | none ↦ none
          | some k ↦ elim k.provider [ [] ↦ none | c ∷ cs ↦ some (c ∷ cs) ]
        ]

-- `_resolve_configured_provider`.
unfoldable pub resolve_configured_provider : ℕ → KeyDb → Text
unfolding newest_provider org_allows_shared
resolve_configured_provider org_id db = elim (newest_provider (some org_id) db) [
  | some p ↦ p
  | none ↦
      let shared : Text = elim (newest_provider none db) [ none ↦ codes "openai" | some p ↦ p ] in
      if org_allows_shared org_id db then shared else codes "openai"
]

-- `_model_for_provider`.
unfoldable pub model_for_provider : Text → Text
model_for_provider provider =
    if text_eq provider (codes "openai")
    then codes "gpt-4o-mini"
    else (if text_eq provider (codes "anthropic")
        then codes "claude-3-5-haiku-20241022"
        else (if text_eq provider (codes "gemini")
            then codes "gemini-1.5-flash"
            else (if text_eq provider (codes "google")
                then codes "gemini-1.5-flash"
                else provider)))

-- Whether a user has, in an organization, a role whose name passes a test.
unfoldable pub has_org_role : Directory → ℕ → (String → Bool) → User → Bool
has_org_role d org_id test user =
    any
      (λ m.
        m.user_id == user.id
        && m.org_id == org_id
        && any (λ r. opt_eq m.role_id (some r.id) && test r.name) d.roles)
      d.memberships

-- `_resolve_org_and_platform_admins`, with each user once.
unfoldable pub resolve_org_and_platform_admins : ℕ → AnswerDb → List User
unfolding has_org_role
resolve_org_and_platform_admins org_id db =
    let org_admins = filter (has_org_role db.directory org_id (λ n. str_eq n "admin")) db.users in
    org_admins ++ filter (λ u. u.is_superuser && not (any (λ a. a.id == u.id) org_admins)) db.users

-- `_resolve_alert_recipients`.
unfoldable pub resolve_alert_recipients : ℕ → AnswerDb → List User
unfolding has_org_role
resolve_alert_recipients org_id db =
    filter (has_org_role db.directory org_id (λ n. str_eq n "admin" || str_eq n "content_manager"))
      db.users

-- The loop over the recipients; an exception of `notify` is logged and the loop goes on.
unfoldable pub notify_each : List User → Text → Text → String → ℕ → NotificationDb → NotificationDb
unfolding notify
notify_each [] title body level org_id db = db
notify_each (u ∷ us) title body level org_id db =
    notify_each us title body level org_id (notify u.id title body level (some org_id) db).1
