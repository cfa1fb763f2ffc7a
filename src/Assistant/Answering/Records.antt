-- ===== src/Assistant/Answering/Records.antt =====
-- What a question leaves: the log entry, the alert, and what is returned
-- (app/slots/accessibility_assistant/service.py, app/slots/accessibility_assistant/schemas.py).
use oss_us_web_design_system.Base.{
  ℕ, ◌+◌, Bool, true, false, ◌&&◌, Option, none, some, String, List, [], ◌∷◌, ◌++◌, str_eq, opt_eq,
  is_some, ltb, if◌then◌else◌, Text, codes, lower, split,
}
use oss_us_web_design_system.Auth.User.{User}
use oss_us_web_design_system.Tenancy.{select_where, inject_org}
use oss_us_web_design_system.Assistant.Retry.{
  FailureType, rate_limit_exceeded, authentication_failure, service_timeout,
}
use oss_us_web_design_system.Assistant.Sanitizer.{BlockReason}
use oss_us_web_design_system.Assistant.Matching.{Faq, best_keyword_match, keyword_score}
use oss_us_web_design_system.Assistant.Answering.{
  Citation, Turn, QuestionAlert, AnswerDb, resolve_alert_recipients, notify_each,
}
use oss_us_web_design_system.Assistant.Answering.Replies.{
  Json, Answer, parse_citations, serialise_citations,
}

pub data Tier : Type 0 where
  faq llm_retrieval_augmented llm_frontier no_answer : Tier

pub data QuestionError : Type 0 where
  content_blocked : BlockReason → QuestionError
  server_error : QuestionError

-- `AskQuestionCreate`.
pub record AskQuestionCreate : Type 0 where
  pub question_text : Text
  pub question_category_id : Option ℕ
  pub session_id : Option Text

-- `QuestionResponse`.
pub record QuestionResponse : Type 0 where
  pub interaction_log_id : ℕ
  pub response_text : Text
  pub reasoning : Text
  pub citations : List Citation
  pub has_citations : Bool

-- What `resolve_question_tiered` returns.
pub record Resolution : Type 0 where
  pub tier : Tier
  pub answer : Answer
  pub llm_invoked : Bool
  pub alert_sent : Bool
  pub interaction_log_id : ℕ
  pub llm_failure_type : Option FailureType
  pub llm_failure_message : Option Text

-- `_LLM_FAILURE_USER_MESSAGES`.
unfoldable pub failure_message : FailureType → Text
failure_message rate_limit_exceeded =
    codes
      "The AI assistant is temporarily unavailable due to rate limiting. You can still browse the FAQ categories."
failure_message authentication_failure =
    codes
      "The AI assistant has a configuration issue and is temporarily unavailable. You can still browse the FAQ categories."
failure_message service_timeout =
    codes "The AI assistant is temporarily unavailable. You can still browse the FAQ categories."

unfoldable pub message_of : Option FailureType → Option Text
message_of none = none
message_of (some f) = some (failure_message f)

-- `user.full_name or user.email`.
unfoldable pub display_name : User → String
display_name user = elim user.full_name [
  | none ↦ user.email
  | some name ↦ if str_eq name "" then user.email else name
]

unfoldable pub alert_body : User → Text → Text
unfolding display_name
alert_body user question =
    codes (display_name user) ++ codes " asked a question that could not be answered: " ++ question

unfoldable pub new_alert : User → Text → AnswerDb → QuestionAlert
unfolding display_name inject_org
new_alert user question db = record {
  id = db.next_alert_id;
  org_id = inject_org db.current_org none;
  alert_type = "unanswerable_question";
  question_text = question;
  submitting_user_id = user.id;
  submitting_user_name = display_name user;
  acknowledged = false;
  acknowledged_by_user_id = none;
  acknowledged_at = none;
}

-- `dispatch_unanswerable_alert`.
unfoldable pub dispatch_unanswerable_alert : ℕ → User → Text → AnswerDb → AnswerDb
unfolding new_alert resolve_alert_recipients notify_each alert_body
dispatch_unanswerable_alert org_id user question db = record db {
  alerts = db.alerts ++ new_alert user question db ∷ [];
  next_alert_id = db.next_alert_id + 1;
  notifications =
      notify_each (resolve_alert_recipients org_id db)
        (codes "No answer available for a submitted question") (alert_body user question) "warning"
        org_id db.notifications;
}

-- What the tiers found: the tier, the answer, whether a model was called and why it failed.
pub record Found : Type 0 where
  pub tier : Tier
  pub answer : Answer
  pub llm_invoked : Bool
  pub llm_failure_type : Option FailureType

abbrev pub empty_answer : Answer
empty_answer = record { response_text = []; reasoning = []; citations = [] }

unfoldable pub no_answer_found : Option FailureType → Found
no_answer_found f = record {
  tier = no_answer;
  answer = empty_answer;
  llm_invoked = false;
  llm_failure_type = f;
}

unfoldable pub is_no_answer : Tier → Bool
is_no_answer no_answer = true
is_no_answer faq = false
is_no_answer llm_retrieval_augmented = false
is_no_answer llm_frontier = false

module _ (json : Json) where
  unfoldable pub new_turn : ℕ → User → AskQuestionCreate → Answer → AnswerDb → Turn
  unfolding inject_org serialise_citations
  new_turn now user payload answer db = record {
    id = db.next_turn_id;
    org_id = inject_org db.current_org none;
    user_id = user.id;
    question_category_id = payload.question_category_id;
    session_id = payload.session_id;
    question_text = payload.question_text;
    response_text = answer.response_text;
    reasoning = answer.reasoning;
    sources_json = serialise_citations json answer.citations;
    rating = none;
    created_at = now;
  }

  unfoldable pub log_turn : ℕ → User → AskQuestionCreate → Answer → AnswerDb → AnswerDb
  unfolding new_turn
  log_turn now user payload answer db = record db {
    turns = db.turns ++ new_turn now user payload answer db ∷ [];
    next_turn_id = db.next_turn_id + 1;
  }

  unfoldable pub faq_answer : Faq → Answer
  unfolding parse_citations
  faq_answer f = record {
    response_text = f.answer;
    reasoning = f.reasoning;
    citations = parse_citations json f.citations_json;
  }

-- The FAQ of a category that `ask_question` answers with.
unfoldable pub category_faq : AskQuestionCreate → AnswerDb → Option Faq
unfolding select_where best_keyword_match keyword_score
category_faq payload db = elim payload.question_category_id [
  | none ↦ none
  | some category ↦
      let faqs =
        select_where (λ f. f.org_id) db.current_org
          (λ f. opt_eq f.question_category_id (some category)) db.faqs in
      let (best_faq, best_score) =
        best_keyword_match (keyword_score (split (lower payload.question_text))) faqs none 0 in
      if is_some best_faq && ltb 0 best_score then best_faq else none
]
