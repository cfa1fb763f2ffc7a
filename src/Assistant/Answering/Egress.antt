-- ===== src/Assistant/Answering/Egress.antt =====
-- The calls of the model for an answer (`_call_llm`, `_call_llm_tiered`, `_call_llm_api_with_retry`
-- and `_dispatch_admin_alert` in app/slots/accessibility_assistant/service.py). The HTTP transport
-- and the `json` library are the parameters `transport` and `Json`.
use oss_us_web_design_system.Assistant.Answering.Replies.{
  Answer, CallError, ChatReply, Json, content, dictionaries, dictionary, failure_text,
  grounding_for, malformed, not_a_dictionary, null_content, prompt, system_prompt, system_text,
  text_or, unanswerable, uncaught, undecodable,
}
use oss_us_web_design_system.Base.{
  ℕ, Option, none, some, String, List, [], ◌∷◌, ◌++◌, Result, ok, err, Action, pure, raise, Text,
  codes,
}
use oss_us_web_design_system.Llm.Crypto.{Cipher, CryptoSettings}
use oss_us_web_design_system.Llm.Keys.{
  key_unavailable, provider_required, key_required, crypto, resolve_api_key, normalize_provider,
}
use oss_us_web_design_system.Assistant.Retry.{
  FailureType, rate_limit_exceeded, authentication_failure, service_timeout, LlmOutcome, reply,
  other_exception, LoopEnd, LlmEscape, returned, propagated, exhausted, no_llm_key,
  unexpected_error, call_llm_api_with_retry,
}
use oss_us_web_design_system.Assistant.Retry as Retry
use oss_us_web_design_system.Assistant.Sanitizer.{Regex, sanitize}
use oss_us_web_design_system.Assistant.Answering.{
  Message, AnswerDb, resolve_configured_provider, model_for_provider,
  resolve_org_and_platform_admins, notify_each,
}

-- `_dispatch_admin_alert`.
unfoldable pub dispatch_admin_alert : ℕ → Text → Text → AnswerDb → AnswerDb
unfolding resolve_org_and_platform_admins notify_each
dispatch_admin_alert org_id title body db = record db {
  notifications =
      notify_each (resolve_org_and_platform_admins org_id db) title body "error" org_id
        db.notifications;
}

unfoldable pub unavailable_body : FailureType → Text
unfolding failure_text
unavailable_body f =
    codes "The External LLM API is unavailable ("
    ++ failure_text f
    ++ codes "). FAQ browse-only mode remains available."

-- How the end of the retry loop leaves the call.
unfoldable pub after_loop : ℕ → LoopEnd ChatReply LlmEscape → Action AnswerDb CallError ChatReply
unfolding dispatch_admin_alert unavailable_body
after_loop org_id (returned r _ _) db = pure r db
after_loop org_id (propagated no_llm_key _ _) db = raise (unanswerable none) db
after_loop org_id (propagated unexpected_error _ _) db = raise uncaught db
after_loop org_id (exhausted f _ _) db =
    raise (unanswerable (some f))
      (dispatch_admin_alert org_id (codes "AI assistant unavailable") (unavailable_body f) db)

module _ (cipher : Cipher) (settings : CryptoSettings) (json : Json) (re : Regex)
    (transport : Text → Text → List Message → ℕ → LlmOutcome ChatReply) where
  -- One call of `complete`.
  unfoldable pub attempt_outcome : Text → List Message → ℕ → AnswerDb → ℕ → LlmOutcome ChatReply
  unfolding resolve_api_key normalize_provider model_for_provider
  attempt_outcome provider messages org_id db attempt =
      elim (resolve_api_key cipher settings (normalize_provider provider) (some org_id) db.keys).0 [
        | ok api_key ↦ transport api_key (model_for_provider provider) messages attempt
        | err e ↦ elim e [
          | key_unavailable ↦ Retry.key_unavailable
          | provider_required ↦ other_exception
          | key_required ↦ other_exception
          | crypto _ ↦ other_exception
        ]
      ]

  -- `_call_llm_api_with_retry`, with the alert and the exception after the loop.
  unfoldable pub call_with_retry : Text → List Message → ℕ → Action AnswerDb CallError ChatReply
  unfolding attempt_outcome call_llm_api_with_retry after_loop
  call_with_retry provider messages org_id db =
      after_loop org_id (call_llm_api_with_retry (attempt_outcome provider messages org_id db)) db

  -- The part after the call: what the reply is read as.
  unfoldable pub read_reply : ChatReply → Result CallError Answer
  unfolding text_or dictionaries
  read_reply malformed = err uncaught
  read_reply null_content = err uncaught
  read_reply (content t) = elim (json.loads t) [
    | undecodable ↦ ok (record { response_text = t; reasoning = []; citations = [] })
    | not_a_dictionary ↦ ok (record { response_text = t; reasoning = []; citations = [] })
    | dictionary response reasoning citations ↦ elim citations [
      | none ↦ err uncaught
      | some cs ↦ ok (record {
        response_text = text_or response t;
        reasoning = text_or reasoning [];
        citations = dictionaries cs;
      })
    ]
  ]

  -- The sanitized grounding: `none` is a block, and an empty grounding is not sanitized.
  unfoldable pub sanitized_grounding : Text → Option Text
  unfolding sanitize
  sanitized_grounding [] = some []
  sanitized_grounding (c ∷ cs) = elim (sanitize re (c ∷ cs)) [ none ↦ none | some p ↦ some p.text ]

  -- The messages of `_call_llm_tiered`; `none` is a payload that the sanitizer blocks.
  unfoldable pub tiered_messages : Text → List Message → String → AnswerDb → Option (List Message)
  unfolding grounding_for sanitized_grounding sanitize prompt system_prompt
  tiered_messages question history mode db = elim (sanitize re question) [
    | none ↦ none
    | some q ↦ elim (sanitized_grounding (grounding_for mode db)) [
      | none ↦ none
      | some g ↦ some (prompt (system_prompt g) history q.text)
    ]
  ]

  -- `_call_llm_tiered`.
  unfoldable pub call_llm_tiered :
      Text → List Message → ℕ → String → Action AnswerDb CallError Answer
  unfolding tiered_messages resolve_configured_provider call_with_retry read_reply
  call_llm_tiered question history org_id mode db =
      elim (tiered_messages question history mode db) [
        | none ↦ raise (unanswerable none) db
        | some messages ↦
            let (r, db') =
              call_with_retry (resolve_configured_provider org_id db.keys) messages org_id db in
            elim r [ err e ↦ raise e db' | ok c ↦ (read_reply c, db') ]
      ]

  abbrev pub no_key_answer : Answer
  no_key_answer = record {
    response_text =
        codes
          "I was unable to retrieve an answer at this time. Please try again later or browse the FAQ categories for relevant information.";
    reasoning = codes "LLM service unavailable — no API key configured for this organization.";
    citations = [];
  }

  abbrev pub error_answer : Answer
  error_answer = record {
    response_text =
        codes "I encountered an error while processing your question. Please try again.";
    reasoning = [];
    citations = [];
  }

  -- The inner `try` of `_call_llm` does not catch what a value that is no dictionary raises.
  unfoldable pub read_first_reply : ChatReply → Answer
  unfolding text_or dictionaries
  read_first_reply malformed = error_answer
  read_first_reply null_content = error_answer
  read_first_reply (content t) = elim (json.loads t) [
    | undecodable ↦ record { response_text = t; reasoning = []; citations = [] }
    | not_a_dictionary ↦ error_answer
    | dictionary response reasoning citations ↦ elim citations [
      | none ↦ error_answer
      | some cs ↦ record {
        response_text = text_or response t;
        reasoning = text_or reasoning [];
        citations = dictionaries cs;
      }
    ]
  ]

  -- `_call_llm`: one attempt; every exception becomes an answer.
  unfoldable pub call_llm : Text → List Message → ℕ → AnswerDb → Answer
  unfolding attempt_outcome prompt resolve_configured_provider read_first_reply
  call_llm question history org_id db =
      elim (attempt_outcome (resolve_configured_provider org_id db.keys)
        (prompt system_text history question) org_id db 1) [
          | reply c ↦ read_first_reply c
          | Retry.key_unavailable ↦ no_key_answer
          | Retry.status_error _ ↦ error_answer
          | Retry.timeout_cause ↦ error_answer
          | Retry.other_cause ↦ error_answer
          | Retry.attempt_timeout ↦ error_answer
          | other_exception ↦ error_answer
        ]
