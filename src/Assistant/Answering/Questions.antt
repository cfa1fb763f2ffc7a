-- ===== src/Assistant/Answering/Questions.antt =====
-- The questions of the assistant (`ask_question`, `resolve_question_tiered`,
-- `answer_question_deterministic_first`, `answer_question_with_fallback` and
-- `dispatch_unanswerable_alert` in app/slots/accessibility_assistant/service.py).
use oss_us_web_design_system.Assistant.Answering.Records.{
  faq_answer, log_turn, AskQuestionCreate, Found, QuestionError, QuestionResponse, Resolution,
  category_faq, content_blocked, dispatch_unanswerable_alert, faq, is_no_answer, llm_frontier,
  llm_retrieval_augmented, message_of, no_answer_found, server_error,
}
use oss_us_web_design_system.Base.{
  ℕ, Bool, true, false, ◌&&◌, none, some, String, List, [], ◌∷◌, ok, err, Action, pure, raise,
  str_eq, if◌then◌else◌, Text,
}
use oss_us_web_design_system.Auth.User.{User}
use oss_us_web_design_system.Tenancy.{visible}
use oss_us_web_design_system.Llm.Crypto.{Cipher, CryptoSettings}
use oss_us_web_design_system.Assistant.Retry.{LlmOutcome}
use oss_us_web_design_system.Assistant.Sanitizer.{Regex, check_content}
use oss_us_web_design_system.Assistant.Grants.{ensure_baseline_role_grants}
use oss_us_web_design_system.Assistant.Matching.{faq_match_tiered}
use oss_us_web_design_system.Assistant.Answering.{
  Message, AnswerDb, history_of, resolve_llm_fallback_mode, retrieval_augmented,
}
use oss_us_web_design_system.Assistant.Answering.Replies.{
  ChatReply, Json, Answer, unanswerable, uncaught,
}
use oss_us_web_design_system.Assistant.Answering.Egress.{call_llm_tiered, call_llm}

module _ (cipher : Cipher) (settings : CryptoSettings) (json : Json) (re : Regex)
    (transport : Text → Text → List Message → ℕ → LlmOutcome ChatReply) where
  -- `ask_question`.
  unfoldable pub ask_question :
      ℕ → User → AskQuestionCreate → ℕ → Action AnswerDb QuestionError QuestionResponse
  unfolding check_content history_of category_faq faq_answer call_llm log_turn
  ask_question now user payload org_id db = elim (check_content re payload.question_text) [
    | some reason ↦ raise (content_blocked reason) db
    | none ↦
        let history = history_of payload.session_id user.id db in
        let answer : Answer = elim (category_faq payload db) [
          | some f ↦ faq_answer json f
          | none ↦
              call_llm cipher settings json re transport payload.question_text history org_id db
        ] in
        pure
          (record {
            interaction_log_id = db.next_turn_id;
            response_text = answer.response_text;
            reasoning = answer.reasoning;
            citations = answer.citations;
            has_citations = elim answer.citations [ [] ↦ false | _ ∷ _ ↦ true ];
          })
          (log_turn json now user payload answer db)
  ]

  -- Tier 3: the model, in the mode of the category; `_UnanswerableError` is caught.
  unfoldable pub llm_tier :
      AskQuestionCreate → List Message → ℕ → Action AnswerDb QuestionError Found
  unfolding resolve_llm_fallback_mode call_llm_tiered no_answer_found
  llm_tier payload history org_id db =
      let mode = resolve_llm_fallback_mode payload.question_category_id db in
      let (r, db') =
        call_llm_tiered cipher settings json re transport payload.question_text history org_id mode
          db in
      elim r [
        | ok answer ↦
            pure
              (record {
                tier =
                    if str_eq mode retrieval_augmented
                    then llm_retrieval_augmented
                    else llm_frontier;
                answer = answer;
                llm_invoked = true;
                llm_failure_type = none;
              })
              db'
        | err e ↦ elim e [
          | unanswerable f ↦ pure (no_answer_found f) db'
          | uncaught ↦ raise server_error db'
        ]
      ]

  -- The tiers in their order; the script tier does nothing.
  unfoldable pub find_answer :
      AskQuestionCreate → List Message → ℕ → Action AnswerDb QuestionError Found
  unfolding faq_match_tiered faq_answer llm_tier visible
  find_answer payload history org_id db =
      elim (faq_match_tiered re.search_pattern payload.question_text
        (visible (λ f. f.org_id) db.current_org db.faqs)) [
          | some (f, _) ↦
              pure
                (record {
                  tier = faq;
                  answer = faq_answer json f;
                  llm_invoked = false;
                  llm_failure_type = none;
                })
                db
          | none ↦ llm_tier payload history org_id db
        ]

  -- The alert, the log entry and the returned value.
  unfoldable pub finish :
      ℕ → User → ℕ → AskQuestionCreate → Bool → Found → AnswerDb → Resolution × AnswerDb
  unfolding is_no_answer dispatch_unanswerable_alert log_turn message_of
  finish now user org_id payload dispatch_alert found db =
      let alerting = is_no_answer found.tier && dispatch_alert in
      let db' =
        if alerting then dispatch_unanswerable_alert org_id user payload.question_text db else db in
      (
        record {
          tier = found.tier;
          answer = found.answer;
          llm_invoked = found.llm_invoked;
          alert_sent = alerting;
          interaction_log_id = db'.next_turn_id;
          llm_failure_type = found.llm_failure_type;
          llm_failure_message = message_of found.llm_failure_type;
        },
        log_turn json now user payload found.answer db',
      )

  -- `resolve_question_tiered`.
  unfoldable pub resolve_question_tiered :
      ℕ → User → ℕ → AskQuestionCreate → Bool → Action AnswerDb QuestionError Resolution
  unfolding check_content ensure_baseline_role_grants history_of find_answer finish
  resolve_question_tiered now user org_id payload dispatch_alert db =
      elim (check_content re payload.question_text) [
        | some reason ↦ raise (content_blocked reason) db
        | none ↦
            let db1 = record db { directory = ensure_baseline_role_grants db.directory } in
            let history = history_of payload.session_id user.id db1 in
            let (r, db2) = find_answer payload history org_id db1 in
            elim r [
              | err e ↦ raise e db2
              | ok found ↦
                  let (resolution, db3) = finish now user org_id payload dispatch_alert found db2 in
                  pure resolution db3
            ]
      ]

  -- `answer_question_with_fallback`.
  unfoldable pub answer_question_with_fallback :
      ℕ → User → AskQuestionCreate → ℕ → Action AnswerDb QuestionError Resolution
  unfolding resolve_question_tiered
  answer_question_with_fallback now user payload org_id =
      resolve_question_tiered now user org_id payload true

  -- `answer_question_deterministic_first`, with the source that it adds to the result.
  unfoldable pub answer_question_deterministic_first :
      ℕ → User → AskQuestionCreate → ℕ → Action AnswerDb QuestionError (Resolution × String)
  unfolding resolve_question_tiered
  answer_question_deterministic_first now user payload org_id db =
      let (r, db') = resolve_question_tiered now user org_id payload false db in
      elim r [
        | err e ↦ raise e db'
        | ok res ↦
            pure
              (res, elim res.tier [ faq ↦ "faq" | _ ↦ if res.llm_invoked then "llm" else "script" ])
              db'
      ]
