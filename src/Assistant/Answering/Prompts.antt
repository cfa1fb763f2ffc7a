-- ===== src/Assistant/Answering/Prompts.antt =====
-- What is sent to the model, and what never is.
use oss_us_web_design_system.Base.{
  ℕ, ◌≡◌, refl, false, none, some, String, List, [], str_eq, if◌then◌else◌, arith, inl, inr, Text,
  Bool-cases,
}
use oss_us_web_design_system.Auth.User.{User}
use oss_us_web_design_system.Llm.Crypto.{Cipher, CryptoSettings}
use oss_us_web_design_system.Assistant.Retry.{LlmOutcome}
use oss_us_web_design_system.Assistant.Sanitizer.{Regex, check_content, uuid_pattern}
use oss_us_web_design_system.Assistant.Sanitizer.Laws.{sanitize-check_content}
use oss_us_web_design_system.Assistant.Answering.{Message, AnswerDb, retrieval_augmented}
use oss_us_web_design_system.Assistant.Answering.Replies.{
  ChatReply, Json, system_text, prompt, system_prompt, grounding_for,
}
use oss_us_web_design_system.Assistant.Answering.Egress.{tiered_messages, sanitized_grounding}

grounding_for-frontier :
    (mode : String) (db : AnswerDb)
    → str_eq mode retrieval_augmented ≡ false
    → grounding_for mode db ≡ []
unfolding grounding_for
grounding_for-frontier mode db m = ground (arith, m)

module _ (cipher : Cipher) (settings : CryptoSettings) (json : Json) (re : Regex)
    (transport : Text → Text → List Message → ℕ → LlmOutcome ChatReply) where
  -- In the general mode the prompt for a question that the content check lets through is never
  -- blocked. It is the system's text, the conversation so far as it is stored, and the question, from
  -- which the UUIDs are redacted and nothing else.
  pub tiered_messages-check_content :
      (question : Text) (history : List Message) (mode : String) (db : AnswerDb)
      → check_content re question ≡ none
      → str_eq mode retrieval_augmented ≡ false
      → tiered_messages cipher settings json re transport question history mode db
        ≡ some (
            prompt system_text history (
              if re.search uuid_pattern question
              then re.redact uuid_pattern question
              else question))
  unfolding tiered_messages sanitized_grounding system_prompt
  tiered_messages-check_content question history mode db h m =
      let s = sanitize-check_content re question h in
      let g = grounding_for-frontier mode db m in
      elim (Bool-cases (re.search uuid_pattern question)) [
        | inl e ↦ let s' = rw e at s in rw (tiered_messages, s', e, g) refl
        | inr e ↦ let s' = rw e at s in rw (tiered_messages, s', e, g) refl
      ]
