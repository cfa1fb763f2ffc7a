-- ===== src/Examples/Assistant.antt =====
-- The assistant on concrete rows.
use oss_us_web_design_system.Base.{
  ℕ, ◌≡◌, refl, true, false, none, some, List, [], ◌∷◌, ok, codes, ◌==◌, length,
}
use oss_us_web_design_system.Auth.User.{User}
use oss_us_web_design_system.Tenancy.{select_one}
use oss_us_web_design_system.Assistant.Retry.{
  LlmOutcome, GithubOutcome, McpOutcome, call_llm_api_with_retry,
}
use oss_us_web_design_system.Assistant.Retry.Spec.{decide}
use oss_us_web_design_system.Assistant.Retry.Laws.{call_llm_api-decide, llm_verdict}
use oss_us_web_design_system.Assistant.Sharing.{
  Resource, ShareDb, is_eligible, share, IsShareSafe, share-IsShareSafe,
}
use oss_us_web_design_system.Assistant.Interactions.{
  InteractionLog, LogDb, submit_helpfulness_rating,
}
use oss_us_web_design_system.Assistant.Interactions.Ratings.{
  helpfulness_is_final, rate, submit, history, Rated,
}
use oss_us_web_design_system.Assistant.Matching.{Faq, faq_match_tiered}
use oss_us_web_design_system.Assistant.Matching.Tiers.{Answers, faq_match_tiered-Answers}
use oss_us_web_design_system.Assistant.Generation.{
  ApprovedCandidate, GenerationDb, generation_session_not_found, confirm_faq_generation_session,
  session_pending_review, pending_review,
}
use oss_us_web_design_system.Assistant.Generation.Confirm.{
  confirm_is_atomic, confirm-effects, reconfirm_duplicates, Confirmed,
}
use oss_us_web_design_system.Examples.{alice}

abbrev llm_attempts : ℕ → LlmOutcome ℕ
llm_attempts n = elim (n == 1) [ true ↦ LlmOutcome.status_error 429 | false ↦ LlmOutcome.reply n ]

call_llm_api-decide_example :
    call_llm_api_with_retry llm_attempts
    ≡ decide
        (llm_verdict (llm_attempts 1))
        (llm_verdict (llm_attempts 2))
        (llm_verdict (llm_attempts 3))
call_llm_api-decide_example = call_llm_api-decide llm_attempts

abbrev github_attempts : ℕ → GithubOutcome
github_attempts n = elim (n == 1) [
  | true ↦ GithubOutcome.timed_out
  | false ↦ GithubOutcome.http_status 403
]

abbrev mcp_attempts : ℕ → McpOutcome
mcp_attempts n = McpOutcome.client_error (codes "Error 401")

abbrev root : User
root = record alice { is_superuser = true }

abbrev row : Resource
row = record {
  id = 1;
  org_id = 4;
  is_platform_shared = false;
  creator_role_snapshot = some "platform_admin";
}

abbrev share_db : ShareDb
share_db = record { resources = row ∷ []; current_org = some 9 }

share-IsShareSafe_example : IsShareSafe (share root 1 true share_db).1.resources
unfolding is_eligible
share-IsShareSafe_example = share-IsShareSafe root 1 true share_db ((λ _. refl), tt)

abbrev entry : InteractionLog
entry = record { id = 1; org_id = 4; user_id = 1; rating = none; helpfulness_rating = none }

abbrev log_db : LogDb
log_db = record { logs = entry ∷ []; current_org = some 4 }

helpfulness_is_final_example : Rated 1 "helpful" (
    history
      (rate 1 1 (some false) ∷ submit 1 1 "not_helpful" ∷ [])
      (submit_helpfulness_rating 1 1 "helpful" log_db).1)
unfolding submit_helpfulness_rating select_one
helpfulness_is_final_example =
    helpfulness_is_final 1 1 "helpful" log_db
      {entry = record entry { helpfulness_rating = some "helpful" }}
      (rate 1 1 (some false) ∷ submit 1 1 "not_helpful" ∷ []) refl

abbrev faqs : List Faq
faqs =
    record {
      id = 1;
      org_id = 1;
      question = codes "What is alt text?";
      answer = codes "a";
      match_pattern = none;
      question_category_id = some 1;
      reasoning = [];
      citations_json = codes "[]";
    }
    ∷ record {
      id = 2;
      org_id = 1;
      question = codes "How do I test?";
      answer = codes "b";
      match_pattern = some (codes "te.t");
      question_category_id = some 1;
      reasoning = [];
      citations_json = codes "[]";
    }
    ∷ []

faq_match_tiered-Answers_example :
    Answers
      (λ _ _. none)
      (codes "what is ALT text")
      faqs
      (faq_match_tiered (λ _ _. none) (codes "what is ALT text") faqs)
faq_match_tiered-Answers_example =
    faq_match_tiered-Answers (λ _ _. none) (codes "what is ALT text") faqs

abbrev approved_item : ApprovedCandidate
approved_item = record {
  candidate_id = 1;
  question = "q";
  answer = "a";
  question_category_ids = 5 ∷ [];
  source_category_ids = 6 ∷ [];
  source_ids = 7 ∷ [];
}

abbrev items : List ApprovedCandidate
items = approved_item ∷ []

abbrev generation_db : GenerationDb
generation_db = record {
  sessions = record { id = 1; org_id = 4; status = session_pending_review } ∷ [];
  candidates =
      record { id = 1; org_id = 4; session_id = 1; status = pending_review }
      ∷ record { id = 2; org_id = 4; session_id = 1; status = pending_review }
      ∷ [];
  faqs = [];
  next_faq_id = 1;
  faq_question_categories = [];
  faq_source_categories = [];
  faq_sources = [];
  question_categories = record { id = 5; org_id = 4 } ∷ [];
  source_categories = record { id = 6; org_id = 4 } ∷ [];
  sources = record { id = 7; org_id = 4 } ∷ [];
  current_org = some 4;
}

confirm_is_atomic_example :
    (confirm_faq_generation_session alice 3 items generation_db).1 ≡ generation_db
unfolding confirm_faq_generation_session select_one
confirm_is_atomic_example =
    confirm_is_atomic alice 3 items generation_db {o = 4} {e = generation_session_not_found} refl
      refl (λ h. cc)

confirm-effects_example :
    Confirmed alice 1 items generation_db
      (confirm_faq_generation_session alice 1 items generation_db).1
      (confirm_faq_generation_session alice 1 items generation_db).0
unfolding confirm_faq_generation_session
confirm-effects_example =
    confirm-effects alice 1 items generation_db {o = 4} {r = (1 ∷ [], 2 ∷ [])} refl refl

reconfirm_duplicates_example :
    let once = (confirm_faq_generation_session alice 1 items generation_db).1 in
    let twice = confirm_faq_generation_session alice 1 items once in
    ((ids discarded : List ℕ) × (twice.0 ≡ ok (ids, discarded)) × (length ids ≡ 1))
    × (length twice.1.faqs ≡ 2)
unfolding confirm_faq_generation_session
reconfirm_duplicates_example =
    reconfirm_duplicates alice 1 items generation_db {o = 4} {r = (1 ∷ [], 2 ∷ [])} refl refl
