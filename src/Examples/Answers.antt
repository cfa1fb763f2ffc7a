-- ===== src/Examples/Answers.antt =====
-- Questions to the assistant on concrete rows.
use oss_us_web_design_system.Base.{
  ◌⊎◌, inl, ◌≤◌, ℕ, ◌+◌, ◌≡◌, refl, true, false, none, some, List, [], ◌∷◌, Memᴰ, ok, Text, codes,
  lower, split, if◌then◌else◌,
}
use oss_us_web_design_system.Directory.{Directory, Membership, Role, Permission}
use oss_us_web_design_system.Notifications.{unread_count}
use oss_us_web_design_system.Rbac.{user_has_permission}
use oss_us_web_design_system.Assistant.Retry.{LlmOutcome}
use oss_us_web_design_system.Assistant.Matching.{Faq}
use oss_us_web_design_system.Assistant.Grants.{is_content_permission, assign_content_manager}
use oss_us_web_design_system.Assistant.Grants.Laws.{assign_content_manager-user_has_permission}
use oss_us_web_design_system.Assistant.Sanitizer.{Regex, check_content, uuid_pattern}
use oss_us_web_design_system.Assistant.Answering.{AnswerDb, Message, frontier_general_knowledge}
use oss_us_web_design_system.Assistant.Answering.Replies.{ChatReply, content, prompt, system_text}
use oss_us_web_design_system.Assistant.Answering.Egress.{tiered_messages}
use oss_us_web_design_system.Assistant.Answering.Records.{
  AskQuestionCreate, Tier, empty_answer, Resolution, dispatch_unanswerable_alert,
}
use oss_us_web_design_system.Assistant.Answering.Questions.{resolve_question_tiered}
use oss_us_web_design_system.Assistant.Answering.Laws.{IsLogged, resolve_question_tiered-IsLogged}
use oss_us_web_design_system.Assistant.Answering.Prompts.{tiered_messages-check_content}
use oss_us_web_design_system.Assistant.Answering.Recipients.{IsAlertRecipient, by_membership}
use oss_us_web_design_system.Assistant.Answering.Notified.{resolve_question_tiered-notifies}
use oss_us_web_design_system.Assistant.Answering.Alerts.{dispatch_unanswerable_alert-unread_count}
use oss_us_web_design_system.Examples.{alice}
use oss_us_web_design_system.Examples.Documents.{json}
use oss_us_web_design_system.Examples.Keys.{plain_cipher, crypto_settings, no_keys}

-- A matcher that finds nothing.
abbrev blind : Regex
blind = record { search = λ _ _. false; search_pattern = λ _ _. none; redact = λ _ text. text }

-- A transport that always answers with a text.
abbrev hello : Text → Text → List Message → ℕ → LlmOutcome ChatReply
hello _ _ _ _ = LlmOutcome.reply (content (codes "hello"))

abbrev first_faq : Faq
first_faq = record {
  id = 1;
  org_id = 7;
  question = codes "What is alt text?";
  answer = codes "A text.";
  match_pattern = none;
  question_category_id = some 1;
  reasoning = [];
  citations_json = [];
}

abbrev admin_role : Role
admin_role = record { id = 1; name = "admin"; description = none }

abbrev ask_permission : Permission
ask_permission = record { id = 1; name = "assistant:ask"; description = none }

abbrev directory : Directory
directory = record {
  permissions = ask_permission ∷ [];
  roles = admin_role ∷ [];
  role_permissions = [];
  user_roles = [];
  organizations = [];
  memberships =
      record { id = 1; user_id = 1; org_id = 7; role_id = some 1; is_default = true } ∷ [];
  next_permission_id = 2;
  next_role_id = 2;
  next_organization_id = 8;
  next_membership_id = 2;
}

abbrev db : AnswerDb
db = record {
  users = alice ∷ [];
  directory = directory;
  faqs = first_faq ∷ [];
  sources = [];
  configs = [];
  turns = [];
  alerts = [];
  notifications = record { notifications = []; next_id = 1 };
  keys = no_keys;
  current_org = some 7;
  next_turn_id = 1;
  next_alert_id = 1;
}

abbrev question : AskQuestionCreate
question = record {
  question_text = codes "alt text";
  question_category_id = some 1;
  session_id = none;
}

abbrev unmatched : AskQuestionCreate
unmatched = record { question_text = codes "zebra"; question_category_id = none; session_id = none }

blind_passes : check_content blind (codes "alt text") ≡ none
unfolding check_content
blind_passes = refl

abbrev no_resolution : Resolution
no_resolution = record {
  tier = Tier.no_answer;
  answer = empty_answer;
  llm_invoked = false;
  alert_sent = true;
  interaction_log_id = 1;
  llm_failure_type = none;
  llm_failure_message = none;
}

unanswered_zebra :
    (resolve_question_tiered plain_cipher crypto_settings json blind hello 5 alice 7 unmatched true
      db).0
    ≡ ok no_resolution
unfolding resolve_question_tiered lower split
unanswered_zebra = refl

resolve_question_tiered-IsLogged_example :
    IsLogged plain_cipher crypto_settings json blind hello alice unmatched true db
      (resolve_question_tiered plain_cipher crypto_settings json blind hello 5 alice 7 unmatched
        true db).1
      no_resolution
resolve_question_tiered-IsLogged_example =
    resolve_question_tiered-IsLogged plain_cipher crypto_settings json blind hello 5 alice 7
      unmatched true db no_resolution unanswered_zebra

tiered_messages-check_content_example :
    tiered_messages plain_cipher crypto_settings json blind hello
      (codes "alt text")
      []
      frontier_general_knowledge
      db
    ≡ some (
        prompt system_text [] (
          if blind.search uuid_pattern (codes "alt text")
          then blind.redact uuid_pattern (codes "alt text")
          else codes "alt text"))
tiered_messages-check_content_example =
    tiered_messages-check_content plain_cipher crypto_settings json blind hello (codes "alt text")
      [] frontier_general_knowledge db blind_passes refl

abbrev exact_question : AskQuestionCreate
exact_question = record {
  question_text = codes "what is ALT text";
  question_category_id = none;
  session_id = none;
}

alice_is_admin : IsAlertRecipient directory 7 alice
alice_is_admin =
    by_membership (record { id = 1; user_id = 1; org_id = 7; role_id = some 1; is_default = true })
      admin_role (Memᴰ.head refl) (Memᴰ.head refl) (refl, refl, refl) (inl refl)

dispatch_unanswerable_alert-unread_count_example :
    let before = unread_count 1 db.notifications.notifications in
    let after =
      unread_count 1
        (dispatch_unanswerable_alert 7 alice (codes "zebra") db).notifications.notifications in
    (IsAlertRecipient directory 7 alice × (after ≡ before + 1))
    ⊎ ((IsAlertRecipient directory 7 alice → ⊥) × (after ≡ before))
dispatch_unanswerable_alert-unread_count_example =
    dispatch_unanswerable_alert-unread_count alice 7 alice (codes "zebra") db (tt, tt)
      (Memᴰ.head refl)

resolve_question_tiered-notifies_example :
    unread_count 1 db.notifications.notifications + 1
    ≤ unread_count 1
        (resolve_question_tiered plain_cipher crypto_settings json blind hello 5 alice 7 unmatched
          true db).1.notifications.notifications
resolve_question_tiered-notifies_example =
    resolve_question_tiered-notifies plain_cipher crypto_settings json blind hello 5 alice 7
      unmatched db no_resolution alice (Memᴰ.head refl) alice_is_admin unanswered_zebra refl

abbrev membership : Membership
membership = record { id = 1; user_id = 1; org_id = 7; role_id = some 2; is_default = true }

alice_assigned : (assign_content_manager ("assistant:ask" ∷ []) 7 1 directory).0 ≡ some membership
unfolding assign_content_manager
alice_assigned = refl

ask_is_content : is_content_permission ("assistant:ask" ∷ []) ask_permission ≡ true
unfolding is_content_permission
ask_is_content = refl

assign_content_manager-user_has_permission_example :
    user_has_permission
      (assign_content_manager ("assistant:ask" ∷ []) 7 1 directory).1
      (some 7)
      alice
      "assistant:ask"
    ≡ true
assign_content_manager-user_has_permission_example =
    assign_content_manager-user_has_permission ("assistant:ask" ∷ []) 7 directory alice membership
      ask_permission "assistant:ask" alice_assigned (Memᴰ.head refl) ask_is_content refl
