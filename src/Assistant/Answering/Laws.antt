-- ===== src/Assistant/Answering/Laws.antt =====
-- What every question leaves behind, whichever tier answers it.
use oss_us_web_design_system.Base.{
  ℕ, ◌≡◌, refl, ap, sym, ◌∙◌, append_nil, codes, false, ◌&&◌, Bool, none, String, List, [], ◌∷◌,
  ◌++◌, ok, if◌then◌else◌, arith, Bool-cases, Option-cases, Result-cases, inl, inr, Text,
}
use oss_us_web_design_system.Auth.User.{User}
use oss_us_web_design_system.Tenancy.{visible, inject_org}
use oss_us_web_design_system.Assistant.Matching.{faq_match_tiered}
use oss_us_web_design_system.Assistant.Grants.{ensure_baseline_role_grants}
use oss_us_web_design_system.Llm.Crypto.{Cipher, CryptoSettings}
use oss_us_web_design_system.Assistant.Retry.{
  LlmOutcome, LlmEscape, LoopEnd, returned, propagated, exhausted, no_llm_key, unexpected_error,
  call_llm_api_with_retry,
}
use oss_us_web_design_system.Assistant.Sanitizer.{Regex, check_content}
use oss_us_web_design_system.Assistant.Answering.{
  history_of, Message, Turn, QuestionAlert, AnswerDb, resolve_llm_fallback_mode,
  resolve_configured_provider,
}
use oss_us_web_design_system.Assistant.Answering.Replies.{
  ChatReply, Json, Answer, unanswerable, uncaught, parse_citations, parse_citations-serialise,
}
use oss_us_web_design_system.Assistant.Answering.Egress.{
  call_llm_tiered, call_with_retry, tiered_messages, attempt_outcome, after_loop, unavailable_body,
  dispatch_admin_alert,
}
use oss_us_web_design_system.Assistant.Answering.Records.{
  new_turn, log_turn, AskQuestionCreate, Resolution, Found, is_no_answer, new_alert,
  dispatch_unanswerable_alert,
}
use oss_us_web_design_system.Assistant.Answering.Questions.{
  resolve_question_tiered, find_answer, llm_tier, finish,
}

-- A row that records what was asked and what was answered.
pub record IsRecordOf (json : Json) (user : User) (payload : AskQuestionCreate) (answer : Answer)
    (id : ℕ) (t : Turn) : Type 0 where
  pub row : t.id ≡ id
  pub owner : t.user_id ≡ user.id
  pub question : t.question_text ≡ payload.question_text
  pub response : t.response_text ≡ answer.response_text
  pub reasoning : t.reasoning ≡ answer.reasoning
  pub citations : parse_citations json t.sources_json ≡ answer.citations
  pub unrated : t.rating ≡ none

new_turn-IsRecordOf :
    (json : Json) (now : ℕ) (user : User) (payload : AskQuestionCreate) (answer : Answer)
    (db : AnswerDb)
    → IsRecordOf json user payload answer db.next_turn_id (new_turn json now user payload answer db)
unfolding new_turn
new_turn-IsRecordOf json now user payload answer db = record {
  row = refl;
  owner = refl;
  question = refl;
  response = refl;
  reasoning = refl;
  citations = parse_citations-serialise json answer.citations;
  unrated = refl;
}

-- The tables that the tiers leave: as they were, or after the alert about an unavailable model.
pub data LeftBy (org_id : ℕ) (db : AnswerDb) : AnswerDb → Type 0 where
  unchanged : LeftBy org_id db db
  model_alert :
      (body : Text)
      → LeftBy org_id db (dispatch_admin_alert org_id (codes "AI assistant unavailable") body db)

after_loop-LeftBy :
    (org_id : ℕ) (e : LoopEnd ChatReply LlmEscape) (db : AnswerDb)
    → LeftBy org_id db (after_loop org_id e db).1
unfolding after_loop
after_loop-LeftBy org_id (returned r _ _) db = unchanged
after_loop-LeftBy org_id (propagated no_llm_key _ _) db = unchanged
after_loop-LeftBy org_id (propagated unexpected_error _ _) db = unchanged
after_loop-LeftBy org_id (exhausted f _ _) db = model_alert (unavailable_body f)

SameTurns : AnswerDb → AnswerDb → Type 0
SameTurns db db' =
    (db'.turns ≡ db.turns) × (db'.current_org ≡ db.current_org) × (db'.alerts ≡ db.alerts)

LeftBy-SameTurns : {org_id : ℕ} {db db' : AnswerDb} → LeftBy org_id db db' → SameTurns db db'
unfolding SameTurns dispatch_admin_alert
LeftBy-SameTurns unchanged = (refl, refl, refl)
LeftBy-SameTurns (model_alert body) = (refl, refl, refl)

-- An alert about the question of a user.
pub record IsAlertAbout (user : User) (payload : AskQuestionCreate) (db : AnswerDb)
    (a : QuestionAlert) : Type 0 where
  pub kind : a.alert_type ≡ "unanswerable_question"
  pub asked : a.question_text ≡ payload.question_text
  pub by : a.submitting_user_id ≡ user.id
  pub of_org : a.org_id ≡ inject_org db.current_org none
  pub open_alert : a.acknowledged ≡ false

new_alert-IsAlertAbout :
    (user : User) (payload : AskQuestionCreate) (db db' : AnswerDb)
    → db'.current_org ≡ db.current_org
    → IsAlertAbout user payload db (new_alert user payload.question_text db')
unfolding new_alert
new_alert-IsAlertAbout user payload db db' o = record {
  kind = refl;
  asked = refl;
  by = refl;
  of_org = ap (λ c. inject_org c none) o;
  open_alert = refl;
}

module _ (cipher : Cipher) (settings : CryptoSettings) (json : Json) (re : Regex)
    (transport : Text → Text → List Message → ℕ → LlmOutcome ChatReply) where
  call_llm_tiered-LeftBy :
      (question : Text) (history : List Message) (org_id : ℕ) (mode : String) (db : AnswerDb)
      → LeftBy org_id db
          (call_llm_tiered cipher settings json re transport question history org_id mode db).1
  unfolding call_llm_tiered call_with_retry
  call_llm_tiered-LeftBy question history org_id mode db =
      elim (Option-cases
        (tiered_messages cipher settings json re transport question history mode db)) [
          | inl e ↦ rw (call_llm_tiered, e) unchanged
          | inr (messages, e) ↦
              let provider = resolve_configured_provider org_id db.keys in
              let s =
                after_loop-LeftBy org_id
                  (call_llm_api_with_retry
                    (attempt_outcome cipher settings json re transport provider messages org_id db))
                  db in
              elim (Result-cases
                (call_with_retry cipher settings json re transport provider messages org_id db).0) [
                  | inl (c, f) ↦ rw (call_llm_tiered, e, f) s
                  | inr (x, f) ↦ rw (call_llm_tiered, e, f) s
                ]
        ]

  pub find_answer-LeftBy :
      (payload : AskQuestionCreate) (history : List Message) (org_id : ℕ) (db : AnswerDb)
      → LeftBy org_id db (find_answer cipher settings json re transport payload history org_id db).1
  unfolding find_answer llm_tier
  find_answer-LeftBy payload history org_id db =
      elim (Option-cases (
        faq_match_tiered re.search_pattern payload.question_text
          (visible (λ f. f.org_id) db.current_org db.faqs))) [
            | inr ((f, kind), e) ↦ rw (find_answer, e) unchanged
            | inl e ↦
                let mode = resolve_llm_fallback_mode payload.question_category_id db in
                let s = call_llm_tiered-LeftBy payload.question_text history org_id mode db in
                elim (Result-cases
                  (call_llm_tiered cipher settings json re transport payload.question_text history
                    org_id mode db).0) [
                      | inl (a, f) ↦ rw (find_answer, e, llm_tier, f) s
                      | inr (unanswerable x, f) ↦ rw (find_answer, e, llm_tier, f) s
                      | inr (uncaught, f) ↦ rw (find_answer, e, llm_tier, f) s
                    ]
          ]

  -- What a returned resolution says of the tables.
  pub record IsLogged (user : User) (payload : AskQuestionCreate) (dispatch_alert : Bool)
      (db db' : AnswerDb) (res : Resolution) : Type 0 where
    pub turn : Turn
    pub logged : db'.turns ≡ db.turns ++ turn ∷ []
    pub recorded : IsRecordOf json user payload res.answer res.interaction_log_id turn
    pub alerted : res.alert_sent ≡ (is_no_answer res.tier && dispatch_alert)
    pub alert : QuestionAlert
    pub about : IsAlertAbout user payload db alert
    pub alert_rows : db'.alerts ≡ db.alerts ++ (if res.alert_sent then alert ∷ [] else [])

  finish-IsLogged :
      (now : ℕ) (user : User) (org_id : ℕ) (payload : AskQuestionCreate) (dispatch_alert : Bool)
      (found : Found) (db db' : AnswerDb)
      → SameTurns db db'
      → let (res, db'') =
          finish cipher settings json re transport now user org_id payload dispatch_alert found
            db' in
        IsLogged user payload dispatch_alert db db'' res
  unfolding finish is_no_answer SameTurns log_turn dispatch_unanswerable_alert
  finish-IsLogged now user org_id payload dispatch_alert found db db' (a, o, c) =
      elim (Bool-cases (is_no_answer found.tier && dispatch_alert)) [
        | inl e ↦
            rw (finish, e)
              (record {
                turn =
                    new_turn json now user payload found.answer
                      (dispatch_unanswerable_alert org_id user payload.question_text db');
                logged =
                    ap
                      (λ ts.
                        ts
                        ++ new_turn json now user payload found.answer
                            (dispatch_unanswerable_alert org_id user payload.question_text db')
                          ∷ [])
                      a;
                recorded =
                    new_turn-IsRecordOf json now user payload found.answer
                      (dispatch_unanswerable_alert org_id user payload.question_text db');
                alerted = sym e;
                alert = new_alert user payload.question_text db';
                about = new_alert-IsAlertAbout user payload db db' o;
                alert_rows = ap (λ rows. rows ++ new_alert user payload.question_text db' ∷ []) c;
              })
        | inr e ↦
            rw (finish, e)
              (record {
                turn = new_turn json now user payload found.answer db';
                logged = ap (λ ts. ts ++ new_turn json now user payload found.answer db' ∷ []) a;
                recorded = new_turn-IsRecordOf json now user payload found.answer db';
                alerted = sym e;
                alert = new_alert user payload.question_text db';
                about = new_alert-IsAlertAbout user payload db db' o;
                alert_rows = c ∙ sym (append_nil db.alerts);
              })
      ]

  -- A question that `resolve_question_tiered` answers, by whichever tier, adds one row to the table
  -- of interactions, which records the question and the answer that is returned, with its citations.
  -- The result says that an alert was sent if and only if no tier had an answer and the caller asks for
  -- alerts; just then one row is added to the alerts, which tells the question, who asked it and the
  -- organization, and is not acknowledged.
  pub resolve_question_tiered-IsLogged :
      (now : ℕ) (user : User) (org_id : ℕ) (payload : AskQuestionCreate) (dispatch_alert : Bool)
      (db : AnswerDb) (res : Resolution)
      → (resolve_question_tiered cipher settings json re transport now user org_id payload
          dispatch_alert db).0
        ≡ ok res
      → IsLogged user payload dispatch_alert db
          (resolve_question_tiered cipher settings json re transport now user org_id payload
            dispatch_alert db).1
          res
  unfolding resolve_question_tiered SameTurns
  resolve_question_tiered-IsLogged now user org_id payload dispatch_alert db res h =
      elim (Option-cases (check_content re payload.question_text)) [
        | inr (reason, e) ↦ absurd (ground (arith, e))
        | inl e ↦
            let db1 : AnswerDb = record db {
              directory = ensure_baseline_role_grants db.directory;
            } in
            let history = history_of payload.session_id user.id db1 in
            let s = LeftBy-SameTurns (find_answer-LeftBy payload history org_id db1) in
            elim (Result-cases
              (find_answer cipher settings json re transport payload history org_id db1).0) [
                | inr (x, f) ↦ absurd (ground (arith, e, f))
                | inl (found, f) ↦
                    let db2 =
                      (find_answer cipher settings json re transport payload history org_id
                        db1).1 in
                    let out =
                      finish cipher settings json re transport now user org_id payload
                        dispatch_alert found db2 in
                    let ho : ok out.0 ≡ ok res = rw (resolve_question_tiered, e, f) at h in
                    let q : out.0 ≡ res = cc in
                    let t : IsLogged user payload dispatch_alert db out.1 out.0 =
                      finish-IsLogged now user org_id payload dispatch_alert found db db2 s in
                    rw (resolve_question_tiered, e, f, ← q) t
              ]
      ]
