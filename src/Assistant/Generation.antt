-- ===== src/Assistant/Generation.antt =====
-- The approval gate of generated FAQs (`_resolve_ids_in_org`, `_get_faq_generation_session` and
-- `confirm_faq_generation_session` in app/slots/accessibility_assistant/service.py).
pub mod Gate
pub mod Confirm
use oss_us_web_design_system.Base.{
  ℕ, suc, ◌+◌, Bool, true, false, not, ◌&&◌, ◌||◌, Option, none, some, String, List, [], ◌∷◌, ◌++◌,
  map, filter, any, all, elem, if◌then◌else◌, Action, Result, ok, err, pure, raise, raise_if, gets,
  or_raise, modify, ◌>>=◌, ◌>>◌, update_where, ◌==◌, opt_eq,
}
use oss_us_web_design_system.Auth.User.{User}
use oss_us_web_design_system.Assistant.Sharing.{creator_role_snapshot_for}
use oss_us_web_design_system.Tenancy.{visible, select_where, select_one, inject_org}

pub data SessionStatus : Type 0 where
  session_pending_review session_confirmed : SessionStatus

pub data CandidateStatus : Type 0 where
  pending_review approved rejected : CandidateStatus

-- `FAQGenerationSession` and `FAQGenerationCandidate`.
pub record GenerationSession : Type 0 where
  pub id : ℕ
  pub org_id : ℕ
  pub status : SessionStatus

pub record Candidate : Type 0 where
  pub id : ℕ
  pub org_id : ℕ
  pub session_id : ℕ
  pub status : CandidateStatus

-- `FAQGenerationApprovedCandidate`.
pub record ApprovedCandidate : Type 0 where
  pub candidate_id : ℕ
  pub question : String
  pub answer : String
  pub question_category_ids : List ℕ
  pub source_category_ids : List ℕ
  pub source_ids : List ℕ

-- The columns of `FAQ` that the gate writes.
pub record FaqRow : Type 0 where
  pub id : ℕ
  pub org_id : ℕ
  pub question_category_id : ℕ
  pub question : String
  pub answer : String
  pub created_by_user_id : ℕ
  pub creator_role_snapshot : String

-- A row that other rows name by its key: a question category, a source category or a source.
pub record KeyRow : Type 0 where
  pub id : ℕ
  pub org_id : ℕ

-- The tables; the junction rows are pairs of keys, the FAQ's first.
pub record GenerationDb : Type 0 where
  pub sessions : List GenerationSession
  pub candidates : List Candidate
  pub faqs : List FaqRow
  pub next_faq_id : ℕ
  pub faq_question_categories : List (ℕ × ℕ)
  pub faq_source_categories : List (ℕ × ℕ)
  pub faq_sources : List (ℕ × ℕ)
  pub question_categories : List KeyRow
  pub source_categories : List KeyRow
  pub sources : List KeyRow
  pub current_org : Option ℕ

pub data GenerationError : Type 0 where
  generation_session_not_found at_least_one_id unknown_id index_error org_id_missing duplicate_key :
      GenerationError

-- One check after another; the checks only read.
unfoldable pub and_then :
    Result GenerationError (Unit {0})
    → Result GenerationError (Unit {0})
    → Result GenerationError (Unit {0})
and_then (ok _) next = next
and_then (err e) _ = err e

-- `_resolve_ids_in_org`: every id, and there must be one, is that of a row that the request sees.
unfoldable pub resolve_ids_in_org :
    Option ℕ → List KeyRow → List ℕ → Result GenerationError (Unit {0})
unfolding visible
resolve_ids_in_org org rows [] = err at_least_one_id
resolve_ids_in_org org rows (i ∷ ids) =
    if all (λ id. elem id (map (λ r. r.id) (visible (λ r. r.org_id) org rows))) (i ∷ ids)
    then ok tt
    else err unknown_id

-- The checks of one approved candidate.
unfoldable pub validate : ApprovedCandidate → GenerationDb → Result GenerationError (Unit {0})
unfolding resolve_ids_in_org and_then
validate item db =
    and_then (resolve_ids_in_org db.current_org db.question_categories item.question_category_ids) (
      and_then (resolve_ids_in_org db.current_org db.source_categories item.source_category_ids)
        (resolve_ids_in_org db.current_org db.sources item.source_ids))

unfoldable pub validate_all :
    List ApprovedCandidate → GenerationDb → Result GenerationError (Unit {0})
unfolding validate and_then
validate_all [] db = ok tt
validate_all (item ∷ items) db = and_then (validate item db) (validate_all items db)

unfoldable pub first_id : List ℕ → Option ℕ
first_id [] = none
first_id (i ∷ _) = some i

-- `session.add(faq)` and its flush.
unfoldable pub add_faq : FaqRow → GenerationDb → GenerationDb
add_faq faq db = record db { faqs = db.faqs ++ faq ∷ []; next_faq_id = suc db.next_faq_id }

-- The junction rows of a new FAQ.
unfoldable pub add_junctions : ℕ → ApprovedCandidate → GenerationDb → GenerationDb
add_junctions faq_id item db = record db {
  faq_question_categories =
      db.faq_question_categories ++ map (λ i. (faq_id, i)) item.question_category_ids;
  faq_source_categories =
      db.faq_source_categories ++ map (λ i. (faq_id, i)) item.source_category_ids;
  faq_sources = db.faq_sources ++ map (λ i. (faq_id, i)) item.source_ids;
}

-- Rows of a new FAQ collide in a junction table, whose key is the pair, where an id stands twice.
unfoldable pub has_duplicates : List ℕ → Bool
has_duplicates [] = false
has_duplicates (i ∷ ids) = elem i ids || has_duplicates ids

unfoldable pub has_duplicate_ids : ApprovedCandidate → Bool
unfolding has_duplicates
has_duplicate_ids item =
    has_duplicates item.question_category_ids
    || has_duplicates item.source_category_ids
    || has_duplicates item.source_ids

-- One pass of the loop; the flush that refuses colliding junction rows stands right behind them.
unfoldable pub create_faq : User → ApprovedCandidate → Action GenerationDb GenerationError ℕ
unfolding first_id add_faq add_junctions has_duplicate_ids inject_org creator_role_snapshot_for
create_faq user item = do
  db ← gets (λ db. db)
  category ← or_raise (first_id item.question_category_ids) index_error
  org_id ← or_raise (inject_org db.current_org none) org_id_missing
  modify (
      add_faq (record {
        id = db.next_faq_id;
        org_id = org_id;
        question_category_id = category;
        question = item.question;
        answer = item.answer;
        created_by_user_id = user.id;
        creator_role_snapshot = creator_role_snapshot_for user;
      }))
  raise_if (has_duplicate_ids item) duplicate_key
  modify (add_junctions db.next_faq_id item)
  pure db.next_faq_id

unfoldable pub create_all :
    User → List ApprovedCandidate → Action GenerationDb GenerationError (List ℕ)
unfolding create_faq
create_all user [] = pure []
create_all user (item ∷ items) = do
  id ← create_faq user item
  ids ← create_all user items
  pure (id ∷ ids)

-- A candidate that the query of the session's candidates returns.
unfoldable pub is_of_session : Option ℕ → ℕ → Candidate → Bool
is_of_session none session_id c = c.session_id == session_id
is_of_session (some org) session_id c = c.org_id == org && c.session_id == session_id

unfoldable pub close_candidate : List ℕ → Candidate → Candidate
close_candidate approved_ids c =
    if elem c.id approved_ids
    then record c { status = approved }
    else record c { status = rejected }

unfoldable pub close_session : ℕ → List ℕ → GenerationSession → GenerationDb → GenerationDb
unfolding is_of_session close_candidate
close_session session_id approved_ids gen_session db = record db {
  candidates =
      update_where (is_of_session db.current_org session_id) (close_candidate approved_ids)
        db.candidates;
  sessions =
      update_where (λ x. x.id == gen_session.id)
        (λ _. record gen_session { status = session_confirmed }) db.sessions;
}

-- `confirm_faq_generation_session`: the ids of the FAQs made and those of the candidates discarded.
unfoldable pub confirm_faq_generation_session :
    User → ℕ → List ApprovedCandidate → Action GenerationDb GenerationError (List ℕ × List ℕ)
unfolding select_one select_where validate_all create_all close_session
confirm_faq_generation_session user session_id items = do
  found ←
      gets (λ db. select_one (λ x. x.org_id) db.current_org (λ x. x.id == session_id) db.sessions)
  gen_session ← or_raise found generation_session_not_found
  (λ db. (validate_all items db, db))
  created_faq_ids ← create_all user items
  db ← gets (λ db. db)
  let approved_ids = map (λ c. c.candidate_id) items
  let seen =
      select_where (λ c. c.org_id) db.current_org (λ c. c.session_id == session_id) db.candidates
  modify (close_session session_id approved_ids gen_session)
  pure (created_faq_ids, map (λ c. c.id) (filter (λ c. not (elem c.id approved_ids)) seen))
