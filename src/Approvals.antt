-- ===== src/Approvals.antt =====
-- The approval workflow (app/slots/example_with_states): its table of legal transitions, and the
-- service calls that create, edit and move a request.
pub mod Lifecycle
pub mod History
use oss_us_web_design_system.Base.{
  ℕ, suc, ◌+◌, ◌≡◌, String, Bool, true, false, not, ◌&&◌, ◌||◌, Option, none, some, List, [], ◌∷◌,
  ◌++◌, update_where, Action, Result, ok, err, pure, raise_if, gets, or_raise, modify, ◌>>=◌, ◌>>◌,
  ◌==◌, if◌then◌else◌, Text, strip,
}
use oss_us_web_design_system.Tenancy.{select_one, inject_org}

pub data ApprovalStatus : Type 0 where
  draft submitted approved rejected : ApprovalStatus

-- `ApprovalRequest`.
pub record ApprovalRequest : Type 0 where
  pub id : ℕ
  pub org_id : ℕ
  pub requester_id : ℕ
  pub title : String
  pub body : String
  pub status : ApprovalStatus
  pub submitted_at : Option ℕ
  pub decided_at : Option ℕ
  pub approver_id : Option ℕ
  pub decision_note : Option Text

-- The table, the next primary key, and the organization bound to the request.
pub record ApprovalDb : Type 0 where
  pub requests : List ApprovalRequest
  pub next_id : ℕ
  pub current_org : Option ℕ

pub data ApprovalError : Type 0 where
  approval_not_found : ApprovalError
  illegal_transition : ApprovalStatus → ApprovalStatus → ApprovalError
  decision_note_required : ApprovalError
  org_id_missing : ApprovalError

unfoldable pub status_eq : ApprovalStatus → ApprovalStatus → Bool
status_eq draft draft = true
status_eq submitted submitted = true
status_eq approved approved = true
status_eq rejected rejected = true
status_eq _ _ = false

-- `ALLOWED_TRANSITIONS`.
unfoldable pub allowed_transitions : ApprovalStatus → List ApprovalStatus
allowed_transitions draft = submitted ∷ []
allowed_transitions submitted = approved ∷ rejected ∷ []
allowed_transitions approved = []
allowed_transitions rejected = []

unfoldable pub status_elem : ApprovalStatus → List ApprovalStatus → Bool
unfolding status_eq
status_elem s [] = false
status_elem s (t ∷ ts) = status_eq s t || status_elem s ts

-- `TransitionRequest` and `ApprovalRequestUpdate`.
pub record TransitionRequest : Type 0 where
  pub target_status : ApprovalStatus
  pub note : Option Text

pub record ApprovalRequestUpdate : Type 0 where
  pub new_title : Option String
  pub new_body : Option String

unfoldable pub get_approval_request : ℕ → Action ApprovalDb ApprovalError ApprovalRequest
get_approval_request request_id = do
  found ←
      gets (λ db. select_one (λ x. x.org_id) db.current_org (λ x. x.id == request_id) db.requests)
  or_raise found approval_not_found

-- The flush of a changed row.
unfoldable pub save_request : ApprovalRequest → Action ApprovalDb ApprovalError ApprovalRequest
save_request req = do
  modify (λ db. record db { requests = update_where (λ x. x.id == req.id) (λ _. req) db.requests })
  pure req

unfoldable pub new_request : ℕ → ℕ → ℕ → String → String → ApprovalRequest
new_request id org_id user_id title body = record {
  id = id;
  org_id = org_id;
  requester_id = user_id;
  title = title;
  body = body;
  status = draft;
  submitted_at = none;
  decided_at = none;
  approver_id = none;
  decision_note = none;
}

-- `create_approval_request`; with no organization bound, the column that may not be null is refused.
unfoldable pub create_approval_request :
    ℕ → String → String → Action ApprovalDb ApprovalError ApprovalRequest
unfolding inject_org new_request
create_approval_request user_id title body = do
  org ← gets (λ db. inject_org db.current_org none)
  org_id ← or_raise org org_id_missing
  id ← gets (λ db. db.next_id)
  let req = new_request id org_id user_id title body
  modify (λ db. record db { requests = db.requests ++ req ∷ []; next_id = suc db.next_id })
  pure req

unfoldable pub value_or : {A : Type 0} → Option A → A → A
value_or none old = old
value_or (some new) _ = new

-- `update_approval_request`.
unfoldable pub update_approval_request :
    ℕ → ApprovalRequestUpdate → Action ApprovalDb ApprovalError ApprovalRequest
unfolding status_eq value_or get_approval_request save_request
update_approval_request request_id payload = do
  req ← get_approval_request request_id
  raise_if (not (status_eq req.status draft)) (illegal_transition req.status req.status)
  save_request (record req {
    title = value_or payload.new_title req.title;
    body = value_or payload.new_body req.body;
  })

-- `not note or not note.strip()`.
unfoldable pub is_blank : Option Text → Bool
is_blank none = true
is_blank (some note) = elim (strip note) [ [] ↦ true | _ ∷ _ ↦ false ]

-- The bookkeeping of a legal transition.
unfoldable pub bookkeeping :
    ℕ → ℕ → TransitionRequest → ApprovalRequest → Result ApprovalError ApprovalRequest
unfolding status_eq status_elem is_blank
bookkeeping now user_id payload req =
    if status_eq req.status draft && status_eq payload.target_status submitted
    then ok (record req { submitted_at = some now })
    else if status_eq req.status submitted
        && status_elem payload.target_status (approved ∷ rejected ∷ [])
    then if is_blank payload.note
      then err decision_note_required
      else ok (record req {
        decided_at = some now;
        approver_id = some user_id;
        decision_note = payload.note;
      })
    else ok req

-- `transition`.
unfoldable pub transition :
    ℕ → ℕ → ℕ → TransitionRequest → Action ApprovalDb ApprovalError ApprovalRequest
unfolding status_elem allowed_transitions get_approval_request bookkeeping save_request
transition now user_id request_id payload = do
  req ← get_approval_request request_id
  raise_if (not (status_elem payload.target_status (allowed_transitions req.status)))
      (illegal_transition req.status payload.target_status)
  stamped ← λ db. (bookkeeping now user_id payload req, db)
  save_request (record stamped { status = payload.target_status })
