-- ===== src/Approvals/Lifecycle.antt =====
-- The transitions of an approval request (app/slots/example_with_states/service.py).
use oss_us_web_design_system.Base.{
  ◌⊎◌, ℕ, ◌≡◌, refl, ap, ◌∙◌, true, false, Option, Bool-cases, ==_refl, if◌then◌else◌, some, ok,
  err, ◌==◌, arith, Option-cases, inl, inr, Text,
}
use oss_us_web_design_system.Approvals.{
  ApprovalStatus, draft, submitted, approved, rejected, ApprovalRequest, ApprovalDb,
  illegal_transition, TransitionRequest, ApprovalRequestUpdate, allowed_transitions,
  update_approval_request, is_blank, bookkeeping, transition, save_request,
}
use oss_us_web_design_system.Tenancy.{select_one}
use oss_us_web_design_system.Tenancy.Laws.{select_one_sound, select_one-replaced, select_one-other}

-- The row that a call finds in the bound organization.
abbrev pub row_of : ApprovalDb → ℕ → Option ApprovalRequest
row_of db request_id =
    select_one (λ x. x.org_id) db.current_org (λ x. x.id == request_id) db.requests

unfoldable pub decided : ℕ → ℕ → Option Text → ApprovalStatus → ApprovalRequest → ApprovalRequest
decided now user_id note outcome r = record r {
  decided_at = some now;
  approver_id = some user_id;
  decision_note = note;
  status = outcome;
}

-- The moves of the workflow, without the code's table.
pub data Step (now user_id : ℕ) (note : Option Text)
    : ApprovalRequest → ApprovalRequest → Type 0 where
  submit :
      {r : ApprovalRequest}
      → r.status ≡ draft
      → Step now user_id note r (record r { submitted_at = some now; status = submitted })
  approve :
      {r : ApprovalRequest}
      → r.status ≡ submitted
      → is_blank note ≡ false
      → Step now user_id note r (decided now user_id note approved r)
  reject :
      {r : ApprovalRequest}
      → r.status ≡ submitted
      → is_blank note ≡ false
      → Step now user_id note r (decided now user_id note rejected r)

move-found :
    (now user_id request_id : ℕ) (payload : TransitionRequest) (db : ApprovalDb)
    {old new : ApprovalRequest}
    → row_of db request_id ≡ some old
    → (transition now user_id request_id payload db).0 ≡ ok new
    → ((old.status ≡ draft) × (new ≡ record old { submitted_at = some now; status = submitted }))
      ⊎ ((old.status ≡ submitted)
          × (is_blank payload.note ≡ false)
          × ((new ≡ decided now user_id payload.note approved old)
              ⊎ (new ≡ decided now user_id payload.note rejected old)))
unfolding transition decided allowed_transitions bookkeeping
move-found now user_id request_id payload db {old} {new} e h = ground arith

transition-save :
    (now user_id request_id : ℕ) (payload : TransitionRequest) (db : ApprovalDb)
    {new : ApprovalRequest}
    → (transition now user_id request_id payload db).0 ≡ ok new
    → (transition now user_id request_id payload db).1 ≡ (save_request new db).1
unfolding transition save_request bookkeeping
transition-save now user_id request_id payload db {new} h = ground arith

Step-id :
    {now user_id : ℕ} {note : Option Text} {old new : ApprovalRequest}
    → Step now user_id note old new
    → (new.id ≡ old.id) × (new.org_id ≡ old.org_id)
unfolding decided
Step-id (submit d) = (refl, refl)
Step-id (approve d b) = (refl, refl)
Step-id (reject d b) = (refl, refl)

-- The saved row is found under its number, and the row under another number is the one that was there.
save_request-row_of :
    (request_id other : ℕ) (db : ApprovalDb) (old new : ApprovalRequest)
    → row_of db request_id ≡ some old
    → (new.id ≡ old.id) × (new.org_id ≡ old.org_id)
    → row_of (save_request new db).1 other
      ≡ (if other == request_id then some new else row_of db other)
unfolding save_request
save_request-row_of request_id other db old new e (same_id, same_org) =
    let k : old.id == request_id ≡ true =
      select_one_sound (λ x. x.org_id) db.current_org (λ x. x.id == request_id) db.requests e in
    let n : new.id ≡ request_id = ground (arith, k) in
    elim (Bool-cases (other == request_id)) [
      | inl o ↦
          let q : other ≡ new.id = ground (arith, o, n) in
          rw (o, q)
            (select_one-replaced (λ x. x.org_id) db.current_org (λ x. x.id == new.id) db.requests
              {x = old} {y = new} (==_refl new.id) same_org (rw n e))
      | inr o ↦ rw o (
          select_one-other (λ x. x.org_id) db.current_org (λ x. x.id == other) (λ x. x.id == new.id)
            db.requests {y = new} (ground (arith, o, n)) (λ x h. ground (arith, o, n, h)))
    ]

-- A transition that succeeds moves the row it finds along the workflow: a draft is submitted, or a
-- submitted request is approved or rejected with a note that is not blank, by that user and time. The
-- moved row is the one found under its number afterwards, and under every other number the call
-- leaves what was found there.
pub transition-Step :
    (now user_id request_id other : ℕ) (payload : TransitionRequest) (db : ApprovalDb)
    {new : ApprovalRequest}
    → (transition now user_id request_id payload db).0 ≡ ok new
    → (old : ApprovalRequest) × (row_of db request_id ≡ some old)
      × Step now user_id payload.note old new
      × (row_of (transition now user_id request_id payload db).1 other
          ≡ (if other == request_id then some new else row_of db other))
unfolding transition
transition-Step now user_id request_id other payload db {new} h =
    elim (Option-cases (row_of db request_id)) [
      | inl e ↦ absurd (ground arith)
      | inr (old, e) ↦
          let step : Step now user_id payload.note old new =
            elim (move-found now user_id request_id payload db {old = old} {new = new} e h) [
              | inl (d, n) ↦ rw n (submit d)
              | inr (d, b, inl n) ↦ rw n (approve d b)
              | inr (d, b, inr n) ↦ rw n (reject d b)
            ] in
          (
            old,
            e,
            step,
            ap (λ d. row_of d other)
                  (transition-save now user_id request_id payload db {new = new} h)
                ∙ save_request-row_of request_id other db old new e (Step-id step),
          )
    ]

-- A decided row refuses every edit and every move, and the table stays as it was.
decided_refused :
    (now user_id request_id : ℕ) (payload : TransitionRequest) (edit : ApprovalRequestUpdate)
    (db : ApprovalDb) {r : ApprovalRequest}
    → row_of db request_id ≡ some r
    → (r.status ≡ approved) ⊎ (r.status ≡ rejected)
    → (transition now user_id request_id payload db
        ≡ (err (illegal_transition r.status payload.target_status), db))
      × (update_approval_request request_id edit db
          ≡ (err (illegal_transition r.status r.status), db))
unfolding transition update_approval_request
decided_refused now user_id request_id payload edit db {r} h d = (ground arith, ground arith)
