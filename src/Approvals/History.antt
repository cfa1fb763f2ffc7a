-- ===== src/Approvals/History.antt =====
-- The columns of an approval request in each status, over any calls of the service
-- (app/slots/example_with_states/service.py).
use oss_us_web_design_system.Base.{
  ◌⊎◌, ℕ, AllPass, update_where-AllPass, append-AllPass, ◌≡◌, String, Bool, true, not, ◌&&◌, List,
  [], ◌∷◌, ◌++◌, ok, update_where, is_some, ◌==◌, arith, Bool-cases, Option-cases, Result-cases,
  inl, inr, Action,
}
use oss_us_web_design_system.Approvals.{
  draft, submitted, approved, rejected, ApprovalRequest, ApprovalDb, ApprovalError,
  TransitionRequest, ApprovalRequestUpdate, status_eq, status_elem, allowed_transitions,
  create_approval_request, update_approval_request, is_blank, bookkeeping, transition, value_or,
  new_request,
}
use oss_us_web_design_system.Tenancy.Laws.{select_one-AllPass}
use oss_us_web_design_system.Approvals.Lifecycle.{row_of}

-- What a row's columns say, by its status.
unfoldable pub is_undecided : ApprovalRequest → Bool
is_undecided r =
    not (is_some r.decided_at) && not (is_some r.approver_id) && not (is_some r.decision_note)

unfoldable pub is_decided : ApprovalRequest → Bool
unfolding is_blank
is_decided r =
    is_some r.submitted_at
    && is_some r.decided_at
    && is_some r.approver_id
    && not (is_blank r.decision_note)

unfoldable pub is_consistent : ApprovalRequest → Bool
unfolding is_undecided is_decided
is_consistent r = elim r.status [
  | draft ↦ not (is_some r.submitted_at) && is_undecided r
  | submitted ↦ is_some r.submitted_at && is_undecided r
  | approved ↦ is_decided r
  | rejected ↦ is_decided r
]

-- One call of the service, at a time and by a user.
pub data Call : Type 0 where
  create : ℕ → String → String → Call
  update : ℕ → ApprovalRequestUpdate → Call
  move : ℕ → ℕ → ℕ → TransitionRequest → Call

unfoldable pub run : Call → Action ApprovalDb ApprovalError ApprovalRequest
run (create user_id title body) = create_approval_request user_id title body
run (update request_id payload) = update_approval_request request_id payload
run (move now user_id request_id payload) = transition now user_id request_id payload

unfoldable pub history : List Call → ApprovalDb → ApprovalDb
unfolding run
history [] db = db
history (c ∷ cs) db = history cs (run c db).1

abbrev pub Consistent : ApprovalDb → Type 0
Consistent db = AllPass is_consistent db.requests

bookkeeping-consistent :
    (now user_id : ℕ) (payload : TransitionRequest) (old : ApprovalRequest) {r : ApprovalRequest}
    → is_consistent old ≡ true
    → status_elem payload.target_status (allowed_transitions old.status) ≡ true
    → bookkeeping now user_id payload old ≡ ok r
    → is_consistent (record r { status = payload.target_status }) ≡ true
unfolding bookkeeping is_consistent allowed_transitions
bookkeeping-consistent now user_id payload old {r} c a b = ground arith

-- A call leaves the table as it is, or changes or adds one row, and that row is consistent.
Changed : ApprovalDb → List ApprovalRequest → Type 0
Changed db rows =
    (rows ≡ db.requests)
    ⊎ ((r : ApprovalRequest) × (is_consistent r ≡ true)
        × ((rows ≡ update_where (λ x. x.id == r.id) (λ _. r) db.requests)
            ⊎ (rows ≡ db.requests ++ r ∷ [])))

transition-Changed :
    (now user_id request_id : ℕ) (payload : TransitionRequest) (db : ApprovalDb)
    → Consistent db
    → Changed db (transition now user_id request_id payload db).1.requests
unfolding transition Changed
transition-Changed now user_id request_id payload db s =
    elim (Option-cases (row_of db request_id)) [
      | inl e ↦ inl (ground arith)
      | inr (old, e) ↦
          elim (Bool-cases (status_elem payload.target_status (allowed_transitions old.status))) [
            | inr f ↦ inl (ground arith)
            | inl f ↦ elim (Result-cases (bookkeeping now user_id payload old)) [
              | inr (x, g) ↦ inl (ground arith)
              | inl (r, g) ↦ inr (
                record r { status = payload.target_status },
                bookkeeping-consistent now user_id payload old {r = r}
                    (select_one-AllPass is_consistent (λ x. x.org_id) db.current_org
                      (λ x. x.id == request_id) db.requests {x = old} s e)
                    f g,
                inl (ground arith),
              )
            ]
          ]
    ]

update-Changed :
    (request_id : ℕ) (payload : ApprovalRequestUpdate) (db : ApprovalDb)
    → Consistent db
    → Changed db (update_approval_request request_id payload db).1.requests
unfolding update_approval_request Changed is_consistent
update-Changed request_id payload db s = elim (Option-cases (row_of db request_id)) [
  | inl e ↦ inl (ground arith)
  | inr (old, e) ↦ elim (Bool-cases (status_eq old.status draft)) [
    | inr f ↦ inl (ground arith)
    | inl f ↦ inr (
      record old {
        title = value_or payload.new_title old.title;
        body = value_or payload.new_body old.body;
      },
      select_one-AllPass is_consistent (λ x. x.org_id) db.current_org (λ x. x.id == request_id)
          db.requests {x = old} s e,
      inl (ground arith),
    )
  ]
]

create-Changed :
    (user_id : ℕ) (title body : String) (db : ApprovalDb)
    → Changed db (create_approval_request user_id title body db).1.requests
unfolding create_approval_request Changed is_consistent
create-Changed user_id title body db = elim (Option-cases db.current_org) [
  | inl e ↦ inl (ground arith)
  | inr (org, e) ↦
      inr (new_request db.next_id org user_id title body, ground arith, inr (ground arith))
]

Changed-AllPass :
    (db : ApprovalDb) (rows : List ApprovalRequest)
    → Consistent db
    → Changed db rows
    → AllPass is_consistent rows
unfolding Changed
Changed-AllPass db rows s (inl e) = rw e s
Changed-AllPass db rows s (inr (r, c, inl e)) =
    rw e (update_where-AllPass is_consistent (λ x. x.id == r.id) db.requests s c)
Changed-AllPass db rows s (inr (r, c, inr e)) = rw e (append-AllPass is_consistent db.requests s c)

run-Consistent : (c : Call) (db : ApprovalDb) → Consistent db → Consistent (run c db).1
unfolding run
run-Consistent (create user_id title body) db s =
    Changed-AllPass db (create_approval_request user_id title body db).1.requests s
      (create-Changed user_id title body db)
run-Consistent (update request_id payload) db s =
    Changed-AllPass db (update_approval_request request_id payload db).1.requests s
      (update-Changed request_id payload db s)
run-Consistent (move now user_id request_id payload) db s =
    Changed-AllPass db (transition now user_id request_id payload db).1.requests s
      (transition-Changed now user_id request_id payload db s)

-- Whatever calls are made, in any order, by anyone, whether they succeed or not, on a
-- consistent table, it stays so: a draft has no time of submission and no decision, a submitted request has a time of
-- submission and no decision, and a decided one has a time, an approver and a note that is not blank.
pub history-Consistent :
    (calls : List Call) (db : ApprovalDb) → Consistent db → Consistent (history calls db)
unfolding history
history-Consistent [] db s = s
history-Consistent (c ∷ cs) db s = history-Consistent cs (run c db).1 (run-Consistent c db s)
