-- ===== src/Examples/Approvals.antt =====
-- The approval workflow on a concrete request.
use oss_us_web_design_system.Base.{◌≡◌, refl, none, some, [], ◌∷◌, codes, strip}
use oss_us_web_design_system.Approvals.{
  ApprovalRequest, ApprovalDb, submitted, approved, TransitionRequest, ApprovalRequestUpdate,
  transition,
}
use oss_us_web_design_system.Approvals.Lifecycle.{row_of, Step, transition-Step}
use oss_us_web_design_system.Approvals.History.{
  history-Consistent, Consistent, history, create, move, update, is_consistent,
}
use oss_us_web_design_system.Tenancy.{select_one}

abbrev request : ApprovalRequest
request = record {
  id = 1;
  org_id = 4;
  requester_id = 2;
  title = "t";
  body = "b";
  status = submitted;
  submitted_at = some 10;
  decided_at = none;
  approver_id = none;
  decision_note = none;
}

abbrev db_of : ApprovalRequest → ApprovalDb
db_of r = record { requests = r ∷ []; next_id = 2; current_org = some 4 }

abbrev approval : TransitionRequest
approval = record { target_status = approved; note = some (codes "fine") }

abbrev approved_request : ApprovalRequest
approved_request = record request {
  status = approved;
  decided_at = some 20;
  approver_id = some 3;
  decision_note = some (codes "fine");
}

abbrev no_edit : ApprovalRequestUpdate
no_edit = record { new_title = some "new"; new_body = none }

transition-Step_example :
    (old : ApprovalRequest) × (row_of (db_of request) 1 ≡ some old)
    × Step 20 3 (some (codes "fine")) old approved_request
    × (row_of (transition 20 3 1 approval (db_of request)).1 1 ≡ some approved_request)
unfolding transition select_one strip
transition-Step_example =
    transition-Step 20 3 1 1 approval (db_of request) {new = approved_request} refl

history-Consistent_example :
    Consistent
      (history (create 2 "u" "v" ∷ move 20 3 1 approval ∷ update 1 no_edit ∷ []) (db_of request))
unfolding is_consistent
history-Consistent_example =
    history-Consistent (create 2 "u" "v" ∷ move 20 3 1 approval ∷ update 1 no_edit ∷ [])
      (db_of request) (refl, tt)
