-- ===== src/Compliance/Inventory.antt =====
-- Scans of the installed components and remediation proposals (app/compliance/inventory/service.py).
-- pip-audit, PyPI, the list of direct dependencies and the verifier are parameters. Some columns
-- that only record times and texts are left out.
pub mod Rows
pub mod Laws
use oss_us_web_design_system.Base.{
  ℕ, suc, ◌+◌, ◌≡◌, Bool, true, false, not, ◌&&◌, ◌||◌, Option, none, some, String, List, [], ◌∷◌,
  ◌++◌, length, filter, find?, update_where, ◌==◌, str_eq, is_some, if◌then◌else◌, ltb, Text, codes,
  lower, text_eq, first, sort_desc, Result, ok, err, Action, pure, raise,
}

-- pip-audit's report.
pub record Vuln : Type 0 where
  pub id : Option Text
  pub description : Option Text
  pub fix_versions : List Text

pub record Dependency : Type 0 where
  pub name : Text
  pub version : Text
  pub vulns : List Vuln

pub record ScanRun : Type 0 where
  pub id : ℕ
  pub status : String
  pub component_count : ℕ
  pub vulnerability_count : ℕ
  pub stale_count : ℕ
  pub triggered_by_user_id : Option ℕ
  pub started_at : ℕ

pub record InventoryItem : Type 0 where
  pub scan_run_id : ℕ
  pub name : Text
  pub installed_version : Text
  pub is_direct : Bool
  pub latest_stable_version : Option Text
  pub is_current : Option Bool

pub record VulnerabilityFinding : Type 0 where
  pub scan_run_id : ℕ
  pub component_name : Text
  pub installed_version : Text
  pub advisory_id : Text
  pub description : Option Text
  pub fixed_version : Option Text

pub record InventoryDb : Type 0 where
  pub runs : List ScanRun
  pub items : List InventoryItem
  pub findings : List VulnerabilityFinding
  pub next_run_id : ℕ

unfoldable pub finding_of : ℕ → Dependency → Vuln → VulnerabilityFinding
finding_of run_id dep v = record {
  scan_run_id = run_id;
  component_name = dep.name;
  installed_version = dep.version;
  advisory_id = elim v.id [ none ↦ codes "unknown" | some i ↦ i ];
  description = v.description;
  fixed_version = first v.fix_versions;
}

unfoldable pub findings_of : ℕ → Dependency → List Vuln → List VulnerabilityFinding
unfolding finding_of
findings_of run_id dep [] = []
findings_of run_id dep (v ∷ vs) = finding_of run_id dep v ∷ findings_of run_id dep vs

-- `latest == version`, where the latest version is known.
unfoldable pub currency : Option Text → Text → Option Bool
currency none version = none
currency (some latest) version = some (text_eq latest version)

abbrev pub is_stale : Option Bool → Bool
is_stale none = false
is_stale (some b) = not b

-- What the loop of `run_scan` carries: the rows added and the three variables.
pub record Progress : Type 0 where
  pub items : List InventoryItem
  pub findings : List VulnerabilityFinding
  pub vuln_count : ℕ
  pub stale_count : ℕ
  pub currency_degraded : Bool

unfoldable pub get_latest_scan : InventoryDb → Option ScanRun
unfolding sort_desc
get_latest_scan db = first (sort_desc (λ r. r.started_at) db.runs)

unfoldable pub is_successful : ScanRun → Bool
is_successful r = str_eq r.status "ok" || str_eq r.status "partial"

unfoldable pub get_latest_successful_scan : InventoryDb → Option ScanRun
unfolding sort_desc is_successful
get_latest_successful_scan db = first (sort_desc (λ r. r.started_at) (filter is_successful db.runs))

-- `fetch` is the latest version that PyPI gives, if it can be had; `is_direct` tells the direct
-- dependencies by their name in small letters.
module _ (fetch : Text → Option Text) (is_direct : Text → Bool) where
  unfoldable pub latest_of : Dependency → Option Text
  latest_of dep = if is_direct (lower dep.name) then fetch dep.name else none

  unfoldable pub item_of : ℕ → Dependency → InventoryItem
  unfolding latest_of currency
  item_of run_id dep = record {
    scan_run_id = run_id;
    name = dep.name;
    installed_version = dep.version;
    is_direct = is_direct (lower dep.name);
    latest_stable_version = latest_of dep;
    is_current = currency (latest_of dep) dep.version;
  }

  -- One pass of the loop; each vulnerability counts once.
  unfoldable pub scan_dependency : ℕ → Dependency → Progress → Progress
  unfolding item_of findings_of
  scan_dependency run_id dep p =
      let item = item_of run_id dep in
      record {
        items = p.items ++ item ∷ [];
        findings = p.findings ++ findings_of run_id dep dep.vulns;
        vuln_count = p.vuln_count + length dep.vulns;
        stale_count = if is_stale item.is_current then p.stale_count + 1 else p.stale_count;
        currency_degraded =
            p.currency_degraded || item.is_direct && not (is_some item.latest_stable_version);
      }

  unfoldable pub scan_all : ℕ → List Dependency → Progress → Progress
  unfolding scan_dependency
  scan_all run_id [] p = p
  scan_all run_id (dep ∷ deps) p = scan_all run_id deps (scan_dependency run_id dep p)

  unfoldable pub no_progress : Progress
  no_progress = record {
    items = [];
    findings = [];
    vuln_count = 0;
    stale_count = 0;
    currency_degraded = false;
  }

  -- `run_scan`; `none` is a pip-audit that did not complete.
  unfoldable pub run_scan :
      ℕ → Option ℕ → Option (List Dependency) → InventoryDb → ScanRun × InventoryDb
  unfolding scan_all no_progress
  run_scan now user_id none db =
      let run : ScanRun = record {
        id = db.next_run_id;
        status = "failed";
        component_count = 0;
        vulnerability_count = 0;
        stale_count = 0;
        triggered_by_user_id = user_id;
        started_at = now;
      } in
      (run, record db { runs = db.runs ++ run ∷ []; next_run_id = db.next_run_id + 1 })
  run_scan now user_id (some deps) db =
      let p = scan_all db.next_run_id deps no_progress in
      let run : ScanRun = record {
        id = db.next_run_id;
        status = if p.currency_degraded then "partial" else "ok";
        component_count = length deps;
        vulnerability_count = p.vuln_count;
        stale_count = p.stale_count;
        triggered_by_user_id = user_id;
        started_at = now;
      } in
      (
        run,
        record db {
          runs = db.runs ++ run ∷ [];
          items = db.items ++ p.items;
          findings = db.findings ++ p.findings;
          next_run_id = db.next_run_id + 1;
        },
      )

pub record RemediationProposal : Type 0 where
  pub id : ℕ
  pub component_name : Text
  pub from_version : Text
  pub to_version : Text
  pub bump_kind : String
  pub verification_status : String
  pub decision : String
  pub decided_by_user_id : Option ℕ
  pub decided_at : Option ℕ
  pub reason : Option Text

pub record RemediationDb : Type 0 where
  pub proposals : List RemediationProposal
  pub next_id : ℕ

-- `propose_remediation`, with the setting and the verifier's answer.
unfoldable pub propose_remediation :
    Bool
    → Bool
    → ℕ
    → Text
    → Text
    → Text
    → String
    → Option Text
    → RemediationDb
    → RemediationProposal × RemediationDb
propose_remediation auto_apply verified now component_name from_version to_version bump_kind reason
      db =
    let applied =
      auto_apply && (str_eq bump_kind "patch" || str_eq bump_kind "minor") && verified in
    let proposal : RemediationProposal = record {
      id = db.next_id;
      component_name = component_name;
      from_version = from_version;
      to_version = to_version;
      bump_kind = bump_kind;
      verification_status = if verified then "verified" else "failed";
      decision = if applied then "auto_applied" else "held";
      decided_by_user_id = none;
      decided_at = if applied then some now else none;
      reason = reason;
    } in
    (proposal, record db { proposals = db.proposals ++ proposal ∷ []; next_id = db.next_id + 1 })

pub data RemediationError : Type 0 where
  invalid_decision : RemediationError

-- `decide_remediation`.
unfoldable pub decide_remediation :
    ℕ
    → RemediationProposal
    → String
    → Option ℕ
    → Action RemediationDb RemediationError RemediationProposal
decide_remediation now proposal decision user_id db =
    let done = record proposal {
      decision = decision;
      decided_by_user_id = user_id;
      decided_at = some now;
    } in
    if not (str_eq decision "approved" || str_eq decision "rejected")
    then raise invalid_decision db
    else pure done
        (record db { proposals = update_where (λ p. p.id == proposal.id) (λ _. done) db.proposals })
