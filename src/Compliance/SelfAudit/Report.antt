-- ===== src/Compliance/SelfAudit/Report.antt =====
-- The registry of the checks (app/compliance/fisma_audit/checks.py), and the report of a run
-- (app/compliance/fisma_audit/service.py).
use oss_us_web_design_system.Base.{
  ℕ, ◌+◌, Bool, ◌||◌, Option, none, some, String, List, [], ◌∷◌, ◌++◌, ltb, str_eq, if◌then◌else◌,
  first, sort_desc, take,
}
use oss_us_web_design_system.Compliance.SelfAudit.{
  Live, check_cookie_secure, check_secrets_non_default, check_mfa_enforced_for_privileged,
  check_lockout_policy, check_password_policy, check_session_ttl, check_audit_retention,
  check_zero_cve, check_operator_responsibility_stub,
}

pub record Check : Type 0 where
  pub control_id : String
  pub title : String
  pub fn : Live → Option String

abbrev pub registry : List Check
registry =
    record {
      control_id = "AC-7";
      title = "Unsuccessful Logon Attempts (lockout policy)";
      fn = check_lockout_policy;
    }
    ∷ record {
      control_id = "AC-8";
      title = "System Use Notification / cookie transport security";
      fn = check_cookie_secure;
    }
    ∷ record {
      control_id = "AC-12";
      title = "Session Termination (JWT TTL)";
      fn = check_session_ttl;
    }
    ∷ record {
      control_id = "AC-17";
      title = "Remote Access";
      fn = check_operator_responsibility_stub;
    }
    ∷ record {
      control_id = "AU-6";
      title = "Audit Review/Analysis";
      fn = check_operator_responsibility_stub;
    }
    ∷ record { control_id = "AU-11"; title = "Audit Record Retention"; fn = check_audit_retention }
    ∷ record {
      control_id = "IA-2(1)";
      title = "MFA for privileged accounts";
      fn = check_mfa_enforced_for_privileged;
    }
    ∷ record {
      control_id = "IA-5";
      title = "Authenticator Management (password policy)";
      fn = check_password_policy;
    }
    ∷ record {
      control_id = "SC-7";
      title = "Boundary Protection";
      fn = check_operator_responsibility_stub;
    }
    ∷ record {
      control_id = "SC-12";
      title = "Key Management (secrets non-default)";
      fn = check_secrets_non_default;
    }
    ∷ record {
      control_id = "SI-2/SI-3";
      title = "Flaw Remediation / zero-CVE mandate";
      fn = check_zero_cve;
    }
    ∷ record {
      control_id = "SI-4/SI-7";
      title = "Monitoring / Integrity";
      fn = check_operator_responsibility_stub;
    }
    ∷ []

pub record Finding : Type 0 where
  pub control_id : String
  pub title : String
  pub outcome : String

pub record Counts : Type 0 where
  pub pass_count : ℕ
  pub fail_count : ℕ
  pub not_applicable_count : ℕ
  pub operator_responsibility_count : ℕ

pub record FismaAuditReport : Type 0 where
  pub id : ℕ
  pub fisma_level : String
  pub ran_at : ℕ
  pub findings : List Finding
  pub counts : Counts
  pub triggered_by_user_id : Option ℕ

pub record AuditDb : Type 0 where
  pub reports : List FismaAuditReport
  pub next_report_id : ℕ

abbrev pub no_counts : Counts
no_counts = record {
  pass_count = 0;
  fail_count = 0;
  not_applicable_count = 0;
  operator_responsibility_count = 0;
}

-- An outcome that is none of the five is not counted.
unfoldable pub count : String → Counts → Counts
count outcome c =
    if str_eq outcome "pass"
    then record c { pass_count = c.pass_count + 1 }
    else if str_eq outcome "fail" || str_eq outcome "check_error"
    then record c { fail_count = c.fail_count + 1 }
    else if str_eq outcome "not_applicable"
    then record c { not_applicable_count = c.not_applicable_count + 1 }
    else if str_eq outcome "operator_responsibility"
    then record c { operator_responsibility_count = c.operator_responsibility_count + 1 }
    else c

-- A check that raises is a finding.
unfoldable pub outcome_of : Option String → String
outcome_of none = "check_error"
outcome_of (some outcome) = outcome

-- The loop over the checks, on the findings and the counts so far.
unfoldable pub run_checks : Live → List Check → List Finding → Counts → List Finding × Counts
unfolding count outcome_of
run_checks live [] findings c = (findings, c)
run_checks live (check ∷ checks) findings c =
    let outcome = outcome_of (check.fn live) in
    run_checks live checks
      (findings
        ++ record { control_id = check.control_id; title = check.title; outcome = outcome } ∷ [])
      (count outcome c)

unfoldable pub run_audit : Live → List Check → Option ℕ → ℕ → AuditDb → FismaAuditReport × AuditDb
unfolding run_checks
run_audit live checks triggered_by_user_id now db =
    let (findings, counts) = run_checks live checks [] no_counts in
    let report : FismaAuditReport = record {
      id = db.next_report_id;
      fisma_level = live.settings.fisma_level;
      ran_at = now;
      findings = findings;
      counts = counts;
      triggered_by_user_id = triggered_by_user_id;
    } in
    (report, record { reports = db.reports ++ report ∷ []; next_report_id = db.next_report_id + 1 })

unfoldable pub get_latest_report : AuditDb → Option FismaAuditReport
unfolding sort_desc
get_latest_report db = first (take 1 (sort_desc (λ r. r.ran_at) db.reports))

unfoldable pub list_report_history : ℕ → AuditDb → List FismaAuditReport
unfolding sort_desc
list_report_history limit db = take limit (sort_desc (λ r. r.ran_at) db.reports)

unfoldable pub has_failures : FismaAuditReport → Bool
has_failures r = ltb 0 r.counts.fail_count
