-- ===== src/Examples/Audits.antt =====
-- The audit of the controls on concrete settings and tables.
use oss_us_web_design_system.Base.{◌≡◌, true, not, ◌&&◌, none, [], ◌∷◌, any, str_eq, codes}
use oss_us_web_design_system.Directory.{Directory}
use oss_us_web_design_system.Rbac.{is_privileged_user}
use oss_us_web_design_system.Compliance.SelfAudit.{Live, check_mfa_enforced_for_privileged}
use oss_us_web_design_system.Compliance.SelfAudit.Report.{AuditDb, outcome_of}
use oss_us_web_design_system.Compliance.SelfAudit.Privileged.{
  check_mfa_enforced_for_privileged-is_privileged_user,
}
use oss_us_web_design_system.Examples.{alice, bob}

-- Alice has the role of an administrator and no multi-factor authentication.
abbrev directory : Directory
directory = record {
  permissions = [];
  roles = record { id = 5; name = "admin"; description = none } ∷ [];
  role_permissions = [];
  user_roles = record { user_id = 1; role_id = 5 } ∷ [];
  organizations = [];
  memberships = [];
  next_permission_id = 1;
  next_role_id = 6;
  next_organization_id = 1;
  next_membership_id = 1;
}

abbrev live : Live
live = record {
  settings = record {
    env = "prod";
    cookie_secure = true;
    fisma_level = "moderate";
    jwt_secret = codes "k3y";
    llm_encryption_key = codes "0a";
    mfa_encryption_key = codes "1b";
    jwt_access_token_ttl_minutes = 60;
    audit_retention_days = 90;
  };
  users = alice ∷ bob ∷ [];
  directory = directory;
  inventory = record { runs = []; items = []; findings = []; next_run_id = 1 };
}

abbrev no_reports : AuditDb
no_reports = record { reports = []; next_report_id = 1 }

check_mfa_enforced_for_privileged-is_privileged_user_example :
    str_eq (outcome_of (check_mfa_enforced_for_privileged live)) "fail" ≡ (
      str_eq "moderate" "moderate"
      && any (λ u. is_privileged_user directory u && not u.mfa_enabled) (alice ∷ bob ∷ []))
check_mfa_enforced_for_privileged-is_privileged_user_example =
    check_mfa_enforced_for_privileged-is_privileged_user live
