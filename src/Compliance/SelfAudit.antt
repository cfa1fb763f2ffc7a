-- ===== src/Compliance/SelfAudit.antt =====
-- The checks of the security controls (app/compliance/fisma_audit/checks.py). The detail of a
-- finding, a text for its reader, is left out. A check that raises gives `none`.
pub mod Report
pub mod Laws
pub mod Privileged
use oss_us_web_design_system.Base.{
  ℕ, ◌+◌, Bool, true, false, not, ◌&&◌, ◌||◌, Option, none, some, String, List, [], ◌∷◌, ◌++◌,
  filter, any, ◌==◌, ltb, str_eq, if◌then◌else◌, Text, codes, text_eq, lower, contains_text, first,
  sort_desc, take,
}
use oss_us_web_design_system.Auth.User.{User}
use oss_us_web_design_system.Auth.Lockout.{lockout_threshold_attempts}
use oss_us_web_design_system.Directory.{Role, UserRole, Directory}
use oss_us_web_design_system.Compliance.Inventory.{ScanRun, InventoryDb, get_latest_successful_scan}

-- The settings (app/config.py) that the checks read.
pub record Settings : Type 0 where
  pub env : String
  pub cookie_secure : Bool
  pub fisma_level : String
  pub jwt_secret : Text
  pub llm_encryption_key : Text
  pub mfa_encryption_key : Text
  pub jwt_access_token_ttl_minutes : ℕ
  pub audit_retention_days : ℕ

-- What a check inspects.
pub record Live : Type 0 where
  pub settings : Settings
  pub users : List User
  pub directory : Directory
  pub inventory : InventoryDb

-- The constants of one level.
pub record Policy : Type 0 where
  pub lockout_threshold : ℕ
  pub lockout_window_minutes : ℕ
  pub lockout_duration_minutes : ℕ
  pub password_min_length : ℕ
  pub session_ttl_minutes : ℕ
  pub audit_retention_days : ℕ

abbrev pub moderate : Policy
moderate = record {
  lockout_threshold = 3;
  lockout_window_minutes = 15;
  lockout_duration_minutes = 30;
  password_min_length = 14;
  session_ttl_minutes = 60;
  audit_retention_days = 365;
}

abbrev pub low : Policy
low = record {
  lockout_threshold = 5;
  lockout_window_minutes = 15;
  lockout_duration_minutes = 15;
  password_min_length = 10;
  session_ttl_minutes = 120;
  audit_retention_days = 90;
}

-- `_expected`.
unfoldable pub expected : Settings → Policy
expected s = if str_eq s.fisma_level "moderate" then moderate else low

-- `LOCKOUT_WINDOW_MINUTES` and `LOCKOUT_DURATION_MINUTES` of app/auth/service.py.
abbrev pub lockout_window_minutes : ℕ
lockout_window_minutes = 15

abbrev pub lockout_duration_minutes : ℕ
lockout_duration_minutes = 30

-- `PASSWORD_MIN_LENGTH` of app/auth/schemas.py.
abbrev pub password_min_length : ℕ
password_min_length = 14

abbrev pub pass_if : Bool → Option String
pass_if holds = some (if holds then "pass" else "fail")

unfoldable pub check_cookie_secure : Live → Option String
check_cookie_secure live =
    if str_eq live.settings.env "prod"
    then pass_if live.settings.cookie_secure
    else some "operator_responsibility"

abbrev pub placeholder_markers : List Text
placeholder_markers =
    codes "change-me" ∷ codes "your-secret" ∷ codes "placeholder" ∷ codes "example" ∷ []

-- A secret at its default, or with a marker of a placeholder in it.
unfoldable pub is_weak : Text → Text → Bool
is_weak known_default value =
    text_eq value known_default || any (λ m. contains_text m (lower value)) placeholder_markers

-- `_JWT_SECRET_DEV_DEFAULT`, `_LLM_ENC_KEY_DEV_DEFAULT` and `_MFA_ENC_KEY_DEV_DEFAULT`.
abbrev pub jwt_secret_dev_default : Text
jwt_secret_dev_default = codes "dev-only-change-me-32-chars-of-random-bytes-please"

abbrev pub llm_enc_key_dev_default : Text
llm_enc_key_dev_default = codes "00000000000000000000000000000000000000000000000000000000deadbeef"

abbrev pub mfa_enc_key_dev_default : Text
mfa_enc_key_dev_default = codes "11111111111111111111111111111111111111111111111111111111beefcafe"

unfoldable pub has_weak_secret : Settings → Bool
has_weak_secret s =
    is_weak jwt_secret_dev_default s.jwt_secret
    || is_weak llm_enc_key_dev_default s.llm_encryption_key
    || is_weak mfa_enc_key_dev_default s.mfa_encryption_key

unfoldable pub check_secrets_non_default : Live → Option String
check_secrets_non_default live =
    if str_eq live.settings.env "prod"
    then pass_if (not (has_weak_secret live.settings))
    else some "operator_responsibility"

-- The outer join of users with their roles: a user without a role stays in it.
unfoldable pub in_privileged_query : Directory → User → Bool
in_privileged_query d u =
    u.is_superuser
    || any
        (λ ur. ur.user_id == u.id && any (λ r. r.id == ur.role_id && str_eq r.name "admin") d.roles)
        d.user_roles

unfoldable pub check_mfa_enforced_for_privileged : Live → Option String
unfolding in_privileged_query
check_mfa_enforced_for_privileged live =
    let privileged = filter (in_privileged_query live.directory) live.users in
    if not (str_eq live.settings.fisma_level "moderate")
    then some "not_applicable"
    else elim privileged [
      | [] ↦ some "not_applicable"
      | u ∷ us ↦ pass_if (not (any (λ x. not x.mfa_enabled) (u ∷ us)))
    ]

unfoldable pub check_lockout_policy : Live → Option String
unfolding expected
check_lockout_policy live =
    let policy = expected live.settings in
    pass_if (
      lockout_threshold_attempts == policy.lockout_threshold
      && (lockout_window_minutes == policy.lockout_window_minutes
          && lockout_duration_minutes == policy.lockout_duration_minutes))

unfoldable pub check_password_policy : Live → Option String
unfolding expected
check_password_policy live =
    pass_if ((expected live.settings).password_min_length == password_min_length)

unfoldable pub check_session_ttl : Live → Option String
unfolding expected
check_session_ttl live =
    pass_if
      (live.settings.jwt_access_token_ttl_minutes == (expected live.settings).session_ttl_minutes)

unfoldable pub check_audit_retention : Live → Option String
unfolding expected
check_audit_retention live =
    pass_if (live.settings.audit_retention_days == (expected live.settings).audit_retention_days)

unfoldable pub check_zero_cve : Live → Option String
check_zero_cve live = elim (get_latest_successful_scan live.inventory) [
  | none ↦ some "fail"
  | some scan ↦ pass_if (scan.vulnerability_count == 0)
]

unfoldable pub check_operator_responsibility_stub : Live → Option String
check_operator_responsibility_stub live = some "operator_responsibility"
