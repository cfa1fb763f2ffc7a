-- ===== src/Examples.antt =====
-- Concrete rows, tokens and factors, on which the children apply the theorems.
mod Signing
mod Auth
mod Sessions
mod Directory
mod Assistant
mod Approvals
mod Keys
mod Documents
mod Answers
mod Services
mod Greetings
mod Audits
use oss_us_web_design_system.Base.{
  ℕ, ◌≡◌, sym, Bool, true, false, Option, none, some, String, List, [], ◌∷◌, str_eq, eq_iff,
}
use oss_us_web_design_system.Auth.User.{User, BackupCode, AuthDb}
use oss_us_web_design_system.Auth.Token.{TokenSettings}
use oss_us_web_design_system.Auth.Mfa.{Factors}

abbrev pub settings : TokenSettings
settings = record {
  jwt_secret = "secret";
  jwt_access_token_ttl_minutes = 30;
  mfa_challenge_token_ttl_minutes = 5;
}

-- A password is its own hash, a secret its own sealing, and one TOTP code is always live.
abbrev pub plain_factors : Factors
plain_factors = record {
  encrypt = some;
  decrypt = some;
  totp_verify = λ _ _ code. str_eq code "000000";
  provisioning_uri = λ secret _. secret;
  hash_secret = λ _ s. s;
  verify_secret = str_eq;
  decrypt-encrypt = λ s e. sym e;
  verify-hash = λ _ s. (eq_iff s s).1 (λ _. s);
}

abbrev pub alice : User
alice = record {
  id = 1;
  email = "a@x.org";
  password_hash = "pw";
  full_name = none;
  is_active = true;
  is_superuser = false;
  failed_login_attempts = 0;
  last_failed_login_at = none;
  locked_until = none;
  mfa_enabled = false;
  mfa_secret = none;
  mfa_enrolled_at = none;
}

abbrev pub alice_with_mfa : User
alice_with_mfa = record alice { mfa_enabled = true; mfa_secret = some "seed" }

abbrev pub alice_locked : User
alice_locked = record alice { failed_login_attempts = 3; locked_until = some 5_000_000 }

abbrev pub bob : User
bob = record alice { id = 2; email = "b@x.org" }

abbrev pub bobs_code : BackupCode
bobs_code = record { id = 7; user_id = 2; code_hash = "bb"; used = false; used_at = none }

abbrev pub alices_code : BackupCode
alices_code = record { id = 8; user_id = 1; code_hash = "aa"; used = false; used_at = none }

abbrev pub db_of : User → AuthDb
db_of u = record {
  users = u ∷ bob ∷ [];
  backup_codes = bobs_code ∷ alices_code ∷ [];
  next_user_id = 3;
  next_code_id = 9;
}
