-- ===== src/Auth/Mfa.antt =====
-- Multi-factor enrolment and codes (app/auth/mfa.py), which work on the user's row and on the table
-- of backup codes. The sealing of secrets, TOTP and bcrypt are the parameter `Factors`.
pub mod Laws
pub mod Enrolment
use oss_us_web_design_system.Base.{
  ℕ, zero, suc, ◌+◌, ◌≡◌, String, Bool, true, false, not, ◌&&◌, ◌||◌, Option, none, some, List, [],
  ◌∷◌, ◌++◌, Action, raise, pure, or_raise, raise_if, modify, ◌>>=◌, ◌>>◌, filter, ◌==◌, is_some,
  if◌then◌else◌,
}
use oss_us_web_design_system.Auth.User.{User, BackupCode, AuthDb, save_user}

pub data MfaError : Type 0 where
  mfa_not_enrolled mfa_already_enrolled mfa_enrollment_not_started invalid_mfa_code : MfaError
  -- raised by the sealing of secrets: no usable key, and a stored secret that does not open
  encryption_error decryption_error : MfaError

-- `encrypt` and `decrypt` seal a TOTP secret (`none` where they raise), `totp_verify` is
-- `pyotp.TOTP(secret).verify(code, valid_window=1)` at a time, and `hash_secret` and
-- `verify_secret` are bcrypt, with the number that its salt is drawn by.
pub record Factors : Type 0 where
  pub encrypt : String → Option String
  pub decrypt : String → Option String
  pub totp_verify : ℕ → String → String → Bool
  pub provisioning_uri : String → String → String
  pub hash_secret : ℕ → String → String
  pub verify_secret : String → String → Bool
  pub decrypt-encrypt : (s : String) {t : String} → encrypt s ≡ some t → decrypt t ≡ some s
  pub verify-hash : (salt : ℕ) (s : String) → verify_secret s (hash_secret salt s) ≡ true

unfoldable pub delete_codes : ℕ → List BackupCode → List BackupCode
delete_codes user_id rows = filter (λ r. not (r.user_id == user_id)) rows

-- The codes that the loop of `_regenerate_backup_codes` draws, from the `i`-th on.
unfoldable pub draw_codes : (ℕ → String) → ℕ → ℕ → List String
draw_codes draw i zero = []
draw_codes draw i (suc n) = draw i ∷ draw_codes draw (i + 1) n

unfoldable pub enrolled : ℕ → User → User
enrolled now user = record user { mfa_enabled = true; mfa_enrolled_at = some now }

module _ (f : Factors) where
  -- The rows of these codes, the first of them with the number `id`.
  unfoldable pub code_rows : ℕ → ℕ → List String → List BackupCode
  code_rows user_id id [] = []
  code_rows user_id id (code ∷ codes) =
      record {
        id = id;
        user_id = user_id;
        code_hash = f.hash_secret id code;
        used = false;
        used_at = none;
      }
      ∷ code_rows user_id (id + 1) codes

  -- `_regenerate_backup_codes`; `count` is the setting `mfa_backup_codes_count`.
  unfoldable pub replace_codes : ℕ → (ℕ → String) → User → Action AuthDb MfaError (List String)
  unfolding delete_codes draw_codes code_rows
  replace_codes count draw user db =
      let codes = draw_codes draw 0 count in
      (pure codes (record db {
        backup_codes =
            delete_codes user.id db.backup_codes ++ code_rows user.id db.next_code_id codes;
        next_code_id = db.next_code_id + count;
      }))

  -- The route flushes the row after this call; the secret and the URI are shown to the user.
  unfoldable pub start_enrollment : String → User → Action AuthDb MfaError (String × String)
  unfolding save_user
  start_enrollment raw_secret user = do
    raise_if user.mfa_enabled mfa_already_enrolled
    sealed ← or_raise (f.encrypt raw_secret) encryption_error
    modify (save_user (record user { mfa_secret = some sealed }))
    pure (raw_secret, f.provisioning_uri raw_secret user.email)

  unfoldable pub confirm_enrollment :
      ℕ → ℕ → (ℕ → String) → User → String → Action AuthDb MfaError (List String)
  unfolding save_user enrolled replace_codes
  confirm_enrollment now count draw user code = do
    sealed ← or_raise user.mfa_secret mfa_enrollment_not_started
    raw_secret ← or_raise (f.decrypt sealed) decryption_error
    raise_if (not (f.totp_verify now raw_secret code)) invalid_mfa_code
    modify (save_user (enrolled now user))
    replace_codes count draw (enrolled now user)

  unfoldable pub regenerate_backup_codes :
      ℕ → (ℕ → String) → User → Action AuthDb MfaError (List String)
  unfolding replace_codes
  regenerate_backup_codes count draw user = do
    raise_if (not user.mfa_enabled) mfa_not_enrolled
    replace_codes count draw user

  -- `verify_login_code`'s loop over the user's unused rows: the first that the code opens is
  -- marked used. `none` if there is no such row.
  unfoldable pub consume_code : ℕ → ℕ → String → List BackupCode → Option (List BackupCode)
  consume_code now user_id code [] = none
  consume_code now user_id code (r ∷ rows) =
      let rest = consume_code now user_id code rows in
      if (r.user_id == user_id && not r.used) && f.verify_secret code r.code_hash
      then some (record r { used = true; used_at = some now } ∷ rows)
      else elim rest [ none ↦ none | some rows' ↦ some (r ∷ rows') ]

  unfoldable pub use_backup_code : ℕ → User → String → Action AuthDb MfaError Bool
  unfolding consume_code
  use_backup_code now user code db = elim (consume_code now user.id code db.backup_codes) [
    | none ↦ raise invalid_mfa_code db
    | some rows ↦ pure true (record db { backup_codes = rows })
  ]

  unfoldable pub verify_login_code : ℕ → User → String → Action AuthDb MfaError Bool
  unfolding use_backup_code
  verify_login_code now user code = do
    raise_if (not user.mfa_enabled || not (is_some user.mfa_secret)) mfa_not_enrolled
    sealed ← or_raise user.mfa_secret mfa_not_enrolled
    raw_secret ← or_raise (f.decrypt sealed) decryption_error
    if f.totp_verify now raw_secret code then pure true else use_backup_code now user code

unfoldable pub disabled : User → User
disabled user = record user { mfa_enabled = false; mfa_secret = none; mfa_enrolled_at = none }

unfoldable pub disable_mfa : User → Action AuthDb MfaError (Unit {0})
unfolding disabled delete_codes save_user
disable_mfa user =
    modify (save_user (disabled user))
    >> modify (λ db. record db { backup_codes = delete_codes user.id db.backup_codes })
