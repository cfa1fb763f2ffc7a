-- ===== src/Auth/Lockout.antt =====
-- `authenticate` of app/auth/service.py: the password check with the account lockout. bcrypt is the
-- parameter `verify` (plain text, hash); the clock is the argument `now`.
pub mod Laws
use oss_us_web_design_system.Base.{
  ℕ, ◌+◌, ◌-◌, ◌*◌, ◌/◌, String, Bool, true, false, not, ◌||◌, Option, none, some, Action, raise,
  gets, or_raise, raise_if, modify, ◌>>=◌, ◌>>◌, pure, ltb, leb, ◌==◌, is_some, if◌then◌else◌,
}
use oss_us_web_design_system.Auth.User.{User, AuthDb, get_user_by_email, save_user}

pub data AuthError : Type 0 where
  email_already_registered : AuthError
  invalid_credentials : AuthError
  -- carries `retry_after_seconds`
  account_locked : ℕ → AuthError

abbrev pub lockout_threshold_attempts : ℕ
lockout_threshold_attempts = 3

-- The policy's minutes, in microseconds.
abbrev pub minutes : ℕ → ℕ
minutes n = n * 60_000_000

abbrev pub lockout_window : ℕ
lockout_window = minutes 15

abbrev pub lockout_duration : ℕ
lockout_duration = minutes 30

-- `user is None or not user.is_active` gives no user.
unfoldable pub active : Option User → Option User
active none = none
active (some u) = if u.is_active then some u else none

unfoldable pub is_locked : ℕ → User → Bool
is_locked now u = elim u.locked_until [ none ↦ false | some t ↦ ltb now t ]

-- `int((user.locked_until - now).total_seconds())`, read only while the lock is ahead.
unfoldable pub retry_after : ℕ → User → ℕ
retry_after now u = elim u.locked_until [ none ↦ 0 | some t ↦ (t - now) / 1_000_000 ]

-- `window_start` is cut off at the epoch, before which there is no failure to compare it with.
unfoldable pub is_outside_window : ℕ → User → Bool
is_outside_window now u =
    let window_start = now - lockout_window in
    elim u.last_failed_login_at [ none ↦ true | some t ↦ ltb t window_start ]

unfoldable pub record_failure : ℕ → User → User
unfolding is_outside_window
record_failure now u = record u {
  failed_login_attempts = if is_outside_window now u then 1 else u.failed_login_attempts + 1;
  last_failed_login_at = some now;
}

unfoldable pub failed_login : ℕ → User → Action AuthDb AuthError User
unfolding record_failure save_user
failed_login now u =
    let failed = record_failure now u in
    if leb lockout_threshold_attempts failed.failed_login_attempts
    then modify (save_user (record failed { locked_until = some (now + lockout_duration) }))
      >> raise (account_locked (30 * 60))
    else modify (save_user failed) >> raise invalid_credentials

unfoldable pub clear_failures : User → User
clear_failures u = record u {
  failed_login_attempts = 0;
  locked_until = none;
  last_failed_login_at = none;
}

unfoldable pub successful_login : User → Action AuthDb AuthError User
unfolding clear_failures save_user
successful_login u =
    if not (u.failed_login_attempts == 0) || is_some u.locked_until
    then modify (save_user (clear_failures u)) >> pure (clear_failures u)
    else pure u

unfoldable pub authenticate :
    (String → String → Bool) → ℕ → String → String → Action AuthDb AuthError User
unfolding active is_locked retry_after failed_login successful_login
authenticate verify now email password = do
  found ← gets (λ db. get_user_by_email email db.users)
  user ← or_raise (active found) invalid_credentials
  raise_if (is_locked now user) (account_locked (retry_after now user))
  if verify password user.password_hash then successful_login user else failed_login now user
