-- ===== src/Auth/Routes/Sessions.antt =====
-- What the tokens of a login are worth.
use oss_us_web_design_system.Base.{
  ℕ, ◌+◌, ◌*◌, ◌<◌, ◌≤◌, ◌≡◌, ◌≢◌, String, Text, Bool, true, false, some, none, [], ok, arith, inl,
  inr, Option-cases, Result-cases,
}
use oss_us_web_design_system.Auth.User.{User, AuthDb, get_user_by_email, get_user_by_id}
use oss_us_web_design_system.Auth.Lockout.{
  authenticate, failed_login, is_locked, active, successful_login, minutes, clear_failures,
}
use oss_us_web_design_system.Auth.Lockout.Laws.{authenticate_right}
use oss_us_web_design_system.Auth.Token.{
  Jwt, TokenSettings, issue_access_token, issue_challenge_token, timestamp, decode_challenge_token,
}
use oss_us_web_design_system.Auth.Token.Laws.{
  decode_token-issue_access_token, decode_token-issue_challenge_token,
}
use oss_us_web_design_system.Auth.Mfa.{Factors, verify_login_code}
use oss_us_web_design_system.Auth.Routes.{
  transaction, login, token_response, challenge_response, get_current_user, mfa_verify,
}
use oss_us_web_design_system.Auth.Routes.Current.{current_of_cookie}

module _ (f : Factors) (jwt : Jwt) (s : TokenSettings) where
  issue_access_token_nonempty : (now : ℕ) (u : User) → issue_access_token jwt s now u ≢ []
  unfolding issue_access_token
  issue_access_token_nonempty now u = jwt.encode_nonempty _ s.jwt_secret

  issue_challenge_token_nonempty : (now : ℕ) (u : User) → issue_challenge_token jwt s now u ≢ []
  unfolding issue_challenge_token
  issue_challenge_token_nonempty now u = jwt.encode_nonempty _ s.jwt_secret

  -- The login route never answers with an access token for a user who has MFA enabled, whatever the
  -- password.
  login_mfa_no_token :
      (now : ℕ) (email password : String) (db : AuthDb) {u : User} (t : Text)
      → get_user_by_email email db.users ≡ some u
      → u.mfa_enabled ≡ true
      → (login f jwt s now email password db).0 ≢ ok (token_response t)
  unfolding login authenticate failed_login successful_login transaction clear_failures
  login_mfa_no_token now email password db t found mfa h = ground arith

  login_challenge :
      (now : ℕ) (email password : String) (db : AuthDb) {u : User}
      → get_user_by_email email db.users ≡ some u
      → u.is_active ≡ true
      → is_locked now u ≡ false
      → f.verify_secret password u.password_hash ≡ true
      → u.mfa_enabled ≡ true
      → (login f jwt s now email password db).0
        ≡ ok (challenge_response (issue_challenge_token jwt s now (clear_failures u)))
  unfolding login transaction successful_login clear_failures issue_challenge_token
  login_challenge now email password db {u} found on o right mfa =
      ground (arith, authenticate_right f.verify_secret now email password db found on o right)

  login_token :
      (now : ℕ) (email password : String) (db : AuthDb) {u : User}
      → get_user_by_email email db.users ≡ some u
      → u.is_active ≡ true
      → is_locked now u ≡ false
      → f.verify_secret password u.password_hash ≡ true
      → u.mfa_enabled ≡ false
      → (login f jwt s now email password db).0
        ≡ ok (token_response (issue_access_token jwt s now (clear_failures u)))
  unfolding login transaction successful_login clear_failures issue_access_token
  login_token now email password db {u} found on o right mfa =
      ground (arith, authenticate_right f.verify_secret now email password db found on o right)

  -- The access token of a login, with the right password to an active account without lock or MFA,
  -- makes its user the current user, from then until it expires, as
  -- long as the row of that id is active.
  pub login_then_current :
      (now later : ℕ) (email password : String) (db db' : AuthDb) {u v : User}
      → get_user_by_email email db.users ≡ some u
      → u.is_active ≡ true
      → is_locked now u ≡ false
      → f.verify_secret password u.password_hash ≡ true
      → u.mfa_enabled ≡ false
      → now ≤ later
      → later < timestamp (now + minutes s.jwt_access_token_ttl_minutes) * 1_000_000
      → get_user_by_id u.id db'.users ≡ some v
      → v.is_active ≡ true
      → (t : Text) × ((login f jwt s now email password db).0 ≡ ok (token_response t))
        × (get_current_user jwt s later none (some t) db' ≡ (ok v, db'))
  login_then_current now later email password db db' {u} {v} found on o right mfa h k row act = (
    issue_access_token jwt s now (clear_failures u),
    login_token now email password db found on o right mfa,
    current_of_cookie jwt s later (issue_access_token jwt s now (clear_failures u)) _ db'
        (issue_access_token_nonempty now (clear_failures u))
        (decode_token-issue_access_token jwt s now later (clear_failures u) h k)
        (unfold clear_failures in row) act,
  )

  -- With the right password alone, the challenge token of an MFA user whose account is active and not
  -- locked is accepted as an access token: until it expires, it makes its user the current user, as
  -- long as the row of that id is active, and no code was asked for.
  pub challenge_then_current :
      (now later : ℕ) (email password : String) (db db' : AuthDb) {u v : User}
      → get_user_by_email email db.users ≡ some u
      → u.is_active ≡ true
      → is_locked now u ≡ false
      → f.verify_secret password u.password_hash ≡ true
      → u.mfa_enabled ≡ true
      → now ≤ later
      → later < timestamp (now + minutes s.mfa_challenge_token_ttl_minutes) * 1_000_000
      → get_user_by_id u.id db'.users ≡ some v
      → v.is_active ≡ true
      → (t : Text) × ((login f jwt s now email password db).0 ≡ ok (challenge_response t))
        × (get_current_user jwt s later none (some t) db' ≡ (ok v, db'))
  challenge_then_current now later email password db db' {u} {v} found on o right mfa h k row act =
      (
        issue_challenge_token jwt s now (clear_failures u),
        login_challenge now email password db found on o right mfa,
        current_of_cookie jwt s later (issue_challenge_token jwt s now (clear_failures u)) _ db'
            (issue_challenge_token_nonempty now (clear_failures u))
            (decode_token-issue_challenge_token jwt s now later (clear_failures u) h k)
            (unfold clear_failures in row) act,
      )

  -- The verification route answers with an access token only where the challenge token names an
  -- active user whose code `verify_login_code` accepts, and the token is that user's.
  pub mfa_verify_needs_code :
      (now : ℕ) (challenge : Text) (code : String) (db : AuthDb) {t : Text}
      → (mfa_verify f jwt s now challenge code db).0 ≡ ok t
      → (k : ℕ) × (u : User) × (decode_challenge_token jwt s now challenge ≡ some k)
        × (get_user_by_id k db.users ≡ some u)
        × (u.is_active ≡ true)
        × ((b : Bool) × ((verify_login_code f now u code db).0 ≡ ok b))
        × (t ≡ issue_access_token jwt s now u)
  unfolding mfa_verify transaction active
  mfa_verify_needs_code now challenge code db h =
      elim (Option-cases (decode_challenge_token jwt s now challenge)) [
        | inl e ↦ absurd (ground arith)
        | inr (k, e) ↦ elim (Option-cases (get_user_by_id k db.users)) [
          | inl g ↦ absurd (ground arith)
          | inr (u, g) ↦ elim (Result-cases (verify_login_code f now u code db).0) [
            | inl (b, v) ↦ (k, u, e, g, ground arith, (b, v), ground arith)
            | inr (x, v) ↦ absurd (ground arith)
          ]
        ]
      ]
