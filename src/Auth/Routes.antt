-- ===== src/Auth/Routes.antt =====
-- The request's session (`get_session` of app/db.py), the routes of app/auth/routes.py that issue
-- tokens, and the resolution of the current user (app/deps.py). bcrypt is `f.verify_secret`.
pub mod Rollback
pub mod Form
pub mod Current
pub mod Sessions
use oss_us_web_design_system.Base.{
  ℕ, ◌+◌, ◌≡◌, String, Text, codes, Bool, true, false, not, Option, none, some, List, [], ◌∷◌, ◌++◌,
  Result, ok, err, Action, pure, raise, gets, or_raise, raise_if, modify, map_error, ◌>>=◌, ◌>>◌,
  split, lower, text_eq, is_some, ◌==◌, if◌then◌else◌, ◌&&◌,
}
use oss_us_web_design_system.Auth.User.{User, AuthDb, get_user_by_email, get_user_by_id, save_user}
use oss_us_web_design_system.Auth.Lockout.{
  AuthError, email_already_registered, invalid_credentials, account_locked, authenticate, active,
}
use oss_us_web_design_system.Auth.Token.{
  Jwt, TokenSettings, issue_access_token, issue_challenge_token, decode_token,
  decode_challenge_token,
}
use oss_us_web_design_system.Auth.Mfa.{
  Factors, MfaError, mfa_not_enrolled, invalid_mfa_code, verify_login_code,
}

-- An HTTP status, and the seconds of its Retry-After header. `server_error` is an exception that
-- the route does not translate.
pub data HttpError : Type 0 where
  http_error : ℕ → Option ℕ → HttpError
  server_error : HttpError

-- `get_session`: the request's writes are committed if it returns and rolled back if it raises.
module _ {S E A : Type 0} where
  unfoldable pub transaction : Action S E A → Action S E A
  transaction m s = let (r, s') = m s in elim r [ ok a ↦ (ok a, s') | err e ↦ (err e, s) ]

abbrev pub unauthorized : HttpError
unauthorized = http_error 401 none

-- The `except` clauses of `login`.
unfoldable pub login_error : AuthError → HttpError
login_error (account_locked seconds) = http_error 401 (some seconds)
login_error invalid_credentials = unauthorized
login_error email_already_registered = server_error

-- The `except` clauses of `mfa_verify`.
unfoldable pub verify_error : MfaError → HttpError
verify_error mfa_not_enrolled = unauthorized
verify_error invalid_mfa_code = unauthorized
verify_error _ = server_error

-- `TokenResponse | MFAChallengeResponse`, by the token that it carries.
pub data LoginResponse : Type 0 where
  token_response challenge_response : Text → LoginResponse

pub record UserRegister : Type 0 where
  pub email : String
  pub password : String
  pub full_name : Option String

module _ (f : Factors) where
  -- The row that `register_user` inserts under the next number.
  unfoldable pub new_user : ℕ → UserRegister → User
  new_user id payload = record {
    id = id;
    email = payload.email;
    password_hash = f.hash_secret id payload.password;
    full_name = payload.full_name;
    is_active = true;
    is_superuser = false;
    failed_login_attempts = 0;
    last_failed_login_at = none;
    locked_until = none;
    mfa_enabled = false;
    mfa_secret = none;
    mfa_enrolled_at = none;
  }

  unfoldable pub register_user : UserRegister → Action AuthDb AuthError User
  unfolding new_user
  register_user payload = do
    existing ← gets (λ db. get_user_by_email payload.email db.users)
    raise_if (is_some existing) email_already_registered
    id ← gets (λ db. db.next_user_id)
    modify
        (λ db. record db { users = db.users ++ (new_user id payload ∷ []); next_user_id = id + 1 })
    pure (new_user id payload)

module _ (f : Factors) (jwt : Jwt) (s : TokenSettings) where
  unfoldable pub register : ℕ → UserRegister → Action AuthDb HttpError Text
  register now payload = transaction (
      map_error (λ _. http_error 409 none) (register_user f payload) >>= λ user.
      pure (issue_access_token jwt s now user))

  unfoldable pub login : ℕ → String → String → Action AuthDb HttpError LoginResponse
  unfolding login_error
  login now email password = transaction (
      map_error login_error (authenticate f.verify_secret now email password) >>= λ user.
      if user.mfa_enabled
      then pure (challenge_response (issue_challenge_token jwt s now user))
      else pure (token_response (issue_access_token jwt s now user)))

  unfoldable pub mfa_verify : ℕ → Text → String → Action AuthDb HttpError Text
  unfolding verify_error
  mfa_verify now challenge_token code = transaction do
    user_id ← or_raise (decode_challenge_token jwt s now challenge_token) unauthorized
    found ← gets (λ db. get_user_by_id user_id db.users)
    user ← or_raise (active found) unauthorized
    map_error verify_error (verify_login_code f now user code)
    pure (issue_access_token jwt s now user)

-- `_extract_bearer_token`, given the Authorization header.
unfoldable pub bearer_of : List Text → Option Text
bearer_of (scheme ∷ token ∷ []) =
    if text_eq (lower scheme) (codes "bearer") then some token else none
bearer_of [] = none
bearer_of (_ ∷ []) = none
bearer_of (_ ∷ _ ∷ _ ∷ _) = none

unfoldable pub extract_bearer_token : Option Text → Option Text
unfolding bearer_of
extract_bearer_token none = none
extract_bearer_token (some auth) = bearer_of (split auth)

-- Python's `a or b` and `not token` on an optional text: the empty text counts as none.
unfoldable pub truthy : Option Text → Option Text
truthy none = none
truthy (some []) = none
truthy (some (c ∷ t)) = some (c ∷ t)

unfoldable pub request_token : Option Text → Option Text → Option Text
unfolding extract_bearer_token truthy
request_token header cookie = elim (truthy (extract_bearer_token header)) [
  | none ↦ truthy cookie
  | some t ↦ some t
]

module _ (jwt : Jwt) (s : TokenSettings) where
  -- `get_current_user`: the Authorization header first, then the cookie.
  unfoldable pub get_current_user : ℕ → Option Text → Option Text → Action AuthDb HttpError User
  unfolding request_token
  get_current_user now header cookie = do
    token ← or_raise (request_token header cookie) unauthorized
    payload ← or_raise (decode_token jwt s now token) unauthorized
    found ← gets (λ db. get_user_by_id payload.sub db.users)
    or_raise (active found) unauthorized
