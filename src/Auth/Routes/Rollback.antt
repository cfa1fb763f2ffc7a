-- ===== src/Auth/Routes/Rollback.antt =====
-- The lockout meets the rollback of a failed request to POST /auth/login (app/auth/routes.py).
use oss_us_web_design_system.Base.{ℕ, ◌≡◌, refl, String, false, some, List, [], ◌∷◌, All, arith}
use oss_us_web_design_system.Auth.User.{User, AuthDb, get_user_by_email}
use oss_us_web_design_system.Auth.Lockout.{authenticate, failed_login}
use oss_us_web_design_system.Auth.Token.{Jwt, TokenSettings}
use oss_us_web_design_system.Auth.Mfa.{Factors}
use oss_us_web_design_system.Auth.Routes.{transaction, login}

module _ (f : Factors) (jwt : Jwt) (s : TokenSettings) (email : String) where
  -- One request after another to POST /auth/login; the responses are dropped.
  unfoldable pub login_requests : List (ℕ × String) → AuthDb → AuthDb
  login_requests [] db = db
  login_requests ((now, password) ∷ tries) db =
      login_requests tries (login f jwt s now email password db).1

  login_wrong :
      (now : ℕ) (password : String) (db : AuthDb) {u : User}
      → get_user_by_email email db.users ≡ some u
      → f.verify_secret password u.password_hash ≡ false
      → (login f jwt s now email password db).1 ≡ db
  unfolding login authenticate failed_login transaction
  login_wrong now password db {u} found wrong = ground arith

  -- However many requests with wrong passwords for a known account are sent to POST /auth/login, at
  -- whatever times, the tables stay as they were: each such request's failure count is rolled back, so
  -- that requests to this route alone never lock the account. The login form is another route.
  pub wrong_logins_leave_no_trace :
      (tries : List (ℕ × String)) (db : AuthDb) {u : User}
      → get_user_by_email email db.users ≡ some u
      → All (λ t. f.verify_secret t.1 u.password_hash ≡ false) tries
      → login_requests tries db ≡ db
  unfolding login_requests
  wrong_logins_leave_no_trace [] db found wrong = refl
  wrong_logins_leave_no_trace ((now, password) ∷ tries) db {u} found wrong =
      rw (login_wrong now password db found wrong.0)
        (wrong_logins_leave_no_trace tries db {u = u} found wrong.1)
