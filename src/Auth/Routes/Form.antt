-- ===== src/Auth/Routes/Form.antt =====
-- The browser's login form (`login_submit` of app/frontend.py, POST /login), which answers a refused
-- login with a page instead of raising, so that the session is committed. A page is what tells it from
-- the others: the minutes of its message, the challenge or the token of the cookie.
use oss_us_web_design_system.Base.{
  ℕ, ◌+◌, ◌-◌, ◌/◌, ◌≤◌, ◌<◌, ◌≡◌, refl, ap, Result, String, Text, true, false, Option, none, some,
  List, [], ◌∷◌, ok, err, Action, pure, raise, if◌then◌else◌, ltb, arith, Option-cases, inl, inr,
}
use oss_us_web_design_system.Auth.User.{User, AuthDb, get_user_by_email}
use oss_us_web_design_system.Auth.Lockout.{
  authenticate, failed_login, is_locked, lockout_window, lockout_duration, account_locked,
  invalid_credentials, email_already_registered, AuthError,
}
use oss_us_web_design_system.Auth.Lockout.Laws.{try_logins, three_failures_lock, locked_refuses}
use oss_us_web_design_system.Auth.Token.{
  Jwt, TokenSettings, issue_access_token, issue_challenge_token,
}
use oss_us_web_design_system.Auth.Mfa.{Factors}
use oss_us_web_design_system.Auth.Routes.{HttpError, server_error, transaction}

pub data Page : Type 0 where
  login_page : Option ℕ → Page
  mfa_page signed_in : Text → Page

-- `max(1, exc.retry_after_seconds // 60)`.
unfoldable pub retry_minutes : ℕ → ℕ
retry_minutes seconds = let minutes = seconds / 60 in if ltb minutes 1 then 1 else minutes

module _ (f : Factors) (jwt : Jwt) (s : TokenSettings) where
  -- The `except` clauses and the part after them.
  unfoldable pub answer_form : ℕ → Result AuthError User → Action AuthDb HttpError Page
  unfolding retry_minutes
  answer_form now (err (account_locked seconds)) = pure (login_page (some (retry_minutes seconds)))
  answer_form now (err invalid_credentials) = pure (login_page none)
  answer_form now (err email_already_registered) = raise server_error
  answer_form now (ok user) =
      if user.mfa_enabled
      then pure (mfa_page (issue_challenge_token jwt s now user))
      else pure (signed_in (issue_access_token jwt s now user))

  unfoldable pub login_submit : ℕ → String → String → Action AuthDb HttpError Page
  unfolding answer_form
  login_submit now email password = transaction (λ db.
      let (r, db') = authenticate f.verify_secret now email password db in answer_form now r db')

  -- One request after another to the form; the pages are dropped.
  unfoldable pub form_requests : String → List (ℕ × String) → AuthDb → AuthDb
  form_requests email [] db = db
  form_requests email ((now, password) ∷ tries) db =
      form_requests email tries (login_submit now email password db).1

  login_submit-authenticate :
      (now : ℕ) (email password : String) (db : AuthDb)
      → (login_submit now email password db).1
        ≡ (authenticate f.verify_secret now email password db).1
  unfolding login_submit authenticate failed_login transaction answer_form
  login_submit-authenticate now email password db = ground arith

  form_requests-try_logins :
      (email : String) (tries : List (ℕ × String)) (db : AuthDb)
      → form_requests email tries db ≡ try_logins f.verify_secret email tries db
  unfolding form_requests try_logins
  form_requests-try_logins email [] db = refl
  form_requests-try_logins email ((now, password) ∷ tries) db =
      rw (login_submit-authenticate now email password db) (
        form_requests-try_logins email tries (authenticate f.verify_secret now email password db).1)

  login_submit_locked :
      (now : ℕ) (email password : String) (db : AuthDb) (v : User)
      → get_user_by_email email db.users ≡ some v
      → v.is_active ≡ true
      → is_locked now v ≡ true
      → (minutes : ℕ) × (login_submit now email password db ≡ (ok (login_page (some minutes)), db))
  unfolding login_submit transaction is_locked answer_form
  login_submit_locked now email password db v found on locked = elim (Option-cases v.locked_until) [
    | inl e ↦ absurd (ground (arith, e))
    | inr (t, e) ↦
        let q =
          locked_refuses f.verify_secret email now password db found on e (ground (arith, e)) in
        (
          retry_minutes ((t - now) / 1_000_000),
          ap (λ x. transaction (λ _. answer_form now x.0 x.1) db) q,
        )
  ]

  -- Three requests to POST /login with wrong passwords within fifteen minutes, the first of them on an
  -- active account that is not locked, lock the account: until thirty minutes after the first of them
  -- a further request with any password, the right one too, gets the login page with a number of
  -- minutes, and changes nothing.
  pub three_wrong_forms_lock :
      (t₁ t₂ t₃ t : ℕ) (email p₁ p₂ p₃ p : String) (db : AuthDb) {u : User}
      → get_user_by_email email db.users ≡ some u
      → u.is_active ≡ true
      → is_locked t₁ u ≡ false
      → (f.verify_secret p₁ u.password_hash ≡ false)
        × (f.verify_secret p₂ u.password_hash ≡ false)
        × (f.verify_secret p₃ u.password_hash ≡ false)
      → (t₁ ≤ t₂) × (t₂ ≤ t₃) × (t₃ ≤ t₁ + lockout_window)
      → t < t₁ + lockout_duration
      → let db' = form_requests email ((t₁, p₁) ∷ (t₂, p₂) ∷ (t₃, p₃) ∷ []) db in
        (minutes : ℕ) × (login_submit t email p db' ≡ (ok (login_page (some minutes)), db'))
  three_wrong_forms_lock t₁ t₂ t₃ t email p₁ p₂ p₃ p db {u} found on open_ wrong times soon =
      let tries : List (ℕ × String) = (t₁, p₁) ∷ (t₂, p₂) ∷ (t₃, p₃) ∷ [] in
      let (v, row, on', locked) =
        three_failures_lock f.verify_secret email t₁ t₂ t₃ t p₁ p₂ p₃ db {u = u} found on open_
          wrong times soon in
      rw (form_requests-try_logins email tries db)
        (login_submit_locked t email p (try_logins f.verify_secret email tries db) v row on' locked)
