-- ===== src/Examples/Sessions.antt =====
-- Requests to the login routes, one after another, on concrete rows.
use oss_us_web_design_system.Base.{
  ℕ, ◌≡◌, refl, ap, Bool, true, none, some, String, [], ◌∷◌, ok, arith, Text,
}
use oss_us_web_design_system.Auth.User.{User, get_user_by_email, get_user_by_id}
use oss_us_web_design_system.Auth.Lockout.{is_locked, active}
use oss_us_web_design_system.Auth.Token.{
  access_claims, issue_access_token, issue_challenge_token, decode_token, decode_challenge_token,
}
use oss_us_web_design_system.Auth.Token.Laws.{
  decode_token-issue_access_token, decode_challenge_token-issue_challenge_token,
}
use oss_us_web_design_system.Auth.Mfa.{verify_login_code}
use oss_us_web_design_system.Auth.Routes.{
  login, token_response, challenge_response, mfa_verify, transaction, get_current_user,
}
use oss_us_web_design_system.Auth.Routes.Rollback.{login_requests, wrong_logins_leave_no_trace}
use oss_us_web_design_system.Auth.Routes.Form.{
  login_page, form_requests, login_submit, three_wrong_forms_lock,
}
use oss_us_web_design_system.Auth.Routes.Current.{current_of_cookie}
use oss_us_web_design_system.Auth.Routes.Sessions.{
  login_then_current, challenge_then_current, mfa_verify_needs_code,
}
use oss_us_web_design_system.Examples.{settings, plain_factors, alice, alice_with_mfa, db_of}
use oss_us_web_design_system.Examples.Signing.{plain_jwt}

abbrev mail : String
mail = "a@x.org"

three_wrong_forms_lock_example :
    let db' =
      form_requests plain_factors plain_jwt settings mail
        ((10, "x") ∷ (20, "y") ∷ (30, "z") ∷ [])
        (db_of alice) in
    (minutes : ℕ) × (login_submit plain_factors plain_jwt settings 40 mail "pw" db'
      ≡ (ok (login_page (some minutes)), db'))
unfolding get_user_by_email is_locked
three_wrong_forms_lock_example =
    three_wrong_forms_lock plain_factors plain_jwt settings 10 20 30 40 mail "x" "y" "z" "pw"
      (db_of alice) {u = alice} refl refl refl (refl, refl, refl)
      (omega arith, omega arith, omega arith) (omega arith)

wrong_logins_leave_no_trace_example :
    login_requests plain_factors plain_jwt settings mail
      ((10, "x") ∷ (20, "y") ∷ (30, "z") ∷ (40, "u") ∷ [])
      (db_of alice)
    ≡ db_of alice
unfolding get_user_by_email
wrong_logins_leave_no_trace_example =
    wrong_logins_leave_no_trace plain_factors plain_jwt settings mail
      ((10, "x") ∷ (20, "y") ∷ (30, "z") ∷ (40, "u") ∷ []) (db_of alice) {u = alice} refl
      (refl, (refl, (refl, (refl, tt))))

login_then_current_example :
    (t : Text) × ((login plain_factors plain_jwt settings 8_500_000 mail "pw" (db_of alice)).0
      ≡ ok (token_response t))
    × (get_current_user plain_jwt settings 9_000_000 none (some t) (db_of alice)
        ≡ (ok alice, db_of alice))
unfolding get_user_by_email get_user_by_id is_locked
login_then_current_example =
    login_then_current plain_factors plain_jwt settings 8_500_000 9_000_000 mail "pw" (db_of alice)
      (db_of alice) {u = alice} {v = alice} refl refl refl refl refl (omega arith) (omega arith)
      refl refl

challenge_then_current_example :
    (t : Text) × ((login plain_factors plain_jwt settings 8_500_000 mail "pw"
        (db_of alice_with_mfa)).0
      ≡ ok (challenge_response t))
    × (get_current_user plain_jwt settings 9_000_000 none (some t) (db_of alice_with_mfa)
        ≡ (ok alice_with_mfa, db_of alice_with_mfa))
unfolding get_user_by_email get_user_by_id is_locked
challenge_then_current_example =
    challenge_then_current plain_factors plain_jwt settings 8_500_000 9_000_000 mail "pw"
      (db_of alice_with_mfa) (db_of alice_with_mfa) {u = alice_with_mfa} {v = alice_with_mfa} refl
      refl refl refl refl (omega arith) (omega arith) refl refl

abbrev challenge : Text
challenge = issue_challenge_token plain_jwt settings 8_500_000 alice_with_mfa

decoded : decode_challenge_token plain_jwt settings 9_000_000 challenge ≡ some 1
decoded =
    decode_challenge_token-issue_challenge_token plain_jwt settings 8_500_000 9_000_000
      alice_with_mfa (omega arith) (omega arith)

verified :
    (mfa_verify plain_factors plain_jwt settings 9_000_000 challenge "000000"
      (db_of alice_with_mfa)).0
    ≡ ok (issue_access_token plain_jwt settings 9_000_000 alice_with_mfa)
unfolding mfa_verify get_user_by_id active verify_login_code transaction
verified = rw decoded refl

mfa_verify_needs_code_example :
    (k : ℕ) × (u : User) × (decode_challenge_token plain_jwt settings 9_000_000 challenge ≡ some k)
    × (get_user_by_id k (db_of alice_with_mfa).users ≡ some u)
    × (u.is_active ≡ true)
    × ((b : Bool) × ((verify_login_code plain_factors 9_000_000 u "000000" (db_of alice_with_mfa)).0
          ≡ ok b))
    × (issue_access_token plain_jwt settings 9_000_000 alice_with_mfa
        ≡ issue_access_token plain_jwt settings 9_000_000 u)
mfa_verify_needs_code_example =
    mfa_verify_needs_code plain_factors plain_jwt settings 9_000_000 challenge "000000"
      (db_of alice_with_mfa) {t = issue_access_token plain_jwt settings 9_000_000 alice_with_mfa}
      verified

abbrev access : Text
access = issue_access_token plain_jwt settings 8_500_000 alice

decoded_access :
    decode_token plain_jwt settings 9_000_000 access
    ≡ some (record { sub = 1; exp = 1808; iat = 8; email = mail })
decoded_access =
    decode_token-issue_access_token plain_jwt settings 8_500_000 9_000_000 alice (omega arith)
      (omega arith)

resolved :
    (get_current_user plain_jwt settings 9_000_000 none (some access) (db_of alice)).0 ≡ ok alice
unfolding get_user_by_id issue_access_token
resolved =
    ap (λ r. r.0)
      (current_of_cookie plain_jwt settings 9_000_000 access
        (record { sub = 1; exp = 1808; iat = 8; email = mail }) (db_of alice) {u = alice}
        (plain_jwt.encode_nonempty (access_claims plain_jwt settings 8_500_000 alice) "secret")
        decoded_access refl refl)
