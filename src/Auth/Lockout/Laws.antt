-- ===== src/Auth/Lockout/Laws.antt =====
-- What the lockout of `authenticate` guarantees within one session.
use oss_us_web_design_system.Base.{
  not, ◌||◌, ◌∙◌, ℕ, ◌+◌, ◌-◌, ◌/◌, ◌≡◌, refl, ◌<◌, ◌≤◌, ◌≢◌, String, Bool, true, false, none, some,
  ok, err, arith, leb, if◌then◌else◌, List, [], ◌∷◌, str_eq, find?, find?-sound, update_where, ◌==◌,
  is_some, Bool-cases, inl, inr,
}
use oss_us_web_design_system.Auth.User.{
  User, AuthDb, get_user_by_email, save_user, get_user_by_id, get_user_by_id-save_user,
}
use oss_us_web_design_system.Auth.Lockout.{
  authenticate, account_locked, lockout_window, lockout_duration, is_locked, record_failure,
  invalid_credentials, clear_failures, lockout_threshold_attempts, active, failed_login,
  successful_login,
}

find-email-save :
    (email : String) (us : List User) (u v : User)
    → find? (λ x. str_eq x.email email) us ≡ some u
    → v.id ≡ u.id
    → v.email ≡ u.email
    → find? (λ x. str_eq x.email email) (update_where (λ x. x.id == v.id) (λ _. v) us) ≡ some v
find-email-save email [] u v h i e = ground arith
find-email-save email (x ∷ us) u v h i e =
    ground (arith, find-email-save email us u v, find?-sound (λ y. str_eq y.email email) (x ∷ us) h)

-- The row that was found by its email and saved is found again, as it was saved.
get_user_by_email-save_user :
    (email : String) (db : AuthDb) {u : User} (v : User)
    → get_user_by_email email db.users ≡ some u
    → v.id ≡ u.id
    → v.email ≡ u.email
    → get_user_by_email email (save_user v db).users ≡ some v
unfolding get_user_by_email save_user
get_user_by_email-save_user email db {u} v h i e = find-email-save email db.users u v h i e

module _ (verify : String → String → Bool) (now : ℕ) (email password : String) (db : AuthDb)
    {u : User} (found : get_user_by_email email db.users ≡ some u) (on : u.is_active ≡ true) where
  authenticate_wrong :
      is_locked now u ≡ false
      → verify password u.password_hash ≡ false
      → authenticate verify now email password db ≡ failed_login now u db
  unfolding authenticate is_locked failed_login record_failure save_user
  authenticate_wrong open_ wrong = ground arith

  pub authenticate_right :
      is_locked now u ≡ false
      → verify password u.password_hash ≡ true
      → authenticate verify now email password db ≡ successful_login u db
  unfolding authenticate is_locked successful_login clear_failures save_user
  authenticate_right open_ right = ground arith

successful_login_row :
    (email : String) (db : AuthDb) {u : User}
    → get_user_by_email email db.users ≡ some u
    → (v : User) × ((successful_login u db).0 ≡ ok v)
      × (get_user_by_email email (successful_login u db).1.users ≡ some v)
      × ((v.id ≡ u.id) × (v.failed_login_attempts ≡ 0) × (v.locked_until ≡ none))
unfolding successful_login clear_failures
successful_login_row email db {u} f =
    elim (Bool-cases (not (u.failed_login_attempts == 0) || is_some u.locked_until)) [
      | inl e ↦ rw e (
        clear_failures u,
        refl,
        get_user_by_email-save_user email db (clear_failures u) f refl refl,
        (refl, refl, refl),
      )
      | inr e ↦ rw e (u, refl, f, ground arith)
    ]

-- The user's row after a wrong password.
unfoldable pub after_failure : ℕ → User → User
unfolding is_locked record_failure
after_failure now u =
    let failed = record_failure now u in
    if is_locked now u
    then u
    else (if leb lockout_threshold_attempts failed.failed_login_attempts
        then record failed { locked_until = some (now + lockout_duration) }
        else failed)

-- What a wrong password leaves as it was.
after_failure_keeps :
    (now : ℕ) (u : User)
    → (((after_failure now u).id ≡ u.id) × ((after_failure now u).email ≡ u.email))
      × (((after_failure now u).is_active ≡ u.is_active)
          × ((after_failure now u).password_hash ≡ u.password_hash))
unfolding after_failure
after_failure_keeps now u = ground arith

after_failure_locks :
    (t₁ t₂ t₃ t : ℕ) (u : User)
    → is_locked t₁ u ≡ false
    → t₁ ≤ t₂
    → t₂ ≤ t₃
    → t₃ ≤ t₁ + lockout_window
    → t < t₁ + lockout_duration
    → is_locked t (after_failure t₃ (after_failure t₂ (after_failure t₁ u))) ≡ true
unfolding after_failure
after_failure_locks t₁ t₂ t₃ t u o h₁ h₂ h₃ h₄ = ground arith

failed_login_row :
    (now : ℕ) (u : User) (db : AuthDb)
    → is_locked now u ≡ false
    → (failed_login now u db).1 ≡ save_user (after_failure now u) db
unfolding failed_login after_failure
failed_login_row now u db o = ground arith

after_failure_locked : (now : ℕ) (u : User) → is_locked now u ≡ true → after_failure now u ≡ u
unfolding after_failure
after_failure_locked now u l = ground arith

module _ (verify : String → String → Bool) (email : String) where
  authenticate_while_locked :
      (now : ℕ) (password : String) (db : AuthDb) {u : User}
      → get_user_by_email email db.users ≡ some u
      → u.is_active ≡ true
      → is_locked now u ≡ true
      → (authenticate verify now email password db).1 ≡ db
  unfolding authenticate is_locked
  authenticate_while_locked now password db f on l = ground arith

  authenticate_wrong_row :
      (now : ℕ) (password : String) (db : AuthDb) {u : User}
      → get_user_by_email email db.users ≡ some u
      → u.is_active ≡ true
      → verify password u.password_hash ≡ false
      → get_user_by_email email (authenticate verify now email password db).1.users
        ≡ some (after_failure now u)
  authenticate_wrong_row now password db {u} f on wrong = elim (Bool-cases (is_locked now u)) [
    | inl e ↦ rw (authenticate_while_locked now password db f on e, after_failure_locked now u e) f
    | inr e ↦
        let keeps = after_failure_keeps now u in
        rw
          (
            authenticate_wrong verify now email password db f on e wrong,
            failed_login_row now u db e,
          )
          (get_user_by_email-save_user email db (after_failure now u) f keeps.0.0 keeps.0.1)
  ]

  -- Consecutive calls in one session; what they raise is caught.
  unfoldable pub try_logins : List (ℕ × String) → AuthDb → AuthDb
  try_logins [] db = db
  try_logins ((now, password) ∷ tries) db =
      try_logins tries (authenticate verify now email password db).1

  -- Three calls of `authenticate` with wrong passwords within fifteen minutes, whose writes are kept,
  -- the first of them on an active account that is not locked, leave it active and locked until thirty
  -- minutes after the first of them at least.
  pub three_failures_lock :
      (t₁ t₂ t₃ t : ℕ) (p₁ p₂ p₃ : String) (db : AuthDb) {u : User}
      → get_user_by_email email db.users ≡ some u
      → u.is_active ≡ true
      → is_locked t₁ u ≡ false
      → (verify p₁ u.password_hash ≡ false)
        × (verify p₂ u.password_hash ≡ false)
        × (verify p₃ u.password_hash ≡ false)
      → (t₁ ≤ t₂) × (t₂ ≤ t₃) × (t₃ ≤ t₁ + lockout_window)
      → t < t₁ + lockout_duration
      → (v : User) × (get_user_by_email email
            (try_logins ((t₁, p₁) ∷ (t₂, p₂) ∷ (t₃, p₃) ∷ []) db).users
          ≡ some v)
        × (v.is_active ≡ true)
        × (is_locked t v ≡ true)
  unfolding try_logins
  three_failures_lock t₁ t₂ t₃ t p₁ p₂ p₃ db {u} f on o wrong times soon =
      let u₁ = after_failure t₁ u in
      let u₂ = after_failure t₂ u₁ in
      let k₁ = after_failure_keeps t₁ u in
      let k₂ = after_failure_keeps t₂ u₁ in
      let k₃ = after_failure_keeps t₃ u₂ in
      let f₁ = authenticate_wrong_row t₁ p₁ db f on wrong.0 in
      let f₂ =
        authenticate_wrong_row t₂ p₂ (authenticate verify t₁ email p₁ db).1 f₁ (k₁.1.0 ∙ on)
          (rw k₁.1.1 wrong.1) in
      (
        after_failure t₃ u₂,
        authenticate_wrong_row t₃ p₃
            (authenticate verify t₂ email p₂ (authenticate verify t₁ email p₁ db).1).1 f₂
            (k₂.1.0 ∙ k₁.1.0 ∙ on) (rw (k₂.1.1, k₁.1.1) wrong.2),
        k₃.1.0 ∙ k₂.1.0 ∙ k₁.1.0 ∙ on,
        after_failure_locks t₁ t₂ t₃ t u o times.0 times.1 times.2 soon,
      )

  -- While an active account is locked, every password, the right one too, is refused with the seconds that
  -- are left, and nothing is written.
  pub locked_refuses :
      (now : ℕ) (password : String) (db : AuthDb) {u : User} {t : ℕ}
      → get_user_by_email email db.users ≡ some u
      → u.is_active ≡ true
      → u.locked_until ≡ some t
      → now < t
      → authenticate verify now email password db
        ≡ (err (account_locked ((t - now) / 1_000_000)), db)
  unfolding authenticate
  locked_refuses now password db f on l h = ground arith

  -- The right password on an active account that is not locked succeeds and clears its failures: the row
  -- returned, which is the row stored, has no failed attempt and no lock.
  right_password_resets :
      (now : ℕ) (password : String) (db : AuthDb) {u : User}
      → get_user_by_email email db.users ≡ some u
      → u.is_active ≡ true
      → is_locked now u ≡ false
      → verify password u.password_hash ≡ true
      → (v : User) × ((authenticate verify now email password db).0 ≡ ok v)
        × (get_user_by_email email (authenticate verify now email password db).1.users ≡ some v)
        × ((v.id ≡ u.id) × (v.failed_login_attempts ≡ 0) × (v.locked_until ≡ none))
  right_password_resets now password db {u} f on o right =
      rw (authenticate_right verify now email password db f on o right)
        (successful_login_row email db f)

  -- A user who is absent or inactive is refused as a wrong password is, and nothing is written.
  absent_or_inactive_refused :
      (now : ℕ) (password : String) (db : AuthDb)
      → active (get_user_by_email email db.users) ≡ none
      → authenticate verify now email password db ≡ (err invalid_credentials, db)
  unfolding authenticate
  absent_or_inactive_refused now password db h = ground arith

  -- A login attempt, whatever its outcome, changes no other user's row.
  authenticate_others :
      (now : ℕ) (password : String) (db : AuthDb) {u : User} (k : ℕ)
      → get_user_by_email email db.users ≡ some u
      → k ≢ u.id
      → get_user_by_id k (authenticate verify now email password db).1.users
        ≡ get_user_by_id k db.users
  unfolding authenticate failed_login successful_login record_failure clear_failures
  authenticate_others now password db {u} k f ne = grind (arith, get_user_by_id-save_user)
