-- ===== src/Auth/User.antt =====
-- The rows of users and of backup codes (app/auth/models.py) and the lookups of a user
-- (app/auth/service.py). A time is a number of microseconds since the epoch; the creation and
-- update stamps of a row are left out, since no code reads them.
use oss_us_web_design_system.Base.{
  ℕ, ◌≡◌, String, Bool, Option, none, some, List, [], ◌∷◌, find?, update_where, str_eq, ◌==◌,
  if◌then◌else◌, arith,
}

pub record User : Type 0 where
  pub id : ℕ
  pub email : String
  pub password_hash : String
  pub full_name : Option String
  pub is_active : Bool
  pub is_superuser : Bool
  pub failed_login_attempts : ℕ
  pub last_failed_login_at : Option ℕ
  pub locked_until : Option ℕ
  pub mfa_enabled : Bool
  pub mfa_secret : Option String
  pub mfa_enrolled_at : Option ℕ

pub record BackupCode : Type 0 where
  pub id : ℕ
  pub user_id : ℕ
  pub code_hash : String
  pub used : Bool
  pub used_at : Option ℕ

-- The two tables, and the counters from which the database numbers new rows.
pub record AuthDb : Type 0 where
  pub users : List User
  pub backup_codes : List BackupCode
  pub next_user_id : ℕ
  pub next_code_id : ℕ

unfoldable pub get_user_by_email : String → List User → Option User
get_user_by_email email us = find? (λ u. str_eq u.email email) us

unfoldable pub get_user_by_id : ℕ → List User → Option User
get_user_by_id user_id us = find? (λ u. u.id == user_id) us

-- `session.flush` after a change of the attributes of one row.
unfoldable pub save_user : User → AuthDb → AuthDb
save_user user db = record db { users = update_where (λ u. u.id == user.id) (λ _. user) db.users }

-- A lookup by id after a save finds the saved row under its own id, and what it found before
-- under any other.
find-save :
    (k : ℕ) (user : User) (us : List User)
    → find? (λ u. u.id == k) (update_where (λ u. u.id == user.id) (λ _. user) us) ≡ (
        if k == user.id
        then elim (find? (λ u. u.id == k) us) [ none ↦ none | some _ ↦ some user ]
        else find? (λ u. u.id == k) us)
find-save k user [] = ground arith
find-save k user (u ∷ us) = ground (arith, find-save k user us)

pub get_user_by_id-save_user :
    (k : ℕ) (user : User) (db : AuthDb)
    → get_user_by_id k (save_user user db).users ≡ (
        if k == user.id
        then elim (get_user_by_id k db.users) [ none ↦ none | some _ ↦ some user ]
        else get_user_by_id k db.users)
unfolding get_user_by_id save_user
get_user_by_id-save_user k user db = find-save k user db.users
