-- ===== src/Auth/Mfa/Laws.antt =====
-- Enrolment and the single use of backup codes.
use oss_us_web_design_system.Base.{
  ℕ, ◌+◌, ◌≡◌, refl, String, true, false, not, ◌&&◌, some, List, [], ◌∷◌, ok, arith, ◌==◌,
  if◌then◌else◌, Option-cases, inl, inr,
}
use oss_us_web_design_system.Auth.User.{User, BackupCode, AuthDb}
use oss_us_web_design_system.Auth.Mfa.{Factors, consume_code, verify_login_code, use_backup_code}

-- How many backup codes a user has left.
unfoldable pub unused_codes : ℕ → List BackupCode → ℕ
unused_codes k [] = 0
unused_codes k (r ∷ rows) =
    if r.user_id == k && not r.used then unused_codes k rows + 1 else unused_codes k rows

module _ (f : Factors) (now : ℕ) (code : String) where
  unused_codes-consume_code :
      (k j : ℕ) (rows : List BackupCode) {rows' : List BackupCode}
      → consume_code f now k code rows ≡ some rows'
      → (if j == k then unused_codes j rows' + 1 else unused_codes j rows') ≡ unused_codes j rows
  unfolding consume_code unused_codes
  unused_codes-consume_code k j [] h = cc
  unused_codes-consume_code k j (r ∷ rows) {rows'} h =
      elim (Option-cases (consume_code f now k code rows)) [
        | inl e ↦ ground arith
        | inr (rest, e) ↦ ground (arith, unused_codes-consume_code k j rows e)
      ]

  pub verify_login_code_not_totp :
      (user : User) {sealed raw_secret : String} (db : AuthDb)
      → user.mfa_enabled ≡ true
      → user.mfa_secret ≡ some sealed
      → f.decrypt sealed ≡ some raw_secret
      → f.totp_verify now raw_secret code ≡ false
      → verify_login_code f now user code db ≡ use_backup_code f now user code db
  unfolding verify_login_code use_backup_code
  verify_login_code_not_totp user db on s d t = ground arith

  use_backup_code_found :
      (user : User) (db : AuthDb)
      → (use_backup_code f now user code db).0 ≡ ok true
      → (rows : List BackupCode) × (consume_code f now user.id code db.backup_codes ≡ some rows)
        × (use_backup_code f now user code db ≡ (ok true, record db { backup_codes = rows }))
  unfolding use_backup_code
  use_backup_code_found user db h = ground arith

  -- A login code that is no live TOTP code is accepted only by using up one backup code: the user
  -- has one unused code fewer, every other user as many as before, and no user's row changes.
  pub backup_code_used_once :
      (user : User) (sealed raw_secret : String) (db : AuthDb) (j : ℕ)
      → user.mfa_enabled ≡ true
      → user.mfa_secret ≡ some sealed
      → f.decrypt sealed ≡ some raw_secret
      → f.totp_verify now raw_secret code ≡ false
      → (verify_login_code f now user code db).0 ≡ ok true
      → let db' = (verify_login_code f now user code db).1 in
        (unused_codes j db'.backup_codes + (if j == user.id then 1 else 0)
          ≡ unused_codes j db.backup_codes)
        × (db'.users ≡ db.users)
  backup_code_used_once user sealed raw_secret db j on s d t =
      rw (verify_login_code_not_totp user db on s d t) (λ h.
        let (rows, e, same) = use_backup_code_found user db h in
        rw same (ground (arith, unused_codes-consume_code user.id j db.backup_codes e), refl))
