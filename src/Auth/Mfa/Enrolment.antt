-- ===== src/Auth/Mfa/Enrolment.antt =====
-- Enrolment, its backup codes, and its end.
use oss_us_web_design_system.Base.{
  ℕ, zero, suc, ◌+◌, ◌≡◌, refl, String, true, false, some, List, [], ◌∷◌, ◌++◌, ok, err, arith,
  length, any, ◌==◌, if◌then◌else◌, ap, str_eq, eq_iff, is_some,
}
use oss_us_web_design_system.Auth.User.{
  User, BackupCode, AuthDb, save_user, get_user_by_id, get_user_by_id-save_user,
}
use oss_us_web_design_system.Auth.Mfa.{
  Factors, consume_code, verify_login_code, use_backup_code, start_enrollment, confirm_enrollment,
  disable_mfa, mfa_not_enrolled, disabled, enrolled, regenerate_backup_codes, replace_codes,
  delete_codes, draw_codes, code_rows,
}
use oss_us_web_design_system.Auth.Mfa.Laws.{unused_codes, verify_login_code_not_totp}

unused_codes-append :
    (k : ℕ) (xs ys : List BackupCode)
    → unused_codes k (xs ++ ys) ≡ unused_codes k xs + unused_codes k ys
unfolding unused_codes
unused_codes-append k [] ys = omega arith
unused_codes-append k (x ∷ xs) ys = ground (arith, unused_codes-append k xs ys)

unused_codes-delete_codes :
    (k j : ℕ) (rows : List BackupCode)
    → unused_codes j (delete_codes k rows) ≡ (if j == k then 0 else unused_codes j rows)
unfolding unused_codes delete_codes
unused_codes-delete_codes k j [] = ground arith
unused_codes-delete_codes k j (r ∷ rows) = ground (arith, unused_codes-delete_codes k j rows)

length-draw_codes : (draw : ℕ → String) (i n : ℕ) → length (draw_codes draw i n) ≡ n
unfolding draw_codes
length-draw_codes draw i zero = refl
length-draw_codes draw i (suc n) = ap suc (length-draw_codes draw (i + 1) n)

module _ (f : Factors) where
  unused_codes-code_rows :
      (k j id : ℕ) (codes : List String)
      → unused_codes j (code_rows f k id codes) ≡ (if j == k then length codes else 0)
  unfolding unused_codes code_rows
  unused_codes-code_rows k j id [] = ground arith
  unused_codes-code_rows k j id (c ∷ codes) =
      ground (arith, unused_codes-code_rows k j (id + 1) codes)

  consume_code-append :
      (now k : ℕ) (code : String) (xs ys : List BackupCode)
      → is_some (consume_code f now k code ys) ≡ true
      → is_some (consume_code f now k code (xs ++ ys)) ≡ true
  unfolding consume_code
  consume_code-append now k code [] ys h = h
  consume_code-append now k code (x ∷ xs) ys h =
      ground (arith, consume_code-append now k code xs ys h)

  consume_code-code_rows :
      (now k id : ℕ) (code : String) (codes : List String)
      → any (str_eq code) codes ≡ true
      → is_some (consume_code f now k code (code_rows f k id codes)) ≡ true
  unfolding consume_code code_rows
  consume_code-code_rows now k id code [] h = cc
  consume_code-code_rows now k id code (c ∷ codes) h =
      ground
        (arith, eq_iff code c, f.verify-hash id c, consume_code-code_rows now k (id + 1) code codes)

  use_backup_code_ok :
      (now : ℕ) (user : User) (code : String) (db : AuthDb)
      → is_some (consume_code f now user.id code db.backup_codes) ≡ true
      → (use_backup_code f now user code db).0 ≡ ok true
  unfolding use_backup_code
  use_backup_code_ok now user code db h = ground arith

  confirm_enrollment_lem :
      (now count : ℕ) (draw : ℕ → String) (user : User) (code : String) {sealed raw_secret : String}
      (db : AuthDb)
      → user.mfa_secret ≡ some sealed
      → f.decrypt sealed ≡ some raw_secret
      → f.totp_verify now raw_secret code ≡ true
      → confirm_enrollment f now count draw user code db
        ≡ replace_codes f count draw (enrolled now user) (save_user (enrolled now user) db)
  unfolding confirm_enrollment replace_codes
  confirm_enrollment_lem now count draw user code db s d t = ground arith

  unused_codes-replace_codes :
      (count : ℕ) (draw : ℕ → String) (user : User) (j : ℕ) (db : AuthDb)
      → unused_codes j (replace_codes f count draw user db).1.backup_codes
        ≡ (if j == user.id then count else unused_codes j db.backup_codes)
  unfolding replace_codes
  unused_codes-replace_codes count draw user j db = ground (
    arith,
    unused_codes-append j (delete_codes user.id db.backup_codes)
        (code_rows f user.id db.next_code_id (draw_codes draw 0 count)),
    unused_codes-delete_codes user.id j db.backup_codes,
    unused_codes-code_rows user.id j db.next_code_id (draw_codes draw 0 count),
    length-draw_codes draw 0 count,
  )

  accepted :
      (now count : ℕ) (draw : ℕ → String) (user : User) (code : String) (db : AuthDb)
      → any (str_eq code) (draw_codes draw 0 count) ≡ true
      → is_some
          (consume_code f now user.id code (replace_codes f count draw user db).1.backup_codes)
        ≡ true
  unfolding replace_codes
  accepted now count draw user code db m =
      consume_code-append now user.id code (delete_codes user.id db.backup_codes)
        (code_rows f user.id db.next_code_id (draw_codes draw 0 count))
        (consume_code-code_rows now user.id db.next_code_id code (draw_codes draw 0 count) m)

  -- A confirmed enrolment returns as many backup codes as the setting asks for and leaves the user
  -- with exactly that number of unused ones, and every other user with as many as before. It does
  -- so although MFA may be enabled already: a second confirmation replaces the codes of the first.
  confirm_enrollment_codes :
      (now count : ℕ) (draw : ℕ → String) (user : User) (code : String) (sealed raw_secret : String)
      (db : AuthDb)
      → user.mfa_secret ≡ some sealed
      → f.decrypt sealed ≡ some raw_secret
      → f.totp_verify now raw_secret code ≡ true
      → let (r, db') = confirm_enrollment f now count draw user code db in
        (r ≡ ok (draw_codes draw 0 count))
        × (length (draw_codes draw 0 count) ≡ count)
        × ((j : ℕ)
            → unused_codes j db'.backup_codes
              ≡ (if j == user.id then count else unused_codes j db.backup_codes))
  unfolding replace_codes enrolled save_user
  confirm_enrollment_codes now count draw user code sealed raw_secret db s d t =
      rw (confirm_enrollment_lem now count draw user code db s d t) (
        refl,
        length-draw_codes draw 0 count,
        λ j.
            unused_codes-replace_codes count draw (enrolled now user) j
              (save_user (enrolled now user) db),
      )

  regenerate_backup_codes_lem :
      (count : ℕ) (draw : ℕ → String) (user : User) (db : AuthDb)
      → user.mfa_enabled ≡ true
      → regenerate_backup_codes f count draw user db ≡ replace_codes f count draw user db
  unfolding regenerate_backup_codes replace_codes
  regenerate_backup_codes_lem count draw user db on = ground arith

  -- Each backup code that a regeneration returns is then accepted at login, at any time, where it
  -- is no live TOTP code and the user's secret opens.
  regenerated_code_accepted :
      (now count : ℕ) (draw : ℕ → String) (user : User) (code : String) (sealed raw_secret : String)
      (db : AuthDb)
      → user.mfa_enabled ≡ true
      → user.mfa_secret ≡ some sealed
      → f.decrypt sealed ≡ some raw_secret
      → f.totp_verify now raw_secret code ≡ false
      → any (str_eq code) (draw_codes draw 0 count) ≡ true
      → (verify_login_code f now user code (regenerate_backup_codes f count draw user db).1).0
        ≡ ok true
  regenerated_code_accepted now count draw user code sealed raw_secret db on s d t m =
      rw
        (
          regenerate_backup_codes_lem count draw user db on,
          verify_login_code_not_totp f now code user (replace_codes f count draw user db).1 on s d
              t,
        )
        (use_backup_code_ok now user code (replace_codes f count draw user db).1
          (accepted now count draw user code db m))

  -- After MFA has been disabled no login code is accepted from the stored row, no backup code is
  -- left to the user, and every other user has as many as before.
  disable_mfa_ends :
      (now : ℕ) (user : User) (code : String) (db : AuthDb)
      → get_user_by_id user.id db.users ≡ some user
      → let db' = (disable_mfa user db).1 in
        (v : User) × (get_user_by_id user.id db'.users ≡ some v)
        × (verify_login_code f now v code db' ≡ (err mfa_not_enrolled, db'))
        × ((j : ℕ)
            → unused_codes j db'.backup_codes
              ≡ (if j == user.id then 0 else unused_codes j db.backup_codes))
  unfolding disable_mfa verify_login_code disabled
  disable_mfa_ends now user code db found = (
    disabled user,
    ground (arith, get_user_by_id-save_user user.id (disabled user) db),
    refl,
    λ j. unused_codes-delete_codes user.id j db.backup_codes,
  )

  start_enrollment_lem :
      (user : User) (raw_secret : String) {sealed : String} (db : AuthDb)
      → user.mfa_enabled ≡ false
      → f.encrypt raw_secret ≡ some sealed
      → start_enrollment f raw_secret user db ≡ (
        ok (raw_secret, f.provisioning_uri raw_secret user.email),
        save_user (record user { mfa_secret = some sealed }) db,
      )
  unfolding start_enrollment
  start_enrollment_lem user raw_secret db off e = ground arith

  -- An enrolment that is started leaves the stored row with MFA off. Confirmed with a code that is
  -- live for the secret it returned, it leaves a row with MFA enabled and the sealed secret.
  enrollment_enables :
      (now count : ℕ) (draw : ℕ → String) (user : User) (code raw_secret : String) {sealed : String}
      (db : AuthDb)
      → get_user_by_id user.id db.users ≡ some user
      → user.mfa_enabled ≡ false
      → f.encrypt raw_secret ≡ some sealed
      → f.totp_verify now raw_secret code ≡ true
      → (v w : User) × (get_user_by_id user.id (start_enrollment f raw_secret user db).1.users
          ≡ some v)
        × (v.mfa_enabled ≡ false)
        × (get_user_by_id user.id
              (confirm_enrollment f now count draw v code
                (start_enrollment f raw_secret user db).1).1.users
            ≡ some w)
        × (w.mfa_enabled ≡ true)
        × (w.mfa_secret ≡ some sealed)
  unfolding replace_codes enrolled
  enrollment_enables now count draw user code raw_secret {sealed} db found off e t =
      let v = record user { mfa_secret = some sealed } in
      let saved = get_user_by_id-save_user user.id v db in
      let stored : get_user_by_id user.id (save_user v db).users ≡ some v = ground arith in
      rw (start_enrollment_lem user raw_secret db off e) (
        v,
        enrolled now v,
        stored,
        off,
        rw
            (confirm_enrollment_lem now count draw v code (save_user v db) refl
              (f.decrypt-encrypt raw_secret e) t)
            (ground (arith, get_user_by_id-save_user user.id (enrolled now v) (save_user v db))),
        refl,
        refl,
      )
