-- ===== src/Examples/Auth.antt =====
-- The tokens and the second factor on concrete rows.
use oss_us_web_design_system.Base.{ℕ, ◌+◌, ◌≡◌, refl, String, if◌then◌else◌, ◌==◌}
use oss_us_web_design_system.Auth.Mfa.{verify_login_code}
use oss_us_web_design_system.Auth.Mfa.Laws.{unused_codes, backup_code_used_once}
use oss_us_web_design_system.Examples.{plain_factors, alice_with_mfa, db_of}

abbrev mail : String
mail = "a@x.org"

backup_code_used_once_example :
    let db' = (verify_login_code plain_factors 5 alice_with_mfa "aa" (db_of alice_with_mfa)).1 in
    (unused_codes 1 db'.backup_codes + 1 ≡ 1) × (db'.users ≡ (db_of alice_with_mfa).users)
unfolding unused_codes verify_login_code
backup_code_used_once_example =
    backup_code_used_once plain_factors 5 "aa" alice_with_mfa "seed" "seed" (db_of alice_with_mfa) 1
      refl refl refl refl refl

abbrev draw : ℕ → String
draw i = if i == 0 then "c0" else "c1"
