-- ===== src/Admin/Laws.antt =====
-- Whom an administrator can see and change, and what a created user may do.
use oss_us_web_design_system.Base.{
  ℕ, ◌≡◌, refl, Bool, true, false, ◌&&◌, Option, some, String, [], ◌∷◌, ◌++◌, any, any-append,
  or_true, find?, ◌==◌, ==_refl, str_eq, arith, Option-cases, inl, inr, ok, err,
}
use oss_us_web_design_system.Auth.User.{User, get_user_by_id, get_user_by_email}
use oss_us_web_design_system.Admin.{
  AdminDb, user_not_found, is_member, may_change, set_user_active, create_user, new_user, add_user,
  add_membership, give_role,
}

-- An administrator of an organization who tries to change a user of another is told what one is
-- told about a user who does not exist, and nothing changes.
set_user_active-hidden :
    (user_id org_id : ℕ) (active : Bool) (db : AdminDb)
    → is_member db.directory user_id org_id ≡ false
    → set_user_active user_id active false (some org_id) db ≡ (err user_not_found, db)
unfolding set_user_active may_change
set_user_active-hidden user_id org_id active db h =
    elim (Option-cases (get_user_by_id user_id db.auth.users)) [
      | inl e ↦ rw (set_user_active, e) refl
      | inr (u, e) ↦ rw (set_user_active, e, h) refl
    ]

new-member :
    (user : User) (org_id role_id : ℕ) (db : AdminDb)
    → is_member (add_membership user org_id role_id db).directory user.id org_id ≡ true
unfolding is_member add_membership
new-member user org_id role_id db =
    rw
      (
        any-append (λ m. m.user_id == user.id && m.org_id == org_id) db.directory.memberships _,
        ==_refl user.id,
        ==_refl org_id,
      )
      (or_true (any (λ m. m.user_id == user.id && m.org_id == org_id) db.directory.memberships))

-- A user that an administrator creates in an organization is a new row, is a member there, is active
-- and is no superuser.
create_user-member :
    (hash : String → String) (email password role_name : String) (full_name : Option String)
    (org_id : ℕ) (db : AdminDb) (user : User)
    → (create_user hash email password full_name role_name (some org_id) db).0 ≡ ok user
    → let db' = (create_user hash email password full_name role_name (some org_id) db).1 in
      (user.is_superuser ≡ false)
      × (user.is_active ≡ true)
      × (is_member db'.directory user.id org_id ≡ true)
      × (db'.auth.users ≡ db.auth.users ++ user ∷ [])
unfolding create_user give_role add_membership add_user new_user is_member
create_user-member hash email password role_name full_name org_id db user h =
    elim (Option-cases (get_user_by_email email db.auth.users)) [
      | inr (u, e) ↦ absurd (ground (arith, e))
      | inl e ↦ elim (Option-cases (find? (λ r. str_eq r.name role_name) db.directory.roles)) [
        | inl f ↦ absurd (ground (arith, e, f))
        | inr (role, f) ↦
            let new = new_user hash db.auth.next_user_id email password full_name in
            let q : new ≡ user = ground (arith, e, f) in
            rw (create_user, e, give_role, f, ← q)
              (refl, refl, new-member new org_id role.id (add_user new db), refl)
      ]
    ]
