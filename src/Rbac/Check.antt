-- ===== src/Rbac/Check.antt =====
-- The permission check against its specification, and the gate of a route.
use oss_us_web_design_system.Base.{
  ℕ, ◌≡◌, refl, ◌↔◌, String, Bool, true, false, ◌&&◌, Option, none, some, any-Memᴰ, Memᴰ-any, Memᴰ,
  ok, err, eq_iff, ◌==◌, arith, Bool-cases, Option-cases, ap, inl, inr, ◌⊎◌,
}
use oss_us_web_design_system.Directory.{Permission, RolePermission, UserRole, Membership, Directory}
use oss_us_web_design_system.Auth.User.{User}
use oss_us_web_design_system.Auth.Routes.{http_error}
use oss_us_web_design_system.Rbac.{
  chassis_grant, org_grant, has_role, user_has_permission, is_privileged_user, requires,
}

-- The two ways to hold a role, and the permissions that a role grants.
pub data Granted (d : Directory) (current_org : Option ℕ) (user : User) (name : String)
    : Type 0 where
  superuser : user.is_superuser ≡ true → Granted d current_org user name
  chassis_wide :
      (p : Permission) (rp : RolePermission) (ur : UserRole)
      → Memᴰ p d.permissions
      → p.name ≡ name
      → Memᴰ rp d.role_permissions
      → rp.permission_id ≡ p.id
      → Memᴰ ur d.user_roles
      → ur.role_id ≡ rp.role_id
      → ur.user_id ≡ user.id
      → Granted d current_org user name
  per_org :
      (p : Permission) (rp : RolePermission) (m : Membership)
      → Memᴰ p d.permissions
      → p.name ≡ name
      → Memᴰ rp d.role_permissions
      → rp.permission_id ≡ p.id
      → Memᴰ m d.memberships
      → m.role_id ≡ some rp.role_id
      → m.user_id ≡ user.id
      → some m.org_id ≡ current_org
      → Granted d current_org user name

and_true : {a b : Bool} → (a && b) ≡ true → (a ≡ true) × (b ≡ true)
and_true {a} {b} h = ground arith

and_intro : {a b : Bool} → a ≡ true → b ≡ true → (a && b) ≡ true
and_intro {a} {b} h k = ground arith

eq_of_test : {a b : ℕ} → (a == b) ≡ true → a ≡ b
eq_of_test {a} {b} h = ground arith

test_of_eq : {a b : ℕ} → a ≡ b → (a == b) ≡ true
test_of_eq {a} {b} h = ground arith

chassis_grant-Granted :
    (d : Directory) (current_org : Option ℕ) (user : User) (name : String)
    → chassis_grant d user.id name ≡ true
    → Granted d current_org user name
unfolding chassis_grant
chassis_grant-Granted d current_org user name h =
    let (p, mp, hp) = any-Memᴰ _ d.permissions h in
    let (np, hq) = and_true hp in
    let (rp, mrp, hr) = any-Memᴰ _ d.role_permissions hq in
    let (ip, hs) = and_true hr in
    let (ur, mur, hu) = any-Memᴰ _ d.user_roles hs in
    let (iu, ju) = and_true hu in
    Granted.chassis_wide p rp ur mp ((eq_iff p.name name).0 np) mrp (eq_of_test ip) mur
      (eq_of_test iu) (eq_of_test ju)

has_role-eq : (m : Membership) (r : ℕ) → has_role m r ≡ true → m.role_id ≡ some r
unfolding has_role
has_role-eq m r h = ground arith

eq-has_role : (m : Membership) (r : ℕ) → m.role_id ≡ some r → has_role m r ≡ true
unfolding has_role
eq-has_role m r h = ground arith

org_grant-Granted :
    (d : Directory) (org_id : ℕ) (user : User) (name : String)
    → org_grant d user.id org_id name ≡ true
    → Granted d (some org_id) user name
unfolding org_grant
org_grant-Granted d org_id user name h =
    let (p, mp, hp) = any-Memᴰ _ d.permissions h in
    let (np, hq) = and_true hp in
    let (rp, mrp, hr) = any-Memᴰ _ d.role_permissions hq in
    let (ip, hs) = and_true hr in
    let (m, mm, hm) = any-Memᴰ _ d.memberships hs in
    let (rm, hk) = and_true hm in
    let (um, om) = and_true hk in
    Granted.per_org p rp m mp ((eq_iff p.name name).0 np) mrp (eq_of_test ip) mm
      (has_role-eq m rp.role_id rm) (eq_of_test um) (ap some (eq_of_test om))

Granted-chassis_grant :
    (d : Directory) (user : User) (name : String) (p : Permission) (rp : RolePermission)
    (ur : UserRole)
    → Memᴰ p d.permissions
    → p.name ≡ name
    → Memᴰ rp d.role_permissions
    → rp.permission_id ≡ p.id
    → Memᴰ ur d.user_roles
    → ur.role_id ≡ rp.role_id
    → ur.user_id ≡ user.id
    → chassis_grant d user.id name ≡ true
unfolding chassis_grant
Granted-chassis_grant d user name p rp ur mp np mrp ip mur iu ju = Memᴰ-any _ mp (
    and_intro ((eq_iff p.name name).1 np) (
      Memᴰ-any _ mrp
        (and_intro (test_of_eq ip) (Memᴰ-any _ mur (and_intro (test_of_eq iu) (test_of_eq ju))))))

Granted-org_grant :
    (d : Directory) (user : User) (name : String) (p : Permission) (rp : RolePermission)
    (m : Membership)
    → Memᴰ p d.permissions
    → p.name ≡ name
    → Memᴰ rp d.role_permissions
    → rp.permission_id ≡ p.id
    → Memᴰ m d.memberships
    → m.role_id ≡ some rp.role_id
    → m.user_id ≡ user.id
    → org_grant d user.id m.org_id name ≡ true
unfolding org_grant
Granted-org_grant d user name p rp m mp np mrp ip mm rm um = Memᴰ-any _ mp (
    and_intro ((eq_iff p.name name).1 np) (
      Memᴰ-any _ mrp (
        and_intro (test_of_eq ip) (
          Memᴰ-any _ mm (
            and_intro (eq-has_role m rp.role_id rm)
              (and_intro (test_of_eq um) (test_of_eq {a = m.org_id} refl)))))))

has_permission-Granted :
    (d : Directory) (current_org : Option ℕ) (user : User) (name : String)
    → user_has_permission d current_org user name ≡ true
    → Granted d current_org user name
unfolding user_has_permission
has_permission-Granted d current_org user name h = elim (Bool-cases user.is_superuser) [
  | inl e ↦ Granted.superuser e
  | inr e ↦ elim (Bool-cases (chassis_grant d user.id name)) [
    | inl c ↦ chassis_grant-Granted d current_org user name c
    | inr c ↦ elim (Option-cases current_org) [
      | inl o ↦ absurd (ground arith)
      | inr (org_id, o) ↦ rw o (org_grant-Granted d org_id user name (ground arith))
    ]
  ]
]

has_permission_superuser :
    (d : Directory) (current_org : Option ℕ) (user : User) (name : String)
    → user.is_superuser ≡ true
    → user_has_permission d current_org user name ≡ true
unfolding user_has_permission
has_permission_superuser d current_org user name h = ground arith

has_permission_chassis :
    (d : Directory) (current_org : Option ℕ) (user : User) (name : String)
    → chassis_grant d user.id name ≡ true
    → user_has_permission d current_org user name ≡ true
unfolding user_has_permission
has_permission_chassis d current_org user name h = ground arith

has_permission_org :
    (d : Directory) (org_id : ℕ) (user : User) (name : String)
    → org_grant d user.id org_id name ≡ true
    → user_has_permission d (some org_id) user name ≡ true
unfolding user_has_permission
has_permission_org d org_id user name h = ground arith

Granted-has_permission :
    (d : Directory) (current_org : Option ℕ) (user : User) (name : String)
    → Granted d current_org user name
    → user_has_permission d current_org user name ≡ true
Granted-has_permission d current_org user name (Granted.superuser h) =
    has_permission_superuser d current_org user name h
Granted-has_permission d current_org user name (Granted.chassis_wide p rp ur a b c e f g i) =
    has_permission_chassis d current_org user name
      (Granted-chassis_grant d user name p rp ur a b c e f g i)
Granted-has_permission d current_org user name (Granted.per_org p rp m a b c e f g i o) =
    rw (← o)
      (has_permission_org d m.org_id user name (Granted-org_grant d user name p rp m a b c e f g i))

-- The check answers yes exactly when the permission is granted: to a superuser, or through a role
-- that the user holds chassis-wide or by a membership in the organization of the request.
pub user_has_permission_iff :
    (d : Directory) (current_org : Option ℕ) (user : User) (name : String)
    → (user_has_permission d current_org user name ≡ true) ↔ Granted d current_org user name
user_has_permission_iff d current_org user name =
    (has_permission-Granted d current_org user name, Granted-has_permission d current_org user name)

-- The gate lets a user through, unchanged, exactly when the permission is granted in the
-- organization and the user is not a privileged account without MFA; else it answers 403.
pub requires_iff :
    (d : Directory) (permission : String) (user : User) (org_id : ℕ)
    → ((requires d permission user org_id ≡ ok user) ↔ (
        Granted d (some org_id) user permission
        × ((is_privileged_user d user ≡ false) ⊎ (user.mfa_enabled ≡ true))))
      × ((requires d permission user org_id ≡ ok user)
          ⊎ (requires d permission user org_id ≡ err (http_error 403 none)))
unfolding requires
requires_iff d permission user org_id =
    let (there, back) = user_has_permission_iff d (some org_id) user permission in
    (
      (λ h. (there (ground arith), ground arith), λ (g, m). let held = back g in ground arith),
      ground arith,
    )
