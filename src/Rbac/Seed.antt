-- ===== src/Rbac/Seed.antt =====
-- The grants of the seeding, and the seeding as a whole, once and twice.
use oss_us_web_design_system.Base.{
  ℕ, ◌≡◌, refl, String, true, ◌&&◌, some, List, [], ◌∷◌, ◌++◌, any, find?, filter, any-append,
  or_true, str_eq, ◌==◌, inl, inr, Bool-cases, ==_refl,
}
use oss_us_web_design_system.Directory.{Permission, Role, RolePermission, Directory}
use oss_us_web_design_system.Rbac.{
  add_permissions, get_or_create_role, is_granted, grant_all, is_user_grant, grant_defaults,
  seed_chassis_rbac, admin_description, user_description,
}
use oss_us_web_design_system.Rbac.Upsert.{
  AllNamed, add_permissions-AllNamed, add_permissions_again, get_or_create_role-find,
  get_or_create_role-keeps, get_or_create_role_again, get_or_create_role-permissions,
}

-- A role has every permission of a list.
abbrev pub AllGranted : ℕ → List Permission → List RolePermission → Type 0
AllGranted role_id [] rps = Unit
AllGranted role_id (p ∷ ps) rps = (is_granted rps role_id p.id ≡ true) × AllGranted role_id ps rps

is_granted-append :
    (rps qs : List RolePermission) (r p : ℕ)
    → is_granted rps r p ≡ true
    → is_granted (rps ++ qs) r p ≡ true
unfolding is_granted
is_granted-append rps qs r p h =
    rw (any-append (λ rp. rp.role_id == r && rp.permission_id == p) rps qs, h)

is_granted-new :
    (rps : List RolePermission) (r p : ℕ)
    → is_granted (rps ++ record { role_id = r; permission_id = p } ∷ []) r p ≡ true
unfolding is_granted
is_granted-new rps r p =
    rw (any-append (λ rp. rp.role_id == r && rp.permission_id == p) rps _, ==_refl r, ==_refl p)
      (or_true (any (λ rp. rp.role_id == r && rp.permission_id == p) rps))

-- A grant that is there stays there while others are added.
grant_all-keeps :
    (role_id : ℕ) (ps : List Permission) (rps : List RolePermission) (r p : ℕ)
    → is_granted rps r p ≡ true
    → is_granted (grant_all role_id ps rps) r p ≡ true
unfolding grant_all
grant_all-keeps role_id [] rps r p h = h
grant_all-keeps role_id (q ∷ ps) rps r p h = elim (Bool-cases (is_granted rps role_id q.id)) [
  | inl e ↦ rw e (grant_all-keeps role_id ps rps r p h)
  | inr e ↦ rw e (grant_all-keeps role_id ps _ r p (is_granted-append rps _ r p h))
]

pub grant_all-AllGranted :
    (role_id : ℕ) (ps : List Permission) (rps : List RolePermission)
    → AllGranted role_id ps (grant_all role_id ps rps)
unfolding grant_all
grant_all-AllGranted role_id [] rps = tt
grant_all-AllGranted role_id (q ∷ ps) rps = elim (Bool-cases (is_granted rps role_id q.id)) [
  | inl e ↦
      rw e (grant_all-keeps role_id ps rps role_id q.id e, grant_all-AllGranted role_id ps rps)
  | inr e ↦ rw e (
    grant_all-keeps role_id ps _ role_id q.id (is_granted-new rps role_id q.id),
    grant_all-AllGranted role_id ps _,
  )
]

AllGranted-grant_all :
    (r role_id : ℕ) (ps qs : List Permission) (rps : List RolePermission)
    → AllGranted r ps rps
    → AllGranted r ps (grant_all role_id qs rps)
AllGranted-grant_all r role_id [] qs rps h = tt
AllGranted-grant_all r role_id (p ∷ ps) qs rps h =
    (grant_all-keeps role_id qs rps r p.id h.0, AllGranted-grant_all r role_id ps qs rps h.1)

pub grant_all_again :
    (role_id : ℕ) (ps : List Permission) (rps : List RolePermission)
    → AllGranted role_id ps rps
    → grant_all role_id ps rps ≡ rps
unfolding grant_all
grant_all_again role_id [] rps h = refl
grant_all_again role_id (p ∷ ps) rps h = rw h.0 (grant_all_again role_id ps rps h.1)

-- What the seeding establishes.
pub record IsSeeded (registry : List (String × String)) (d : Directory) : Type 0 where
  pub admin : Role
  pub user_role : Role
  pub admin_found : find? (λ x. str_eq x.name "admin") d.roles ≡ some admin
  pub user_found : find? (λ x. str_eq x.name "user") d.roles ≡ some user_role
  pub named : AllNamed registry d.permissions
  pub admin_grants : AllGranted admin.id d.permissions d.role_permissions
  pub user_grants : AllGranted user_role.id (filter is_user_grant d.permissions) d.role_permissions

-- After the seeding every registered permission has a row, the roles `admin` and `user` exist,
-- `admin` has every permission in the table, those of the slots too, and `user` the two that
-- let it read users and organizations, where they are in the table.
pub seed-IsSeeded :
    (registry : List (String × String)) (d : Directory)
    → IsSeeded registry (seed_chassis_rbac registry d)
unfolding seed_chassis_rbac grant_defaults
seed-IsSeeded registry d =
    let d₀ = add_permissions registry d in
    let d₁ = (get_or_create_role "admin" admin_description d₀).1 in
    let d₂ = (get_or_create_role "user" user_description d₁).1 in
    let admin = (get_or_create_role "admin" admin_description d₀).0 in
    let user_role = (get_or_create_role "user" user_description d₁).0 in
    record {
      admin = admin;
      user_role = user_role;
      admin_found =
          get_or_create_role-keeps "user" user_description "admin" d₁
            (get_or_create_role-find "admin" admin_description d₀);
      user_found = get_or_create_role-find "user" user_description d₁;
      named =
          rw
            (
              get_or_create_role-permissions "user" user_description d₁,
              get_or_create_role-permissions "admin" admin_description d₀,
            )
            (add_permissions-AllNamed registry d);
      admin_grants =
          AllGranted-grant_all admin.id user_role.id d₂.permissions
            (filter is_user_grant d₂.permissions)
            (grant_all admin.id d₂.permissions d₂.role_permissions)
            (grant_all-AllGranted admin.id d₂.permissions d₂.role_permissions);
      user_grants =
          grant_all-AllGranted user_role.id (filter is_user_grant d₂.permissions)
            (grant_all admin.id d₂.permissions d₂.role_permissions);
    }

-- A directory that is seeded is left as it is.
seeded_again :
    (registry : List (String × String)) (d : Directory)
    → IsSeeded registry d
    → seed_chassis_rbac registry d ≡ d
unfolding seed_chassis_rbac grant_defaults
seeded_again registry d s = rw (
  add_permissions_again registry d s.named,
  get_or_create_role_again "admin" admin_description d s.admin_found,
  get_or_create_role_again "user" user_description d s.user_found,
  grant_all_again s.admin.id d.permissions d.role_permissions s.admin_grants,
  grant_all_again s.user_role.id (filter is_user_grant d.permissions) d.role_permissions
      s.user_grants,
)

-- Seeding a second time with the same registry changes nothing.
seed_idempotent :
    (registry : List (String × String)) (d : Directory)
    → seed_chassis_rbac registry (seed_chassis_rbac registry d) ≡ seed_chassis_rbac registry d
seed_idempotent registry d =
    seeded_again registry (seed_chassis_rbac registry d) (seed-IsSeeded registry d)
