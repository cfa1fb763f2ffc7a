-- ===== src/Rbac.antt =====
-- Authorization (app/rbac/service.py): the permission check, the privileged accounts, the seeding of
-- roles and grants, and the gate of a route (`requires` of app/deps.py).
pub mod Check
pub mod Upsert
pub mod Seed
use oss_us_web_design_system.Base.{
  ℕ, ◌+◌, String, Bool, true, false, not, ◌&&◌, ◌||◌, Option, none, some, List, [], ◌∷◌, ◌++◌, map,
  any, find?, filter, length, Result, ok, err, Action, gets, or_raise, modify, pure, ◌>>=◌, ◌>>◌,
  str_eq, ◌==◌, is_some, if◌then◌else◌, codes, Text, text_eq,
}
use oss_us_web_design_system.Directory.{
  Permission, Role, RolePermission, UserRole, Membership, Directory,
}
use oss_us_web_design_system.Auth.User.{User}
use oss_us_web_design_system.Auth.Routes.{HttpError, http_error}

-- The chassis-wide join: permission, role_permissions, user_roles.
unfoldable pub chassis_grant : Directory → ℕ → String → Bool
chassis_grant d user_id name =
    any
      (λ p.
        str_eq p.name name
        && any
            (λ rp.
              rp.permission_id == p.id
              && any (λ ur. ur.role_id == rp.role_id && ur.user_id == user_id) d.user_roles)
            d.role_permissions)
      d.permissions

-- A membership's role, compared with a role of the join; a membership with no role joins nothing.
unfoldable pub has_role : Membership → ℕ → Bool
has_role m role_id = elim m.role_id [ none ↦ false | some r ↦ r == role_id ]

-- The join over the memberships in one organization.
unfoldable pub org_grant : Directory → ℕ → ℕ → String → Bool
unfolding has_role
org_grant d user_id org_id name =
    any
      (λ p.
        str_eq p.name name
        && any
            (λ rp.
              rp.permission_id == p.id
              && any (λ m. has_role m rp.role_id && (m.user_id == user_id && m.org_id == org_id))
                  d.memberships)
            d.role_permissions)
      d.permissions

-- `current_org` is the organization bound to the request.
unfoldable pub user_has_permission : Directory → Option ℕ → User → String → Bool
unfolding chassis_grant org_grant
user_has_permission d current_org user name =
    if user.is_superuser
    then true
    else (if chassis_grant d user.id name
        then true
        else elim current_org [ none ↦ false | some org_id ↦ org_grant d user.id org_id name ])

unfoldable pub is_privileged_user : Directory → User → Bool
is_privileged_user d user =
    if user.is_superuser
    then true
    else any
        (λ r.
          str_eq r.name "admin"
          && any (λ ur. ur.role_id == r.id && ur.user_id == user.id) d.user_roles)
        d.roles

-- The names that `user_permission_names` returns, as the rows of its query; the caller reads them
-- as a set.
unfoldable pub user_permission_names : Directory → User → List String
user_permission_names d user =
    if user.is_superuser
    then map (λ p. p.name) d.permissions
    else map (λ p. p.name)
        (filter
          (λ p.
            any
              (λ rp.
                rp.permission_id == p.id
                && any (λ ur. ur.role_id == rp.role_id && ur.user_id == user.id) d.user_roles)
              d.role_permissions)
          d.permissions)

-- `requires(permission)`, once the user and the organization are resolved.
unfoldable pub requires : Directory → String → User → ℕ → Result HttpError User
unfolding user_has_permission is_privileged_user
requires d permission user org_id =
    if not (user_has_permission d (some org_id) user permission)
    then err (http_error 403 none)
    else (if is_privileged_user d user && not user.mfa_enabled
        then err (http_error 403 none)
        else ok user)

-- `_get_or_create_role`.
unfoldable pub get_or_create_role : String → String → Directory → Role × Directory
get_or_create_role name description d = elim (find? (λ r. str_eq r.name name) d.roles) [
  | some r ↦ (r, d)
  | none ↦
      let r : Role = record { id = d.next_role_id; name = name; description = some description } in
      (r, record d { roles = d.roles ++ (r ∷ []); next_role_id = d.next_role_id + 1 })
]

-- The `Permission` rows of the registered names that the table lacks; `existing` is read once,
-- before any is added. An empty description is stored as NULL.
unfoldable pub missing_permissions : List Permission → ℕ → List (String × String) → List Permission
missing_permissions existing id [] = []
missing_permissions existing id ((name, description) ∷ registry) =
    let known = missing_permissions existing id registry in
    let others = missing_permissions existing (id + 1) registry in
    if any (λ p. str_eq p.name name) existing
    then known
    else record {
      id = id;
      name = name;
      description = if str_eq description "" then none else some description;
    }
      ∷ others

unfoldable pub is_granted : List RolePermission → ℕ → ℕ → Bool
is_granted rps role_id permission_id =
    any (λ rp. rp.role_id == role_id && rp.permission_id == permission_id) rps

-- `for perm in perms: if role not in perm.roles: perm.roles.append(role)`.
unfoldable pub grant_all : ℕ → List Permission → List RolePermission → List RolePermission
unfolding is_granted
grant_all role_id [] rps = rps
grant_all role_id (p ∷ ps) rps = grant_all role_id ps (
    if is_granted rps role_id p.id
    then rps
    else rps ++ (record { role_id = role_id; permission_id = p.id } ∷ []))

unfoldable pub is_user_grant : Permission → Bool
is_user_grant p = str_eq p.name "users:read" || str_eq p.name "orgs:read"

abbrev pub admin_description : String
admin_description = "Full access including future slots."

abbrev pub user_description : String
user_description = "Read-only on owned resources."

unfoldable pub add_permissions : List (String × String) → Directory → Directory
unfolding missing_permissions
add_permissions registry d =
    let new_perms = missing_permissions d.permissions d.next_permission_id registry in
    record d {
      permissions = d.permissions ++ new_perms;
      next_permission_id = d.next_permission_id + length new_perms;
    }

unfoldable pub grant_defaults : ℕ → ℕ → Directory → Directory
unfolding grant_all is_user_grant
grant_defaults admin_id user_id d = record d {
  role_permissions =
      grant_all user_id (filter is_user_grant d.permissions)
        (grant_all admin_id d.permissions d.role_permissions);
}

-- `registry` is `all_permissions()`.
unfoldable pub seed_chassis_rbac : List (String × String) → Directory → Directory
unfolding add_permissions get_or_create_role grant_defaults
seed_chassis_rbac registry d =
    let (admin, d₁) = get_or_create_role "admin" admin_description (add_permissions registry d) in
    let (user_role, d₂) = get_or_create_role "user" user_description d₁ in
    grant_defaults admin.id user_role.id d₂

pub data RbacError : Type 0 where
  unknown_role : RbacError

unfoldable pub assign_role_to_user : User → String → Action Directory RbacError (Unit {0})
assign_role_to_user user role_name = do
  role ← or_raise (← gets (λ d. find? (λ r. str_eq r.name role_name) d.roles)) unknown_role
  modify (λ d.
      if any (λ ur. ur.user_id == user.id && ur.role_id == role.id) d.user_roles
      then d
      else record d {
        user_roles = d.user_roles ++ (record { user_id = user.id; role_id = role.id } ∷ []);
      })
