-- ===== src/Admin.antt =====
-- Administration of users (app/admin/service.py).
pub mod Laws
use oss_us_web_design_system.Base.{
  ℕ, ◌+◌, Bool, true, false, not, ◌&&◌, Option, none, some, is_some, String, List, [], ◌∷◌, ◌++◌,
  filter, find?, any, ◌==◌, ltb, str_eq, if◌then◌else◌, Result, ok, err, Action, pure, raise,
  sort_by,
}
use oss_us_web_design_system.Auth.User.{User, AuthDb, get_user_by_email, get_user_by_id, save_user}
use oss_us_web_design_system.Directory.{Directory, Membership, Organization}
use oss_us_web_design_system.Rbac.{RbacError, assign_role_to_user}

-- The tables of users and of the directory.
pub record AdminDb : Type 0 where
  pub auth : AuthDb
  pub directory : Directory

pub data AdminError : Type 0 where
  email_already_registered unknown_role user_not_found : AdminError

-- `is_platform_admin`.
unfoldable pub is_platform_admin : Directory → User → Bool
is_platform_admin d user =
    if user.is_superuser
    then true
    else any
        (λ r.
          str_eq r.name "admin"
          && any (λ ur. ur.role_id == r.id && ur.user_id == user.id) d.user_roles)
        d.roles

unfoldable pub is_member : Directory → ℕ → ℕ → Bool
is_member d user_id org_id = any (λ m. m.user_id == user_id && m.org_id == org_id) d.memberships

unfoldable pub list_all_users : AdminDb → List User
unfolding sort_by
list_all_users db = sort_by (λ a b. ltb a.id b.id) db.auth.users

-- `list_org_member_users`; a user has at most one membership in an organization.
unfoldable pub list_org_member_users : ℕ → AdminDb → List User
unfolding sort_by is_member
list_org_member_users org_id db =
    sort_by (λ a b. ltb a.id b.id) (filter (λ u. is_member db.directory u.id org_id) db.auth.users)

unfoldable pub list_all_orgs : AdminDb → List Organization
unfolding sort_by
list_all_orgs db = sort_by (λ a b. ltb a.id b.id) db.directory.organizations

-- The row that `create_user` adds, with the columns' defaults.
unfoldable pub new_user : (String → String) → ℕ → String → String → Option String → User
new_user hash id email password full_name = record {
  id = id;
  email = email;
  password_hash = hash password;
  full_name = elim full_name [ none ↦ none | some n ↦ if str_eq n "" then none else some n ];
  is_active = true;
  is_superuser = false;
  failed_login_attempts = 0;
  last_failed_login_at = none;
  locked_until = none;
  mfa_enabled = false;
  mfa_secret = none;
  mfa_enrolled_at = none;
}

unfoldable pub add_user : User → AdminDb → AdminDb
add_user user db = record db {
  auth = record db.auth {
    users = db.auth.users ++ user ∷ [];
    next_user_id = db.auth.next_user_id + 1;
  };
}

unfoldable pub add_membership : User → ℕ → ℕ → AdminDb → AdminDb
add_membership user org_id role_id db =
    let d = db.directory in
    let m : Membership = record {
      id = d.next_membership_id;
      user_id = user.id;
      org_id = org_id;
      role_id = some role_id;
      is_default = true;
    } in
    record db {
      directory = record d {
        memberships = d.memberships ++ m ∷ [];
        next_membership_id = d.next_membership_id + 1;
      };
    }

-- The role of the new user: in an organization by a membership, or across the platform.
unfoldable pub give_role : User → String → Option ℕ → Action AdminDb AdminError User
unfolding add_membership assign_role_to_user
give_role user role_name (some org_id) db =
    elim (find? (λ r. str_eq r.name role_name) db.directory.roles) [
      | none ↦ raise unknown_role db
      | some role ↦ pure user (add_membership user org_id role.id db)
    ]
give_role user role_name none db =
    let (r, d) = assign_role_to_user user role_name db.directory in
    elim r [ ok _ ↦ pure user (record db { directory = d }) | err _ ↦ raise unknown_role db ]

-- `create_user`; the hash of passwords is a parameter.
unfoldable pub create_user :
    (String → String)
    → String
    → String
    → Option String
    → String
    → Option ℕ
    → Action AdminDb AdminError User
unfolding new_user add_user give_role
create_user hash email password full_name role_name org_id db =
    elim (get_user_by_email email db.auth.users) [
      | some _ ↦ raise email_already_registered db
      | none ↦
          let user = new_user hash db.auth.next_user_id email password full_name in
          give_role user role_name org_id (add_user user db)
    ]

-- Whether the caller may change a user: a platform administrator any, another only a member of its
-- organization.
unfoldable pub may_change : Bool → Option ℕ → ℕ → AdminDb → Bool
unfolding is_member
may_change platform org_id user_id db =
    if platform
    then true
    else elim org_id [ none ↦ false | some o ↦ is_member db.directory user_id o ]

-- `set_user_active`.
unfoldable pub set_user_active : ℕ → Bool → Bool → Option ℕ → Action AdminDb AdminError User
unfolding may_change save_user
set_user_active user_id active platform org_id db = elim (get_user_by_id user_id db.auth.users) [
  | none ↦ raise user_not_found db
  | some user ↦
      let changed = record user { is_active = active } in
      if may_change platform org_id user_id db
      then pure changed (record db { auth = save_user changed db.auth })
      else raise user_not_found db
]
