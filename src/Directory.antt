-- ===== src/Directory.antt =====
-- The tables of roles, permissions, organizations and memberships (app/rbac/models.py and
-- app/orgs/models.py). Creation and update stamps are left out, since no code reads them.
use oss_us_web_design_system.Base.{ℕ, String, Bool, Option, List}

pub record Permission : Type 0 where
  pub id : ℕ
  pub name : String
  pub description : Option String

pub record Role : Type 0 where
  pub id : ℕ
  pub name : String
  pub description : Option String

pub record RolePermission : Type 0 where
  pub role_id : ℕ
  pub permission_id : ℕ

pub record UserRole : Type 0 where
  pub user_id : ℕ
  pub role_id : ℕ

pub record Organization : Type 0 where
  pub id : ℕ
  pub name : String
  pub slug : String

pub record Membership : Type 0 where
  pub id : ℕ
  pub user_id : ℕ
  pub org_id : ℕ
  pub role_id : Option ℕ
  pub is_default : Bool

-- The tables, and the counters from which the database numbers new rows.
pub record Directory : Type 0 where
  pub permissions : List Permission
  pub roles : List Role
  pub role_permissions : List RolePermission
  pub user_roles : List UserRole
  pub organizations : List Organization
  pub memberships : List Membership
  pub next_permission_id : ℕ
  pub next_role_id : ℕ
  pub next_organization_id : ℕ
  pub next_membership_id : ℕ
