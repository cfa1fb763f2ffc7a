-- ===== src/Assistant/Grants.antt =====
-- The grants that the assistant makes by itself (`_ensure_baseline_role_grants`,
-- `ensure_content_manager_role` and `assign_content_manager` in
-- app/slots/accessibility_assistant/service.py).
pub mod Laws
use oss_us_web_design_system.Base.{
  ℕ, ◌+◌, Bool, ◌&&◌, ◌||◌, Option, none, some, String, List, [], ◌∷◌, ◌++◌, filter, find?, any,
  str_eq, update_where, Action, ok, err, pure, raise, ◌==◌,
}
use oss_us_web_design_system.Directory.{Directory, Membership, Permission, Role}
use oss_us_web_design_system.Rbac.{grant_all, get_or_create_role}

-- `[ASSISTANT_READ, ASSISTANT_ASK]`.
unfoldable pub is_baseline : Permission → Bool
is_baseline p = str_eq p.name "assistant:read" || str_eq p.name "assistant:ask"

unfoldable pub ensure_baseline_role_grants : Directory → Directory
unfolding is_baseline grant_all
ensure_baseline_role_grants d = elim (find? (λ r. str_eq r.name "user") d.roles) [
  | none ↦ d
  | some user_role ↦ record d {
    role_permissions = grant_all user_role.id (filter is_baseline d.permissions) d.role_permissions;
  }
]

abbrev pub content_manager_description : String
content_manager_description = "Accessibility Assistant Content Manager (slot-provisioned)."

module _ (content_manager_permissions : List String) where
  unfoldable pub is_content_permission : Permission → Bool
  is_content_permission p = any (λ name. str_eq p.name name) content_manager_permissions

  unfoldable pub ensure_content_manager_role : Directory → Role × Directory
  unfolding is_content_permission grant_all get_or_create_role
  ensure_content_manager_role d =
      let (role, d') = get_or_create_role "content_manager" content_manager_description d in
      (
        role,
        record d' {
          role_permissions =
              grant_all role.id (filter is_content_permission d'.permissions) d'.role_permissions;
        },
      )

  -- `none` is `NotAnOrgMember`.
  unfoldable pub assign_content_manager : ℕ → ℕ → Directory → Option Membership × Directory
  unfolding ensure_content_manager_role
  assign_content_manager org_id target_user_id d =
      elim (find? (λ m. m.org_id == org_id && m.user_id == target_user_id) d.memberships) [
        | none ↦ (none, d)
        | some m ↦
            let (role, d') = ensure_content_manager_role d in
            let m' = record m { role_id = some role.id } in
            (
              some m',
              record d' { memberships = update_where (λ x. x.id == m.id) (λ _. m') d'.memberships },
            )
      ]
