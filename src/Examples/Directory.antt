-- ===== src/Examples/Directory.antt =====
-- Permissions, organizations and tenants on concrete tables.
use oss_us_web_design_system.Base.{
  ◌≡◌, ◌↔◌, ◌⊎◌, refl, true, false, Option, none, some, String, List, [], ◌∷◌, ok, err, Memᴰ,
}
use oss_us_web_design_system.Auth.Routes.{http_error}
use oss_us_web_design_system.Directory.{Permission, Organization, Membership, Directory}
use oss_us_web_design_system.Rbac.{
  user_has_permission, is_privileged_user, requires, seed_chassis_rbac,
}
use oss_us_web_design_system.Rbac.Check.{Granted, user_has_permission_iff, requires_iff}
use oss_us_web_design_system.Rbac.Seed.{IsSeeded, seed-IsSeeded}
use oss_us_web_design_system.Orgs.{create_org}
use oss_us_web_design_system.Orgs.Creator.{creator_is_admin}
use oss_us_web_design_system.Tenancy.{execute, select_own_org_or_shared}
use oss_us_web_design_system.Tenancy.Laws.{select_own_org_or_shared_iff}
use oss_us_web_design_system.Assistant.Sharing.{Resource}
use oss_us_web_design_system.Examples.{alice}

abbrev registry : List (String × String)
registry = ("orgs:read", "read") ∷ ("users:read", "") ∷ []

abbrev organizations : List Organization
organizations =
    record { id = 1; name = "A"; slug = "a" } ∷ record { id = 2; name = "B"; slug = "b" } ∷ []

abbrev memberships : List Membership
memberships =
    record { id = 1; user_id = 1; org_id = 1; role_id = none; is_default = true }
    ∷ record { id = 2; user_id = 1; org_id = 2; role_id = none; is_default = false }
    ∷ []

abbrev directory : Directory
directory = record {
  permissions = [];
  roles = [];
  role_permissions = [];
  user_roles = [];
  organizations = organizations;
  memberships = memberships;
  next_permission_id = 1;
  next_role_id = 1;
  next_organization_id = 3;
  next_membership_id = 3;
}

abbrev seeded : Directory
seeded = seed_chassis_rbac registry directory

user_has_permission_iff_example :
    (user_has_permission seeded (some 1) alice "orgs:read" ≡ true)
    ↔ Granted seeded (some 1) alice "orgs:read"
user_has_permission_iff_example = user_has_permission_iff seeded (some 1) alice "orgs:read"

requires_iff_example :
    ((requires seeded "orgs:read" alice 1 ≡ ok alice) ↔ (
      Granted seeded (some 1) alice "orgs:read"
      × ((is_privileged_user seeded alice ≡ false) ⊎ (alice.mfa_enabled ≡ true))))
    × ((requires seeded "orgs:read" alice 1 ≡ ok alice)
        ⊎ (requires seeded "orgs:read" alice 1 ≡ err (http_error 403 none)))
requires_iff_example = requires_iff seeded "orgs:read" alice 1

seed-IsSeeded_example : IsSeeded registry seeded
seed-IsSeeded_example = seed-IsSeeded registry directory

abbrev read_permission : Permission
read_permission = record { id = 1; name = "orgs:read"; description = some "read" }

creator_is_admin_example :
    (o : Organization) × ((create_org alice "C" "c" seeded).0 ≡ ok o)
    × (user_has_permission (create_org alice "C" "c" seeded).1 (some o.id) alice "orgs:read" ≡ true)
unfolding seed_chassis_rbac
creator_is_admin_example =
    creator_is_admin alice "C" "c" seeded registry read_permission
      (seed-IsSeeded registry directory) refl (Memᴰ.head refl)

abbrev row : Resource
row = record { id = 1; org_id = 4; is_platform_shared = false; creator_role_snapshot = none }

abbrev other_row : Resource
other_row = record {
  id = 2;
  org_id = 5;
  is_platform_shared = true;
  creator_role_snapshot = some "platform_admin";
}

select_own_org_or_shared_iff_example :
    let (r, after) =
      select_own_org_or_shared
        (λ r. r.org_id)
        {E = String}
        (λ r. r.is_platform_shared)
        4
        (λ _. true)
        none
        (row ∷ other_row ∷ [])
        (some 4) in
    (((found : List Resource) × (Path (Option String) none none)
        × (r ≡ ok found)
        × (Memᴰ other_row found ↔ (
            Memᴰ other_row (row ∷ other_row ∷ [])
            × ((other_row.org_id ≡ 4) ⊎ (true ≡ true))
            × (true ≡ true))))
      ⊎ ((e : String) × (Path (Option String) none (some e)) × (r ≡ err e)))
    × ((seen : List Resource) × ((execute
            (λ r. r.org_id)
            {E = String}
            none
            (λ _. true)
            (row ∷ other_row ∷ [])
            after).0
          ≡ ok seen)
        × (Memᴰ other_row seen
            ↔ (Memᴰ other_row (row ∷ other_row ∷ []) × (other_row.org_id ≡ 4) × (true ≡ true))))
select_own_org_or_shared_iff_example =
    select_own_org_or_shared_iff (λ r. r.org_id) (λ r. r.is_platform_shared) 4 4 (λ _. true)
      (λ _. true) none (row ∷ other_row ∷ []) other_row
