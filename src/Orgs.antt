-- ===== src/Orgs.antt =====
-- Organizations and memberships (app/orgs/service.py).
pub mod Default
pub mod Creator
use oss_us_web_design_system.Base.{
  ℕ, ◌+◌, String, Bool, true, false, not, ◌&&◌, ◌||◌, Option, none, some, List, [], ◌∷◌, ◌++◌, any,
  find?, filter, update_where, Action, gets, or_raise, raise_if, modify, pure, ◌>>=◌, ◌>>◌, str_eq,
  ◌==◌, ltb, is_some, if◌then◌else◌,
}
use oss_us_web_design_system.Directory.{Role, Organization, Membership, Directory}
use oss_us_web_design_system.Auth.User.{User}

pub data OrgError : Type 0 where
  slug_taken not_a_member org_not_found : OrgError

unfoldable pub role_named : String → Directory → Option Role
role_named name d = find? (λ r. str_eq r.name name) d.roles

-- The rows that `create_org` adds: the organization, and the membership of its creator, which is
-- the default one if it is the creator's first.
unfoldable pub new_organization : Directory → String → String → Organization
new_organization d name slug = record { id = d.next_organization_id; name = name; slug = slug }

unfoldable pub creator_membership : Directory → User → Membership
unfolding role_named
creator_membership d user = record {
  id = d.next_membership_id;
  user_id = user.id;
  org_id = d.next_organization_id;
  role_id = elim (role_named "admin" d) [ none ↦ none | some r ↦ some r.id ];
  is_default = not (any (λ m. m.user_id == user.id) d.memberships);
}

unfoldable pub create_org : User → String → String → Action Directory OrgError Organization
unfolding new_organization creator_membership
create_org user name slug = do
  raise_if (← gets (λ d. any (λ o. str_eq o.slug slug) d.organizations)) slug_taken
  org ← gets (λ d. new_organization d name slug)
  modify (λ d. record d {
    organizations = d.organizations ++ (org ∷ []);
    memberships = d.memberships ++ (creator_membership d user ∷ []);
    next_organization_id = d.next_organization_id + 1;
    next_membership_id = d.next_membership_id + 1;
  })
  pure org

-- `ORDER BY is_default DESC, id`.
unfoldable pub comes_before : Membership → Membership → Bool
comes_before a b =
    a.is_default && not b.is_default
    || (a.is_default && b.is_default || not a.is_default && not b.is_default) && ltb a.id b.id

-- `LIMIT 1` of that order.
unfoldable pub first_membership : List Membership → Option Membership
unfolding comes_before
first_membership [] = none
first_membership (m ∷ ms) = elim (first_membership ms) [
  | none ↦ some m
  | some n ↦ some (if comes_before n m then n else m)
]

unfoldable pub organization : ℕ → Directory → Option Organization
organization id d = find? (λ o. o.id == id) d.organizations

-- The rows of the user's memberships that join with an organization.
unfoldable pub joined_memberships : User → Directory → List Membership
unfolding organization
joined_memberships user d =
    filter (λ m. m.user_id == user.id && is_some (organization m.org_id d)) d.memberships

unfoldable pub get_default_org_for_user : User → Directory → Option Organization
unfolding first_membership joined_memberships organization
get_default_org_for_user user d = elim (first_membership (joined_memberships user d)) [
  | none ↦ none
  | some m ↦ organization m.org_id d
]

-- The two UPDATE statements of `switch_default_org`.
unfoldable pub set_default : ℕ → ℕ → List Membership → List Membership
set_default user_id org_id ms =
    update_where (λ m. m.user_id == user_id && m.org_id == org_id)
      (λ m. record m { is_default = true })
      (update_where (λ m. m.user_id == user_id) (λ m. record m { is_default = false }) ms)

unfoldable pub switch_default_org : User → ℕ → Action Directory OrgError Organization
unfolding set_default organization
switch_default_org user target_org_id = do
  member ← gets (λ d. any (λ m. m.user_id == user.id && m.org_id == target_org_id) d.memberships)
  raise_if (not member) not_a_member
  modify (λ d. record d { memberships = set_default user.id target_org_id d.memberships })
  or_raise (← gets (organization target_org_id)) org_not_found
