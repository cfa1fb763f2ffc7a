-- ===== src/Orgs/Creator.antt =====
-- The creator of an organization.
use oss_us_web_design_system.Base.{
  ℕ, ◌+◌, ◌≡◌, refl, String, true, false, ◌&&◌, some, List, [], ◌∷◌, ◌++◌, any, find?, ok, err,
  arith, ◌==◌, any-Memᴰ, Memᴰ, str_eq,
}
use oss_us_web_design_system.Directory.{Permission, Role, RolePermission, Organization, Directory}
use oss_us_web_design_system.Auth.User.{User}
use oss_us_web_design_system.Rbac.{is_granted, user_has_permission}
use oss_us_web_design_system.Rbac.Check.{Granted, user_has_permission_iff}
use oss_us_web_design_system.Rbac.Seed.{IsSeeded, AllGranted}
use oss_us_web_design_system.Orgs.{create_org, slug_taken, new_organization, creator_membership}

AllGranted-Memᴰ :
    (r : ℕ) (ps : List Permission) (rps : List RolePermission) {p : Permission}
    → AllGranted r ps rps
    → Memᴰ p ps
    → is_granted rps r p.id ≡ true
AllGranted-Memᴰ r [] rps h m = elim m [ ]
AllGranted-Memᴰ r (q ∷ ps) rps h (Memᴰ.head e) = rw e h.0
AllGranted-Memᴰ r (q ∷ ps) rps h (Memᴰ.tail m) = AllGranted-Memᴰ r ps rps h.1 m

is_granted-row :
    (rps : List RolePermission) (r p : ℕ)
    → is_granted rps r p ≡ true
    → (rp : RolePermission) × Memᴰ rp rps × (rp.role_id ≡ r) × (rp.permission_id ≡ p)
unfolding is_granted
is_granted-row rps r p h =
    let (rp, m, e) = any-Memᴰ (λ x. x.role_id == r && x.permission_id == p) rps h in
    (rp, m, ground arith, ground arith)

Memᴰ-last {ℓ} : {A : Type ℓ} (xs : List A) (x : A) → Memᴰ x (xs ++ x ∷ [])
Memᴰ-last [] x = Memᴰ.head refl
Memᴰ-last (y ∷ xs) x = Memᴰ.tail (Memᴰ-last xs x)

module _ (user : User) (name slug : String) (d : Directory) where
  abbrev pub created : Directory
  created = record d {
    organizations = d.organizations ++ (new_organization d name slug ∷ []);
    memberships = d.memberships ++ (creator_membership d user ∷ []);
    next_organization_id = d.next_organization_id + 1;
    next_membership_id = d.next_membership_id + 1;
  }

  create_org_lem :
      any (λ o. str_eq o.slug slug) d.organizations ≡ false
      → create_org user name slug d ≡ (ok (new_organization d name slug), created)
  unfolding create_org
  create_org_lem free = ground arith

  creator_role :
      {r : Role}
      → find? (λ x. str_eq x.name "admin") d.roles ≡ some r
      → (creator_membership d user).role_id ≡ some r.id
  unfolding creator_membership
  creator_role found = ground arith

  -- With the roles seeded, whoever creates an organization under a free slug becomes a member of it
  -- who has each permission of the table there.
  pub creator_is_admin :
      (registry : List (String × String)) (p : Permission)
      → IsSeeded registry d
      → any (λ o. str_eq o.slug slug) d.organizations ≡ false
      → Memᴰ p d.permissions
      → (o : Organization) × ((create_org user name slug d).0 ≡ ok o)
        × (user_has_permission (create_org user name slug d).1 (some o.id) user p.name ≡ true)
  unfolding creator_membership new_organization
  creator_is_admin registry p seeded free m =
      let e = create_org_lem free in
      let (rp, mrp, role, perm) =
        is_granted-row d.role_permissions seeded.admin.id p.id (
          AllGranted-Memᴰ seeded.admin.id d.permissions d.role_permissions seeded.admin_grants m) in
      (
        new_organization d name slug,
        rw e,
        rw e (
            (user_has_permission_iff created (some d.next_organization_id) user p.name).1 (
              Granted.per_org p rp (creator_membership d user) m refl mrp perm
                (Memᴰ-last d.memberships (creator_membership d user))
                (rw role (creator_role seeded.admin_found)) refl refl)),
      )

  -- Under a slug that is taken the call is refused, and nothing changes.
  create_org_taken :
      any (λ o. str_eq o.slug slug) d.organizations ≡ true
      → create_org user name slug d ≡ (err slug_taken, d)
  unfolding create_org
  create_org_taken taken = ground arith
