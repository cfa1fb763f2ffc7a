-- ===== src/Assistant/Grants/Laws.antt =====
-- What the assistant's grants allow, and that they are made once.
use oss_us_web_design_system.Base.{
  ℕ, ◌≡◌, refl, ap, Bool, true, ◌&&◌, some, String, List, Memᴰ, filter, find?, any, any-Memᴰ,
  Memᴰ-any, str_eq, update_where, ◌==◌, ==_refl, or_true, arith, Bool-cases, Option-cases, inl, inr,
  Memᴰ-filter, find?-Memᴰ, find?-sound, if◌then◌else◌,
}
use oss_us_web_design_system.Directory.{Directory, Membership, Permission, RolePermission}
use oss_us_web_design_system.Auth.User.{User}
use oss_us_web_design_system.Rbac.{
  grant_all, is_granted, get_or_create_role, user_has_permission, org_grant, has_role,
  chassis_grant,
}
use oss_us_web_design_system.Rbac.Seed.{AllGranted, grant_all-AllGranted, grant_all_again}
use oss_us_web_design_system.Assistant.Grants.{
  is_baseline, ensure_baseline_role_grants, is_content_permission, ensure_content_manager_role,
  assign_content_manager, content_manager_description,
}

AllGranted-Memᴰ :
    (r : ℕ) (rps : List RolePermission) {p : Permission} {ps : List Permission}
    → Memᴰ p ps
    → AllGranted r ps rps
    → is_granted rps r p.id ≡ true
AllGranted-Memᴰ r rps (Memᴰ.head e) h = rw e h.0
AllGranted-Memᴰ r rps (Memᴰ.tail m) h = AllGranted-Memᴰ r rps m h.1

any-update_where :
    {A : Type 0} (p q : A → Bool) {x y : A} {xs : List A}
    → Memᴰ x xs
    → p x ≡ true
    → q y ≡ true
    → any q (update_where p (λ _. y) xs) ≡ true
any-update_where p q (Memᴰ.head e) h k = rw (← e, h, k) refl
any-update_where p q {x} {y} (Memᴰ.tail {x = z} {xs = zs} m) h k =
    rw (any-update_where p q {x = x} {y = y} m h k) (or_true (q (if p z then y else z)))

-- A permission that a role is granted is a permission of each member with that role.
org_grant-is_granted :
    (d : Directory) (user_id org_id r : ℕ) (name : String) (p : Permission)
    → Memᴰ p d.permissions
    → str_eq p.name name ≡ true
    → is_granted d.role_permissions r p.id ≡ true
    → any (λ m. has_role m r && (m.user_id == user_id && m.org_id == org_id)) d.memberships ≡ true
    → org_grant d user_id org_id name ≡ true
unfolding org_grant is_granted
org_grant-is_granted d user_id org_id r name p m n g a =
    let (rp, mem, t) =
      any-Memᴰ (λ rp. rp.role_id == r && rp.permission_id == p.id) d.role_permissions g in
    let x : rp.role_id ≡ r = ground arith in
    let y : (rp.permission_id == p.id) ≡ true = ground arith in
    Memᴰ-any _ m (rw n (Memᴰ-any _ mem (rw (y, x) a)))

get_or_create_role-rest :
    (name description : String) (d : Directory)
    → let d' = (get_or_create_role name description d).1 in
      (d'.permissions ≡ d.permissions) × (d'.memberships ≡ d.memberships)
unfolding get_or_create_role
get_or_create_role-rest name description d =
    elim (Option-cases (find? (λ r. str_eq r.name name) d.roles)) [
      | inl e ↦ rw (get_or_create_role, e) (refl, refl)
      | inr (r, e) ↦ rw (get_or_create_role, e) (refl, refl)
    ]

-- The grants to the role `user` that a question triggers are made once: the second time they leave
-- every table as it is.
ensure_baseline_role_grants_again :
    (d : Directory)
    → ensure_baseline_role_grants (ensure_baseline_role_grants d) ≡ ensure_baseline_role_grants d
unfolding ensure_baseline_role_grants
ensure_baseline_role_grants_again d =
    elim (Option-cases (find? (λ r. str_eq r.name "user") d.roles)) [
      | inl e ↦
          let q : ensure_baseline_role_grants d ≡ d = rw (ensure_baseline_role_grants, e) refl in
          ap ensure_baseline_role_grants q
      | inr (r, e) ↦
          let g = grant_all-AllGranted r.id (filter is_baseline d.permissions) d.role_permissions in
          let d' : Directory = record d {
            role_permissions = grant_all r.id (filter is_baseline d.permissions) d.role_permissions;
          } in
          let q : ensure_baseline_role_grants d ≡ d' = rw (ensure_baseline_role_grants, e) refl in
          let again : ensure_baseline_role_grants d' ≡ d' =
            rw
              (
                ensure_baseline_role_grants,
                e,
                grant_all_again r.id (filter is_baseline d.permissions) _ g,
              )
              refl in
          rw q again
    ]

module _ (names : List String) where
  -- Whoever is made a content manager in an organization has there every permission of that role
  -- that is in the table.
  pub assign_content_manager-user_has_permission :
      (org_id : ℕ) (d : Directory) (user : User) (m : Membership) (p : Permission) (name : String)
      → (assign_content_manager names org_id user.id d).0 ≡ some m
      → Memᴰ p d.permissions
      → is_content_permission names p ≡ true
      → str_eq p.name name ≡ true
      → user_has_permission
          (assign_content_manager names org_id user.id d).1
          (some org_id)
          user
          name
        ≡ true
  unfolding assign_content_manager ensure_content_manager_role user_has_permission
  assign_content_manager-user_has_permission org_id d user m p name h mem c n =
      elim (Option-cases (find? (λ x. x.org_id == org_id && x.user_id == user.id) d.memberships)) [
        | inl e ↦ absurd (ground (arith, e))
        | inr (old, e) ↦
            let (role, d') = get_or_create_role "content_manager" content_manager_description d in
            let new : Membership = record old { role_id = some role.id } in
            let d'' : Directory = record d' {
              role_permissions =
                  grant_all role.id (filter (is_content_permission names) d'.permissions)
                    d'.role_permissions;
              memberships = update_where (λ x. x.id == old.id) (λ _. new) d'.memberships;
            } in
            let (a, b) = get_or_create_role-rest "content_manager" content_manager_description d in
            let f : (old.org_id == org_id && old.user_id == user.id) ≡ true =
              find?-sound (λ x. x.org_id == org_id && x.user_id == user.id) d.memberships {x = old}
                e in
            let t : (has_role new role.id && (new.user_id == user.id && new.org_id == org_id))
                ≡ true =
              rw (has_role, ==_refl role.id) (ground arith) in
            let g : org_grant d'' user.id org_id name ≡ true =
              org_grant-is_granted d'' user.id org_id role.id name p (rw a mem) n
                (AllGranted-Memᴰ role.id d''.role_permissions {p = p}
                  (Memᴰ-filter (is_content_permission names) {x = p} (rw a mem) c)
                  (grant_all-AllGranted role.id
                    (filter (is_content_permission names) d'.permissions) d'.role_permissions))
                (any-update_where (λ x. x.id == old.id) _ {x = old} {y = new} {xs = d'.memberships}
                  (rw b (
                    find?-Memᴰ (λ x. x.org_id == org_id && x.user_id == user.id) d.memberships
                      {x = old} e))
                  (==_refl old.id) t) in
            elim (Bool-cases user.is_superuser) [
              | inl s ↦ rw (user_has_permission, s) refl
              | inr s ↦
                  elim (Bool-cases (
                    chassis_grant (assign_content_manager names org_id user.id d).1 user.id name)) [
                      | inl k ↦ rw (user_has_permission, s, k) refl
                      | inr k ↦ rw (user_has_permission, s, k) (rw (assign_content_manager, e) g)
                    ]
            ]
      ]
