-- ===== src/Orgs/Default.antt =====
-- The default organization.
use oss_us_web_design_system.Base.{
  ℕ, ◌≡◌, refl, Bool, true, false, not, ◌&&◌, ◌||◌, some, List, [], ◌∷◌, any, ok, err, arith, ◌==◌,
  is_some, Bool-cases, Option-cases, inl, inr, All, map, any-filter-map, All-filter-map,
  if◌then◌else◌,
}
use oss_us_web_design_system.Directory.{Organization, Membership, Directory}
use oss_us_web_design_system.Auth.User.{User}
use oss_us_web_design_system.Orgs.{
  first_membership, comes_before, organization, joined_memberships, get_default_org_for_user,
  set_default, switch_default_org, not_a_member,
}

-- The first row of the order is one of the rows, and a default one if there is any.
first_membership-All :
    (P : Membership → Bool) (ms : List Membership) {m : Membership}
    → first_membership ms ≡ some m
    → All (λ x. P x ≡ true) ms
    → P m ≡ true
unfolding first_membership
first_membership-All P [] h a = cc
first_membership-All P (x ∷ ms) {m} h a = elim (Option-cases (first_membership ms)) [
  | inl e ↦ ground arith
  | inr (n, e) ↦ ground (arith, first_membership-All P ms {m = n} e a.1)
]

first_membership_default :
    (ms : List Membership)
    → any (λ x. x.is_default) ms ≡ true
    → (m : Membership) × (first_membership ms ≡ some m) × (m.is_default ≡ true)
unfolding first_membership
first_membership_default [] h = cc
first_membership_default (x ∷ ms) h = elim (Bool-cases x.is_default) [
  | inl d ↦ elim (Option-cases (first_membership ms)) [
    | inl e ↦ (x, rw (e, first_membership), d)
    | inr (n, e) ↦ (if comes_before n x then n else x, rw (e, first_membership), ground arith)
  ]
  | inr d ↦
      let (n, f, k) = first_membership_default ms (rw d at h) in
      (if comes_before n x then n else x, rw (f, first_membership), ground arith)
]

-- Both updates, on one row.
unfoldable pub set_row : ℕ → ℕ → Membership → Membership
set_row user_id org_id m =
    if m.user_id == user_id then record m { is_default = m.org_id == org_id } else m

set_default-map :
    (user_id org_id : ℕ) (ms : List Membership)
    → set_default user_id org_id ms ≡ map (set_row user_id org_id) ms
unfolding set_default set_row
set_default-map user_id org_id [] = refl
set_default-map user_id org_id (m ∷ ms) =
    let rest = set_default-map user_id org_id ms in rw rest (row m)
  where
    row :
        (x : Membership)
        → (if (if x.user_id == user_id then record x { is_default = false } else x).user_id
                  == user_id
                && (if x.user_id == user_id then record x { is_default = false } else x).org_id
                  == org_id
              then record (if x.user_id == user_id then record x { is_default = false } else x) {
                is_default = true;
              }
              else (if x.user_id == user_id then record x { is_default = false } else x))
            ∷ map (set_row user_id org_id) ms
          ≡ set_row user_id org_id x ∷ map (set_row user_id org_id) ms
    row x = ground arith

get_default_org-first :
    (user : User) (d : Directory) {m : Membership}
    → first_membership (joined_memberships user d) ≡ some m
    → get_default_org_for_user user d ≡ organization m.org_id d
unfolding get_default_org_for_user
get_default_org-first user d f = ground arith

module _ (user : User) (target : ℕ) (d : Directory) where
  abbrev pub switched : Directory
  switched = record d { memberships = set_default user.id target d.memberships }

  abbrev is_joined : Membership → Bool
  is_joined m = m.user_id == user.id && is_some (organization m.org_id switched)

  row_target :
      is_some (organization target d) ≡ true
      → (m : Membership) → (m.user_id == user.id && m.org_id == target) ≡ true
      → (is_joined (set_row user.id target m) ≡ true)
        × ((set_row user.id target m).is_default ≡ true)
  unfolding set_row organization
  row_target org m h =
      let e : m.org_id ≡ target = ground arith in
      let there : is_some (organization m.org_id d) ≡ true = rw e org in
      (ground arith, ground arith)

  row_default :
      (m : Membership)
      → is_joined (set_row user.id target m) ≡ true
      → (not (set_row user.id target m).is_default || (set_row user.id target m).org_id == target)
        ≡ true
  unfolding set_row
  row_default m h = ground arith

  joined_target :
      any (λ m. m.user_id == user.id && m.org_id == target) d.memberships ≡ true
      → is_some (organization target d) ≡ true
      → any (λ m. m.is_default) (joined_memberships user switched) ≡ true
  unfolding joined_memberships
  joined_target member org = rw (set_default-map user.id target d.memberships) (
      any-filter-map (set_row user.id target) is_joined
        (λ m. m.user_id == user.id && m.org_id == target) (λ m. m.is_default) (row_target org)
        d.memberships member)

  joined_default :
      All (λ m. (not m.is_default || m.org_id == target) ≡ true) (joined_memberships user switched)
  unfolding joined_memberships
  joined_default = rw (set_default-map user.id target d.memberships) (
      All-filter-map (set_row user.id target) is_joined
        (λ m. not m.is_default || m.org_id == target) row_default d.memberships)

  switch_default_org_lem :
      {o : Organization}
      → any (λ m. m.user_id == user.id && m.org_id == target) d.memberships ≡ true
      → organization target d ≡ some o
      → switch_default_org user target d ≡ (ok o, switched)
  unfolding switch_default_org set_default
  switch_default_org_lem member org = ground arith

  -- Switching to an organization of which the user is a member, and which is in the table, makes it
  -- the organization that the next request resolves.
  get_default_org-switch :
      {o : Organization}
      → any (λ m. m.user_id == user.id && m.org_id == target) d.memberships ≡ true
      → organization target d ≡ some o
      → (switch_default_org user target d ≡ (ok o, switched))
        × (get_default_org_for_user user (switch_default_org user target d).1 ≡ some o)
  unfolding organization
  get_default_org-switch member org =
      let (m, f, def) =
        first_membership_default (joined_memberships user switched)
          (joined_target member (rw org)) in
      let here =
        first_membership-All (λ x. not x.is_default || x.org_id == target)
          (joined_memberships user switched) f joined_default in
      let e : m.org_id ≡ target = ground arith in
      let result = switch_default_org_lem member org in
      (result, rw (result, get_default_org-first user switched f) (rw e org))

  -- A switch to an organization of which the user is no member is refused, and changes nothing.
  switch_default_org_refused :
      any (λ m. m.user_id == user.id && m.org_id == target) d.memberships ≡ false
      → switch_default_org user target d ≡ (err not_a_member, d)
  unfolding switch_default_org
  switch_default_org_refused h = ground arith
