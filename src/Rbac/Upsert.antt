-- ===== src/Rbac/Upsert.antt =====
-- The get-or-create steps of the seeding, run once and run again.
use oss_us_web_design_system.Base.{
  ℕ, ◌+◌, ◌≡◌, refl, String, Bool, true, some, List, [], ◌∷◌, ◌++◌, any, find?, any-append,
  find?-append, find?-append_new, Option-cases, Bool-cases, or_true, str_eq, eq_iff, arith, inl,
  inr,
}
use native.Mathlib.Nat.{add-zero}
use mathlib.Core.List.{append-nil}
use oss_us_web_design_system.Directory.{Permission, Role, Directory}
use oss_us_web_design_system.Rbac.{missing_permissions, add_permissions, get_or_create_role}

-- Whether a name has a row.
abbrev pub has_name : String → List Permission → Bool
has_name name ps = any (λ p. str_eq p.name name) ps

abbrev pub AllNamed : List (String × String) → List Permission → Type 0
AllNamed [] ps = Unit
AllNamed ((name, _) ∷ registry) ps = (has_name name ps ≡ true) × AllNamed registry ps

missing_permissions-none :
    (ps : List Permission) (id : ℕ) (registry : List (String × String))
    → AllNamed registry ps
    → missing_permissions ps id registry ≡ []
unfolding missing_permissions
missing_permissions-none ps id [] h = refl
missing_permissions-none ps id ((name, description) ∷ registry) h =
    rw h.0 (missing_permissions-none ps id registry h.1)

has_name-more :
    (name : String) (ps ms : List Permission) (q : Permission)
    → has_name name (ps ++ ms) ≡ true
    → has_name name (ps ++ q ∷ ms) ≡ true
has_name-more name ps ms q =
    rw
      (any-append (λ p. str_eq p.name name) ps ms, any-append (λ p. str_eq p.name name) ps (q ∷ ms))
      (λ h. ground arith)

AllNamed-more :
    (registry : List (String × String)) (ps ms : List Permission) (q : Permission)
    → AllNamed registry (ps ++ ms)
    → AllNamed registry (ps ++ q ∷ ms)
AllNamed-more [] ps ms q h = tt
AllNamed-more ((name, _) ∷ registry) ps ms q h =
    (has_name-more name ps ms q h.0, AllNamed-more registry ps ms q h.1)

has_name-left :
    (name : String) (ps ms : List Permission)
    → has_name name ps ≡ true
    → has_name name (ps ++ ms) ≡ true
has_name-left name ps ms h = rw (any-append (λ p. str_eq p.name name) ps ms, h)

has_name-here :
    (name : String) (ps ms : List Permission) (q : Permission)
    → str_eq q.name name ≡ true
    → has_name name (ps ++ q ∷ ms) ≡ true
has_name-here name ps ms q h =
    rw (any-append (λ p. str_eq p.name name) ps (q ∷ ms), h) (or_true (has_name name ps))

missing_permissions-AllNamed :
    (ps : List Permission) (id : ℕ) (registry : List (String × String))
    → AllNamed registry (ps ++ missing_permissions ps id registry)
unfolding missing_permissions
missing_permissions-AllNamed ps id [] = tt
missing_permissions-AllNamed ps id ((name, description) ∷ registry) =
    elim (Bool-cases (has_name name ps)) [
      | inl e ↦ rw e (has_name-left name ps _ e, missing_permissions-AllNamed ps id registry)
      | inr e ↦ rw e (
        has_name-here name ps _ _ ((eq_iff name name).1 refl),
        AllNamed-more registry ps _ _ (missing_permissions-AllNamed ps (id + 1) registry),
      )
    ]

pub add_permissions-AllNamed :
    (registry : List (String × String)) (d : Directory)
    → AllNamed registry (add_permissions registry d).permissions
unfolding add_permissions
add_permissions-AllNamed registry d =
    missing_permissions-AllNamed d.permissions d.next_permission_id registry

pub add_permissions_again :
    (registry : List (String × String)) (d : Directory)
    → AllNamed registry d.permissions
    → add_permissions registry d ≡ d
unfolding add_permissions
add_permissions_again registry d h =
    rw
      (missing_permissions-none d.permissions d.next_permission_id registry h, append-nil, add-zero)

pub get_or_create_role-find :
    (name description : String) (d : Directory)
    → let (r, d') = get_or_create_role name description d in
      find? (λ x. str_eq x.name name) d'.roles ≡ some r
unfolding get_or_create_role
get_or_create_role-find name description d =
    elim (Option-cases (find? (λ x. str_eq x.name name) d.roles)) [
      | inl e ↦
          rw (e, get_or_create_role)
            (find?-append_new (λ x. str_eq x.name name) d.roles _ e ((eq_iff name name).1 refl))
      | inr (r, e) ↦ rw (e, get_or_create_role) e
    ]

pub get_or_create_role-keeps :
    (name description other : String) (d : Directory) {r : Role}
    → find? (λ x. str_eq x.name other) d.roles ≡ some r
    → find? (λ x. str_eq x.name other) (get_or_create_role name description d).1.roles ≡ some r
unfolding get_or_create_role
get_or_create_role-keeps name description other d {r} h =
    elim (Option-cases (find? (λ x. str_eq x.name name) d.roles)) [
      | inl e ↦ rw (e, get_or_create_role) (find?-append (λ x. str_eq x.name other) d.roles _ h)
      | inr (q, e) ↦ rw (e, get_or_create_role) h
    ]

pub get_or_create_role_again :
    (name description : String) (d : Directory) {r : Role}
    → find? (λ x. str_eq x.name name) d.roles ≡ some r
    → get_or_create_role name description d ≡ (r, d)
unfolding get_or_create_role
get_or_create_role_again name description d h = ground arith

pub get_or_create_role-permissions :
    (name description : String) (d : Directory)
    → (get_or_create_role name description d).1.permissions ≡ d.permissions
unfolding get_or_create_role
get_or_create_role-permissions name description d = ground arith
