-- ===== src/Assistant/Sharing.antt =====
-- Platform-level sharing (`_share_resource` and its three callers), on a table of resources that
-- stands for the FAQs, the sources and the source categories alike.
use oss_us_web_design_system.Base.{
  ℕ, ◌≡◌, ◌⊎◌, String, Bool, true, false, not, ◌&&◌, Option, none, some, List, [], ◌∷◌, find?,
  update_where, Action, ok, err, pure, raise_if, gets, or_raise, modify, ◌>>=◌, ◌>>◌, str_eq, ◌==◌,
  if◌then◌else◌, arith, Option-cases, Bool-cases, inl, inr,
}
use oss_us_web_design_system.Auth.User.{User}
use oss_us_web_design_system.Tenancy.{select_one}

-- The columns that sharing reads and writes.
pub record Resource : Type 0 where
  pub id : ℕ
  pub org_id : ℕ
  pub is_platform_shared : Bool
  pub creator_role_snapshot : Option String

-- The table, and the organization bound to the request.
pub record ShareDb : Type 0 where
  pub resources : List Resource
  pub current_org : Option ℕ

pub data ShareError : Type 0 where
  platform_share_denied platform_share_ineligible resource_not_found : ShareError

-- `_creator_role_snapshot_for`.
unfoldable pub creator_role_snapshot_for : User → String
creator_role_snapshot_for user = if user.is_superuser then "platform_admin" else "other"

unfoldable pub is_eligible : Resource → Bool
is_eligible r = elim r.creator_role_snapshot [
  | none ↦ false
  | some role ↦ str_eq role "platform_admin"
]

unfoldable pub save_resource : Resource → List Resource → List Resource
save_resource r rows = update_where (λ x. x.id == r.id) (λ _. r) rows

-- `_share_resource` once the row is looked up.
unfoldable pub share_found : Bool → Option Resource → Action ShareDb ShareError (Option Resource)
unfolding is_eligible save_resource
share_found is_shared none = pure none
share_found is_shared (some r) = do
  raise_if (is_shared && not (is_eligible r)) platform_share_ineligible
  modify (λ db. record db {
    resources = save_resource (record r { is_platform_shared = is_shared }) db.resources;
  })
  pure (some (record r { is_platform_shared = is_shared }))

-- `_share_resource`; the lookup runs with no organization bound, and binds the old one again.
unfoldable pub share_resource : ℕ → Bool → User → Action ShareDb ShareError (Option Resource)
unfolding share_found
share_resource resource_id is_shared user = do
  raise_if (not user.is_superuser) platform_share_denied
  found ← gets (λ db. select_one (λ x. x.org_id) none (λ x. x.id == resource_id) db.resources)
  share_found is_shared found

-- `share_information_source_category`, `share_information_source` and `share_faq`.
unfoldable pub share : User → ℕ → Bool → Action ShareDb ShareError Resource
unfolding share_resource
share user resource_id is_shared = do
  or_raise (← share_resource resource_id is_shared user) resource_not_found

-- Whatever is shared was created by a platform administrator.
abbrev pub IsShareSafe : List Resource → Type 0
IsShareSafe [] = Unit
IsShareSafe (r ∷ rows) = (r.is_platform_shared ≡ true → is_eligible r ≡ true) × IsShareSafe rows

save_resource-IsShareSafe :
    (r : Resource) (rows : List Resource)
    → (r.is_platform_shared ≡ true → is_eligible r ≡ true)
    → IsShareSafe rows
    → IsShareSafe (save_resource r rows)
unfolding save_resource
save_resource-IsShareSafe r [] h s = tt
save_resource-IsShareSafe r (x ∷ rows) h s = elim (Bool-cases (x.id == r.id)) [
  | inl e ↦ rw e (h, save_resource-IsShareSafe r rows h s.1)
  | inr e ↦ rw e (s.0, save_resource-IsShareSafe r rows h s.1)
]

share_found-IsShareSafe :
    (is_shared : Bool) (found : Option Resource) (db : ShareDb)
    → IsShareSafe db.resources
    → IsShareSafe (share_found is_shared found db).1.resources
unfolding share_found
share_found-IsShareSafe is_shared none db s = s
share_found-IsShareSafe is_shared (some r) db s =
    elim (Bool-cases (is_shared && not (is_eligible r))) [
      | inl e ↦ rw e s
      | inr e ↦ rw e (
          save_resource-IsShareSafe (record r { is_platform_shared = is_shared }) db.resources
            (λ h. eligible h e) s)
    ]
  where
    eligible :
        is_shared ≡ true
        → (is_shared && not (is_eligible r)) ≡ false
        → is_eligible (record r { is_platform_shared = is_shared }) ≡ true
    eligible h e = ground arith

-- The rows that a call leaves.
share-resources :
    (user : User) (resource_id : ℕ) (is_shared : Bool) (db : ShareDb)
    → user.is_superuser ≡ true
    → (share user resource_id is_shared db).1.resources
      ≡ (share_found is_shared
          (select_one (λ x. x.org_id) none (λ x. x.id == resource_id) db.resources)
          db).1.resources
unfolding share
share-resources user resource_id is_shared db h = ground arith

share-resources_denied :
    (user : User) (resource_id : ℕ) (is_shared : Bool) (db : ShareDb)
    → user.is_superuser ≡ false
    → (share user resource_id is_shared db).1.resources ≡ db.resources
unfolding share
share-resources_denied user resource_id is_shared db h = ground arith

-- If every shared resource was created by a platform administrator, that still holds after a call of
-- the sharing functions, by anyone and with any outcome.
pub share-IsShareSafe :
    (user : User) (resource_id : ℕ) (is_shared : Bool) (db : ShareDb)
    → IsShareSafe db.resources
    → IsShareSafe (share user resource_id is_shared db).1.resources
share-IsShareSafe user resource_id is_shared db s = elim (Bool-cases user.is_superuser) [
  | inl e ↦ rw (share-resources user resource_id is_shared db e) (
      share_found-IsShareSafe is_shared
        (select_one (λ x. x.org_id) none (λ x. x.id == resource_id) db.resources) db s)
  | inr e ↦ rw (share-resources_denied user resource_id is_shared db e) s
]

-- Whoever is no platform administrator is refused, and nothing changes.
share_denied :
    (user : User) (resource_id : ℕ) (is_shared : Bool) (db : ShareDb)
    → user.is_superuser ≡ false
    → share user resource_id is_shared db ≡ (err platform_share_denied, db)
unfolding share
share_denied user resource_id is_shared db h = ground arith

-- A call that succeeds is one by a platform administrator, and it returns the row of that id, in
-- whichever organization, with its flag set as asked; sharing succeeds only on an eligible row.
share_success :
    (user : User) (resource_id : ℕ) (is_shared : Bool) (db : ShareDb) {r : Resource}
    → (share user resource_id is_shared db).0 ≡ ok r
    → (user.is_superuser ≡ true)
      × ((old : Resource) × (find? (λ x. x.id == resource_id) db.resources ≡ some old)
          × (r ≡ record old { is_platform_shared = is_shared })
          × ((is_shared ≡ false) ⊎ (is_eligible old ≡ true)))
unfolding share select_one
share_success user resource_id is_shared db {r} h =
    elim (Option-cases (find? (λ x. x.id == resource_id) db.resources)) [
      | inl e ↦ absurd (ground arith)
      | inr (old, e) ↦ (ground arith, (old, e, ground arith, ground arith))
    ]
