-- ===== src/Compliance/SelfAudit/Privileged.antt =====
-- The accounts that the check of multi-factor authentication looks at, against those that the gate of
-- a route takes for privileged (app/rbac/service.py).
use oss_us_web_design_system.Base.{
  ℕ, ◌≡◌, refl, ◌∙◌, Bool, true, false, not, ◌&&◌, some, List, [], ◌∷◌, filter, any, any-Memᴰ,
  Memᴰ-any, arith, Bool-cases, inl, inr, str_eq, ◌==◌,
}
use oss_us_web_design_system.Auth.User.{User}
use oss_us_web_design_system.Directory.{Directory}
use oss_us_web_design_system.Rbac.{is_privileged_user}
use oss_us_web_design_system.Compliance.SelfAudit.{
  Live, pass_if, in_privileged_query, check_mfa_enforced_for_privileged,
}
use oss_us_web_design_system.Compliance.SelfAudit.Report.{outcome_of}

bool_ext : (a b : Bool) → (a ≡ true → b ≡ true) → (b ≡ true → a ≡ true) → a ≡ b
bool_ext true b f g = rw (f refl) refl
bool_ext false true f g = g refl
bool_ext false false f g = refl

and_parts : (a b : Bool) → (a && b) ≡ true → (a ≡ true) × (b ≡ true)
and_parts a b h = (ground arith, ground arith)

and_both : (a b : Bool) → a ≡ true → b ≡ true → (a && b) ≡ true
and_both a b h k = ground arith

-- Two tables may be searched in either order.
any-swap :
    {A B : Type 0} (p : A → Bool) (q : B → Bool) (r : A → B → Bool) (s : B → A → Bool) (xs : List A)
    (ys : List B)
    → ((a : A) (b : B) → r a b ≡ s b a)
    → any (λ a. p a && any (λ b. r a b && q b) ys) xs ≡ true
    → any (λ b. q b && any (λ a. s b a && p a) xs) ys ≡ true
any-swap p q r s xs ys k h =
    let (a, m, e) = any-Memᴰ _ xs h in
    let (f, g) = and_parts (p a) _ e in
    let (b, n, j) = any-Memᴰ _ ys g in
    let (u, v) = and_parts (r a b) (q b) j in
    Memᴰ-any _ n (and_both (q b) _ v (Memᴰ-any _ m (and_both (s b a) (p a) (rw (← k a b) u) f)))

==_sym : (m n : ℕ) → (m == n) ≡ (n == m)
==_sym m n = ground arith

in_privileged_query_lem :
    (d : Directory) (u : User) → in_privileged_query d u ≡ is_privileged_user d u
unfolding in_privileged_query is_privileged_user
in_privileged_query_lem d u = elim (Bool-cases u.is_superuser) [
  | inl e ↦ rw e refl
  | inr e ↦ rw e (
      bool_ext _ _
        (any-swap (λ ur. ur.user_id == u.id) (λ r. str_eq r.name "admin")
          (λ ur r. r.id == ur.role_id) (λ r ur. ur.role_id == r.id) d.user_roles d.roles
          (λ ur r. ==_sym r.id ur.role_id))
        (any-swap (λ r. str_eq r.name "admin") (λ ur. ur.user_id == u.id)
          (λ r ur. ur.role_id == r.id) (λ ur r. r.id == ur.role_id) d.roles d.user_roles
          (λ r ur. ==_sym ur.role_id r.id)))
]

any-filter :
    {A : Type 0} (p q r : A → Bool) (xs : List A)
    → ((x : A) → q x ≡ r x)
    → any p (filter q xs) ≡ any (λ x. r x && p x) xs
any-filter p q r [] h = refl
any-filter p q r (x ∷ xs) h =
    rw (← any-filter p q r xs h, ← h x)
      (elim (Bool-cases (q x)) [ inl e ↦ rw e refl | inr e ↦ rw e refl ])

fails_without :
    (us : List User)
    → str_eq
        (outcome_of (elim us [
          | [] ↦ some "not_applicable"
          | u ∷ vs ↦ pass_if (not (any (λ x. not x.mfa_enabled) (u ∷ vs)))
        ]))
        "fail"
      ≡ any (λ x. not x.mfa_enabled) us
unfolding outcome_of
fails_without [] = refl
fails_without (u ∷ us) = elim (Bool-cases (any (λ x. not x.mfa_enabled) (u ∷ us))) [
  | inl e ↦ rw e refl
  | inr e ↦ rw e refl
]

-- The check of IA-2(1) fails exactly at the moderate level when one of the accounts that the gate of a
-- route takes for privileged has no multi-factor authentication.
pub check_mfa_enforced_for_privileged-is_privileged_user :
    (live : Live)
    → str_eq (outcome_of (check_mfa_enforced_for_privileged live)) "fail" ≡ (
        str_eq live.settings.fisma_level "moderate"
        && any (λ u. is_privileged_user live.directory u && not u.mfa_enabled) live.users)
unfolding check_mfa_enforced_for_privileged outcome_of
check_mfa_enforced_for_privileged-is_privileged_user live =
    elim (Bool-cases (str_eq live.settings.fisma_level "moderate")) [
      | inl e ↦ rw e (
          fails_without (filter (in_privileged_query live.directory) live.users)
          ∙ any-filter (λ u. not u.mfa_enabled) (in_privileged_query live.directory)
              (is_privileged_user live.directory) live.users
              (in_privileged_query_lem live.directory))
      | inr e ↦ rw e refl
    ]
