-- ===== src/Assistant/Answering/Recipients.antt =====
-- Who is to hear of a question without an answer, against the join of `_resolve_alert_recipients`
-- (app/slots/accessibility_assistant/service.py).
use oss_us_web_design_system.Base.{
  ◌⊎◌, ◌≡◌, refl, Bool, true, false, not, ◌&&◌, ◌||◌, suc, ap, opt_eq, opt_eq_sound, str_eq, eq_iff,
  any, any-Memᴰ, Memᴰ-any, Memᴰ, Memᴰ-cases, AllPass, ==_refl, ℕ, Option, some, String, List, [],
  ◌∷◌, filter, length, ◌==◌, if◌then◌else◌, arith, Bool-cases, inl, inr,
}
use oss_us_web_design_system.Auth.User.{User}
use oss_us_web_design_system.Directory.{Directory, Membership, Role}
use oss_us_web_design_system.Assistant.Answering.{has_org_role}

-- Who is to hear of a question without an answer: the administrators and the content managers of the
-- organization, by a membership that has the role.
pub data IsAlertRecipient (d : Directory) (org_id : ℕ) (u : User) : Type 0 where
  by_membership :
      (m : Membership) (r : Role)
      → Memᴰ m d.memberships
      → Memᴰ r d.roles
      → (m.user_id ≡ u.id) × (m.org_id ≡ org_id) × (m.role_id ≡ some r.id)
      → (r.name ≡ "admin") ⊎ (r.name ≡ "content_manager")
      → IsAlertRecipient d org_id u

abbrev pub is_alert_role : String → Bool
is_alert_role n = str_eq n "admin" || str_eq n "content_manager"

is_alert_role_sound :
    (n : String) → is_alert_role n ≡ true → (n ≡ "admin") ⊎ (n ≡ "content_manager")
is_alert_role_sound n h = elim (Bool-cases (str_eq n "admin")) [
  | inl e ↦ inl ((eq_iff n "admin").0 e)
  | inr e ↦ inr ((eq_iff n "content_manager").0 (rw e at h))
]

is_alert_role_complete :
    (n : String) → (n ≡ "admin") ⊎ (n ≡ "content_manager") → is_alert_role n ≡ true
is_alert_role_complete n (inl e) = rw e refl
is_alert_role_complete n (inr e) = rw e refl

opt_eq-some : (o : Option ℕ) (a : ℕ) → opt_eq o (some a) ≡ true → o ≡ some a
opt_eq-some o a h = opt_eq_sound o (some a) h

parts : (a b c : Bool) → (a && b && c) ≡ true → (a ≡ true) × (b ≡ true) × (c ≡ true)
parts a b c h = (ground arith, ground arith, ground arith)

both : (a b : Bool) → (a && b) ≡ true → (a ≡ true) × (b ≡ true)
both a b h = (ground arith, ground arith)

together : (a b c : Bool) → a ≡ true → b ≡ true → c ≡ true → (a && b && c) ≡ true
together a b c h k l = ground arith

and_true : (a b : Bool) → a ≡ true → b ≡ true → (a && b) ≡ true
and_true a b h k = ground arith

same_number : (a b : ℕ) → (a == b) ≡ true → a ≡ b
same_number a b h = ground arith

pub has_alert_role_sound :
    (d : Directory) (org_id : ℕ) (u : User)
    → has_org_role d org_id is_alert_role u ≡ true
    → IsAlertRecipient d org_id u
unfolding has_org_role
has_alert_role_sound d org_id u h =
    let (m, mem, e) = any-Memᴰ _ d.memberships h in
    let (own, org, k) = parts (m.user_id == u.id) (m.org_id == org_id) _ e in
    let (r, mem', f) = any-Memᴰ _ d.roles k in
    let (role, name) = both (opt_eq m.role_id (some r.id)) (is_alert_role r.name) f in
    by_membership m r mem mem'
      (
        same_number m.user_id u.id own,
        same_number m.org_id org_id org,
        opt_eq-some m.role_id r.id role,
      )
      (is_alert_role_sound r.name name)

pub has_alert_role_complete :
    (d : Directory) (org_id : ℕ) (u : User)
    → IsAlertRecipient d org_id u
    → has_org_role d org_id is_alert_role u ≡ true
unfolding has_org_role
has_alert_role_complete d org_id u (by_membership m r mem mem' (own, org, role) name) =
    let own' : (m.user_id == u.id) ≡ true = rw own (==_refl u.id) in
    let org' : (m.org_id == org_id) ≡ true = rw org (==_refl org_id) in
    let role' : opt_eq m.role_id (some r.id) ≡ true = rw role (==_refl r.id) in
    let named : any (λ x. opt_eq m.role_id (some x.id) && is_alert_role x.name) d.roles ≡ true =
      Memᴰ-any (λ x. opt_eq m.role_id (some x.id) && is_alert_role x.name) mem'
        (and_true (opt_eq m.role_id (some r.id)) (is_alert_role r.name) role'
          (is_alert_role_complete r.name name)) in
    Memᴰ-any
      (λ n.
        n.user_id == u.id
        && n.org_id == org_id
        && any (λ x. opt_eq n.role_id (some x.id) && is_alert_role x.name) d.roles)
      mem (together (m.user_id == u.id) (m.org_id == org_id) _ own' org' named)

-- No two rows of users have the same number.
abbrev pub UniqueIds : List User → Type 0
UniqueIds [] = Unit
UniqueIds (u ∷ us) = AllPass (λ v. not (v.id == u.id)) us × UniqueIds us

count_none :
    (q : User → Bool) (j : ℕ) (us : List User)
    → AllPass (λ v. not (v.id == j)) us
    → length (filter (λ v. v.id == j) (filter q us)) ≡ 0
count_none q j [] h = refl
count_none q j (u ∷ us) (h, hs) = elim (Bool-cases (q u)) [
  | inl e ↦ let n : (u.id == j) ≡ false = ground (arith, h) in rw (e, n) (count_none q j us hs)
  | inr e ↦ rw e (count_none q j us hs)
]

not_of_Memᴰ :
    (j : ℕ) (us : List User) {u : User}
    → AllPass (λ v. not (v.id == j)) us
    → Memᴰ u us
    → (u.id == j) ≡ false
not_of_Memᴰ j [] h m = elim m [ ]
not_of_Memᴰ j (v ∷ us) {u} (h, hs) m = elim (Memᴰ-cases m) [
  | inl e ↦ rw e (flip (v.id == j) h)
  | inr k ↦ not_of_Memᴰ j us hs k
]
  where
    flip : (b : Bool) → not b ≡ true → b ≡ false
    flip b h = ground arith

pub count_one :
    (q : User → Bool) (us : List User) (u : User)
    → UniqueIds us
    → Memᴰ u us
    → length (filter (λ v. v.id == u.id) (filter q us)) ≡ (if q u then 1 else 0)
count_one q [] u h m = elim m [ ]
count_one q (v ∷ us) u (h, hs) m = elim (Memᴰ-cases m) [
  | inl e ↦ rw e (elim (Bool-cases (q v)) [
    | inl f ↦ rw (f, ==_refl v.id) (ap suc (count_none q v.id us h))
    | inr f ↦ rw f (count_none q v.id us h)
  ])
  | inr k ↦
      let n : (v.id == u.id) ≡ false =
        let d = not_of_Memᴰ v.id us {u = u} h k in ground (arith, d) in
      elim (Bool-cases (q v)) [
        | inl f ↦ rw (f, n) (count_one q us u hs k)
        | inr f ↦ rw f (count_one q us u hs k)
      ]
]
