-- ===== src/Llm/Keys/Laws.antt =====
-- Which keys are active and which key a call is given, over any calls of the service.
use oss_us_web_design_system.Base.{
  ℕ, ◌+◌, ◌≤◌, ◌≡◌, ◌∙◌, ◌⊎◌, refl, sym, Bool, true, false, Option, List, [], ◌∷◌, ◌++◌, filter,
  find?, length, update_where, ◌==◌, opt_eq, if◌then◌else◌, arith, Bool-cases, Option-cases,
  Result-cases, inl, inr, Text, strip, text_eq, text_eq_sound, opt_eq_sound,
}
use oss_us_web_design_system.Llm.Crypto.{Cipher, CryptoSettings, encrypt}
use oss_us_web_design_system.Llm.Keys.{
  ProviderKey, KeyDb, is_active_key, normalize_provider, is_blank_text, deactivate_existing,
  add_key, deactivate_key, set_org_shared_access, set_key, of_result,
}

-- How many active keys a provider has in a scope.
unfoldable pub active_count : Text → Option ℕ → List ProviderKey → ℕ
unfolding is_active_key
active_count provider org_id keys = length (filter (is_active_key provider org_id) keys)

-- Every provider has at most one active key in every scope.
abbrev pub SingleActive : KeyDb → Type 0
SingleActive db = (provider : Text) (org_id : Option ℕ) → active_count provider org_id db.keys ≤ 1

switched_off :
    (p : Text) (o : Option ℕ) (k : ProviderKey)
    → is_active_key p o (record k { is_active = false }) ≡ false
unfolding is_active_key
switched_off p o k = ground arith

-- Switching keys off, whichever they are, makes no more of them active.
active_count-off :
    (q : ProviderKey → Bool) (p : Text) (o : Option ℕ) (keys : List ProviderKey)
    → active_count p o (update_where q (λ k. record k { is_active = false }) keys)
      ≤ active_count p o keys
unfolding active_count
active_count-off q p o [] = omega arith
active_count-off q p o (k ∷ keys) =
    let rest = active_count-off q p o keys in
    elim (Bool-cases (q k)) [
      | inl e ↦ elim (Bool-cases (is_active_key p o k)) [
        | inl f ↦ rw (e, switched_off p o k, f) (omega arith)
        | inr f ↦ rw (e, switched_off p o k, f) rest
      ]
      | inr e ↦ elim (Bool-cases (is_active_key p o k)) [
        | inl f ↦ rw (e, f) (omega arith)
        | inr f ↦ rw (e, f) rest
      ]
    ]

-- No key of the scope is left active when all of them are switched off.
pub active-deactivated :
    (p : Text) (o : Option ℕ) (keys : List ProviderKey)
    → filter
        (is_active_key p o)
        (update_where (is_active_key p o) (λ k. record k { is_active = false }) keys)
      ≡ []
active-deactivated p o [] = refl
active-deactivated p o (k ∷ keys) = elim (Bool-cases (is_active_key p o k)) [
  | inl e ↦ rw (e, switched_off p o k) (active-deactivated p o keys)
  | inr e ↦ rw (e, e) (active-deactivated p o keys)
]

-- Rows that are added at the end of a table are counted on their own.
count-append_last :
    {A : Type 0} (q : A → Bool) (xs : List A) (x : A)
    → length (filter q (xs ++ x ∷ [])) ≡ length (filter q xs) + (if q x then 1 else 0)
count-append_last q [] x = ground arith
count-append_last q (y ∷ xs) x = let rest = count-append_last q xs x in ground arith

-- What a call of `set_key` leaves in the table.
Replaced : Text → Option ℕ → KeyDb → List ProviderKey → Type 0
Replaced name org_id db keys =
    (keys ≡ db.keys)
    ⊎ (keys ≡ (deactivate_existing name org_id db).keys)
    ⊎ ((k : ProviderKey) × (k.provider ≡ name)
        × (k.organization_id ≡ org_id)
        × (keys ≡ (deactivate_existing name org_id db).keys ++ k ∷ []))

-- An active key belongs to one scope and one provider only.
scope_unique :
    {p q : Text} {o r : Option ℕ} (k : ProviderKey)
    → k.provider ≡ q
    → k.organization_id ≡ r
    → is_active_key p o k ≡ true
    → (p ≡ q) × (o ≡ r)
unfolding is_active_key
scope_unique {p} {q} {o} {r} k a b h =
    let e : text_eq k.provider p ≡ true = ground arith in
    let f : opt_eq k.organization_id o ≡ true = ground arith in
    (sym (text_eq_sound k.provider p e) ∙ a, sym (opt_eq_sound k.organization_id o f) ∙ b)

active_count-added :
    (q : Text) (r : Option ℕ) (db : KeyDb) (k : ProviderKey)
    → k.provider ≡ q
    → k.organization_id ≡ r
    → SingleActive db
    → (p : Text) (o : Option ℕ) → active_count p o ((deactivate_existing q r db).keys ++ k ∷ []) ≤ 1
unfolding active_count deactivate_existing
active_count-added q r db k a b s p o =
    let off = update_where (is_active_key q r) (λ x. record x { is_active = false }) db.keys in
    let n : length (filter (is_active_key p o) (off ++ k ∷ []))
        ≡ length (filter (is_active_key p o) off) + (if is_active_key p o k then 1 else 0) =
      count-append_last (is_active_key p o) off k in
    elim (Bool-cases (is_active_key p o k)) [
      | inl e ↦
          let (x, y) = scope_unique {p = p} {q = q} {o = o} {r = r} k a b e in
          let z : filter (is_active_key p o) off ≡ [] =
            rw (x, y) (active-deactivated q r db.keys) in
          rw (n, e, z) (omega arith)
      | inr e ↦
          let t : length (filter (is_active_key p o) off)
              ≤ length (filter (is_active_key p o) db.keys) =
            active_count-off (is_active_key q r) p o db.keys in
          let u : length (filter (is_active_key p o) db.keys) ≤ 1 = s p o in rw (n, e) (omega arith)
    ]

Replaced-SingleActive :
    (name : Text) (org_id : Option ℕ) (db db' : KeyDb)
    → SingleActive db
    → Replaced name org_id db db'.keys
    → SingleActive db'
unfolding Replaced deactivate_existing active_count
Replaced-SingleActive name org_id db db' s (inl e) = λ p o. rw e (s p o)
Replaced-SingleActive name org_id db db' s (inr (inl e)) = λ p o.
    let t = active_count-off (is_active_key name org_id) p o db.keys in
    let u = s p o in rw e (omega (arith, t, u))
Replaced-SingleActive name org_id db db' s (inr (inr (k, a, b, e))) =
    λ p o. rw e (active_count-added name org_id db k a b s p o)

-- A call of the service.
pub data KeyCall : Type 0 where
  set : List ℕ → Text → Text → Option ℕ → Option ℕ → KeyCall
  deactivate : ProviderKey → KeyCall
  allow : ℕ → Bool → KeyCall

module _ (cipher : Cipher) (s : CryptoSettings) where
  set_key-Replaced :
      (nonce : List ℕ) (provider plaintext : Text) (org_id user_id : Option ℕ) (db : KeyDb)
      → Replaced
          (normalize_provider provider)
          org_id
          db
          (set_key cipher s nonce provider plaintext org_id user_id db).1.keys
  unfolding set_key of_result add_key Replaced
  set_key-Replaced nonce provider plaintext org_id user_id db =
      elim (Bool-cases (is_blank_text (normalize_provider provider))) [
        | inl e ↦ rw e (inl refl)
        | inr e ↦ elim (Bool-cases (is_blank_text (strip plaintext))) [
          | inl f ↦ rw (e, f) (inl refl)
          | inr f ↦ elim (Result-cases (encrypt cipher s nonce (strip plaintext))) [
            | inr (x, g) ↦ rw (e, f, g) (inr (inl refl))
            | inl (token, g) ↦ rw (e, f, g) (inr (inr (_, refl, refl, refl)))
          ]
        ]
      ]

  unfoldable pub run_call : KeyCall → KeyDb → KeyDb
  unfolding set_key deactivate_key set_org_shared_access
  run_call (set nonce provider plaintext org_id user_id) db =
      (set_key cipher s nonce provider plaintext org_id user_id db).1
  run_call (deactivate key) db = (deactivate_key key db).1
  run_call (allow org_id b) db = (set_org_shared_access org_id b db).1

  unfoldable pub run_calls : List KeyCall → KeyDb → KeyDb
  unfolding run_call
  run_calls [] db = db
  run_calls (c ∷ cs) db = run_calls cs (run_call c db)

  allow-keys :
      (org_id : ℕ) (b : Bool) (db : KeyDb) → (set_org_shared_access org_id b db).1.keys ≡ db.keys
  unfolding set_org_shared_access
  allow-keys org_id b db =
      elim (Option-cases (find? (λ a. a.organization_id == org_id) db.access)) [
        | inl e ↦ rw (set_org_shared_access, e) refl
        | inr (a, e) ↦ rw (set_org_shared_access, e) refl
      ]

  run_call-SingleActive :
      (c : KeyCall) (db : KeyDb) → SingleActive db → SingleActive (run_call c db)
  unfolding run_call deactivate_key
  run_call-SingleActive (set nonce provider plaintext org_id user_id) db h =
      Replaced-SingleActive (normalize_provider provider) org_id db
        (set_key cipher s nonce provider plaintext org_id user_id db).1 h
        (set_key-Replaced nonce provider plaintext org_id user_id db)
  run_call-SingleActive (deactivate key) db h =
      λ p o. omega (arith, active_count-off (λ x. x.id == key.id) p o db.keys, h p o)
  run_call-SingleActive (allow org_id b) db h = λ p o. rw (allow-keys org_id b db) (h p o)

  -- Over any calls that set and deactivate keys and change the sharing policy, no provider ever has
  -- two active keys in one scope, if none has at the start.
  pub run_calls-SingleActive :
      (cs : List KeyCall) (db : KeyDb) → SingleActive db → SingleActive (run_calls cs db)
  unfolding run_calls
  run_calls-SingleActive [] db h = h
  run_calls-SingleActive (c ∷ cs) db h =
      run_calls-SingleActive cs (run_call c db) (run_call-SingleActive c db h)
