-- ===== src/Llm/Keys/Choice.antt =====
-- Which key a call to a provider is given.
use oss_us_web_design_system.Base.{
  ℕ, ◌+◌, ◌≡◌, ◌⊎◌, refl, true, false, Option, none, some, List, [], ◌∷◌, ◌++◌, Memᴰ, filter,
  length, ok, arith, opt_eq, text_eq, Bool-cases, Option-cases, inl, inr, Text, strip,
  text_eq_sound, text_eq_refl, opt_eq_sound, opt_eq_refl, sort_desc, sort_by, insert_by, first-Memᴰ,
  Memᴰ-sort_by, filter-Memᴰ, filter-append_last, ltb,
}
use oss_us_web_design_system.Llm.Crypto.{Cipher, CryptoSettings, nonce_bytes, encrypt, decrypt}
use oss_us_web_design_system.Llm.Crypto.Laws.{decrypt-encrypt}
use oss_us_web_design_system.Llm.Keys.{
  ProviderKey, KeyDb, is_active_key, active_key, own_key, may_share, chosen_key, normalize_provider,
  is_blank_text, deactivate_existing, add_key, resolve_api_key, set_key, of_result,
}
use oss_us_web_design_system.Llm.Keys.Laws.{active-deactivated}

active_key_sound :
    (p : Text) (o : Option ℕ) (db : KeyDb) {k : ProviderKey}
    → active_key p o db ≡ some k
    → Memᴰ k db.keys × (is_active_key p o k ≡ true)
unfolding active_key sort_desc
active_key_sound p o db {k} h =
    let rows = filter (is_active_key p o) db.keys in
    let m : Memᴰ k (sort_desc (λ x. x.id) rows) =
      first-Memᴰ (sort_desc (λ x. x.id) rows) {x = k} h in
    filter-Memᴰ (is_active_key p o) db.keys {x = k}
      (Memᴰ-sort_by (λ a b. ltb b.id a.id) rows {y = k} m)

active_key-columns :
    (p : Text) (o : Option ℕ) (k : ProviderKey)
    → is_active_key p o k ≡ true
    → (k.provider ≡ p) × (k.is_active ≡ true) × (k.organization_id ≡ o)
unfolding is_active_key
active_key-columns p o k h =
    let e : text_eq k.provider p ≡ true = ground arith in
    let f : opt_eq k.organization_id o ≡ true = ground arith in
    (text_eq_sound k.provider p e, ground arith, opt_eq_sound k.organization_id o f)

own_key_sound :
    (p : Text) (o : Option ℕ) (db : KeyDb) {k : ProviderKey}
    → own_key p o db ≡ some k
    → active_key p o db ≡ some k
unfolding own_key
own_key_sound p none db h = cc
own_key_sound p (some o) db h = h

-- The key that a call is given is an active row of the table for that provider. It is the
-- organization's own, or it is the shared one and the organization may use it; a call without an
-- organization is given the shared one.
pub chosen_key_sound :
    (provider : Text) (org_id : Option ℕ) (db : KeyDb) (k : ProviderKey)
    → chosen_key provider org_id db ≡ some k
    → Memᴰ k db.keys
      × (k.provider ≡ provider)
      × (k.is_active ≡ true)
      × ((k.organization_id ≡ org_id) ⊎ ((k.organization_id ≡ none) × (may_share org_id db ≡ true)))
unfolding chosen_key
chosen_key_sound provider org_id db k h = elim (Option-cases (own_key provider org_id db)) [
  | inr (k', e) ↦
      let q : k' ≡ k = ground (arith, e) in
      let (m, a) =
        active_key_sound provider org_id db {k = k}
          (own_key_sound provider org_id db {k = k} (rw (← q) e)) in
      let (x, y, z) = active_key-columns provider org_id k a in (m, x, y, inl z)
  | inl e ↦ elim (Bool-cases (may_share org_id db)) [
    | inr f ↦ absurd (ground (arith, e, f))
    | inl f ↦
        let (m, a) = active_key_sound provider none db {k = k} (rw (chosen_key, e, f) at h) in
        let (x, y, z) = active_key-columns provider none k a in (m, x, y, inr (z, f))
  ]
]

chosen-active :
    (p : Text) (o : Option ℕ) (db : KeyDb) (k : ProviderKey)
    → active_key p o db ≡ some k
    → chosen_key p o db ≡ some k
unfolding chosen_key own_key may_share
chosen-active p none db k h = h
chosen-active p (some o) db k h = rw (chosen_key, own_key, h) refl

new-active :
    (p : Text) (o : Option ℕ) (k : ProviderKey)
    → k.provider ≡ p
    → k.organization_id ≡ o
    → k.is_active ≡ true
    → is_active_key p o k ≡ true
unfolding is_active_key
new-active p o k a b c = rw (a, b, c, text_eq_refl p, opt_eq_refl o) refl

-- The key that `set_key` adds is the one active key of its scope.
active_key-added :
    (p : Text) (o : Option ℕ) (db db' : KeyDb) (k : ProviderKey)
    → is_active_key p o k ≡ true
    → db'.keys ≡ (deactivate_existing p o db).keys ++ k ∷ []
    → active_key p o db' ≡ some k
unfolding active_key deactivate_existing sort_desc sort_by insert_by
active_key-added p o db db' k a e =
    rw
      (
        e,
        filter-append_last (is_active_key p o) (deactivate_existing p o db).keys k,
        deactivate_existing,
        active-deactivated p o db.keys,
        a,
      )
      refl

unfoldable with_key : Text → Option ℕ → Text → Option ℕ → KeyDb → KeyDb
with_key name org_id token user_id db =
    let off = deactivate_existing name org_id db in
    let k : ProviderKey = record {
      id = off.next_key_id;
      organization_id = org_id;
      provider = name;
      encrypted_key = token;
      is_active = true;
      created_by_user_id = user_id;
    } in
    record off { keys = off.keys ++ k ∷ []; next_key_id = off.next_key_id + 1 }

module _ (cipher : Cipher) (s : CryptoSettings) where
  set_key-state :
      (nonce : List ℕ) (provider plaintext token : Text) (org_id user_id : Option ℕ) (db : KeyDb)
      → is_blank_text (normalize_provider provider) ≡ false
      → is_blank_text (strip plaintext) ≡ false
      → encrypt cipher s nonce (strip plaintext) ≡ ok token
      → (set_key cipher s nonce provider plaintext org_id user_id db).1
        ≡ with_key (normalize_provider provider) org_id token user_id db
  unfolding set_key add_key of_result with_key
  set_key-state nonce provider plaintext token org_id user_id db a b e = rw (a, b, e) refl

  chosen_key-with_key :
      (name token : Text) (org_id user_id : Option ℕ) (db : KeyDb)
      → (k : ProviderKey) × (k.encrypted_key ≡ token)
        × (chosen_key name org_id (with_key name org_id token user_id db) ≡ some k)
  unfolding with_key
  chosen_key-with_key name token org_id user_id db =
      let off = deactivate_existing name org_id db in
      let k : ProviderKey = record {
        id = off.next_key_id;
        organization_id = org_id;
        provider = name;
        encrypted_key = token;
        is_active = true;
        created_by_user_id = user_id;
      } in
      let db' = with_key name org_id token user_id db in
      (
        k,
        refl,
        chosen-active name org_id db' k
            (active_key-added name org_id db db' k (new-active name org_id k refl refl refl) refl),
      )

  resolve-chosen :
      (name t : Text) (org_id : Option ℕ) (db : KeyDb) (k : ProviderKey)
      → chosen_key name org_id db ≡ some k
      → decrypt cipher s k.encrypted_key ≡ ok t
      → resolve_api_key cipher s name org_id db ≡ (ok t, db)
  unfolding resolve_api_key chosen_key of_result
  resolve-chosen name t org_id db k h d = ground (arith, h, d)

  -- After `set_key` has stored a key under a fresh nonce, a call to that provider for the same
  -- organization, or for none, is given the key as it was entered, less white space around it.
  pub resolve_api_key-set_key :
      (nonce : List ℕ) (provider plaintext token : Text) (org_id user_id : Option ℕ) (db : KeyDb)
      → length nonce ≡ nonce_bytes
      → is_blank_text (normalize_provider provider) ≡ false
      → is_blank_text (strip plaintext) ≡ false
      → encrypt cipher s nonce (strip plaintext) ≡ ok token
      → let db' = (set_key cipher s nonce provider plaintext org_id user_id db).1 in
        resolve_api_key cipher s (normalize_provider provider) org_id db'
        ≡ (ok (strip plaintext), db')
  resolve_api_key-set_key nonce provider plaintext token org_id user_id db n a b e =
      let name = normalize_provider provider in
      let (k, t, w) = chosen_key-with_key name token org_id user_id db in
      let d : decrypt cipher s k.encrypted_key ≡ ok (strip plaintext) =
        rw t (decrypt-encrypt cipher s nonce (strip plaintext) {token = token} n e) in
      rw (set_key-state nonce provider plaintext token org_id user_id db a b e)
        (resolve-chosen name (strip plaintext) org_id (with_key name org_id token user_id db) k w d)
