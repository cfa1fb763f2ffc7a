-- ===== src/Llm/Keys.antt =====
-- The provider keys and the choice between an organization's own key and the shared one
-- (app/llm/service.py, app/llm/models.py). Creation and update stamps are left out.
pub mod Laws
pub mod Choice
use oss_us_web_design_system.Base.{
  ℕ, ◌+◌, Bool, true, false, not, ◌&&◌, ◌||◌, Option, none, some, String, List, [], ◌∷◌, ◌++◌,
  filter, find?, map, update_where, Action, pure, raise, raise_if, or_raise, gets, modify, ◌>>=◌,
  ◌>>◌, Result, ok, err, ◌==◌, opt_eq, ltb, leb, is_some, if◌then◌else◌, Text, strip, lower,
  text_eq, first, sort_by, sort_desc,
}
use oss_us_web_design_system.Llm.Crypto.{
  CryptoError, decryption_error, insecure_key_error, value_error, Cipher, CryptoSettings, encrypt,
  decrypt, mask,
}

pub record ProviderKey : Type 0 where
  pub id : ℕ
  pub organization_id : Option ℕ
  pub provider : Text
  pub encrypted_key : Text
  pub is_active : Bool
  pub created_by_user_id : Option ℕ

pub record OrgAccess : Type 0 where
  pub id : ℕ
  pub organization_id : ℕ
  pub allow_shared_key : Bool

pub record KeyDb : Type 0 where
  pub keys : List ProviderKey
  pub access : List OrgAccess
  pub next_key_id : ℕ
  pub next_access_id : ℕ

pub data KeyError : Type 0 where
  provider_required : KeyError
  key_required : KeyError
  key_unavailable : KeyError
  crypto : CryptoError → KeyError

-- `KeyView`.
pub record KeyView : Type 0 where
  pub id : ℕ
  pub provider : Text
  pub is_shared : Bool
  pub organization_id : Option ℕ
  pub is_active : Bool
  pub masked : Option Text

-- The WHERE clause of `_active_key` and of `_deactivate_existing`.
unfoldable pub is_active_key : Text → Option ℕ → ProviderKey → Bool
is_active_key provider org_id k =
    text_eq k.provider provider && k.is_active && opt_eq k.organization_id org_id

unfoldable pub active_key : Text → Option ℕ → KeyDb → Option ProviderKey
unfolding is_active_key sort_desc
active_key provider org_id db =
    first (sort_desc (λ k. k.id) (filter (is_active_key provider org_id) db.keys))

unfoldable pub org_allows_shared : ℕ → KeyDb → Bool
org_allows_shared org_id db = elim (find? (λ a. a.organization_id == org_id) db.access) [
  | none ↦ false
  | some a ↦ a.allow_shared_key
]

unfoldable pub of_result : {A : Type 0} → Result CryptoError A → Action KeyDb KeyError A
of_result r db = elim r [ ok a ↦ (ok a, db) | err e ↦ (err (crypto e), db) ]

-- Whether a caller may use the shared key.
unfoldable pub may_share : Option ℕ → KeyDb → Bool
unfolding org_allows_shared
may_share none db = true
may_share (some org) db = org_allows_shared org db

-- The organization's own key.
unfoldable pub own_key : Text → Option ℕ → KeyDb → Option ProviderKey
unfolding active_key
own_key provider none db = none
own_key provider (some org) db = active_key provider (some org) db

-- The row that `resolve_api_key` decrypts.
unfoldable pub chosen_key : Text → Option ℕ → KeyDb → Option ProviderKey
unfolding own_key may_share active_key
chosen_key provider org_id db = elim (own_key provider org_id db) [
  | some k ↦ some k
  | none ↦ if may_share org_id db then active_key provider none db else none
]

-- `provider.strip().lower()`.
unfoldable pub normalize_provider : Text → Text
normalize_provider provider = lower (strip provider)

-- `_deactivate_existing`.
unfoldable pub deactivate_existing : Text → Option ℕ → KeyDb → KeyDb
unfolding is_active_key
deactivate_existing provider org_id db = record db {
  keys = update_where (is_active_key provider org_id) (λ k. record k { is_active = false }) db.keys;
}

unfoldable pub is_blank_text : Text → Bool
is_blank_text [] = true
is_blank_text (_ ∷ _) = false

unfoldable pub add_key : Text → Option ℕ → Text → Option ℕ → Action KeyDb KeyError ProviderKey
add_key provider org_id token user_id = do
  id ← gets (λ db. db.next_key_id)
  let k : ProviderKey = record {
    id = id;
    organization_id = org_id;
    provider = provider;
    encrypted_key = token;
    is_active = true;
    created_by_user_id = user_id;
  }
  modify (λ db. record db { keys = db.keys ++ k ∷ []; next_key_id = id + 1 })
  pure k

-- `deactivate_key`.
unfoldable pub deactivate_key : ProviderKey → Action KeyDb KeyError ProviderKey
deactivate_key key = do
  let k = record key { is_active = false }
  modify (λ db. record db {
    keys = update_where (λ x. x.id == key.id) (λ x. record x { is_active = false }) db.keys;
  })
  pure k

unfoldable pub get_key : ℕ → KeyDb → Option ProviderKey
get_key key_id db = find? (λ k. k.id == key_id) db.keys

-- `set_org_shared_access`.
unfoldable pub set_org_shared_access : ℕ → Bool → Action KeyDb KeyError OrgAccess
set_org_shared_access org_id allow db = elim (find? (λ a. a.organization_id == org_id) db.access) [
  | none ↦
      let a : OrgAccess = record {
        id = db.next_access_id;
        organization_id = org_id;
        allow_shared_key = allow;
      } in
      pure a (record db { access = db.access ++ a ∷ []; next_access_id = db.next_access_id + 1 })
  | some row ↦
      let a = record row { allow_shared_key = allow } in
      pure a (record db { access = update_where (λ x. x.id == row.id) (λ _. a) db.access })
]

unfoldable pub list_org_access : KeyDb → List (ℕ × Bool)
list_org_access db = map (λ r. (r.organization_id, r.allow_shared_key)) db.access

-- The rows that `list_keys` shows, in its order.
unfoldable pub is_listed : Option ℕ → Bool → ProviderKey → Bool
is_listed org_id include_shared k =
    is_some org_id && opt_eq k.organization_id org_id
    || include_shared && not (is_some k.organization_id)

unfoldable pub listed_before : ProviderKey → ProviderKey → Bool
listed_before a b =
    let shared_a = not (is_some a.organization_id) in
    let shared_b = not (is_some b.organization_id) in
    shared_a && not shared_b
    || (shared_a && shared_b || not shared_a && not shared_b) && ltb a.id b.id

module _ (cipher : Cipher) (s : CryptoSettings) where
  unfoldable pub resolve_api_key : Text → Option ℕ → Action KeyDb KeyError Text
  unfolding chosen_key of_result
  resolve_api_key provider org_id db = elim (chosen_key provider org_id db) [
    | some k ↦ of_result (decrypt cipher s k.encrypted_key) db
    | none ↦ raise key_unavailable db
  ]

  unfoldable pub set_key :
      List ℕ → Text → Text → Option ℕ → Option ℕ → Action KeyDb KeyError ProviderKey
  unfolding normalize_provider is_blank_text deactivate_existing of_result add_key
  set_key nonce provider plaintext org_id created_by_user_id = do
    let name = normalize_provider provider
    raise_if (is_blank_text name) provider_required
    raise_if (is_blank_text (strip plaintext)) key_required
    modify (deactivate_existing name org_id)
    token ← of_result (encrypt cipher s nonce (strip plaintext))
    add_key name org_id token created_by_user_id

  -- A key that cannot be read shows no masked text (`none`).
  unfoldable pub key_view : ProviderKey → Result CryptoError KeyView
  unfolding mask
  key_view k = elim (decrypt cipher s k.encrypted_key) [
    | ok t ↦ ok (record {
      id = k.id;
      provider = k.provider;
      is_shared = not (is_some k.organization_id);
      organization_id = k.organization_id;
      is_active = k.is_active;
      masked = some (mask t);
    })
    | err e ↦ elim e [
      | decryption_error ↦ ok (record {
        id = k.id;
        provider = k.provider;
        is_shared = not (is_some k.organization_id);
        organization_id = k.organization_id;
        is_active = k.is_active;
        masked = none;
      })
      | insecure_key_error ↦ err insecure_key_error
      | value_error ↦ err value_error
    ]
  ]

  unfoldable pub key_views : List ProviderKey → Result CryptoError (List KeyView)
  unfolding key_view
  key_views [] = ok []
  key_views (k ∷ ks) = elim (key_view k) [
    | err e ↦ err e
    | ok v ↦ elim (key_views ks) [ err e ↦ err e | ok vs ↦ ok (v ∷ vs) ]
  ]

  unfoldable pub list_keys : Option ℕ → Bool → KeyDb → Result CryptoError (List KeyView)
  unfolding key_views is_listed listed_before
  list_keys org_id include_shared db =
      key_views (sort_by listed_before (filter (is_listed org_id include_shared) db.keys))

  -- `complete`, with the transport's call as a function of the resolved key.
  unfoldable pub complete :
      {A : Type 0} → (Text → Result KeyError A) → Text → Option ℕ → Action KeyDb KeyError A
  unfolding resolve_api_key normalize_provider
  complete chat provider org_id =
      resolve_api_key (normalize_provider provider) org_id >>= λ api_key. λ db. (chat api_key, db)
