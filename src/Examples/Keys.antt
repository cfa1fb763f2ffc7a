-- ===== src/Examples/Keys.antt =====
-- Provider keys and MCP connections on concrete rows.
use oss_us_web_design_system.Base.{
  ℕ, ◌≡◌, ◌⊎◌, refl, sym, true, false, Option, none, some, List, [], ◌∷◌, ◌++◌, Memᴰ, ok, Text,
  codes, strip, lower, ◌≢◌, filter, ◌&&◌, text_eq, arith,
}
use oss_us_web_design_system.Llm.Crypto.{Cipher, CryptoSettings, encrypt, load_key}
use oss_us_web_design_system.Llm.Keys.{
  ProviderKey, KeyDb, normalize_provider, is_blank_text, set_key, resolve_api_key, chosen_key,
  may_share,
}
use oss_us_web_design_system.Llm.Keys.Laws.{
  SingleActive, KeyCall, set, run_calls, run_calls-SingleActive, active_count,
}
use oss_us_web_design_system.Llm.Keys.Choice.{chosen_key_sound, resolve_api_key-set_key}
use oss_us_web_design_system.Mcp.{
  Connection, ConnectionDb, Client, found, target, is_enabled_in, qualified_name, invoke_tool,
  call_connection,
}
use oss_us_web_design_system.Mcp.Laws.{has_dot, target_sound, invoke_tool-qualified_name}

abbrev pub open_plain : List ℕ → Option (List ℕ)
open_plain [] = none
open_plain (_ ∷ b) = some b

pub cons_not_nil : (b : List ℕ) → 0 ∷ b ≢ []
cons_not_nil b h = cc

-- A cipher that puts one number in front, and codecs that change nothing.
abbrev pub plain_cipher : Cipher
plain_cipher = record {
  fromhex = λ key. some key;
  b64encode = λ b. b;
  b64decode = some;
  utf8_encode = some;
  utf8_decode = some;
  seal = λ _ _ b. 0 ∷ b;
  open_sealed = λ _ _ b. open_plain b;
  b64decode-b64encode = λ b. refl;
  utf8_decode-utf8_encode = λ t b e. sym e;
  open_sealed-seal = λ _ _ b. refl;
  seal_nonempty = λ _ _ b. cons_not_nil b;
}

abbrev pub crypto_settings : CryptoSettings
crypto_settings = record {
  is_prod = false;
  llm_encryption_key = codes "0123456789abcdef0123456789abcdef";
  llm_enc_key_dev_default = codes "dev";
}

abbrev nonce : List ℕ
nonce = 1 ∷ 2 ∷ 3 ∷ 4 ∷ 5 ∷ 6 ∷ 7 ∷ 8 ∷ 9 ∷ 10 ∷ 11 ∷ 12 ∷ []

abbrev pub no_keys : KeyDb
no_keys = record { keys = []; access = []; next_key_id = 1; next_access_id = 1 }

abbrev sealed_key : Text
sealed_key = nonce ++ 0 ∷ codes "sk-1"

encrypt_sk : encrypt plain_cipher crypto_settings nonce (strip (codes " sk-1 ")) ≡ ok sealed_key
unfolding encrypt load_key strip
encrypt_sk = refl

named_openai : is_blank_text (normalize_provider (codes " OpenAI")) ≡ false
unfolding is_blank_text normalize_provider lower strip
named_openai = refl

given_sk : is_blank_text (strip (codes " sk-1 ")) ≡ false
unfolding is_blank_text strip
given_sk = refl

resolve_api_key-set_key_example :
    let db' =
      (set_key plain_cipher crypto_settings nonce
        (codes " OpenAI")
        (codes " sk-1 ")
        (some 7)
        (some 1)
        no_keys).1 in
    resolve_api_key plain_cipher crypto_settings (normalize_provider (codes " OpenAI")) (some 7) db'
    ≡ (ok (strip (codes " sk-1 ")), db')
resolve_api_key-set_key_example =
    resolve_api_key-set_key plain_cipher crypto_settings nonce (codes " OpenAI") (codes " sk-1 ")
      sealed_key (some 7) (some 1) no_keys refl named_openai given_sk encrypt_sk

no_keys-SingleActive : SingleActive no_keys
unfolding active_count
no_keys-SingleActive p o = omega arith

abbrev key_calls : List KeyCall
key_calls =
    set nonce (codes "openai") (codes "sk-1") none none
    ∷ set nonce (codes "openai") (codes "sk-2") none none
    ∷ []

run_calls-SingleActive_example :
    SingleActive (run_calls plain_cipher crypto_settings key_calls no_keys)
run_calls-SingleActive_example =
    run_calls-SingleActive plain_cipher crypto_settings key_calls no_keys no_keys-SingleActive

abbrev shared_key : ProviderKey
shared_key = record {
  id = 1;
  organization_id = none;
  provider = codes "openai";
  encrypted_key = sealed_key;
  is_active = true;
  created_by_user_id = none;
}

abbrev pub shared_keys : KeyDb
shared_keys = record {
  keys = shared_key ∷ [];
  access = record { id = 1; organization_id = 7; allow_shared_key = true } ∷ [];
  next_key_id = 2;
  next_access_id = 2;
}

chosen_shared : chosen_key (codes "openai") (some 7) shared_keys ≡ some shared_key
unfolding chosen_key
chosen_shared = refl

chosen_key_sound_example :
    Memᴰ shared_key shared_keys.keys
    × (shared_key.provider ≡ codes "openai")
    × (shared_key.is_active ≡ true)
    × ((shared_key.organization_id ≡ some 7)
        ⊎ ((shared_key.organization_id ≡ none) × (may_share (some 7) shared_keys ≡ true)))
chosen_key_sound_example =
    chosen_key_sound (codes "openai") (some 7) shared_keys shared_key chosen_shared

abbrev pub weather : Connection
weather = record {
  id = 1;
  organization_id = 7;
  name = codes "weather";
  url = codes "https://w";
  encrypted_credential = none;
  enabled = true;
  created_by_user_id = none;
}

abbrev connections : ConnectionDb
connections = record {
  connections = weather ∷ record weather { id = 2; enabled = false } ∷ [];
  next_id = 3;
}

abbrev pub echo_client : Client
echo_client = record {
  list_tools = λ _ _. ok [];
  call_tool = λ _ _ name _. ok (record { is_error = false; content = name ∷ [] });
}

weather_undotted : has_dot (codes "weather") ≡ false
unfolding has_dot
weather_undotted = refl

one_weather :
    filter (λ x. is_enabled_in 7 x && text_eq x.name weather.name) connections.connections
    ≡ weather ∷ []
unfolding is_enabled_in
one_weather = refl

invoke_tool-qualified_name_example :
    invoke_tool plain_cipher crypto_settings echo_client 7
      (qualified_name weather.name (codes "today"))
      (codes "{}")
      connections
    ≡ call_connection plain_cipher crypto_settings echo_client weather (codes "today") (codes "{}")
invoke_tool-qualified_name_example =
    invoke_tool-qualified_name plain_cipher crypto_settings echo_client 7 weather (codes "today")
      (codes "{}") connections weather_undotted one_weather

weather-target : target 7 (codes "weather.today") connections ≡ found weather (codes "today")
unfolding target
weather-target = refl

target_sound_example :
    Memᴰ weather connections.connections
    × (weather.organization_id ≡ 7)
    × (weather.enabled ≡ true)
    × (codes "weather.today" ≡ qualified_name weather.name (codes "today"))
    × (has_dot weather.name ≡ false)
target_sound_example =
    target_sound 7 (codes "weather.today") (codes "today") connections weather weather-target
