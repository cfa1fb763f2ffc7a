-- ===== src/Examples/Greetings.antt =====
-- Greetings on concrete rows.
use oss_us_web_design_system.Base.{
  strip, ℕ, ◌*◌, ◌≤◌, ◌<◌, ◌≡◌, refl, ltb, if◌then◌else◌, true, false, none, some, [], ◌∷◌, Result,
  ok, err, codes, sort_by, arith,
}
use oss_us_web_design_system.Greeting.{GreetingEvent, GreetingDb, page_size, newer, history}
use oss_us_web_design_system.Greeting.Pages.{pages, history_rows, pages-history}
use oss_us_web_design_system.Greeting.Translation.{
  Services, Transport, Reply, TranslationResult, ChatError, other, llm, translate,
}
use oss_us_web_design_system.Greeting.Translation.Laws.{translate-transport}
use oss_us_web_design_system.Mcp.{Client, discover_tools, invoke_tool}
use oss_us_web_design_system.Llm.Crypto.{decrypt}
use oss_us_web_design_system.Greeting.Greet.{Greeting}
use oss_us_web_design_system.Tenancy.{visible}
use oss_us_web_design_system.Examples.Keys.{
  plain_cipher, crypto_settings, shared_keys, weather, echo_client,
}

abbrev event : GreetingEvent
event = record {
  id = 1;
  org_id = 7;
  actor_user_id = 1;
  locale_used = codes "en-US";
  locale_requested = codes "en-US";
  locale_fallback = false;
  translation_source = "static";
  name_supplied = codes "Ann";
  created_at = 5;
}

abbrev db : GreetingDb
db = record {
  events = event ∷ record event { id = 2; created_at = 6 } ∷ [];
  settings = [];
  org = 7;
  next_event_id = 3;
  next_settings_id = 1;
}

two_events : (history 1 none db).1 ≤ 1 * page_size
unfolding history visible
two_events = omega arith

pages-history_example : pages 1 none db ≡ sort_by newer (history_rows none db)
pages-history_example = pages-history 1 none db two_events

-- A server with one tool, and a model that never stops asking for it.
abbrev tool_client : Client
tool_client = record echo_client {
  list_tools = λ _ _.
      ok (record { name = codes "lookup"; description = none; input_schema = codes "{}" } ∷ []);
}

abbrev services : Services
services = record {
  cipher = plain_cipher;
  settings = crypto_settings;
  client = tool_client;
  keys = shared_keys;
  connections = record { connections = weather ∷ []; next_id = 2 };
  parse_arguments = λ t. some t;
}

abbrev reply : Reply
reply = record {
  content = some (codes "Hallo, Ann!");
  tool_calls = record { id = codes "1"; name = codes "weather.lookup"; arguments = none } ∷ [];
}

abbrev busy : Transport
busy _ _ _ _ = ok reply

-- The same up to a number of calls, and a failure from then on.
abbrev tired : ℕ → Transport
tired limit _ _ _ n = if ltb n limit then ok reply else err other

few :
    (n : ℕ)
    → n < 4
    → Path (Result ChatError Reply) (ok reply) (if ltb n 4 then ok reply else err other)
few n h = let e : ltb n 4 ≡ true = ground (arith, h) in rw e refl

translate-transport_example :
    translate services busy 7 (codes "Ann") (codes "de-DE") (codes "en-US") true
    ≡ translate services (tired 4) 7 (codes "Ann") (codes "de-DE") (codes "en-US") true
translate-transport_example =
    translate-transport services busy (tired 4) 7 (codes "Ann") (codes "de-DE") (codes "en-US") true
      (λ key ms tools n h. few n h)

-- The fourth call is made: a transport that fails there fails the greeting.
fourth_call :
    translate services (tired 3) 7 (codes "Ann") (codes "de-DE") (codes "en-US") true ≡ err other
unfolding translate decrypt discover_tools invoke_tool strip
fourth_call = refl

abbrev greeted : TranslationResult
greeted = record {
  text = codes "Hallo, Ann!";
  locale_used = codes "de-DE";
  fallback = false;
  source = llm;
  tools_used = codes "weather.lookup" ∷ codes "weather.lookup" ∷ codes "weather.lookup" ∷ [];
}

busy_greeting :
    translate services busy 7 (codes "Ann") (codes "de-DE") (codes "en-US") true ≡ ok greeted
unfolding translate decrypt discover_tools invoke_tool strip
busy_greeting = refl

abbrev greeting : Greeting
greeting = record {
  event = record event {
    id = 3;
    locale_used = codes "de-DE";
    locale_requested = codes "de-DE";
    translation_source = "llm";
    created_at = 7200;
  };
  text = codes "Hallo, Ann!";
  tools_used = codes "weather.lookup" ∷ codes "weather.lookup" ∷ codes "weather.lookup" ∷ [];
}
