-- ===== src/Greeting/Greet.antt =====
-- The greeting itself (`greet` of app/slots/greeting/service.py): the hourly limit, the
-- organization's settings, the text, and the event that records it.
use oss_us_web_design_system.Base.{ℕ, Bool, String, List, Result, ok, err, Text}
use oss_us_web_design_system.Limits.{Redis, call_next, limited, check}
use oss_us_web_design_system.Greeting.{
  GreetingEvent, GreetingDb, record_event, get_or_create_org_settings,
}
use oss_us_web_design_system.Greeting.Translation.{
  Services, Transport, TranslationResult, Source, static, llm, translate,
}

pub data GreetError : Type 0 where
  rate_limited : ℕ → GreetError
  server_error : GreetError

unfoldable pub source_text : Source → String
source_text static = "static"
source_text llm = "llm"

-- The event of a greeting; `org` is the organization that the session injects.
unfoldable pub greeting_event : ℕ → ℕ → Text → Text → TranslationResult → GreetingDb → GreetingEvent
unfolding source_text
greeting_event now actor_user_id name locale r db = record {
  id = db.next_event_id;
  org_id = db.org;
  actor_user_id = actor_user_id;
  locale_used = r.locale_used;
  locale_requested = locale;
  locale_fallback = r.fallback;
  translation_source = source_text r.source;
  name_supplied = name;
  created_at = now;
}

-- A greeting as it is returned: the event, the text and the tools.
pub record Greeting : Type 0 where
  pub event : GreetingEvent
  pub text : Text
  pub tools_used : List Text

unfoldable pub record_greeting :
    ℕ → ℕ → Text → Text → TranslationResult → GreetingDb → Greeting × GreetingDb
unfolding greeting_event record_event
record_greeting now actor_user_id name locale r db =
    let e = greeting_event now actor_user_id name locale r db in
    (record { event = e; text = r.text; tools_used = r.tools_used }, record_event e db)

module _ (redis : Redis) (env : Services) (transport : Transport) where
  -- The part after the limit.
  unfoldable pub greet_unlimited :
      ℕ → ℕ → ℕ → Text → Text → Bool → GreetingDb → Result GreetError Greeting × GreetingDb
  unfolding get_or_create_org_settings translate record_greeting
  greet_unlimited now actor_user_id org_id name locale use_llm db =
      let (settings, db1) = get_or_create_org_settings db in
      elim (translate env transport org_id name locale settings.default_locale use_llm) [
        | err _ ↦ (err server_error, db1)
        | ok r ↦ let (g, db2) = record_greeting now actor_user_id name locale r db1 in (ok g, db2)
      ]

  -- The clock is in seconds.
  unfoldable pub greet :
      ℕ
      → ℕ
      → ℕ
      → Text
      → Text
      → Bool
      → GreetingDb
      → redis.Store
      → Result GreetError Greeting × GreetingDb × redis.Store
  unfolding check greet_unlimited
  greet now actor_user_id org_id name locale use_llm db store =
      let (v, store') = check redis now org_id store in
      elim v [
        | limited seconds ↦ (err (rate_limited seconds), db, store')
        | call_next ↦
            let (r, db') = greet_unlimited now actor_user_id org_id name locale use_llm db in
            (r, db', store')
      ]
