-- ===== src/Greeting.antt =====
-- The greeting slot: its tables, the history and the settings (app/slots/greeting/models.py,
-- app/slots/greeting/repository.py, `history` and `greet` of app/slots/greeting/service.py).
pub mod Templates
pub mod Translation
pub mod Greet
pub mod Pages
use oss_us_web_design_system.Base.{
  ℕ, suc, ◌+◌, ◌-◌, ◌*◌, Bool, true, false, ◌&&◌, ◌||◌, Option, none, some, List, [], ◌∷◌, ◌++◌,
  length, filter, ◌==◌, ltb, if◌then◌else◌, Text, codes, text_eq, take, drop, sort_by, String,
}
use oss_us_web_design_system.Tenancy.{visible, select_where}

pub record GreetingEvent : Type 0 where
  pub id : ℕ
  pub org_id : ℕ
  pub actor_user_id : ℕ
  pub locale_used : Text
  pub locale_requested : Text
  pub locale_fallback : Bool
  pub translation_source : String
  pub name_supplied : Text
  pub created_at : ℕ

pub record GreetingOrgSettings : Type 0 where
  pub id : ℕ
  pub org_id : ℕ
  pub default_locale : Text

-- The organization is the one bound to the request.
pub record GreetingDb : Type 0 where
  pub events : List GreetingEvent
  pub settings : List GreetingOrgSettings
  pub org : ℕ
  pub next_event_id : ℕ
  pub next_settings_id : ℕ

abbrev pub page_size : ℕ
page_size = 20

-- ORDER BY created_at DESC, id DESC.
unfoldable pub newer : GreetingEvent → GreetingEvent → Bool
newer a b = ltb b.created_at a.created_at || a.created_at == b.created_at && ltb b.id a.id

-- OFFSET and LIMIT of a page, and the number of all rows.
unfoldable pub page_of : ℕ → List GreetingEvent → List GreetingEvent × ℕ
unfolding newer sort_by
page_of page_number rows =
    (take page_size (drop ((page_number - 1) * page_size) (sort_by newer rows)), length rows)

unfoldable pub page : ℕ → GreetingDb → List GreetingEvent × ℕ
unfolding page_of visible
page page_number db = page_of page_number (visible (λ e. e.org_id) (some db.org) db.events)

unfoldable pub page_by_locale : Text → ℕ → GreetingDb → List GreetingEvent × ℕ
unfolding page_of select_where
page_by_locale locale page_number db =
    page_of page_number
      (select_where (λ e. e.org_id) (some db.org) (λ e. text_eq e.locale_used locale) db.events)

-- `history`.
unfoldable pub history : ℕ → Option Text → GreetingDb → List GreetingEvent × ℕ
unfolding page page_by_locale
history page_number none db = page page_number db
history page_number (some locale) db = page_by_locale locale page_number db

-- `record`.
unfoldable pub record_event : GreetingEvent → GreetingDb → GreetingDb
record_event event db = record db {
  events = db.events ++ event ∷ [];
  next_event_id = db.next_event_id + 1;
}

-- `get_or_create_org_settings`; an organization has at most one row, by its unique constraint.
unfoldable pub get_or_create_org_settings : GreetingDb → GreetingOrgSettings × GreetingDb
unfolding visible
get_or_create_org_settings db = elim (visible (λ r. r.org_id) (some db.org) db.settings) [
  | row ∷ _ ↦ (row, db)
  | [] ↦
      let row : GreetingOrgSettings = record {
        id = db.next_settings_id;
        org_id = db.org;
        default_locale = codes "en-US";
      } in
      (
        row,
        record db {
          settings = db.settings ++ row ∷ [];
          next_settings_id = db.next_settings_id + 1;
        },
      )
]
