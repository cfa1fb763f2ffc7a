-- ===== src/Greeting/Templates.antt =====
-- The static greetings (`_STATIC_GREETINGS` of app/slots/greeting/providers/translation.py).
use oss_us_web_design_system.Base.{
  Bool, Option, String, List, [], ◌∷◌, ◌++◌, find?, is_some, Text, codes, text_eq,
}

-- A static greeting: its locale, and its template before and after the name.
pub record Template : Type 0 where
  pub locale : Text
  pub before : Text
  pub after : Text

abbrev pub template : String → String → String → Template
template locale before after = record {
  locale = codes locale;
  before = codes before;
  after = codes after;
}

-- `_STATIC_GREETINGS`.
abbrev pub static_greetings : List Template
static_greetings =
    template "en-US" "Hello, " "!"
    ∷ template "en-GB" "Hello, " "!"
    ∷ template "es-ES" "¡Hola, " "!"
    ∷ template "es-US" "¡Hola, " "!"
    ∷ template "fr-FR" "Bonjour, " " !"
    ∷ template "fr-CA" "Bonjour, " " !"
    ∷ []

unfoldable pub template_of : Text → Option Template
template_of locale = find? (λ t. text_eq t.locale locale) static_greetings

unfoldable pub fill : Text → Template → Text
fill name t = t.before ++ name ++ t.after

-- `locale in _STATIC_GREETINGS`.
unfoldable pub is_supported : Text → Bool
unfolding template_of
is_supported locale = is_some (template_of locale)
