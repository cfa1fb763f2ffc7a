-- ===== src/Assistant/Sanitizer.antt =====
-- The content checks of the assistant (`_check_content` and `LLMPayloadSanitizer` in
-- app/slots/accessibility_assistant/service.py). Python's `re` is the parameter `Regex`; a pattern is
-- its source text, with its flags in front.
pub mod Laws
use oss_us_web_design_system.Base.{
  Bool, true, false, Option, none, some, String, List, [], ◌∷◌, any, if◌then◌else◌, Text, codes,
}

-- `pattern.search(text)` as a test, `re.search` of a stored pattern without case (`none` is one that
-- does not compile), and `pattern.sub("[REDACTED]", text)`.
pub record Regex : Type 0 where
  pub search : String → Text → Bool
  pub search_pattern : Text → Text → Option Bool
  pub redact : String → Text → Text

abbrev pub email_pattern : String
email_pattern = "[a-zA-Z0-9._%+\\-]+@[a-zA-Z0-9.\\-]+\\.[a-zA-Z]{2,}"

abbrev pub ssn_pattern : String
ssn_pattern = "\\b\\d{3}-\\d{2}-\\d{4}\\b"

abbrev pub phone_pattern : String
phone_pattern = "\\b(?:\\+?1[\\s.-]?)?\\(?\\d{3}\\)?[\\s.-]?\\d{3}[\\s.-]?\\d{4}\\b"

abbrev pub card_pattern : String
card_pattern = "\\b(?:\\d[ -]?){13,16}\\b"

abbrev pub name_pattern : String
name_pattern = "(?i)\\b(?:my name is|i am|i'm)\\s+[A-Z][a-z]+\\s+[A-Z][a-z]+"

abbrev pub uuid_pattern : String
uuid_pattern = "\\b[0-9a-fA-F]{8}-[0-9a-fA-F]{4}-[0-9a-fA-F]{4}-[0-9a-fA-F]{4}-[0-9a-fA-F]{12}\\b"

-- `_PII_PATTERNS`.
abbrev pub pii_patterns : List String
pii_patterns = email_pattern ∷ ssn_pattern ∷ phone_pattern ∷ card_pattern ∷ name_pattern ∷ []

-- `_CODE_PATTERNS`.
abbrev pub code_patterns : List String
code_patterns =
    "\\bdef\\s+\\w+\\s*\\(" ∷ "\\bfunction\\s+\\w+\\s*\\(" ∷ "\\bclass\\s+\\w+\\s*[:{(]"
    ∷ "(?m)^\\s*import\\s+\\w" ∷ "(?m)^\\s*from\\s+\\w+\\s+import" ∷ "(?m)^\\s*#include\\s*[<\"]"
    ∷ "\\bif\\s*\\(.+\\)\\s*\\{" ∷ "\\bfor\\s*\\(.+;.+;.+\\)" ∷ "\\bwhile\\s*\\(.+\\)\\s*\\{"
    ∷ "\\w+\\s*[+\\-*/]=\\s*\\w+" ∷ "```[\\w]*\\n" ∷ "(?i)\\bSELECT\\s+.+\\s+FROM\\s+" ∷ []

-- `_PII_PATTERN_CATEGORIES`.
abbrev pub pii_categories : List (String × String)
pii_categories =
    ("email", email_pattern)
    ∷ ("ssn", ssn_pattern)
    ∷ ("phone", phone_pattern)
    ∷ ("credit_card", card_pattern)
    ∷ ("display_name", name_pattern)
    ∷ ("uuid", uuid_pattern)
    ∷ []

pub data BlockReason : Type 0 where
  pii code : BlockReason

pub record SanitizedPayload : Type 0 where
  pub text : Text
  pub redactions : List String

module _ (re : Regex) where
  -- `_check_content`: the reason of `ContentBlocked`, if it is raised.
  unfoldable pub check_content : Text → Option BlockReason
  check_content text =
      if any (λ p. re.search p text) pii_patterns
      then some pii
      else (if any (λ p. re.search p text) code_patterns then some code else none)

  -- The loop over the categories.
  unfoldable pub redact_all : List (String × String) → Text → Text × List String
  redact_all [] text = (text, [])
  redact_all ((category, pattern) ∷ rest) text =
      let (t, found) =
        redact_all rest (if re.search pattern text then re.redact pattern text else text) in
      (t, if re.search pattern text then category ∷ found else found)

  -- `LLMPayloadSanitizer.sanitize`: `none` is `SanitizationBlocked`.
  unfoldable pub sanitize : Text → Option SanitizedPayload
  unfolding redact_all
  sanitize text =
      if any (λ p. re.search p text) code_patterns
      then none
      else (let (t, found) = redact_all pii_categories text in
          some (record { text = t; redactions = found }))
