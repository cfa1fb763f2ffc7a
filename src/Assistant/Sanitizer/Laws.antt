-- ===== src/Assistant/Sanitizer/Laws.antt =====
-- What the sanitizer does to a text that passed the content check, and to any text.
use oss_us_web_design_system.Base.{
  ◌≡◌, refl, false, none, some, String, List, [], ◌∷◌, any, if◌then◌else◌, arith, Bool-cases, inl,
  inr, Text,
}
use oss_us_web_design_system.Assistant.Sanitizer.{
  Regex, check_content, redact_all, sanitize, pii_patterns, code_patterns, uuid_pattern,
  email_pattern, ssn_pattern, phone_pattern, card_pattern, name_pattern,
}

module _ (re : Regex) where
  -- A question that the content check lets through is never blocked by the sanitizer, and the
  -- sanitizer can take out of it nothing but UUIDs: it is sent as it is, or with those redacted.
  pub sanitize-check_content :
      (text : Text)
      → check_content re text ≡ none
      → sanitize re text
        ≡ some (
            if re.search uuid_pattern text
            then record { text = re.redact uuid_pattern text; redactions = "uuid" ∷ [] }
            else record { text = text; redactions = [] })
  unfolding check_content sanitize
  sanitize-check_content text h = elim (Bool-cases (any (λ p. re.search p text) pii_patterns)) [
    | inl e ↦ absurd (ground (arith, e))
    | inr e ↦ elim (Bool-cases (any (λ p. re.search p text) code_patterns)) [
      | inl f ↦ absurd (ground (arith, e, f))
      | inr f ↦
          let a : re.search email_pattern text ≡ false = ground arith in
          let b : re.search ssn_pattern text ≡ false = ground arith in
          let c : re.search phone_pattern text ≡ false = ground arith in
          let d : re.search card_pattern text ≡ false = ground arith in
          let g : re.search name_pattern text ≡ false = ground arith in
          elim (Bool-cases (re.search uuid_pattern text)) [
            | inl u ↦ rw (sanitize, f, redact_all, a, b, c, d, g, u) refl
            | inr u ↦ rw (sanitize, f, redact_all, a, b, c, d, g, u) refl
          ]
    ]
  ]

  -- Where nothing is redacted the text is as it was.
  redact_all-none :
      (cs : List (String × String)) (text : Text)
      → (redact_all re cs text).1 ≡ []
      → (redact_all re cs text).0 ≡ text
  unfolding redact_all
  redact_all-none [] text h = refl
  redact_all-none ((category, pattern) ∷ rest) text h = elim (Bool-cases (re.search pattern text)) [
    | inl e ↦ absurd (ground (arith, e))
    | inr e ↦ rw e (redact_all-none rest text (rw e at h))
  ]
