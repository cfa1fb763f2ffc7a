-- ===== src/Greeting/Translation/Origin.antt =====
-- Where the text of a greeting comes from (app/slots/greeting/providers/translation.py).
use oss_us_web_design_system.Base.{
  ℕ, ◌≡◌, ◌⊎◌, refl, Bool, true, false, Option, none, some, List, [], ◌∷◌, Result, ok, err, arith,
  Bool-cases, Option-cases, Result-cases, inl, inr, Text, codes,
}
use oss_us_web_design_system.Greeting.Templates.{Template, template_of, fill}
use oss_us_web_design_system.Greeting.Translation.{
  Services, Transport, TranslationResult, ChatError, static, llm, static_result, fallback_result,
  default_template, non_empty, tools_for, ask_model, try_llm_translate, translate, caught, other,
}

-- The model failed in a way that is caught, or gave no text or an empty one.
pub data HasNoText : Result ChatError (Option Text × List Text) → Type 0 where
  failed : HasNoText (err caught)
  absent : (used : List Text) → HasNoText (ok (none, used))
  blank : (used : List Text) → HasNoText (ok (some [], used))

-- Where a greeting comes from, for what the model answered (an error, or a text and the tools that it
-- used): the static text of a supported locale; the model's text, in the requested locale; or, where
-- the model is not asked or has no text, the static text of the organization's locale, or of American
-- English if that has none.
pub data IsGreeting (name locale tenant : Text) (use_llm : Bool)
    (answer : Result ChatError (Option Text × List Text)) : TranslationResult → Type 0 where
  of_locale :
      (x : Template)
      → template_of locale ≡ some x
      → IsGreeting name locale tenant use_llm answer (record {
        text = fill name x;
        locale_used = locale;
        fallback = false;
        source = static;
        tools_used = [];
      })
  of_model :
      (c : ℕ) (text : Text) (used : List Text)
      → template_of locale ≡ none
      → use_llm ≡ true
      → answer ≡ ok (some (c ∷ text), used)
      → IsGreeting name locale tenant use_llm answer (record {
        text = c ∷ text;
        locale_used = locale;
        fallback = false;
        source = llm;
        tools_used = used;
      })
  of_tenant :
      (x : Template) (used_locale : Text)
      → template_of locale ≡ none
      → (use_llm ≡ false) ⊎ HasNoText answer
      → ((template_of tenant ≡ some x) × (used_locale ≡ tenant))
        ⊎ ((template_of tenant ≡ none)
            × (template_of (codes "en-US") ≡ some x)
            × (used_locale ≡ codes "en-US"))
      → IsGreeting name locale tenant use_llm answer (record {
        text = fill name x;
        locale_used = used_locale;
        fallback = true;
        source = static;
        tools_used = [];
      })

template_of-default : template_of (codes "en-US") ≡ some default_template
unfolding template_of
template_of-default = refl

fallback_result-IsGreeting :
    (name locale d : Text) (use_llm : Bool) (answer : Result ChatError (Option Text × List Text))
    → template_of locale ≡ none
    → (use_llm ≡ false) ⊎ HasNoText answer
    → IsGreeting name locale d use_llm answer (fallback_result name d)
unfolding fallback_result static_result
fallback_result-IsGreeting name locale d use_llm answer h silent =
    elim (Option-cases (template_of d)) [
      | inr (x, e) ↦ rw (fallback_result, e) (of_tenant x d h silent (inl (e, refl)))
      | inl e ↦
          rw (fallback_result, e)
            (of_tenant default_template (codes "en-US") h silent
              (inr (e, template_of-default, refl)))
    ]

abbrev Same : TranslationResult → TranslationResult → Type 0
Same a b = Path (Result ChatError TranslationResult) (ok a) (ok b)

ok-injective : {a b : TranslationResult} → Same a b → a ≡ b
ok-injective h = cc

-- Every greeting that is returned comes from one of the three, by what the model answered.
pub translate-IsGreeting :
    (env : Services) (t : Transport) (org_id : ℕ) (name locale tenant_default_locale : Text)
    (use_llm : Bool) (r : TranslationResult)
    → translate env t org_id name locale tenant_default_locale use_llm ≡ ok r
    → IsGreeting name locale tenant_default_locale use_llm
        (ask_model env t org_id name locale (tools_for env t org_id))
        r
unfolding translate try_llm_translate static_result non_empty
translate-IsGreeting env t org_id name locale d use_llm r h =
    let answer = ask_model env t org_id name locale (tools_for env t org_id) in
    elim (Option-cases (template_of locale)) [
      | inr (x, e) ↦
          let o : Same (static_result name locale false x) r = rw (translate, e) at h in
          rw (← ok-injective o) (of_locale x e)
      | inl e ↦ elim (Bool-cases use_llm) [
        | inr f ↦
            let o : Same (fallback_result name d) r = rw (translate, e, f) at h in
            rw (← ok-injective o)
              (fallback_result-IsGreeting name locale d use_llm answer e (inl f))
        | inl f ↦ elim (Result-cases answer) [
          | inr (caught, g) ↦
              let o : Same (fallback_result name d) r =
                rw (translate, e, f, try_llm_translate, g) at h in
              rw (← ok-injective o)
                (fallback_result-IsGreeting name locale d use_llm answer e (inr (rw g failed)))
          | inr (other, g) ↦ absurd (ground (arith, e, f, try_llm_translate, g))
          | inl ((none, used), g) ↦
              let o : Same (fallback_result name d) r =
                rw (translate, e, f, try_llm_translate, g) at h in
              rw (← ok-injective o) (
                fallback_result-IsGreeting name locale d use_llm answer e
                  (inr (rw g (absent used))))
          | inl ((some [], used), g) ↦
              let o : Same (fallback_result name d) r =
                rw (translate, e, f, try_llm_translate, g) at h in
              rw (← ok-injective o) (
                fallback_result-IsGreeting name locale d use_llm answer e (inr (rw g (blank used))))
          | inl ((some (c ∷ text), used), g) ↦
              let o : Same
                  (record {
                    text = c ∷ text;
                    locale_used = locale;
                    fallback = false;
                    source = llm;
                    tools_used = used;
                  })
                  r =
                rw (translate, e, f, try_llm_translate, g) at h in
              rw (← ok-injective o) (of_model c text used e f g)
        ]
      ]
    ]
