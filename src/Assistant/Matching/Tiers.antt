-- ===== src/Assistant/Matching/Tiers.antt =====
-- The deterministic tier and its specification.
use oss_us_web_design_system.Base.{
  ℕ, ◌≤◌, ◌<◌, ◌≡◌, refl, Bool, true, false, ◌&&◌, Option, none, some, is_some, List, find?,
  find?-sound, find?-Memᴰ, find?-none, ltb, Text, lower, split, arith, Bool-cases, Option-cases,
  inl, inr, Memᴰ,
}
use oss_us_web_design_system.Assistant.Matching.{
  Faq, MatchKind, exact_slug, keyword_set, regex, same_slug, keyword_score, best_keyword_match,
  pattern_matches, tagged, faq_match_tiered,
}
use oss_us_web_design_system.Assistant.Matching.Best.{best-cases, best-bound}

module _ (search : Text → Text → Option Bool) (question : Text) (faqs : List Faq) where
  abbrev pub score_of : Faq → ℕ
  score_of f = keyword_score (split (lower question)) f

  -- No FAQ has the question's slug; no FAQ shares a word with it.
  abbrev pub NoSlug : Type 0
  NoSlug = (g : Faq) → Memᴰ g faqs → same_slug question g ≡ false

  abbrev pub NoKeyword : Type 0
  NoKeyword = (g : Faq) → Memᴰ g faqs → score_of g ≡ 0

  -- What a right answer of the tiers is.
  pub data Answers : Option (Faq × MatchKind) → Type 0 where
    by_slug : {f : Faq} → Memᴰ f faqs → same_slug question f ≡ true → Answers (some (f, exact_slug))
    by_keywords :
        {f : Faq}
        → Memᴰ f faqs
        → NoSlug
        → 0 < score_of f
        → ((g : Faq) → Memᴰ g faqs → score_of g ≤ score_of f)
        → Answers (some (f, keyword_set))
    by_pattern :
        {f : Faq}
        → Memᴰ f faqs
        → NoSlug
        → NoKeyword
        → pattern_matches search question f ≡ true
        → Answers (some (f, regex))
    unanswered :
        NoSlug
        → NoKeyword
        → ((g : Faq) → Memᴰ g faqs → pattern_matches search question g ≡ false)
        → Answers none

  slug_lem :
      {f : Faq}
      → find? (same_slug question) faqs ≡ some f
      → faq_match_tiered search question faqs ≡ some (f, exact_slug)
  unfolding faq_match_tiered
  slug_lem {f} e = ground arith

  keyword_lem :
      {f : Faq}
      → find? (same_slug question) faqs ≡ none
      → best_keyword_match score_of faqs none 0 ≡ (some f, score_of f)
      → ltb 0 (score_of f) ≡ true
      → faq_match_tiered search question faqs ≡ some (f, keyword_set)
  unfolding faq_match_tiered
  keyword_lem {f} e b s = rw (e, faq_match_tiered) (rw (b, s) refl)

  pattern_lem :
      (best : Option Faq × ℕ)
      → find? (same_slug question) faqs ≡ none
      → best_keyword_match score_of faqs none 0 ≡ best
      → (is_some best.0 && ltb 0 best.1) ≡ false
      → faq_match_tiered search question faqs
        ≡ tagged regex (find? (pattern_matches search question) faqs)
  unfolding faq_match_tiered
  pattern_lem best e b s = rw (e, faq_match_tiered) (rw (b, s) refl)

  -- The last tier, when the first two have nothing.
  pattern-Answers :
      NoSlug → NoKeyword → Answers (tagged regex (find? (pattern_matches search question) faqs))
  unfolding tagged
  pattern-Answers n k = elim (Option-cases (find? (pattern_matches search question) faqs)) [
    | inl e ↦ rw e (
        unanswered n k
          (λ g m. find?-none (pattern_matches search question) {xs = faqs} {x = g} e m))
    | inr (f, e) ↦ rw e (
        by_pattern (find?-Memᴰ (pattern_matches search question) faqs {x = f} e) n k
          (find?-sound (pattern_matches search question) faqs {x = f} e))
  ]

  no_slug : find? (same_slug question) faqs ≡ none → NoSlug
  no_slug e g m = find?-none (same_slug question) {xs = faqs} {x = g} e m

  -- The answer when no FAQ has the slug.
  later-Answers :
      find? (same_slug question) faqs ≡ none → Answers (faq_match_tiered search question faqs)
  later-Answers e = elim (best-cases score_of faqs) [
    | inr b ↦ rw (pattern_lem (none, 0) e b refl) (
        pattern-Answers (no_slug e)
          (λ g m. let h = best-bound score_of {g = g} faqs none 0 m in ground arith))
    | inl (f, b, m) ↦ elim (Bool-cases (ltb 0 (score_of f))) [
      | inl s ↦ rw (keyword_lem {f = f} e b s) (
          by_keywords m (no_slug e) (ground arith)
            (λ g m'. let h = best-bound score_of {g = g} faqs none 0 m' in ground arith))
      | inr s ↦ rw (pattern_lem (some f, score_of f) e b s) (
          pattern-Answers (no_slug e)
            (λ g m'. let h = best-bound score_of {g = g} faqs none 0 m' in ground arith))
    ]
  ]

  -- The question is answered by an FAQ with its slug if there is one; else by an FAQ with the highest
  -- keyword score if that is not zero; else by an FAQ whose pattern is found in it; and it goes
  -- unanswered only if no FAQ has its slug, a word of it, or a pattern that is found in it.
  pub faq_match_tiered-Answers : Answers (faq_match_tiered search question faqs)
  faq_match_tiered-Answers = elim (Option-cases (find? (same_slug question) faqs)) [
    | inl e ↦ later-Answers e
    | inr (f, e) ↦ rw (slug_lem {f = f} e) (
        by_slug (find?-Memᴰ (same_slug question) faqs {x = f} e)
          (find?-sound (same_slug question) faqs {x = f} e))
  ]
