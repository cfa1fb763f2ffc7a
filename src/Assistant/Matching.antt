-- ===== src/Assistant/Matching.antt =====
-- The deterministic tier of the assistant (`_faq_match_tiered` in
-- app/slots/accessibility_assistant/service.py): exact slug, then keywords, then patterns. The
-- regular-expression search is a parameter; `none` is a pattern that does not compile.
pub mod Best
pub mod Tiers
use oss_us_web_design_system.Base.{
  ℕ, suc, ◌+◌, Bool, true, false, not, ◌&&◌, ◌||◌, Option, none, some, List, [], ◌∷◌, filter, find?,
  is_some, length, ltb, leb, ◌==◌, if◌then◌else◌, Text, text_eq, text_elem, lower, split,
}

-- The columns of `FAQ` that matching and answering read.
pub record Faq : Type 0 where
  pub id : ℕ
  pub org_id : ℕ
  pub question : Text
  pub answer : Text
  pub match_pattern : Option Text
  pub question_category_id : Option ℕ
  pub reasoning : Text
  pub citations_json : Text

pub data MatchKind : Type 0 where
  exact_slug keyword_set regex : MatchKind

unfoldable pub is_slug_code : ℕ → Bool
is_slug_code c = leb b'a' c && leb c b'z' || leb b'0' c && leb c b'9'

-- `_normalize_for_slug`.
unfoldable pub normalize_for_slug : Text → Text
unfolding is_slug_code
normalize_for_slug text = filter is_slug_code (lower text)

-- `set(words)`, in some order.
unfoldable pub unique : List Text → List Text
unique [] = []
unique (w ∷ ws) = let rest = unique ws in if text_elem w rest then rest else w ∷ rest

-- The number of words of an FAQ's question that the asked question has.
unfoldable pub keyword_score : List Text → Faq → ℕ
unfolding unique
keyword_score question_words faq =
    length (filter (λ w. text_elem w question_words) (unique (split (lower faq.question))))

-- The loop of tier 2: a later FAQ replaces the best one only with a higher score.
unfoldable pub best_keyword_match : (Faq → ℕ) → List Faq → Option Faq → ℕ → Option Faq × ℕ
best_keyword_match score [] best_faq best_score = (best_faq, best_score)
best_keyword_match score (faq ∷ faqs) best_faq best_score =
    if ltb best_score (score faq)
    then best_keyword_match score faqs (some faq) (score faq)
    else best_keyword_match score faqs best_faq best_score

-- An FAQ of tier 3: one with a pattern, not the empty one, that is found in the question.
unfoldable pub pattern_matches : (Text → Text → Option Bool) → Text → Faq → Bool
pattern_matches search question faq = elim faq.match_pattern [
  | none ↦ false
  | some [] ↦ false
  | some (c ∷ pattern) ↦ elim (search (c ∷ pattern) question) [ none ↦ false | some found ↦ found ]
]

unfoldable pub tagged : MatchKind → Option Faq → Option (Faq × MatchKind)
tagged kind none = none
tagged kind (some faq) = some (faq, kind)

-- The test of tier 1.
unfoldable pub same_slug : Text → Faq → Bool
unfolding normalize_for_slug
same_slug question faq = text_eq (normalize_for_slug faq.question) (normalize_for_slug question)

-- `_faq_match_tiered`, on the FAQs that the query returns; with none of them, no tier has an FAQ, as
-- the early return says.
unfoldable pub faq_match_tiered :
    (Text → Text → Option Bool) → Text → List Faq → Option (Faq × MatchKind)
unfolding same_slug keyword_score best_keyword_match pattern_matches tagged
faq_match_tiered search question faqs = elim (find? (same_slug question) faqs) [
  | some faq ↦ some (faq, exact_slug)
  | none ↦
      let (best_faq, best_score) =
        best_keyword_match (keyword_score (split (lower question))) faqs none 0 in
      if is_some best_faq && ltb 0 best_score
      then tagged keyword_set best_faq
      else tagged regex (find? (pattern_matches search question) faqs)
]
