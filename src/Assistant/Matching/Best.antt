-- ===== src/Assistant/Matching/Best.antt =====
-- The keyword loop of `_faq_match_tiered`.
use oss_us_web_design_system.Base.{
  ℕ, ◌≤◌, ◌≡◌, ◌∙◌, refl, true, false, Option, none, some, List, [], ◌∷◌, ltb, arith, Bool-cases,
  Option-cases, inl, inr, Memᴰ, Memᴰ-cases, ◌⊎◌,
}
use oss_us_web_design_system.Assistant.Matching.{Faq, best_keyword_match}

-- One round of the loop.
best-taken :
    (score : Faq → ℕ) (faq : Faq) (faqs : List Faq) (best_faq : Option Faq) (best_score : ℕ)
    → ltb best_score (score faq) ≡ true
    → best_keyword_match score (faq ∷ faqs) best_faq best_score
      ≡ best_keyword_match score faqs (some faq) (score faq)
unfolding best_keyword_match
best-taken score faq faqs best_faq best_score e = rw e refl

best-kept :
    (score : Faq → ℕ) (faq : Faq) (faqs : List Faq) (best_faq : Option Faq) (best_score : ℕ)
    → ltb best_score (score faq) ≡ false
    → best_keyword_match score (faq ∷ faqs) best_faq best_score
      ≡ best_keyword_match score faqs best_faq best_score
unfolding best_keyword_match
best-kept score faq faqs best_faq best_score e = rw e refl

best-done :
    (score : Faq → ℕ) (best_faq : Option Faq) (best_score : ℕ)
    → best_keyword_match score [] best_faq best_score ≡ (best_faq, best_score)
unfolding best_keyword_match
best-done score best_faq best_score = refl

-- The best score is at least the one the loop starts from and every score of the table.
best-start :
    (score : Faq → ℕ) (faqs : List Faq) (best_faq : Option Faq) (best_score : ℕ)
    → best_score ≤ (best_keyword_match score faqs best_faq best_score).1
best-start score [] best_faq best_score = rw (best-done score best_faq best_score) (ground arith)
best-start score (faq ∷ faqs) best_faq best_score = elim (Bool-cases (ltb best_score (score faq))) [
  | inl e ↦
      let b = best-start score faqs (some faq) (score faq) in
      rw (best-taken score faq faqs best_faq best_score e) (ground arith)
  | inr e ↦
      rw (best-kept score faq faqs best_faq best_score e)
        (best-start score faqs best_faq best_score)
]

pub best-bound :
    (score : Faq → ℕ) {g : Faq} (faqs : List Faq) (best_faq : Option Faq) (best_score : ℕ)
    → Memᴰ g faqs
    → score g ≤ (best_keyword_match score faqs best_faq best_score).1
best-bound score {g} (faq ∷ faqs) best_faq best_score m =
    elim (Bool-cases (ltb best_score (score faq))) [
      | inl e ↦ rw (best-taken score faq faqs best_faq best_score e) (elim (Memᴰ-cases m) [
        | inl q ↦ rw q (best-start score faqs (some faq) (score faq))
        | inr m' ↦ best-bound score {g = g} faqs (some faq) (score faq) m'
      ])
      | inr e ↦ rw (best-kept score faq faqs best_faq best_score e) (elim (Memᴰ-cases m) [
        | inl q ↦ let b = best-start score faqs best_faq best_score in rw q (ground arith)
        | inr m' ↦ best-bound score {g = g} faqs best_faq best_score m'
      ])
    ]
best-bound score [] best_faq best_score m = elim m [ ]

-- The best FAQ is the one the loop starts from, with its score, or one of the table, with its own.
best-found :
    (score : Faq → ℕ) (faqs : List Faq) (best_faq : Option Faq) (best_score : ℕ) {f : Faq}
    → (best_keyword_match score faqs best_faq best_score).0 ≡ some f
    → ((best_faq ≡ some f) × ((best_keyword_match score faqs best_faq best_score).1 ≡ best_score))
      ⊎ (Memᴰ f faqs × ((best_keyword_match score faqs best_faq best_score).1 ≡ score f))
best-found score [] best_faq best_score {f} h =
    rw (best-done score best_faq best_score)
      (inl (rw (best-done score best_faq best_score) at h, refl))
best-found score (faq ∷ faqs) best_faq best_score {f} h =
    elim (Bool-cases (ltb best_score (score faq))) [
      | inl e ↦
          let step = best-taken score faq faqs best_faq best_score e in
          rw step (elim (best-found score faqs (some faq) (score faq) {f = f} (rw step at h)) [
            | inl (g, s) ↦ let g' : f ≡ faq = ground arith in inr (Memᴰ.head g', s ∙ rw g' refl)
            | inr (m, s) ↦ inr (Memᴰ.tail m, s)
          ])
      | inr e ↦
          let step = best-kept score faq faqs best_faq best_score e in
          rw step (elim (best-found score faqs best_faq best_score {f = f} (rw step at h)) [
            | inl g ↦ inl g
            | inr (m, s) ↦ inr (Memᴰ.tail m, s)
          ])
    ]

-- With nothing found the loop started with nothing, and the score is the one it started from.
best-none :
    (score : Faq → ℕ) (faqs : List Faq) (best_faq : Option Faq) (best_score : ℕ)
    → (best_keyword_match score faqs best_faq best_score).0 ≡ none
    → (best_faq ≡ none) × ((best_keyword_match score faqs best_faq best_score).1 ≡ best_score)
best-none score [] best_faq best_score h =
    let step = best-done score best_faq best_score in rw step (rw step at h, refl)
best-none score (faq ∷ faqs) best_faq best_score h =
    elim (Bool-cases (ltb best_score (score faq))) [
      | inl e ↦
          let (q, _) =
            best-none score faqs (some faq) (score faq)
              (rw (best-taken score faq faqs best_faq best_score e) at h) in
          absurd (ground arith)
      | inr e ↦
          let step = best-kept score faq faqs best_faq best_score e in
          rw step (best-none score faqs best_faq best_score (rw step at h))
    ]

-- The best score is that of an FAQ of the table, which is the best one, or nothing has a score.
pub best-cases :
    (score : Faq → ℕ) (faqs : List Faq)
    → ((f : Faq) × (best_keyword_match score faqs none 0 ≡ (some f, score f)) × Memᴰ f faqs)
      ⊎ (best_keyword_match score faqs none 0 ≡ (none, 0))
best-cases score faqs = elim (Option-cases (best_keyword_match score faqs none 0).0) [
  | inl e ↦ let (_, z) = best-none score faqs none 0 e in inr (ground arith)
  | inr (f, e) ↦ elim (best-found score faqs none 0 {f = f} e) [
    | inl (q, _) ↦ absurd (ground arith)
    | inr (m, z) ↦ inl (f, ground arith, m)
  ]
]
