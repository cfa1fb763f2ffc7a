-- ===== src/Base/Members.antt =====
-- Rows of a table that a search finds or does not find.
use mathlib.Core.Path.{◌≡◌, refl}
use mathlib.Core.Bool.{Bool, true, false}
use mathlib.Core.List.{Memᴰ, List, [], ◌∷◌}
use mathlib.Core.Option.{none, some}
use mathlib.Core.Logic.{inl, inr}
use native.Mathlib.Omega.{arith}
use oss_us_web_design_system.Base.Tests.{Bool-cases}
use oss_us_web_design_system.Base.Lists.{find?, filter, update_where}

module _ {ℓ} {A : Type ℓ} (p : A → Bool) where
  pub find?-Memᴰ : (xs : List A) {x : A} → find? p xs ≡ some x → Memᴰ x xs
  find?-Memᴰ [] h = cc
  find?-Memᴰ (y ∷ xs) {x} h = elim (Bool-cases (p y)) [
    | inl e ↦ let q : x ≡ y = ground arith in Memᴰ.head q
    | inr e ↦ Memᴰ.tail (find?-Memᴰ xs {x = x} (rw e at h))
  ]

  pub find?-none : {xs : List A} {x : A} → find? p xs ≡ none → Memᴰ x xs → p x ≡ false
  find?-none {xs = []} {x} h m = elim m [ ]
  find?-none {xs = y ∷ xs} {x} h (Memᴰ.head q) = elim (Bool-cases (p y)) [
    | inl e ↦ absurd (ground arith)
    | inr e ↦ rw (q, e)
  ]
  find?-none {xs = y ∷ xs} {x} h (Memᴰ.tail m) = elim (Bool-cases (p y)) [
    | inl e ↦ absurd (ground arith)
    | inr e ↦ find?-none {xs = xs} {x = x} (rw e at h) m
  ]

-- A change of other rows leaves a search as it was.
pub find?-other {ℓ} :
    {A : Type ℓ} (p p' : A → Bool) (xs : List A) {y : A}
    → p y ≡ false
    → ((x : A) → p' x ≡ true → p x ≡ false)
    → find? p (update_where p' (λ _. y) xs) ≡ find? p xs
find?-other p p' [] h d = refl
find?-other p p' (x ∷ xs) {y} h d = elim (Bool-cases (p' x)) [
  | inl e ↦ rw (e, h, d x e) (find?-other p p' xs {y = y} h d)
  | inr e ↦ rw (e, find?-other p p' xs {y = y} h d) refl
]

pub find?-other_filter {ℓ} :
    {A : Type ℓ} (p q p' : A → Bool) (xs : List A) {y : A}
    → p y ≡ false
    → ((x : A) → p' x ≡ true → p x ≡ false)
    → find? p (filter q (update_where p' (λ _. y) xs)) ≡ find? p (filter q xs)
find?-other_filter p q p' [] h d = refl
find?-other_filter p q p' (x ∷ xs) {y} h d =
    let rest = find?-other_filter p q p' xs {y = y} h d in
    elim (Bool-cases (p' x)) [
      | inl e ↦
          let k = d x e in
          elim (Bool-cases (q y)) [
            | inl f ↦ elim (Bool-cases (q x)) [
              | inl g ↦ rw (e, f, g, h, k) rest
              | inr g ↦ rw (e, f, g, h) rest
            ]
            | inr f ↦ elim (Bool-cases (q x)) [
              | inl g ↦ rw (e, f, g, k) rest
              | inr g ↦ rw (e, f, g) rest
            ]
          ]
      | inr e ↦ elim (Bool-cases (q x)) [
        | inl g ↦ rw (e, g, rest) refl
        | inr g ↦ rw (e, g, rest) refl
      ]
    ]
