-- ===== src/Base/Order.antt =====
-- ORDER BY as an insertion sort, LIMIT and OFFSET, and what they keep of a table.
use Prim.Native.Nat.{ℕ, zero, suc, ◌+◌, ◌-◌, ◌≤◌}
use mathlib.Core.Path.{◌≡◌, refl, ap, sym, ◌∙◌}
use mathlib.Core.Logic.{◌⊎◌, inl, inr}
use mathlib.Core.Bool.{Bool, true}
use mathlib.Core.List.{Memᴰ, List, [], ◌∷◌, ◌++◌}
use mathlib.Core.Option.{Option, none, some}
use native.Mathlib.Omega.{arith}
use oss_us_web_design_system.Base.Tests.{if◌then◌else◌, ltb, Bool-cases}
use oss_us_web_design_system.Base.Lists.{length, filter, Memᴰ-cases}

module _ {A : Type 0} where
  unfoldable pub insert_by : (A → A → Bool) → A → List A → List A
  insert_by before x [] = x ∷ []
  insert_by before x (y ∷ ys) =
      let rest = insert_by before x ys in if before y x then y ∷ rest else x ∷ y ∷ ys

  -- ORDER BY, for a test that says which of two rows stands before the other.
  unfoldable pub sort_by : (A → A → Bool) → List A → List A
  unfolding insert_by
  sort_by before [] = []
  sort_by before (x ∷ xs) = insert_by before x (sort_by before xs)

  -- ORDER BY key DESC.
  unfoldable pub sort_desc : (A → ℕ) → List A → List A
  unfolding sort_by
  sort_desc key xs = sort_by (λ a b. ltb (key b) (key a)) xs

  abbrev pub first : List A → Option A
  first [] = none
  first (x ∷ _) = some x

  -- LIMIT and OFFSET.
  abbrev pub take : ℕ → List A → List A
  take zero xs = []
  take (suc n) [] = []
  take (suc n) (x ∷ xs) = x ∷ take n xs

  abbrev pub drop : ℕ → List A → List A
  drop zero xs = xs
  drop (suc n) [] = []
  drop (suc n) (x ∷ xs) = drop n xs

  length-insert_by :
      (before : A → A → Bool) (x : A) (xs : List A)
      → length (insert_by before x xs) ≡ suc (length xs)
  unfolding insert_by
  length-insert_by before x [] = refl
  length-insert_by before x (y ∷ ys) = ground (arith, length-insert_by before x ys)

  pub length-sort_by :
      (before : A → A → Bool) (xs : List A) → length (sort_by before xs) ≡ length xs
  unfolding sort_by
  length-sort_by before [] = refl
  length-sort_by before (x ∷ xs) =
      length-insert_by before x (sort_by before xs) ∙ ap suc (length-sort_by before xs)

  Memᴰ-insert_by :
      (before : A → A → Bool) (x : A) (xs : List A) {y : A}
      → Memᴰ y (insert_by before x xs)
      → (y ≡ x) ⊎ Memᴰ y xs
  unfolding insert_by
  Memᴰ-insert_by before x [] {y} m = Memᴰ-cases m
  Memᴰ-insert_by before x (z ∷ zs) {y} m = elim (Bool-cases (before z x)) [
    | inr e ↦ Memᴰ-cases (rw e at m)
    | inl e ↦ elim (Memᴰ-cases (rw e at m)) [
      | inl q ↦ inr (Memᴰ.head q)
      | inr m' ↦ elim (Memᴰ-insert_by before x zs {y = y} m') [
        | inl q ↦ inl q
        | inr m'' ↦ inr (Memᴰ.tail m'')
      ]
    ]
  ]

  pub Memᴰ-sort_by :
      (before : A → A → Bool) (xs : List A) {y : A} → Memᴰ y (sort_by before xs) → Memᴰ y xs
  unfolding sort_by
  Memᴰ-sort_by before [] m = m
  Memᴰ-sort_by before (x ∷ xs) {y} m =
      elim (Memᴰ-insert_by before x (sort_by before xs) {y = y} m) [
        | inl q ↦ Memᴰ.head q
        | inr m' ↦ Memᴰ.tail (Memᴰ-sort_by before xs {y = y} m')
      ]

  pub first-Memᴰ : (xs : List A) {x : A} → first xs ≡ some x → Memᴰ x xs
  first-Memᴰ [] h = cc
  first-Memᴰ (y ∷ xs) {x} h = let q : x ≡ y = ground arith in Memᴰ.head q

  take-append-drop : (n : ℕ) (xs : List A) → take n xs ++ drop n xs ≡ xs
  take-append-drop zero xs = refl
  take-append-drop (suc n) [] = refl
  take-append-drop (suc n) (x ∷ xs) = ap (λ ys. x ∷ ys) (take-append-drop n xs)

  length-take : (n : ℕ) (xs : List A) → length (take n xs) ≤ n
  length-take zero xs = omega arith
  length-take (suc n) [] = omega arith
  length-take (suc n) (x ∷ xs) = omega (arith, length-take n xs)

  length-drop : (n : ℕ) (xs : List A) → length (drop n xs) ≡ length xs - n
  length-drop zero xs = omega arith
  length-drop (suc n) [] = omega arith
  length-drop (suc n) (x ∷ xs) = omega (arith, length-drop n xs)

  drop_nil : (k : ℕ) → drop k [] ≡ []
  drop_nil zero = refl
  drop_nil (suc k) = refl

  drop-drop : (m n : ℕ) (xs : List A) → drop m (drop n xs) ≡ drop (n + m) xs
  drop-drop m zero xs = ap (λ k. drop k xs) (omega arith)
  drop-drop m (suc n) [] = drop_nil m ∙ sym (drop_nil (suc n + m))
  drop-drop m (suc n) (x ∷ xs) =
      let e : suc (n + m) ≡ suc n + m = omega arith in
      drop-drop m n xs ∙ ap (λ k. drop k (x ∷ xs)) e

  pub filter-Memᴰ :
      (p : A → Bool) (xs : List A) {x : A} → Memᴰ x (filter p xs) → Memᴰ x xs × (p x ≡ true)
  filter-Memᴰ p [] m = elim m [ ]
  filter-Memᴰ p (y ∷ xs) {x} m = elim (Bool-cases (p y)) [
    | inl e ↦ elim (Memᴰ-cases {x = x} {y = y} {ys = filter p xs} (rw e at m)) [
      | inl q ↦ (Memᴰ.head q, rw q e)
      | inr m' ↦ let (a, b) = filter-Memᴰ p xs {x = x} m' in (Memᴰ.tail a, b)
    ]
    | inr e ↦ let (a, b) = filter-Memᴰ p xs {x = x} (rw e at m) in (Memᴰ.tail a, b)
  ]

  pub filter-append_last :
      (q : A → Bool) (xs : List A) (x : A)
      → filter q (xs ++ x ∷ []) ≡ filter q xs ++ (if q x then x ∷ [] else [])
  filter-append_last q [] x = elim (Bool-cases (q x)) [ inl e ↦ rw e refl | inr e ↦ rw e refl ]
  filter-append_last q (y ∷ xs) x =
      let rest = filter-append_last q xs x in
      elim (Bool-cases (q y)) [ inl e ↦ rw e (ap (λ zs. y ∷ zs) rest) | inr e ↦ rw e rest ]

  pub Memᴰ-filter :
      (p : A → Bool) {x : A} {xs : List A} → Memᴰ x xs → p x ≡ true → Memᴰ x (filter p xs)
  Memᴰ-filter p (Memᴰ.head e) h = rw (← e, h) (Memᴰ.head refl)
  Memᴰ-filter p {x} (Memᴰ.tail {x = y} {xs = ys} m) h = elim (Bool-cases (p y)) [
    | inl f ↦ rw f (Memᴰ.tail (Memᴰ-filter p m h))
    | inr f ↦ rw f (Memᴰ-filter p m h)
  ]
