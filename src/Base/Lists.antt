-- ===== src/Base/Lists.antt =====
-- Lists as tables: selection by a test, the first match, and changes of the rows that match.
use Prim.Native.Nat.{ℕ, suc}
use mathlib.Core.Path.{◌≡◌, refl, ap}
use mathlib.Core.Bool.{Bool, true, false, ◌&&◌, ◌||◌}
use mathlib.Core.List.{Memᴰ, List, [], ◌∷◌, ◌++◌, map}
use mathlib.Core.Option.{Option, none, some}
use native.Mathlib.Omega.{arith}
use mathlib.Core.Logic.{◌⊎◌, inl, inr}
use oss_us_web_design_system.Base.Tests.{if◌then◌else◌, ◌==◌, Bool-cases}

pub or_true : (b : Bool) → (b || true) ≡ true
or_true true = refl
or_true false = refl

pub Memᴰ-cases {ℓ} : {A : Type ℓ} {x y : A} {ys : List A} → Memᴰ x (y ∷ ys) → (x ≡ y) ⊎ Memᴰ x ys
Memᴰ-cases (Memᴰ.head e) = inl e
Memᴰ-cases (Memᴰ.tail m) = inr m

module _ {ℓ} {A : Type ℓ} where
  abbrev pub length : List A → ℕ
  length [] = 0
  length (_ ∷ xs) = suc (length xs)

  -- The rows that a WHERE clause keeps.
  abbrev pub filter : (A → Bool) → List A → List A
  filter p [] = []
  filter p (x ∷ xs) = let rest = filter p xs in if p x then x ∷ rest else rest

  -- The first row that passes a test.
  abbrev pub find? : (A → Bool) → List A → Option A
  find? p [] = none
  find? p (x ∷ xs) = if p x then some x else find? p xs

  abbrev pub any : (A → Bool) → List A → Bool
  any p [] = false
  any p (x ∷ xs) = p x || any p xs

  abbrev pub all : (A → Bool) → List A → Bool
  all p [] = true
  all p (x ∷ xs) = p x && all p xs

  -- A test that some row passes has a row of the table for a witness, and the other way round.
  pub any-Memᴰ : (p : A → Bool) (xs : List A) → any p xs ≡ true → (x : A) × Memᴰ x xs × (p x ≡ true)
  any-Memᴰ p [] h = cc
  any-Memᴰ p (y ∷ xs) h = elim (Bool-cases (p y)) [
    | inl e ↦ (y, Memᴰ.head refl, e)
    | inr e ↦ let (x, m, q) = any-Memᴰ p xs (rw e at h) in (x, Memᴰ.tail m, q)
  ]

  pub Memᴰ-any : (p : A → Bool) {x : A} {xs : List A} → Memᴰ x xs → p x ≡ true → any p xs ≡ true
  Memᴰ-any p (Memᴰ.head e) h = rw (← e, h)
  Memᴰ-any p (Memᴰ.tail {x = y} m) h = rw (Memᴰ-any p m h) (or_true (p y))

  pub any-append : (p : A → Bool) (xs ys : List A) → any p (xs ++ ys) ≡ (any p xs || any p ys)
  any-append p [] ys = refl
  any-append p (x ∷ xs) ys = rw (any-append p xs ys) (ground arith)

  pub find?-append :
      (p : A → Bool) (xs ys : List A) {x : A} → find? p xs ≡ some x → find? p (xs ++ ys) ≡ some x
  find?-append p [] ys h = cc
  find?-append p (y ∷ xs) ys {x} h = elim (Bool-cases (p y)) [
    | inl e ↦ rw e (rw e at h)
    | inr e ↦ rw e (find?-append p xs ys {x = x} (rw e at h))
  ]

  pub find?-append_new :
      (p : A → Bool) (xs : List A) (x : A)
      → find? p xs ≡ none
      → p x ≡ true
      → find? p (xs ++ x ∷ []) ≡ some x
  find?-append_new p [] x h e = rw e
  find?-append_new p (y ∷ xs) x h e = elim (Bool-cases (p y)) [
    | inl f ↦ absurd (ground arith)
    | inr f ↦ rw f (find?-append_new p xs x (rw f at h) e)
  ]

  -- UPDATE: a row that passes the test is replaced by its image.
  abbrev pub update_where : (A → Bool) → (A → A) → List A → List A
  update_where p f [] = []
  update_where p f (x ∷ xs) = (if p x then f x else x) ∷ update_where p f xs

  -- What is found passes the test.
  pub find?-sound : (p : A → Bool) (xs : List A) {x : A} → find? p xs ≡ some x → p x ≡ true
  find?-sound p [] h = cc
  find?-sound p (y ∷ xs) {x} h = elim (Bool-cases (p y)) [
    | inl e ↦ ground arith
    | inr e ↦ find?-sound p xs {x = x} (rw e at h)
  ]

  abbrev pub All {κ} : (A → Type κ) → List A → Type κ
  All P [] = Unit
  All P (x ∷ xs) = P x × All P xs

-- What the rows that a changed table shows have in common, and which rows it shows.
module _ {ℓ κ} {A : Type ℓ} {B : Type κ} (f : A → B) (q : B → Bool) where
  pub All-filter-map :
      (P : B → Bool)
      → ((x : A) → q (f x) ≡ true → P (f x) ≡ true)
      → (xs : List A) → All (λ y. P y ≡ true) (filter q (map f xs))
  All-filter-map P h [] = tt
  All-filter-map P h (x ∷ xs) = elim (Bool-cases (q (f x))) [
    | inl e ↦ rw e (h x e, All-filter-map P h xs)
    | inr e ↦ rw e (All-filter-map P h xs)
  ]

  pub any-filter-map :
      (s : A → Bool) (r : B → Bool)
      → ((x : A) → s x ≡ true → (q (f x) ≡ true) × (r (f x) ≡ true))
      → (xs : List A) → any s xs ≡ true
      → any r (filter q (map f xs)) ≡ true
  any-filter-map s r h [] a = cc
  any-filter-map s r h (x ∷ xs) a = elim (Bool-cases (s x)) [
    | inl e ↦ let (hq, hr) = h x e in rw (hq, hr)
    | inr e ↦
        let rest = any-filter-map s r h xs (rw e at a) in
        elim (Bool-cases (q (f x))) [ inl g ↦ rw (g, rest) (or_true (r (f x))) | inr g ↦ rw g rest ]
  ]

abbrev pub elem : ℕ → List ℕ → Bool
elem a [] = false
elem a (x ∷ xs) = a == x || elem a xs

-- A test that all rows pass, under selection, insertion and change.
module _ {ℓ} {A : Type ℓ} (P : A → Bool) where
  abbrev pub AllPass : List A → Type 0
  AllPass xs = All (λ x. P x ≡ true) xs

  pub find?-AllPass :
      (p : A → Bool) (xs : List A) {x : A} → AllPass xs → find? p xs ≡ some x → P x ≡ true
  find?-AllPass p [] s h = cc
  find?-AllPass p (y ∷ xs) {x} s h = elim (Bool-cases (p y)) [
    | inl e ↦ let q = s.0 in ground arith
    | inr e ↦ find?-AllPass p xs {x = x} s.1 (rw e at h)
  ]

  pub filter-AllPass : (q : A → Bool) (xs : List A) → AllPass xs → AllPass (filter q xs)
  filter-AllPass q [] s = tt
  filter-AllPass q (x ∷ xs) s = elim (Bool-cases (q x)) [
    | inl e ↦ rw e (s.0, filter-AllPass q xs s.1)
    | inr e ↦ rw e (filter-AllPass q xs s.1)
  ]

  pub append-AllPass : (xs : List A) {x : A} → AllPass xs → P x ≡ true → AllPass (xs ++ x ∷ [])
  append-AllPass [] s h = (h, tt)
  append-AllPass (y ∷ xs) s h = (s.0, append-AllPass xs s.1 h)

  pub update_where-AllPass :
      (p : A → Bool) (xs : List A) {x : A}
      → AllPass xs
      → P x ≡ true
      → AllPass (update_where p (λ _. x) xs)
  update_where-AllPass p [] s h = tt
  update_where-AllPass p (y ∷ xs) s h = elim (Bool-cases (p y)) [
    | inl e ↦ rw e (h, update_where-AllPass p xs s.1 h)
    | inr e ↦ rw e (s.0, update_where-AllPass p xs s.1 h)
  ]

-- A row that replaces one that was found is found, if it passes the tests.
pub find?-replaced {ℓ} :
    {A : Type ℓ} (p : A → Bool) (xs : List A) {x y : A}
    → p y ≡ true
    → find? p xs ≡ some x
    → find? p (update_where p (λ _. y) xs) ≡ some y
find?-replaced p [] h f = cc
find?-replaced p (z ∷ xs) {x} {y} h f = elim (Bool-cases (p z)) [
  | inl e ↦ rw (e, h)
  | inr e ↦ rw (e, e) (find?-replaced p xs {x = x} h (rw e at f))
]

pub find?-replaced_filter {ℓ} :
    {A : Type ℓ} (p q : A → Bool) (xs : List A) {x y : A}
    → p y ≡ true
    → q y ≡ true
    → find? p (filter q xs) ≡ some x
    → find? p (filter q (update_where p (λ _. y) xs)) ≡ some y
find?-replaced_filter p q [] h k f = cc
find?-replaced_filter p q (z ∷ xs) {x} {y} h k f = elim (Bool-cases (p z)) [
  | inl e ↦ rw (e, k, h)
  | inr e ↦ elim (Bool-cases (q z)) [
    | inl g ↦ rw (e, g, e) (find?-replaced_filter p q xs {x = x} h k (rw (g, e) at f))
    | inr g ↦ rw (e, g) (find?-replaced_filter p q xs {x = x} h k (rw g at f))
  ]
]

pub append_nil {ℓ} : {A : Type ℓ} (xs : List A) → xs ++ [] ≡ xs
append_nil [] = refl
append_nil (x ∷ xs) = ap (λ ys. x ∷ ys) (append_nil xs)

pub append_assoc {ℓ} : {A : Type ℓ} (xs ys zs : List A) → (xs ++ ys) ++ zs ≡ xs ++ (ys ++ zs)
append_assoc [] ys zs = refl
append_assoc (x ∷ xs) ys zs = ap (λ ws. x ∷ ws) (append_assoc xs ys zs)
