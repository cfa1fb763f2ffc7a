-- ===== src/Tenancy/Laws.antt =====
-- What a request can see.
use oss_us_web_design_system.Base.{
  ℕ, ◌≡◌, refl, Bool, true, false, ◌&&◌, ◌||◌, Option, none, some, List, [], ◌∷◌, filter, find?,
  ◌==◌, arith, Memᴰ, Bool-cases, inl, inr, ◌⊎◌, ◌↔◌, update_where, Memᴰ-cases, find?-sound,
  find?-other, find?-other_filter, find?-replaced, find?-replaced_filter, AllPass, find?-AllPass,
  filter-AllPass, ok, err,
}
use oss_us_web_design_system.Tenancy.{
  visible, select_where, select_one, execute, select_own_org_or_shared,
}

-- A row that a WHERE clause keeps is a row of the table that passes it, and the other way round.
filter_sound {ℓ} :
    {A : Type ℓ} (p : A → Bool) (xs : List A) {x : A}
    → Memᴰ x (filter p xs)
    → Memᴰ x xs × (p x ≡ true)
filter_sound p [] m = elim m [ ]
filter_sound p (y ∷ xs) {x} m = elim (Bool-cases (p y)) [
  | inl e ↦ elim (Memᴰ-cases (rw e at m)) [
    | inl here ↦ (Memᴰ.head here, rw here e)
    | inr there ↦ let (k, h) = filter_sound p xs there in (Memᴰ.tail k, h)
  ]
  | inr e ↦ let (k, h) = filter_sound p xs {x = x} (rw e at m) in (Memᴰ.tail k, h)
]

filter_complete {ℓ} :
    {A : Type ℓ} (p : A → Bool) {x : A} {xs : List A}
    → Memᴰ x xs
    → p x ≡ true
    → Memᴰ x (filter p xs)
filter_complete p {x} (Memᴰ.head e) h = rw (← e, h) (Memᴰ.head refl)
filter_complete p (Memᴰ.tail {x = y} m) h = elim (Bool-cases (p y)) [
  | inl e ↦ rw e (Memᴰ.tail (filter_complete p m h))
  | inr e ↦ rw e (filter_complete p m h)
]

module _ {A : Type 0} (org_of : A → ℕ) where
  -- A query under a bound organization returns exactly the rows of the table that are that
  -- organization's and pass the query's own test.
  select_where_iff :
      (org_id : ℕ) (p : A → Bool) (rows : List A) (r : A)
      → Memᴰ r (select_where org_of (some org_id) p rows)
        ↔ (Memᴰ r rows × (org_of r ≡ org_id) × (p r ≡ true))
  unfolding select_where
  select_where_iff org_id p rows r = (
    λ m.
        let (seen, h) = filter_sound p (filter (λ x. org_of x == org_id) rows) m in
        let (k, own) = filter_sound (λ x. org_of x == org_id) rows seen in (k, ground arith, h),
    λ (m, own, h). filter_complete p (filter_complete (λ x. org_of x == org_id) m (ground arith)) h,
  )

  -- `_select_own_org_or_shared` in a request that has an organization bound, whatever the database
  -- does: if it raises, so does the call; otherwise the call returns exactly the rows that are the given
  -- organization's own or flagged as shared and pass the extra test. In both cases the filter is back
  -- afterwards: the next query of the request sees exactly the rows of the bound organization that pass
  -- its own test.
  pub select_own_org_or_shared_iff :
      {E : Type 0} (is_shared : A → Bool) (bound_org org_id : ℕ) (extra p : A → Bool)
      (failure : Option E) (rows : List A) (x : A)
      → let (r, after) =
          select_own_org_or_shared org_of is_shared org_id extra failure rows (some bound_org) in
        (((found : List A) × (failure ≡ none)
            × (r ≡ ok found)
            × (Memᴰ x found
                ↔ (Memᴰ x rows × ((org_of x ≡ org_id) ⊎ (is_shared x ≡ true)) × (extra x ≡ true))))
          ⊎ ((e : E) × (failure ≡ some e) × (r ≡ err e)))
        × ((seen : List A) × ((execute org_of {E = E} none p rows after).0 ≡ ok seen)
            × (Memᴰ x seen ↔ (Memᴰ x rows × (org_of x ≡ bound_org) × (p x ≡ true))))
  unfolding select_own_org_or_shared execute
  select_own_org_or_shared_iff is_shared bound_org org_id extra p none rows x =
      let q = λ (y : A). (org_of y == org_id || is_shared y) && extra y in
      (
        inl (
          filter q rows,
          refl,
          refl,
          (
            λ m. let (k, h) = filter_sound q rows m in (k, ground arith, ground arith),
            λ (m, own, h). filter_complete q m (ground arith),
          ),
        ),
        (select_where org_of (some bound_org) p rows, refl, select_where_iff bound_org p rows x),
      )
  select_own_org_or_shared_iff is_shared bound_org org_id extra p (some e) rows x = (
    inr (e, refl, refl),
    (select_where org_of (some bound_org) p rows, refl, select_where_iff bound_org p rows x),
  )

-- A row that replaces the one a query found, with its tenant and its key, is what the query finds.
pub select_one-replaced :
    {A : Type 0} (org_of : A → ℕ) (org : Option ℕ) (p : A → Bool) (rows : List A) {x y : A}
    → p y ≡ true
    → org_of y ≡ org_of x
    → select_one org_of org p rows ≡ some x
    → select_one org_of org p (update_where p (λ _. y) rows) ≡ some y
unfolding select_one visible
select_one-replaced org_of none p rows {x} h k f = find?-replaced p rows {x = x} h f
select_one-replaced {A = A} org_of (some o) p rows {x} h k f =
    find?-replaced_filter p (λ r. org_of r == o) rows {x = x} h (rw k (found_here rows f)) f
  where
    found_here :
        (rs : List A) → find? p (filter (λ r. org_of r == o) rs) ≡ some x → (org_of x == o) ≡ true
    found_here [] g = cc
    found_here (z ∷ rs) g = elim (Bool-cases (org_of z == o)) [
      | inl e ↦ elim (Bool-cases (p z)) [
        | inl e' ↦ ground arith
        | inr e' ↦ found_here rs (rw (e, e') at g)
      ]
      | inr e ↦ found_here rs (rw e at g)
    ]

-- What a query finds passes the tests that the whole table passes.
pub select_one-AllPass :
    {A : Type 0} (P : A → Bool) (org_of : A → ℕ) (org : Option ℕ) (p : A → Bool) (rows : List A)
    {x : A}
    → AllPass P rows
    → select_one org_of org p rows ≡ some x
    → P x ≡ true
unfolding select_one visible
select_one-AllPass P org_of none p rows {x} s h = find?-AllPass P p rows {x = x} s h
select_one-AllPass P org_of (some o) p rows {x} s h =
    find?-AllPass P p (filter (λ r. org_of r == o) rows) {x = x}
      (filter-AllPass P (λ r. org_of r == o) rows s) h

-- What a query by key finds has the key.
pub select_one_sound :
    {A : Type 0} (org_of : A → ℕ) (org : Option ℕ) (p : A → Bool) (rows : List A) {x : A}
    → select_one org_of org p rows ≡ some x
    → p x ≡ true
unfolding select_one visible
select_one_sound org_of none p rows {x} h = find?-sound p rows {x = x} h
select_one_sound org_of (some o) p rows {x} h =
    find?-sound p (filter (λ r. org_of r == o) rows) {x = x} h

-- A change of rows that a query does not find leaves it as it was.
pub select_one-other :
    {A : Type 0} (org_of : A → ℕ) (org : Option ℕ) (p p' : A → Bool) (rows : List A) {y : A}
    → p y ≡ false
    → ((x : A) → p' x ≡ true → p x ≡ false)
    → select_one org_of org p (update_where p' (λ _. y) rows) ≡ select_one org_of org p rows
unfolding select_one visible
select_one-other org_of none p p' rows {y} h d = find?-other p p' rows {y = y} h d
select_one-other org_of (some o) p p' rows {y} h d =
    find?-other_filter p (λ r. org_of r == o) p' rows {y = y} h d
