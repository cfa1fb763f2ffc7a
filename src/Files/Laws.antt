-- ===== src/Files/Laws.antt =====
-- What is stored can be read and found in its organization, and counts to its usage.
use oss_us_web_design_system.Base.{
  ℕ, ◌+◌, ◌≤◌, ◌≡◌, refl, true, false, ◌&&◌, Option, none, some, List, [], ◌∷◌, ◌++◌, length,
  filter, find?, ◌==◌, ltb, if◌then◌else◌, arith, Bool-cases, inl, inr, Text, text_eq_refl, strip,
  ok, find?-append_new, filter-append_last, ==_refl,
}
use oss_us_web_design_system.Files.{
  FileObject, FileDb, is_empty_text, store_file, get_file, read_bytes, org_usage, total_size,
  write_bytes,
}

total_size-append :
    (xs : List FileObject) (f : FileObject)
    → total_size (xs ++ f ∷ []) ≡ total_size xs + f.size_bytes
unfolding total_size
total_size-append [] f = omega arith
total_size-append (x ∷ xs) f = let rest = total_size-append xs f in omega (arith, rest)

-- A search by a number that no row has finds nothing, whatever else it asks for.
find?-fresh :
    (k org : ℕ) (fs : List FileObject)
    → find? (λ f. f.id == k) fs ≡ none
    → find? (λ f. f.id == k && f.organization_id == org) fs ≡ none
find?-fresh k org [] h = refl
find?-fresh k org (f ∷ fs) h = elim (Bool-cases (f.id == k)) [
  | inl e ↦ absurd (ground (arith, e))
  | inr e ↦ rw e (find?-fresh k org fs (rw e at h))
]

find?-append_other :
    (k org : ℕ) (fs : List FileObject) (f : FileObject)
    → find? (λ x. x.id == k && x.organization_id == org) fs ≡ none
    → (f.organization_id == org) ≡ false
    → find? (λ x. x.id == k && x.organization_id == org) (fs ++ f ∷ []) ≡ none
find?-append_other k org [] f h n = ground (arith, n)
find?-append_other k org (x ∷ fs) f h n =
    elim (Bool-cases (x.id == k && x.organization_id == org)) [
      | inl e ↦ absurd (ground (arith, e))
      | inr e ↦ rw e (find?-append_other k org fs f (rw e at h) n)
    ]

org_usage-added :
    (org_id : ℕ) (objects : List FileObject) (f : FileObject)
    → f.organization_id ≡ org_id
    → total_size (filter (λ x. x.organization_id == org_id) (objects ++ f ∷ []))
      ≡ total_size (filter (λ x. x.organization_id == org_id) objects) + f.size_bytes
org_usage-added org_id objects f e =
    let t : (f.organization_id == org_id) ≡ true = rw e (==_refl org_id) in
    rw (filter-append_last (λ x. x.organization_id == org_id) objects f, t)
      (total_size-append (filter (λ x. x.organization_id == org_id) objects) f)

module _ (sha256 : List ℕ → Text) (max_bytes : ℕ) (key : Text) (org_id : ℕ) (owner : Option ℕ)
    (filename content_type : Text) (bytes : List ℕ) (db : FileDb)
    (small : ltb max_bytes (length bytes) ≡ false)
    (named : is_empty_text (strip filename) ≡ false) where
  found :
      (other : ℕ) (f : FileObject)
      → f.id ≡ db.next_id
      → f.organization_id ≡ org_id
      → find? (λ x. x.id == db.next_id) db.objects ≡ none
      → find? (λ x. x.id == db.next_id && x.organization_id == other) (db.objects ++ f ∷ [])
        ≡ (if org_id == other then some f else none)
  found other f a b fresh =
      let n = find?-fresh db.next_id other db.objects fresh in
      elim (Bool-cases (org_id == other)) [
        | inl e ↦ rw e (
            find?-append_new (λ x. x.id == db.next_id && x.organization_id == other) db.objects f n
              (rw (a, b, e, ==_refl db.next_id) refl))
        | inr e ↦ rw e (find?-append_other db.next_id other db.objects f n (rw (b, e) refl))
      ]

  -- A file that is not too large and has a name is stored, when no row has its new number: its bytes
  -- are read back as they were, its row is found by its new number in its own organization and in no
  -- other, and the organization's usage grows by the number of its bytes, which is no more than the
  -- limit.
  pub store_file-read_bytes :
      (other : ℕ)
      → find? (λ f. f.id == db.next_id) db.objects ≡ none
      → let (r, db') =
          store_file sha256 max_bytes key org_id owner filename content_type bytes db in
        (obj : FileObject) × (r ≡ ok obj)
        × (read_bytes obj db' ≡ ok bytes)
        × (get_file obj.id other db' ≡ (if org_id == other then some obj else none))
        × ((org_usage org_id db').1 ≡ (org_usage org_id db).1 + length bytes)
        × (length bytes ≤ max_bytes)
  unfolding store_file read_bytes get_file org_usage write_bytes
  store_file-read_bytes other fresh =
      rw (store_file, small, named)
        (
          _,
          refl,
          rw (read_bytes, text_eq_refl key) refl,
          found other _ refl refl fresh,
          org_usage-added org_id db.objects _ refl,
          ground arith,
        )
