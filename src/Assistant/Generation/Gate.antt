-- ===== src/Assistant/Generation/Gate.antt =====
-- The steps of a confirmation of generated FAQs: the checks, the making of the FAQs, the closing.
use oss_us_web_design_system.Base.{
  All, any, ◌||◌, Bool, Bool-cases, false, ℕ, suc, ◌+◌, ◌≡◌, ◌∙◌, ap, refl, true, not, Option, none,
  some, is_some, List, [], ◌∷◌, ◌++◌, map, filter, length, elem, ok, err, arith, ◌==◌, Option-cases,
  inl, inr,
}
use oss_us_web_design_system.Auth.User.{User}
use oss_us_web_design_system.Tenancy.{select_where, select_one, inject_org}
use oss_us_web_design_system.Assistant.Generation.{
  GenerationSession, ApprovedCandidate, GenerationDb, GenerationError, generation_session_not_found,
  validate, validate_all, first_id, has_duplicate_ids, duplicate_key, create_faq, create_all,
  close_session, confirm_faq_generation_session,
}

-- A candidate that passes the checks has a question category.
abbrev pub HasCategories : List ApprovedCandidate → Type 0
HasCategories items = All (λ item. is_some (first_id item.question_category_ids) ≡ true) items

validate-category :
    (item : ApprovedCandidate) (db : GenerationDb)
    → validate item db ≡ ok tt
    → is_some (first_id item.question_category_ids) ≡ true
unfolding validate first_id
validate-category item db h = ground arith

pub validate_all-categories :
    (items : List ApprovedCandidate) (db : GenerationDb)
    → validate_all items db ≡ ok tt
    → HasCategories items
unfolding validate_all
validate_all-categories [] db h = tt
validate_all-categories (item ∷ items) db h =
    (validate-category item db (ground arith), validate_all-categories items db (ground arith))

-- The tables that the checks read.
abbrev pub SameKeys : GenerationDb → GenerationDb → Type 0
SameKeys a b =
    (a.question_categories ≡ b.question_categories)
    × (a.source_categories ≡ b.source_categories)
    × (a.sources ≡ b.sources)
    × (a.current_org ≡ b.current_org)

pub validate_all-SameKeys :
    (items : List ApprovedCandidate) (a b : GenerationDb)
    → SameKeys a b
    → validate_all items a ≡ validate_all items b
unfolding validate_all validate
validate_all-SameKeys [] a b k = refl
validate_all-SameKeys (item ∷ items) a b (q, s, r, o) =
    rw (validate_all-SameKeys items a b (q, s, r, o)) (rw (q, s, r, o) refl)

length-append_one : {A : Type 0} (x : A) (xs : List A) → length (xs ++ x ∷ []) ≡ suc (length xs)
length-append_one x [] = refl
length-append_one x (_ ∷ xs) = ap suc (length-append_one x xs)

or_false_left : (a b : Bool) → (a || b) ≡ false → a ≡ false
or_false_left a b h = ground arith

or_false_right : (a b : Bool) → (a || b) ≡ false → b ≡ false
or_false_right a b h = ground arith

-- The making of the FAQs, when every candidate has a category and an organization is bound.
create_faq-ok :
    (user : User) (item : ApprovedCandidate) (db : GenerationDb) {o : ℕ}
    → db.current_org ≡ some o
    → is_some (first_id item.question_category_ids) ≡ true
    → has_duplicate_ids item ≡ false
    → ((create_faq user item db).0 ≡ ok db.next_faq_id)
      × (length (create_faq user item db).1.faqs ≡ suc (length db.faqs))
      × ((create_faq user item db).1.sessions ≡ db.sessions)
      × ((create_faq user item db).1.candidates ≡ db.candidates)
      × SameKeys (create_faq user item db).1 db
unfolding create_faq inject_org
create_faq-ok user item db {o} e h d = elim (Option-cases (first_id item.question_category_ids)) [
  | inl f ↦ absurd (ground arith)
  | inr (c, f) ↦
      rw (f, e, d) (refl, length-append_one _ db.faqs, refl, refl, (refl, refl, refl, refl))
]

create_all-done : (user : User) (db : GenerationDb) → create_all user [] db ≡ (ok [], db)
unfolding create_all
create_all-done user db = refl

create_all-step :
    (user : User) (item : ApprovedCandidate) (items : List ApprovedCandidate) (db : GenerationDb)
    {id : ℕ} {ids : List ℕ}
    → (create_faq user item db).0 ≡ ok id
    → (create_all user items (create_faq user item db).1).0 ≡ ok ids
    → create_all user (item ∷ items) db
      ≡ (ok (id ∷ ids), (create_all user items (create_faq user item db).1).1)
unfolding create_all
create_all-step user item items db {id} {ids} f g = ground arith

pub create_all-ok :
    (user : User) (items : List ApprovedCandidate) (db : GenerationDb) {o : ℕ}
    → db.current_org ≡ some o
    → HasCategories items
    → any has_duplicate_ids items ≡ false
    → ((ids : List ℕ) × ((create_all user items db).0 ≡ ok ids) × (length ids ≡ length items))
      × (length (create_all user items db).1.faqs ≡ length db.faqs + length items)
      × ((create_all user items db).1.sessions ≡ db.sessions)
      × ((create_all user items db).1.candidates ≡ db.candidates)
      × SameKeys (create_all user items db).1 db
create_all-ok user [] db e h d =
    rw (create_all-done user db)
      (([], refl, refl), ground arith, refl, refl, (refl, refl, refl, refl))
create_all-ok user (item ∷ items) db {o} e h d =
    let (made, grown, same, kept, keys) =
      create_faq-ok user item db {o = o} e h.0 (or_false_left (has_duplicate_ids item) _ d) in
    let ((ids, rest, count), more, same', kept', keys') =
      create_all-ok user items (create_faq user item db).1 {o = o} (keys.3 ∙ e) h.1
        (or_false_right (has_duplicate_ids item) _ d) in
    rw (create_all-step user item items db {ids = ids} made rest) (
      (db.next_faq_id ∷ ids, refl, ground arith),
      ground arith,
      same' ∙ same,
      kept' ∙ kept,
      (keys'.0 ∙ keys.0, keys'.1 ∙ keys.1, keys'.2 ∙ keys.2, keys'.3 ∙ keys.3),
    )

create_faq-duplicate :
    (user : User) (item : ApprovedCandidate) (db : GenerationDb) {o : ℕ}
    → db.current_org ≡ some o
    → is_some (first_id item.question_category_ids) ≡ true
    → has_duplicate_ids item ≡ true
    → (create_faq user item db).0 ≡ err duplicate_key
unfolding create_faq inject_org
create_faq-duplicate user item db {o} e h d =
    elim (Option-cases (first_id item.question_category_ids)) [
      | inl f ↦ absurd (ground arith)
      | inr (c, f) ↦ rw (f, e, d) refl
    ]

create_all-failed :
    (user : User) (item : ApprovedCandidate) (items : List ApprovedCandidate) (db : GenerationDb)
    {x : GenerationError}
    → (create_faq user item db).0 ≡ err x
    → (create_all user (item ∷ items) db).0 ≡ err x
unfolding create_all
create_all-failed user item items db {x} f = ground arith

create_all-later :
    (user : User) (item : ApprovedCandidate) (items : List ApprovedCandidate) (db : GenerationDb)
    {id : ℕ} {x : GenerationError}
    → (create_faq user item db).0 ≡ ok id
    → (create_all user items (create_faq user item db).1).0 ≡ err x
    → (create_all user (item ∷ items) db).0 ≡ err x
unfolding create_all
create_all-later user item items db {id} {x} f g = ground arith

-- A candidate that names a category or a source twice breaks a junction table's key.
pub create_all-duplicate :
    (user : User) (items : List ApprovedCandidate) (db : GenerationDb) {o : ℕ}
    → db.current_org ≡ some o
    → HasCategories items
    → any has_duplicate_ids items ≡ true
    → (create_all user items db).0 ≡ err duplicate_key
create_all-duplicate user [] db e h d = cc
create_all-duplicate user (item ∷ items) db {o} e h d = elim (Bool-cases (has_duplicate_ids item)) [
  | inl f ↦
      create_all-failed user item items db {x = duplicate_key}
        (create_faq-duplicate user item db {o = o} e h.0 f)
  | inr f ↦
      let (made, _, _, _, keys) = create_faq-ok user item db {o = o} e h.0 f in
      create_all-later user item items db {id = db.next_faq_id} {x = duplicate_key} made (
        create_all-duplicate user items (create_faq user item db).1 {o = o} (keys.3 ∙ e) h.1
          (rw f at d))
]

-- The session that a call finds.
abbrev pub session_of : ℕ → GenerationDb → Option GenerationSession
session_of session_id db =
    select_one (λ x. x.org_id) db.current_org (λ x. x.id == session_id) db.sessions

pub confirm_missing :
    (user : User) (session_id : ℕ) (items : List ApprovedCandidate) (db : GenerationDb)
    → session_of session_id db ≡ none
    → confirm_faq_generation_session user session_id items db
      ≡ (err generation_session_not_found, db)
unfolding confirm_faq_generation_session
confirm_missing user session_id items db e = ground arith

pub confirm_invalid :
    (user : User) (session_id : ℕ) (items : List ApprovedCandidate) (db : GenerationDb)
    {s : GenerationSession} {x : GenerationError}
    → session_of session_id db ≡ some s
    → validate_all items db ≡ err x
    → confirm_faq_generation_session user session_id items db ≡ (err x, db)
unfolding confirm_faq_generation_session
confirm_invalid user session_id items db {s} {x} e v = ground arith

pub confirm_valid :
    (user : User) (session_id : ℕ) (items : List ApprovedCandidate) (db : GenerationDb)
    {s : GenerationSession} {ids : List ℕ}
    → session_of session_id db ≡ some s
    → validate_all items db ≡ ok tt
    → (create_all user items db).0 ≡ ok ids
    → ((confirm_faq_generation_session user session_id items db).1
        ≡ close_session session_id (map (λ c. c.candidate_id) items) s (create_all user items db).1)
      × ((discarded : List ℕ) × ((confirm_faq_generation_session user session_id items db).0
            ≡ ok (ids, discarded)))
unfolding confirm_faq_generation_session
confirm_valid user session_id items db {s} {ids} e v c =
    let after = (create_all user items db).1 in
    let seen =
      select_where (λ x. x.org_id) after.current_org (λ x. x.session_id == session_id)
        after.candidates in
    (
      ground arith,
      (
        map (λ x. x.id) (filter (λ x. not (elem x.id (map (λ x. x.candidate_id) items))) seen),
        ground arith,
      ),
    )

pub confirm_failed :
    (user : User) (session_id : ℕ) (items : List ApprovedCandidate) (db : GenerationDb)
    {s : GenerationSession} {x : GenerationError}
    → session_of session_id db ≡ some s
    → validate_all items db ≡ ok tt
    → (create_all user items db).0 ≡ err x
    → (confirm_faq_generation_session user session_id items db).0 ≡ err x
unfolding confirm_faq_generation_session
confirm_failed user session_id items db {s} {x} e v c = ground arith
