-- ===== src/Assistant/Generation/Confirm.antt =====
-- The effects of a confirmation of generated FAQs.
use oss_us_web_design_system.Base.{
  All, any, sym, ◌≢◌, ℕ, ◌+◌, ◌≡◌, ◌∙◌, ap, refl, Bool, true, false, not, Option, some, List, [],
  ◌∷◌, map, length, Result, ok, err, arith, update_where, ◌==◌, Bool-cases, Option-cases,
  Result-cases, inl, inr, ◌⊎◌,
}
use oss_us_web_design_system.Auth.User.{User}
use oss_us_web_design_system.Tenancy.{select_one}
use oss_us_web_design_system.Tenancy.Laws.{select_one_sound, select_one-replaced}
use oss_us_web_design_system.Assistant.Generation.{
  session_confirmed, pending_review, approved, rejected, GenerationSession, Candidate,
  ApprovedCandidate, GenerationDb, GenerationError, validate_all, create_all, close_session,
  has_duplicate_ids, duplicate_key, close_candidate, is_of_session, confirm_faq_generation_session,
}
use oss_us_web_design_system.Assistant.Generation.Gate.{
  SameKeys, session_of, validate_all-categories, validate_all-SameKeys, create_all-ok,
  create_all-duplicate, confirm_failed, confirm_missing, confirm_invalid, confirm_valid,
}

-- Closing a session writes its row, which is found again.
close_session-found :
    (i session_id : ℕ) (db after : GenerationDb) {s : GenerationSession}
    → i ≡ session_id
    → (s.id == session_id) ≡ true
    → session_of session_id db ≡ some s
    → after.sessions ≡ db.sessions
    → after.current_org ≡ db.current_org
    → select_one
        (λ x. x.org_id)
        after.current_org
        (λ x. x.id == session_id)
        (update_where
          (λ x. x.id == i)
          (λ _. record s { status = session_confirmed })
          after.sessions)
      ≡ some (record s { status = session_confirmed })
close_session-found i session_id db after {s} q k f t o =
    rw (q, t, o)
      (select_one-replaced (λ x. x.org_id) db.current_org (λ x. x.id == session_id) db.sessions
        {x = s} {y = record s { status = session_confirmed }} k refl f)

session_of-own :
    (session_id : ℕ) (db : GenerationDb) {s : GenerationSession}
    → session_of session_id db ≡ some s
    → (s.id == session_id) ≡ true
session_of-own session_id db {s} f =
    select_one_sound (λ x. x.org_id) db.current_org (λ x. x.id == session_id) db.sessions {x = s} f

-- No candidate of the session waits for review.
unfoldable pub is_reviewed : Candidate → Bool
is_reviewed c = elim c.status [ pending_review ↦ false | approved ↦ true | rejected ↦ true ]

abbrev pub NonePending : ℕ → Option ℕ → List Candidate → Type 0
NonePending session_id org candidates =
    All (λ c. (not (is_of_session org session_id c)) ≡ true ⊎ (is_reviewed c ≡ true)) candidates

close-NonePending :
    (session_id : ℕ) (org : Option ℕ) (ids : List ℕ) (candidates : List Candidate)
    → NonePending session_id org
        (update_where (is_of_session org session_id) (close_candidate ids) candidates)
unfolding close_candidate is_reviewed
close-NonePending session_id org ids [] = tt
close-NonePending session_id org ids (c ∷ cs) = elim (Bool-cases (is_of_session org session_id c)) [
  | inl e ↦ rw e (inr (ground arith), close-NonePending session_id org ids cs)
  | inr e ↦ rw e (inl (rw e refl), close-NonePending session_id org ids cs)
]

err-injective :
    {a b : GenerationError}
    → Path (Result GenerationError (List ℕ × List ℕ)) (err a) (err b)
    → a ≡ b
err-injective h = cc

module _ (user : User) (session_id : ℕ) (items : List ApprovedCandidate) (db : GenerationDb) where
  confirm-duplicate :
      {o : ℕ} {s : GenerationSession}
      → db.current_org ≡ some o
      → session_of session_id db ≡ some s
      → validate_all items db ≡ ok tt
      → any has_duplicate_ids items ≡ true
      → (confirm_faq_generation_session user session_id items db).0 ≡ err duplicate_key
  confirm-duplicate {o} {s} org f v d =
      confirm_failed user session_id items db {s = s} {x = duplicate_key} f v
        (create_all-duplicate user items db {o = o} org (validate_all-categories items db v) d)

  -- A confirmation under a bound organization that is refused, by a missing session or a bad id of any
  -- candidate, writes nothing. An id that stands twice in a candidate is no such refusal: it breaks a
  -- junction table's key after the first writes, which the request's rollback takes back.
  pub confirm_is_atomic :
      {o : ℕ} {e : GenerationError}
      → db.current_org ≡ some o
      → (confirm_faq_generation_session user session_id items db).0 ≡ err e
      → e ≢ duplicate_key
      → (confirm_faq_generation_session user session_id items db).1 ≡ db
  confirm_is_atomic {o} {e} org h other = elim (Option-cases (session_of session_id db)) [
    | inl f ↦ ap (λ p. p.1) (confirm_missing user session_id items db f)
    | inr (s, f) ↦ elim (Result-cases (validate_all items db)) [
      | inr (x, v) ↦ ap (λ p. p.1) (confirm_invalid user session_id items db {s = s} {x = x} f v)
      | inl (u, v) ↦ elim (Bool-cases (any has_duplicate_ids items)) [
        | inl d ↦
            let k = confirm-duplicate {o = o} {s = s} org f v d in
            let same : Path (Result GenerationError (List ℕ × List ℕ)) (err e) (err duplicate_key) =
              sym h ∙ k in
            absurd (other (err-injective same))
        | inr d ↦
            let ((ids, made, _), _, _, _, _) =
              create_all-ok user items db {o = o} org (validate_all-categories items db v) d in
            let (_, (discarded, fine)) =
              confirm_valid user session_id items db {s = s} {ids = ids} f v made in
            absurd (ground arith)
      ]
    ]
  ]

  -- What a confirmation does, when the session is found and every candidate passes the checks.
  abbrev pub Confirmed : GenerationDb → Result GenerationError (List ℕ × List ℕ) → Type 0
  Confirmed after result =
      ((ids discarded : List ℕ) × (result ≡ ok (ids, discarded)) × (length ids ≡ length items))
      × (length after.faqs ≡ length db.faqs + length items)
      × ((s : GenerationSession) × (session_of session_id after
            ≡ some (record s { status = session_confirmed })))
      × NonePending session_id after.current_org after.candidates
      × SameKeys after db

  confirm-Confirmed :
      {o : ℕ} {s : GenerationSession}
      → db.current_org ≡ some o
      → session_of session_id db ≡ some s
      → validate_all items db ≡ ok tt
      → any has_duplicate_ids items ≡ false
      → Confirmed
          (confirm_faq_generation_session user session_id items db).1
          (confirm_faq_generation_session user session_id items db).0
  unfolding close_session
  confirm-Confirmed {o} {s} org f v d =
      let ((ids, made, count), grown, same, kept, keys) =
        create_all-ok user items db {o = o} org (validate_all-categories items db v) d in
      let (state, (discarded, result)) =
        confirm_valid user session_id items db {s = s} {ids = ids} f v made in
      let made_db = (create_all user items db).1 in
      let ids' = map (λ c. c.candidate_id) items in
      rw state (
        (ids, discarded, result, count),
        grown,
        (
          s,
          close_session-found s.id session_id db made_db {s = s}
              (let k = session_of-own session_id db {s = s} f in ground arith)
              (session_of-own session_id db {s = s} f) f same keys.3,
        ),
        close-NonePending session_id made_db.current_org ids' made_db.candidates,
        keys,
      )

  confirm_unique :
      {o : ℕ} {s : GenerationSession} {r : List ℕ × List ℕ}
      → db.current_org ≡ some o
      → session_of session_id db ≡ some s
      → validate_all items db ≡ ok tt
      → (confirm_faq_generation_session user session_id items db).0 ≡ ok r
      → any has_duplicate_ids items ≡ false
  confirm_unique {o} {s} {r} org f v h = elim (Bool-cases (any has_duplicate_ids items)) [
    | inl d ↦ let k = confirm-duplicate {o = o} {s = s} org f v d in absurd (ground arith)
    | inr d ↦ d
  ]

  -- Under a bound organization, a confirmation that succeeds returns one FAQ id for every approved
  -- candidate and makes that many FAQs, closes the session, leaves no candidate of it pending, and
  -- does not touch the rows that candidates refer to.
  pub confirm-effects :
      {o : ℕ} {r : List ℕ × List ℕ}
      → db.current_org ≡ some o
      → (confirm_faq_generation_session user session_id items db).0 ≡ ok r
      → Confirmed
          (confirm_faq_generation_session user session_id items db).1
          (confirm_faq_generation_session user session_id items db).0
  confirm-effects {o} {r} org h = elim (Option-cases (session_of session_id db)) [
    | inl f ↦ let m = confirm_missing user session_id items db f in absurd (ground arith)
    | inr (s, f) ↦ elim (Result-cases (validate_all items db)) [
      | inr (x, v) ↦
          let m = confirm_invalid user session_id items db {s = s} {x = x} f v in
          absurd (ground arith)
      | inl (u, v) ↦
          confirm-Confirmed {o = o} {s = s} org f v
            (confirm_unique {o = o} {s = s} {r = r} org f v h)
    ]
  ]

  confirm-validated :
      {o : ℕ} {r : List ℕ × List ℕ}
      → db.current_org ≡ some o
      → (confirm_faq_generation_session user session_id items db).0 ≡ ok r
      → (validate_all items db ≡ ok tt) × (any has_duplicate_ids items ≡ false)
  confirm-validated {o} {r} org h = elim (Option-cases (session_of session_id db)) [
    | inl f ↦ let m = confirm_missing user session_id items db f in absurd (ground arith)
    | inr (s, f) ↦ elim (Result-cases (validate_all items db)) [
      | inr (x, v) ↦
          let m = confirm_invalid user session_id items db {s = s} {x = x} f v in
          absurd (ground arith)
      | inl (u, v) ↦ (v, confirm_unique {o = o} {s = s} {r = r} org f v h)
    ]
  ]

-- A session that is confirmed already is not refused: under a bound organization, sending a
-- successful confirmation again succeeds again and makes every approved FAQ a second time.
pub reconfirm_duplicates :
    (user : User) (session_id : ℕ) (items : List ApprovedCandidate) (db : GenerationDb) {o : ℕ}
    {r : List ℕ × List ℕ}
    → db.current_org ≡ some o
    → (confirm_faq_generation_session user session_id items db).0 ≡ ok r
    → let once = (confirm_faq_generation_session user session_id items db).1 in
      let twice = confirm_faq_generation_session user session_id items once in
      ((ids discarded : List ℕ) × (twice.0 ≡ ok (ids, discarded)) × (length ids ≡ length items))
      × (length twice.1.faqs ≡ length db.faqs + length items + length items)
reconfirm_duplicates user session_id items db {o} {r} org h =
    let once = (confirm_faq_generation_session user session_id items db).1 in
    let (_, grown, (s, found), _, keys) =
      confirm-effects user session_id items db {o = o} {r = r} org h in
    let (first_valid, unique) = confirm-validated user session_id items db {o = o} {r = r} org h in
    let valid = validate_all-SameKeys items once db keys ∙ first_valid in
    let (result, more, _, _, _) =
      confirm-Confirmed user session_id items once {o = o}
        {s = record s { status = session_confirmed }} (keys.3 ∙ org) found valid unique in
    (result, more ∙ ap (λ n. n + length items) grown)
