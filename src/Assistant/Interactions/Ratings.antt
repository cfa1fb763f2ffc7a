-- ===== src/Assistant/Interactions/Ratings.antt =====
-- Who reads and rates an interaction, and what becomes of a helpfulness rating.
use oss_us_web_design_system.Base.{
  ℕ, ◌≡◌, refl, ◌∙◌, ap, Bool, true, false, Option, none, some, is_some, String, List, [], ◌∷◌,
  update_where, Action, ok, err, ◌==◌, arith, Bool-cases, Option-cases, inl, inr, ◌⊎◌,
}
use oss_us_web_design_system.Assistant.Interactions.{
  InteractionLog, LogDb, LogError, interaction_log_access_denied, rate_interaction, get_interaction,
  submit_helpfulness_rating,
}
use oss_us_web_design_system.Tenancy.{select_one}
use oss_us_web_design_system.Tenancy.Laws.{select_one-replaced, select_one_sound, select_one-other}

-- The log that a call finds in the bound organization.
abbrev pub log_of : LogDb → ℕ → Option InteractionLog
log_of db log_id = select_one (λ x. x.org_id) db.current_org (λ x. x.id == log_id) db.logs

-- Whoever does not own a log can neither rate it nor, without being an administrator, read it; the
-- table stays as it was. An administrator reads it.
not_owner_refused :
    (user_id log_id : ℕ) (rating : Option Bool) (helpfulness : String) (db : LogDb)
    {entry : InteractionLog}
    → log_of db log_id ≡ some entry
    → (entry.user_id == user_id) ≡ false
    → (rate_interaction user_id log_id rating db ≡ (err interaction_log_access_denied, db))
      × (submit_helpfulness_rating user_id log_id helpfulness db
          ≡ (err interaction_log_access_denied, db))
      × (get_interaction user_id log_id false db ≡ (err interaction_log_access_denied, db))
      × (get_interaction user_id log_id true db ≡ (ok entry, db))
unfolding rate_interaction submit_helpfulness_rating get_interaction
not_owner_refused user_id log_id rating helpfulness db {entry} e o =
    (ground arith, ground arith, ground arith, ground arith)

-- A rating call on the table.
pub data Call : Type 0 where
  rate : ℕ → ℕ → Option Bool → Call
  submit : ℕ → ℕ → String → Call

unfoldable pub run : Call → Action LogDb LogError InteractionLog
run (rate user_id log_id rating) = rate_interaction user_id log_id rating
run (submit user_id log_id rating) = submit_helpfulness_rating user_id log_id rating

unfoldable pub history : List Call → LogDb → LogDb
unfolding run
history [] db = db
history (c ∷ cs) db = history cs (run c db).1

-- The log has this helpfulness rating.
abbrev pub Rated : ℕ → String → LogDb → Type 0
Rated log_id rating db =
    (entry : InteractionLog) × (log_of db log_id ≡ some entry)
    × (entry.helpfulness_rating ≡ some rating)

-- A call leaves the database as it is, or writes one row with the key and the tenant of the row that it finds,
-- and with its helpfulness rating if that row has one.
Written : LogDb → LogDb → Type 0
Written db after =
    (after ≡ db)
    ⊎ ((old new : InteractionLog) × (log_of db new.id ≡ some old)
        × (new.org_id ≡ old.org_id)
        × ((is_some old.helpfulness_rating ≡ false)
            ⊎ (new.helpfulness_rating ≡ old.helpfulness_rating))
        × (after ≡ record db { logs = update_where (λ x. x.id == new.id) (λ _. new) db.logs }))

-- The row that is found has the key it is looked up by.
log_of-own :
    (db : LogDb) (log_id : ℕ) {old : InteractionLog}
    → log_of db log_id ≡ some old
    → log_of db old.id ≡ some old
log_of-own db log_id {old} e =
    let k =
      select_one_sound (λ x. x.org_id) db.current_org (λ x. x.id == log_id) db.logs {x = old} e in
    let q : old.id ≡ log_id = ground arith in ap (λ i. log_of db i) q ∙ e

-- The row that is written is found, and rows of other keys are found as before.
log_of-written :
    (db : LogDb) (i log_id : ℕ) {old new : InteractionLog}
    → i ≡ log_id
    → (new.id == log_id) ≡ true
    → new.org_id ≡ old.org_id
    → log_of db i ≡ some old
    → log_of (record db { logs = update_where (λ x. x.id == i) (λ _. new) db.logs }) log_id
      ≡ some new
log_of-written db i log_id {old} {new} q k org e = rw q (
    select_one-replaced (λ x. x.org_id) db.current_org (λ x. x.id == log_id) db.logs {x = old}
      {y = new} k org (rw q at e))

log_of-unwritten :
    (db : LogDb) (i log_id : ℕ) (new : InteractionLog)
    → (i == log_id) ≡ false
    → (new.id == log_id) ≡ false
    → log_of (record db { logs = update_where (λ x. x.id == i) (λ _. new) db.logs }) log_id
      ≡ log_of db log_id
log_of-unwritten db i log_id new d k =
    select_one-other (λ x. x.org_id) db.current_org (λ x. x.id == log_id) (λ x. x.id == i) db.logs
      {y = new} k (λ x h. ground arith)

rate-Written :
    (user_id log_id : ℕ) (rating : Option Bool) (db : LogDb)
    → Written db (rate_interaction user_id log_id rating db).1
unfolding rate_interaction Written
rate-Written user_id log_id rating db = elim (Option-cases (log_of db log_id)) [
  | inl e ↦ inl (ground arith)
  | inr (old, e) ↦ elim (Bool-cases (old.user_id == user_id)) [
    | inr f ↦ inl (ground arith)
    | inl f ↦ inr (
      old,
      record old { rating = rating },
      log_of-own db log_id {old = old} e,
      refl,
      inr refl,
      ground arith,
    )
  ]
]

submit-Written :
    (user_id log_id : ℕ) (rating : String) (db : LogDb)
    → Written db (submit_helpfulness_rating user_id log_id rating db).1
unfolding submit_helpfulness_rating Written
submit-Written user_id log_id rating db = elim (Option-cases (log_of db log_id)) [
  | inl e ↦ inl (ground arith)
  | inr (old, e) ↦ elim (Bool-cases (old.user_id == user_id)) [
    | inr f ↦ inl (ground arith)
    | inl f ↦ elim (Bool-cases (is_some old.helpfulness_rating)) [
      | inl g ↦ inl (ground arith)
      | inr g ↦ inr (
        old,
        record old { helpfulness_rating = some rating },
        log_of-own db log_id {old = old} e,
        refl,
        inl g,
        ground arith,
      )
    ]
  ]
]

run-Written : (c : Call) (db : LogDb) → Written db (run c db).1
unfolding run
run-Written (rate user_id log_id rating) db = rate-Written user_id log_id rating db
run-Written (submit user_id log_id rating) db = submit-Written user_id log_id rating db

Written-Rated :
    (log_id : ℕ) (rating : String) (db after : LogDb)
    → Rated log_id rating db
    → Written db after
    → Rated log_id rating after
unfolding Written
Written-Rated log_id rating db after r (inl e) = rw e r
Written-Rated log_id rating db after (entry, e, h) (inr (old, new, found, org, kept, a)) =
    elim (Bool-cases (new.id == log_id)) [
      | inl f ↦
          let k : new.id ≡ log_id = ground arith in
          let q : old ≡ entry = ground arith in
          rw a (
            new,
            log_of-written db new.id log_id {old = old} {new = new} k f org found,
            ground arith,
          )
      | inr f ↦ rw a (entry, log_of-unwritten db new.id log_id new f f ∙ e, h)
    ]

history-Rated :
    (log_id : ℕ) (rating : String) (calls : List Call) (db : LogDb)
    → Rated log_id rating db
    → Rated log_id rating (history calls db)
unfolding history
history-Rated log_id rating [] db r = r
history-Rated log_id rating (c ∷ cs) db r =
    history-Rated log_id rating cs (run c db).1
      (Written-Rated log_id rating db (run c db).1 r (run-Written c db))

submit_lem :
    (user_id log_id : ℕ) (rating : String) (db : LogDb) {old entry : InteractionLog}
    → log_of db log_id ≡ some old
    → (submit_helpfulness_rating user_id log_id rating db).0 ≡ ok entry
    → (submit_helpfulness_rating user_id log_id rating db).1 ≡ record db {
      logs =
          update_where
            (λ x. x.id == old.id)
            (λ _. record old { helpfulness_rating = some rating })
            db.logs;
    }
unfolding submit_helpfulness_rating
submit_lem user_id log_id rating db {old} e h = ground arith

submit_missing :
    (user_id log_id : ℕ) (rating : String) (db : LogDb) {entry : InteractionLog}
    → log_of db log_id ≡ none
    → (submit_helpfulness_rating user_id log_id rating db).0 ≡ ok entry
    → ⊥
unfolding submit_helpfulness_rating
submit_missing user_id log_id rating db e h = ground arith

submit-Rated :
    (user_id log_id : ℕ) (rating : String) (db : LogDb) {entry : InteractionLog}
    → (submit_helpfulness_rating user_id log_id rating db).0 ≡ ok entry
    → Rated log_id rating (submit_helpfulness_rating user_id log_id rating db).1
submit-Rated user_id log_id rating db {entry} h = elim (Option-cases (log_of db log_id)) [
  | inl e ↦ absurd (submit_missing user_id log_id rating db {entry = entry} e h)
  | inr (old, e) ↦
      let k =
        select_one_sound (λ x. x.org_id) db.current_org (λ x. x.id == log_id) db.logs {x = old} e in
      let new = record old { helpfulness_rating = some rating } in
      rw (submit_lem user_id log_id rating db {old = old} {entry = entry} e h) (
        new,
        log_of-written db old.id log_id {old = old} {new = new} (ground arith) k refl
            (log_of-own db log_id {old = old} e),
        refl,
      )
]

-- A helpfulness rating is final: after it is submitted, whatever ratings of either kind are sent for
-- this log or others, by anyone and in any order, the log has the rating that was submitted.
pub helpfulness_is_final :
    (user_id log_id : ℕ) (rating : String) (db : LogDb) {entry : InteractionLog} (calls : List Call)
    → (submit_helpfulness_rating user_id log_id rating db).0 ≡ ok entry
    → Rated log_id rating (history calls (submit_helpfulness_rating user_id log_id rating db).1)
helpfulness_is_final user_id log_id rating db {entry} calls h =
    history-Rated log_id rating calls (submit_helpfulness_rating user_id log_id rating db).1
      (submit-Rated user_id log_id rating db {entry = entry} h)
