-- ===== src/Assistant/Catalog/Laws.antt =====
-- The fallback modes of pairs of categories, configured and found (app/slots/accessibility_assistant/service.py).
use oss_us_web_design_system.Base.{
  ◌≡◌, ◌+◌, [], ◌∷◌, ◌++◌, refl, ℕ, Bool, none, some, String, ◌==◌, ok, find?-append_new,
  filter-append_last, filter, ==_refl,
}
use oss_us_web_design_system.Assistant.Catalog.{
  FallbackMode, Catalog, is_mode_of, find_fallback_mode, get_fallback_mode, put_fallback_mode,
}
use oss_us_web_design_system.Tenancy.{visible, select_one}

abbrev new_mode : ℕ → ℕ → String → Catalog → FallbackMode
new_mode source_id question_id mode db = record {
  id = db.next_id;
  org_id = db.org;
  source_category_id = source_id;
  question_category_id = question_id;
  mode = mode;
}

put_fallback_mode-new :
    (source_id question_id : ℕ) (mode : String) (db : Catalog)
    → find_fallback_mode source_id question_id db ≡ none
    → let c = new_mode source_id question_id mode db in
      put_fallback_mode source_id question_id mode db
      ≡ (c, record db { modes = db.modes ++ c ∷ []; next_id = db.next_id + 1 })
unfolding put_fallback_mode
put_fallback_mode-new source_id question_id mode db h = rw (put_fallback_mode, h) refl

find_fallback_mode-new :
    (source_id question_id : ℕ) (mode : String) (db : Catalog) (n : ℕ)
    → find_fallback_mode source_id question_id db ≡ none
    → let c = new_mode source_id question_id mode db in
      find_fallback_mode source_id question_id
        (record db { modes = db.modes ++ c ∷ []; next_id = n })
      ≡ some c
unfolding find_fallback_mode is_mode_of select_one visible
find_fallback_mode-new source_id question_id mode db n h =
    let c = new_mode source_id question_id mode db in
    let own : FallbackMode → Bool = λ x. x.org_id == db.org in
    let grown = filter-append_last own db.modes c in
    rw (grown, ==_refl db.org)
      (find?-append_new (is_mode_of source_id question_id) (filter own db.modes) c h
        (rw (==_refl source_id, ==_refl question_id) refl))

-- The mode configured for a pair that has none is the one found for the pair afterwards.
put_fallback_mode-get_fallback_mode :
    (source_id question_id : ℕ) (mode : String) (db : Catalog)
    → find_fallback_mode source_id question_id db ≡ none
    → let (c, db') = put_fallback_mode source_id question_id mode db in
      (get_fallback_mode source_id question_id db').0 ≡ ok c
unfolding get_fallback_mode
put_fallback_mode-get_fallback_mode source_id question_id mode db h =
    rw
      (
        put_fallback_mode-new source_id question_id mode db h,
        find_fallback_mode-new source_id question_id mode db (db.next_id + 1) h,
      )
      refl
