-- ===== src/Assistant/Catalog.antt =====
-- The categories of sources and of questions, and the fallback modes that are configured for pairs
-- of them (app/slots/accessibility_assistant/service.py). Creation and update stamps are left out;
-- the organization is the one bound to the request.
pub mod Laws
use oss_us_web_design_system.Base.{
  ℕ, ◌+◌, Bool, true, false, not, ◌&&◌, ◌||◌, Option, none, some, is_some, String, List, [], ◌∷◌,
  ◌++◌, filter, update_where, ◌==◌, ltb, if◌then◌else◌, Text, text_eq, lower, sort_by, Action,
  Result, ok, err, pure, raise_if, gets, or_raise, modify, ◌>>=◌, ◌>>◌,
}
use oss_us_web_design_system.Auth.User.{User}
use oss_us_web_design_system.Tenancy.{visible, select_one}
use oss_us_web_design_system.Assistant.Sharing.{creator_role_snapshot_for}

pub record SourceCategory : Type 0 where
  pub id : ℕ
  pub org_id : ℕ
  pub name : Text
  pub description : Option Text
  pub created_by_user_id : ℕ
  pub is_platform_shared : Bool
  pub creator_role_snapshot : String

pub record QuestionCategory : Type 0 where
  pub id : ℕ
  pub org_id : ℕ
  pub name : Text
  pub description : Option Text
  pub created_by_user_id : ℕ

pub record FallbackMode : Type 0 where
  pub id : ℕ
  pub org_id : ℕ
  pub source_category_id : ℕ
  pub question_category_id : ℕ
  pub mode : String

pub record Catalog : Type 0 where
  pub source_categories : List SourceCategory
  pub question_categories : List QuestionCategory
  pub modes : List FallbackMode
  pub org : ℕ
  pub next_id : ℕ

pub data CatalogError : Type 0 where
  duplicate_category_name source_category_not_found category_not_found fallback_config_not_found :
      CatalogError

-- `create_information_source_category`; names are compared as they are.
unfoldable pub create_source_category :
    User → Text → Option Text → Action Catalog CatalogError SourceCategory
create_source_category user name description = do
  existing ← gets (λ db.
      select_one (λ c. c.org_id) (some db.org) (λ c. text_eq c.name name) db.source_categories)
  raise_if (is_some existing) duplicate_category_name
  new ← gets (λ (db : Catalog). record {
    id = db.next_id;
    org_id = db.org;
    name = name;
    description = description;
    created_by_user_id = user.id;
    is_platform_shared = false;
    creator_role_snapshot = creator_role_snapshot_for user;
  })
  modify (λ db. record db {
    source_categories = db.source_categories ++ new ∷ [];
    next_id = db.next_id + 1;
  })
  pure new

unfoldable pub get_source_category : ℕ → Action Catalog CatalogError SourceCategory
get_source_category category_id = do
  found ← gets (λ db.
      select_one (λ c. c.org_id) (some db.org) (λ c. c.id == category_id) db.source_categories)
  or_raise found source_category_not_found

-- `create_question_category`; names are compared in small letters.
unfoldable pub create_question_category :
    User → Text → Option Text → Action Catalog CatalogError QuestionCategory
create_question_category user name description = do
  existing ← gets (λ db.
      select_one (λ c. c.org_id) (some db.org) (λ c. text_eq (lower c.name) (lower name))
        db.question_categories)
  raise_if (is_some existing) duplicate_category_name
  new ← gets (λ (db : Catalog). record {
    id = db.next_id;
    org_id = db.org;
    name = name;
    description = description;
    created_by_user_id = user.id;
  })
  modify (λ db. record db {
    question_categories = db.question_categories ++ new ∷ [];
    next_id = db.next_id + 1;
  })
  pure new

unfoldable pub get_question_category : ℕ → Action Catalog CatalogError QuestionCategory
get_question_category category_id = do
  found ← gets (λ db.
      select_one (λ c. c.org_id) (some db.org) (λ c. c.id == category_id) db.question_categories)
  or_raise found category_not_found

-- `list_llm_fallback_configs`.
unfoldable pub list_fallback_modes : Catalog → List FallbackMode
unfolding visible sort_by
list_fallback_modes db =
    sort_by (λ a b. ltb a.id b.id) (visible (λ c. c.org_id) (some db.org) db.modes)

unfoldable pub is_mode_of : ℕ → ℕ → FallbackMode → Bool
is_mode_of source_category_id question_category_id c =
    c.source_category_id == source_category_id && c.question_category_id == question_category_id

unfoldable pub find_fallback_mode : ℕ → ℕ → Catalog → Option FallbackMode
unfolding is_mode_of select_one
find_fallback_mode source_id question_id db =
    select_one (λ c. c.org_id) (some db.org) (is_mode_of source_id question_id) db.modes

-- `get_llm_fallback_config`.
unfoldable pub get_fallback_mode : ℕ → ℕ → Action Catalog CatalogError FallbackMode
unfolding find_fallback_mode
get_fallback_mode source_id question_id = do
  found ← gets (find_fallback_mode source_id question_id)
  or_raise found fallback_config_not_found

-- The row of `upsert_llm_fallback_config`, changed or added.
unfoldable pub put_fallback_mode : ℕ → ℕ → String → Catalog → FallbackMode × Catalog
put_fallback_mode source_id question_id mode db =
    elim (find_fallback_mode source_id question_id db) [
      | some c ↦
          let c' = record c { mode = mode } in
          (c', record db { modes = update_where (λ x. x.id == c.id) (λ _. c') db.modes })
      | none ↦
          let c : FallbackMode = record {
            id = db.next_id;
            org_id = db.org;
            source_category_id = source_id;
            question_category_id = question_id;
            mode = mode;
          } in
          (c, record db { modes = db.modes ++ c ∷ []; next_id = db.next_id + 1 })
    ]

-- `upsert_llm_fallback_config`.
unfoldable pub upsert_fallback_mode : ℕ → ℕ → String → Action Catalog CatalogError FallbackMode
unfolding get_source_category get_question_category put_fallback_mode
upsert_fallback_mode source_id question_id mode =
    get_source_category source_id >> get_question_category question_id >> λ db.
    let (c, db') = put_fallback_mode source_id question_id mode db in (ok c, db')

-- `delete_llm_fallback_config`.
unfoldable pub delete_fallback_mode : ℕ → ℕ → Action Catalog CatalogError (Unit {0})
unfolding get_fallback_mode
delete_fallback_mode source_id question_id = do
  config ← get_fallback_mode source_id question_id
  modify (λ db. record db { modes = filter (λ x. not (x.id == config.id)) db.modes })
