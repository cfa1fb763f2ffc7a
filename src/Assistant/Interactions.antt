-- ===== src/Assistant/Interactions.antt =====
-- Interaction logs and their ratings (`rate_interaction`, `get_interaction` and
-- `submit_helpfulness_rating` in app/slots/accessibility_assistant/service.py).
pub mod Ratings
use oss_us_web_design_system.Base.{
  ℕ, Bool, true, false, not, ◌&&◌, Option, none, some, is_some, String, List, [], ◌∷◌, update_where,
  Action, ok, err, pure, raise_if, gets, or_raise, modify, ◌>>=◌, ◌>>◌, ◌==◌, if◌then◌else◌,
}
use oss_us_web_design_system.Tenancy.{select_one}

-- The columns of `InteractionLog` that the rating calls read and write.
pub record InteractionLog : Type 0 where
  pub id : ℕ
  pub org_id : ℕ
  pub user_id : ℕ
  pub rating : Option Bool
  pub helpfulness_rating : Option String

pub record LogDb : Type 0 where
  pub logs : List InteractionLog
  pub current_org : Option ℕ

pub data LogError : Type 0 where
  interaction_log_not_found interaction_log_access_denied rating_already_submitted : LogError

unfoldable pub find_log : ℕ → Action LogDb LogError InteractionLog
find_log log_id = do
  found ← gets (λ db. select_one (λ x. x.org_id) db.current_org (λ x. x.id == log_id) db.logs)
  or_raise found interaction_log_not_found

unfoldable pub save_log : InteractionLog → Action LogDb LogError InteractionLog
save_log entry = do
  modify (λ db. record db { logs = update_where (λ x. x.id == entry.id) (λ _. entry) db.logs })
  pure entry

-- `rate_interaction`.
unfoldable pub rate_interaction : ℕ → ℕ → Option Bool → Action LogDb LogError InteractionLog
unfolding find_log save_log
rate_interaction user_id interaction_id rating = do
  entry ← find_log interaction_id
  raise_if (not (entry.user_id == user_id)) interaction_log_access_denied
  save_log (record entry { rating = rating })

-- `get_interaction`.
unfoldable pub get_interaction : ℕ → ℕ → Bool → Action LogDb LogError InteractionLog
unfolding find_log
get_interaction user_id interaction_id is_admin = do
  entry ← find_log interaction_id
  raise_if (not is_admin && not (entry.user_id == user_id)) interaction_log_access_denied
  pure entry

-- `submit_helpfulness_rating`.
unfoldable pub submit_helpfulness_rating : ℕ → ℕ → String → Action LogDb LogError InteractionLog
unfolding find_log save_log
submit_helpfulness_rating user_id log_id rating = do
  entry ← find_log log_id
  raise_if (not (entry.user_id == user_id)) interaction_log_access_denied
  raise_if (is_some entry.helpfulness_rating) rating_already_submitted
  save_log (record entry { helpfulness_rating = some rating })
