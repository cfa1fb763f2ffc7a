-- ===== src/Assistant/Retry.antt =====
-- The three retry loops of the assistant: the LLM call (`_call_llm_api_with_retry`), the GitHub
-- check (`verify_github_access_with_retry`) and the MCP check
-- (`verify_mcp_connectivity_with_retry`), up to the alert that follows a failure. What each attempt
-- meets is a function of its number, from 1 on. A delay is in milliseconds.
pub mod Spec
pub mod Laws
use oss_us_web_design_system.Base.{
  ℕ, zero, suc, ◌+◌, ◌-◌, Bool, true, false, ◌||◌, List, [], ◌∷◌, ◌++◌, ltb, ◌==◌, if◌then◌else◌,
  elem, any, Text, codes, lower, contains_text,
}

pub data FailureType : Type 0 where
  rate_limit_exceeded authentication_failure service_timeout : FailureType

abbrev pub max_attempts : ℕ
max_attempts = 3

-- `_RETRY_DELAYS[attempt - 1]`, which is read only below the last attempt.
unfoldable pub retry_delay : ℕ → ℕ
retry_delay attempt = if attempt == 1 then 1000 else 3000

-- How a loop ends: by a value that it returns, by an exception that it lets through, or after its
-- last failure; with the attempts made and the delays slept.
pub data LoopEnd (R E : Type 0) : Type 0 where
  returned : R → ℕ → List ℕ → LoopEnd R E
  propagated : E → ℕ → List ℕ → LoopEnd R E
  exhausted : FailureType → ℕ → List ℕ → LoopEnd R E

-- What an attempt at the LLM meets: a reply, no key, an `LLMError` by its cause, the timeout of
-- `wait_for`, or any other exception.
pub data LlmOutcome (R : Type 0) : Type 0 where
  reply : R → LlmOutcome R
  key_unavailable : LlmOutcome R
  status_error : ℕ → LlmOutcome R
  timeout_cause other_cause attempt_timeout : LlmOutcome R
  other_exception : LlmOutcome R

-- The exceptions that leave the LLM loop by themselves.
pub data LlmEscape : Type 0 where
  no_llm_key unexpected_error : LlmEscape

-- `_classify_llm_error` on an HTTP status; every other cause is a service timeout.
unfoldable pub classify_status : ℕ → FailureType
classify_status status =
    if status == 429
    then rate_limit_exceeded
    else (if elem status (401 ∷ 403 ∷ []) then authentication_failure else service_timeout)

abbrev pub is_auth : FailureType → Bool
is_auth authentication_failure = true
is_auth rate_limit_exceeded = false
is_auth service_timeout = false

module _ {R : Type 0} (outcome : ℕ → LlmOutcome R) where
  -- One `except (LLMError, TimeoutError)` clause: an authentication failure breaks off, another
  -- failure sleeps unless it was the last attempt; `next` is the rest of the loop.
  abbrev pub llm_failed :
      ℕ → List ℕ → FailureType → (List ℕ → LoopEnd R LlmEscape) → LoopEnd R LlmEscape
  llm_failed attempt slept failure next =
      if is_auth failure
      then exhausted failure attempt slept
      else next (if ltb attempt max_attempts then slept ++ (retry_delay attempt ∷ []) else slept)

  -- `left` attempts remain; `last` is the failure of the attempt before.
  unfoldable pub llm_loop : ℕ → ℕ → FailureType → List ℕ → LoopEnd R LlmEscape
  unfolding classify_status retry_delay
  llm_loop zero attempt last slept = exhausted last (attempt - 1) slept
  llm_loop (suc left) attempt last slept = elim (outcome attempt) [
    | reply r ↦ returned r attempt slept
    | key_unavailable ↦ propagated no_llm_key attempt slept
    | status_error status ↦
        llm_failed attempt slept (classify_status status)
          (llm_loop left (attempt + 1) (classify_status status))
    | timeout_cause ↦
        llm_failed attempt slept service_timeout (llm_loop left (attempt + 1) service_timeout)
    | other_cause ↦
        llm_failed attempt slept service_timeout (llm_loop left (attempt + 1) service_timeout)
    | attempt_timeout ↦
        llm_failed attempt slept service_timeout (llm_loop left (attempt + 1) service_timeout)
    | other_exception ↦ propagated unexpected_error attempt slept
  ]

  unfoldable pub call_llm_api_with_retry : LoopEnd R LlmEscape
  unfolding llm_loop
  call_llm_api_with_retry = llm_loop max_attempts 1 service_timeout []

-- What an attempt at the GitHub API meets; `url_invalid` stands for a URL that is no repository's.
pub data GithubOutcome : Type 0 where
  reached url_invalid : GithubOutcome
  http_status : ℕ → GithubOutcome
  timed_out http_failed : GithubOutcome
  github_exception : GithubOutcome

pub data Escape : Type 0 where
  unexpected : Escape

module _ (outcome : ℕ → GithubOutcome) where
  abbrev pub github_slept : ℕ → List ℕ → List ℕ
  github_slept attempt slept =
      if ltb attempt max_attempts then slept ++ (retry_delay attempt ∷ []) else slept

  unfoldable pub github_loop : ℕ → ℕ → FailureType → List ℕ → LoopEnd (Unit {0}) Escape
  unfolding retry_delay
  github_loop zero attempt last slept = exhausted last (attempt - 1) slept
  github_loop (suc left) attempt last slept = elim (outcome attempt) [
    | reached ↦ returned tt attempt slept
    | url_invalid ↦ exhausted service_timeout attempt slept
    | http_status status ↦
        let next = github_loop left (attempt + 1) service_timeout (github_slept attempt slept) in
        if elem status (401 ∷ 403 ∷ [])
        then exhausted authentication_failure attempt slept
        else next
    | timed_out ↦ github_loop left (attempt + 1) service_timeout (github_slept attempt slept)
    | http_failed ↦ github_loop left (attempt + 1) service_timeout (github_slept attempt slept)
    | github_exception ↦ propagated unexpected attempt slept
  ]

  unfoldable pub verify_github_access : LoopEnd (Unit {0}) Escape
  unfolding github_loop
  verify_github_access = github_loop max_attempts 1 service_timeout []

-- What an attempt at an MCP server meets; a client error carries its text.
pub data McpOutcome : Type 0 where
  listed mcp_timed_out : McpOutcome
  client_error : Text → McpOutcome
  mcp_exception : McpOutcome

abbrev pub mcp_auth_failure_markers : List Text
mcp_auth_failure_markers =
    codes "401"
    ∷ codes "403"
    ∷ codes "unauthorized"
    ∷ codes "forbidden"
    ∷ codes "authentication"
    ∷ []

-- `_classify_mcp_error`.
unfoldable pub classify_mcp_error : Text → FailureType
classify_mcp_error text =
    if any (λ marker. contains_text marker (lower text)) mcp_auth_failure_markers
    then authentication_failure
    else service_timeout

module _ (outcome : ℕ → McpOutcome) where
  abbrev pub mcp_slept : ℕ → List ℕ → List ℕ
  mcp_slept attempt slept =
      if ltb attempt max_attempts then slept ++ (retry_delay attempt ∷ []) else slept

  unfoldable pub mcp_loop : ℕ → ℕ → FailureType → List ℕ → LoopEnd (Unit {0}) Escape
  unfolding retry_delay classify_mcp_error
  mcp_loop zero attempt last slept = exhausted last (attempt - 1) slept
  mcp_loop (suc left) attempt last slept = elim (outcome attempt) [
    | listed ↦ returned tt attempt slept
    | mcp_timed_out ↦ mcp_loop left (attempt + 1) service_timeout (mcp_slept attempt slept)
    | client_error text ↦
        let next =
          mcp_loop left (attempt + 1) (classify_mcp_error text) (mcp_slept attempt slept) in
        if is_auth (classify_mcp_error text)
        then exhausted (classify_mcp_error text) attempt slept
        else next
    | mcp_exception ↦ propagated unexpected attempt slept
  ]

  unfoldable pub verify_mcp_connectivity : LoopEnd (Unit {0}) Escape
  unfolding mcp_loop
  verify_mcp_connectivity = mcp_loop max_attempts 1 service_timeout []
