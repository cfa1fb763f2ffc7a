-- ===== src/Assistant/Retry/Laws.antt =====
-- The three loops and the specification.
use oss_us_web_design_system.Base.{ℕ, ◌≡◌, [], ◌∷◌, elem, arith, if◌then◌else◌}
use oss_us_web_design_system.Assistant.Retry.{
  FailureType, LlmOutcome, LlmEscape, classify_status, is_auth, call_llm_api_with_retry,
  GithubOutcome, verify_github_access, Escape, McpOutcome, verify_mcp_connectivity,
  classify_mcp_error, service_timeout, authentication_failure, no_llm_key, unexpected_error,
  unexpected,
}
use oss_us_web_design_system.Assistant.Retry.Spec.{Verdict, decide}

abbrev pub failure_verdict : {R E : Type 0} → FailureType → Verdict R E
failure_verdict f = if is_auth f then Verdict.terminal f else Verdict.transient f

abbrev pub llm_verdict : {R : Type 0} → LlmOutcome R → Verdict R LlmEscape
llm_verdict (LlmOutcome.reply r) = Verdict.success r
llm_verdict LlmOutcome.key_unavailable = Verdict.escape no_llm_key
llm_verdict (LlmOutcome.status_error status) = failure_verdict (classify_status status)
llm_verdict LlmOutcome.timeout_cause = Verdict.transient service_timeout
llm_verdict LlmOutcome.other_cause = Verdict.transient service_timeout
llm_verdict LlmOutcome.attempt_timeout = Verdict.transient service_timeout
llm_verdict LlmOutcome.other_exception = Verdict.escape unexpected_error

-- The LLM loop decides by its first three attempts: a reply is returned, a missing key and an
-- unexpected exception leave at once, an authentication failure ends at once, and any other
-- failure is retried after 1 and then 3 seconds, until the last of three attempts is reported.
pub call_llm_api-decide :
    {R : Type 0} (outcome : ℕ → LlmOutcome R)
    → call_llm_api_with_retry outcome
      ≡ decide (llm_verdict (outcome 1)) (llm_verdict (outcome 2)) (llm_verdict (outcome 3))
unfolding call_llm_api_with_retry decide
call_llm_api-decide outcome = ground arith

abbrev pub github_verdict : GithubOutcome → Verdict (Unit {0}) Escape
github_verdict GithubOutcome.reached = Verdict.success tt
github_verdict GithubOutcome.url_invalid = Verdict.terminal service_timeout
github_verdict (GithubOutcome.http_status status) =
    if elem status (401 ∷ 403 ∷ [])
    then Verdict.terminal authentication_failure
    else Verdict.transient service_timeout
github_verdict GithubOutcome.timed_out = Verdict.transient service_timeout
github_verdict GithubOutcome.http_failed = Verdict.transient service_timeout
github_verdict GithubOutcome.github_exception = Verdict.escape unexpected

-- The GitHub loop decides likewise: statuses 401 and 403 and a malformed URL end it at once, the
-- latter as a service timeout.
verify_github_access-decide :
    (outcome : ℕ → GithubOutcome)
    → verify_github_access outcome
      ≡ decide
          (github_verdict (outcome 1))
          (github_verdict (outcome 2))
          (github_verdict (outcome 3))
unfolding verify_github_access decide
verify_github_access-decide outcome = ground arith

abbrev pub mcp_verdict : McpOutcome → Verdict (Unit {0}) Escape
mcp_verdict McpOutcome.listed = Verdict.success tt
mcp_verdict McpOutcome.mcp_timed_out = Verdict.transient service_timeout
mcp_verdict (McpOutcome.client_error text) = failure_verdict (classify_mcp_error text)
mcp_verdict McpOutcome.mcp_exception = Verdict.escape unexpected

-- The MCP loop decides likewise: a client error whose text holds an authentication marker ends it at
-- once.
verify_mcp_connectivity-decide :
    (outcome : ℕ → McpOutcome)
    → verify_mcp_connectivity outcome
      ≡ decide (mcp_verdict (outcome 1)) (mcp_verdict (outcome 2)) (mcp_verdict (outcome 3))
unfolding verify_mcp_connectivity decide
verify_mcp_connectivity-decide outcome = ground arith
