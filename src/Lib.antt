-- ===== src/Lib.antt =====
-- A model of the web application under app/ and its correctness: the accounts and sessions, the
-- roles and organizations, the isolation of tenants, the approval workflow, the accessibility
-- assistant from the question to the answer and its alerts, the provider keys of language models,
-- the connections to MCP servers, the greeting slot, and the services for limits, notifications,
-- files, scans and administration.
--
-- How the parts interact. A request resolves its user from a token (app/deps.py), the organization
-- of the user is bound to it, every query on a tenant-scoped table is filtered by that organization
-- (app/db.py), the gate `requires` checks a permission (app/rbac/service.py), and a service call
-- works on the tables within one transaction (`get_session` in app/db.py). A question is checked,
-- matched with the FAQs, and else sent to a model under the key that the organization may use; a
-- greeting is limited per hour and may use the model and the tools of the MCP servers; what the
-- administrators must know goes to their notifications.
--
-- Base: the shared names; Base/Tests has the Boolean tests, Base/Lists and Base/Members the tables,
-- Base/Texts the operations of Python's `str`, Base/Order the ORDER BY, LIMIT and OFFSET, Base/Actions
-- a service call: it reads and writes a state and returns or raises, and what was written before a
-- raise stays until it is rolled back.
-- Auth/User: the rows of app/auth/models.py and the lookups of app/auth/service.py.
-- Auth/Lockout: `authenticate` of app/auth/service.py, split at its branches.
-- Auth/Token: `issue_access_token` and `decode_token` of app/auth/service.py, and the challenge
-- tokens of app/auth/mfa.py. Auth/Mfa: the other operations of app/auth/mfa.py.
-- Auth/Routes: `register`, `login` and `mfa_verify` of app/auth/routes.py, each within a
-- transaction, and `get_current_user` of app/deps.py; Form: `login_submit` of app/frontend.py.
-- Directory, Rbac, Orgs: the tables and services of app/rbac and app/orgs, and `requires`.
-- Tenancy: the two listeners of app/db.py, and the one query of the assistant that unbinds the
-- organization.
-- Assistant: parts of app/slots/accessibility_assistant/service.py. Retry has the three retry
-- loops, Sharing `_share_resource`, Interactions the ratings, Matching `_faq_match_tiered`,
-- Generation `confirm_faq_generation_session`, Sanitizer `_check_content` and `LLMPayloadSanitizer`,
-- Grants the roles that the slot provides for. Answering has the tables of a question, Egress below
-- it the calls of the model (`_call_llm`, `_call_llm_tiered`, `_call_llm_api_with_retry`), Replies
-- what is sent, how a reply is read and how citations are stored, Records the log entry and the alert of a question,
-- Questions `ask_question`, `resolve_question_tiered` and its callers, Recipients, Alerts and Notified
-- who is told. Catalog has the categories of sources and of questions and the configured fallback modes.
-- Approvals: app/slots/example_with_states/service.py.
-- Notifications: app/notifications/service.py. Files: app/files/service.py. Admin:
-- app/admin/service.py. Compliance/Inventory: app/compliance/inventory/service.py.
-- Compliance/SelfAudit: the checks and the service of app/compliance/fisma_audit, with `expected`,
-- the check functions, `run_audit` and the reports under their names there.
-- Llm/Crypto, Llm/Keys: app/llm/crypto.py and app/llm/service.py. Mcp: app/mcp/service.py.
-- Limits: app/ratelimit/middleware.py and app/slots/greeting/providers/rate_limit.py.
-- Greeting: the rows, history and settings of app/slots/greeting; Templates and Translation its
-- providers/translation.py, Greet its `greet`.
-- Examples: concrete rows on which the theorems are applied.
--
-- A table is a list of rows in the order of their insertion, the database numbers new rows by a
-- counter, a time is a number of microseconds since the epoch, an argument of the call that reads
-- the clock, and a delay is in milliseconds. Numbers are natural numbers, as Python's integers
-- have no bound. A text that the program takes apart is a list of code points, on which `lower`
-- and `split` do what Python does on ASCII. The retry loops count their three attempts down, the
-- loop over the tools of a greeting its three rounds, and the digits of a number are written with
-- more fuel than it has digits; no other fuel is used. PyJWT is the interface `Jwt`; bcrypt, TOTP
-- and the sealing of secrets are the interface `Factors`; AES-GCM, base64 and UTF-8 are `Cipher`,
-- Redis is `Redis`, Python's `re` and `json` are `Regex` and `Json`, an MCP server is `Client`; a
-- model's transport, pip-audit, PyPI and what an attempt at a remote service meets are functions.
--
-- Not modelled: the log events and the audit rows that calls write beside their work, cookies and
-- HTTP bodies, the text of most error messages, the commit in the middle of a question that sends
-- an alert, the uniqueness of a stored file's random key, concurrent requests, and the rest of
-- the application: the routes and the CRUD of sources of the assistant, the generation of FAQs,
-- the purge of the audit trail, mail, the example slot, and the assembly of the application.
pub mod Base
pub mod Auth
pub mod Directory
pub mod Rbac
pub mod Orgs
pub mod Assistant
pub mod Tenancy
pub mod Approvals
pub mod Notifications
pub mod Llm
pub mod Mcp
pub mod Limits
pub mod Greeting
pub mod Compliance
pub mod Files
pub mod Admin
pub mod Examples
