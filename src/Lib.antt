-- ===== src/Lib.antt =====
-- Verification of the maybe-dont gateway, a proxy that stands between AI agents and tools (MCP
-- servers and the command line) and lets policies decide about requests and responses.
--
-- A request reaches `PolicyEvaluator` (or the older `ToolValidationChain`), which asks a CEL engine
-- and an AI engine in turn, all under one blocking budget. A response of a tool passes the
-- `ResponseValidationChain`, which may deny it or overwrite its text. Rules enforce or only observe
-- (`audit_only`); a rule that cannot be evaluated fails open.
--
-- Which file models which part:
--   Policy          internal/config/config.go: actions, modes, the rules as configured
--   Budget          internal/gateway/blocking_budget.go: `BlockingBudget`, `PhaseTracker`
--   Audit, Results  internal/gateway/audit_entry.go, tool_validation.go: the records of results
--   Cel             internal/gateway/cel_engine.go: `CELPolicyEngine`. Cel.Load is `LoadPolicies`,
--                   Cel.Context the variables, `EvaluateToolCall` and `EvaluateCLICommand`
--   Chain           internal/gateway/tool_validation.go: `ToolValidationChain.Handle`
--   Evaluator       internal/gateway/policy_evaluator.go: `PolicyEvaluator`
--   Response        internal/gateway/response_validation.go: the results of a response;
--                   Response.Chain is `ResponseValidationChain.Handle`
--   AiEngine        internal/gateway/ai_engine.go: `AIPolicyEngine`, loading and evaluations
--   AiResponse      internal/gateway/ai_response_engine.go: `AIResponsePolicyEngine`; Load is
--                   `LoadPolicies`, Loop and Answer are `EvaluateResponse`
--   AuditLog        internal/gateway/audit_log_tool.go: `readAuditLogEntries`; AuditLog.Chunk is
--                   `extractLinesReverse`
--   RateLimiter     internal/testsuite/ratelimiter.go: `RateLimiter`
--   SuiteState      internal/testsuite/state.go: `StateManager`
--   CelResponse     internal/gateway/cel_response_engine.go: `CELResponsePolicyEngine`
--   Sessions        internal/gateway/session.go: `Session`, `SessionManager`
--   Auth            internal/gateway/auth_middleware.go; Auth.Globs is what it uses of regular
--                   expressions, Auth.Credentials `createAuthHeaderFunc` of client_manager.go
--   Downstream      internal/gateway/client_manager.go: `initializeSessionClientWithRetry`,
--                   `sessionRetryWithDelay`
--   Proxies         internal/gateway/trusted_proxy.go: `TrustedProxyChecker`
--   Intercept       internal/gateway/intercept_handler.go and action_validation.go: request checks,
--                   the merge of the two evaluations of a shell tool, the responses, the risk level
--   Trail           internal/gateway/audit_entry.go: `AuditEntry`, `AuditContext`
--   Gateway         internal/gateway/gateway.go: `Gateway.HandleToolCall`, and the prefixed names of
--                   client_manager.go
--   Sanitize        internal/gateway/json_sanitize.go: `SanitizeJSONEscapes`
--   Retry           internal/gateway/ai_provider_retry.go: `retryOperation`
--   Suite           internal/testsuite/executor.go: verdicts on test cases of policies
--   Runner          internal/testsuite/runner.go and types.go: `Runner`. Order and Models choose and
--                   order the models, Filters the test cases, Summary is `calculateResults`
--   Settings        internal/config/config.go: Paths is `ValidateRelativePath`, Checks is
--                   `validateConfigWithOptions`
--   Prelude         tests, lists, JSON values, texts and integers that these share
--   Examples        concrete runs
--
-- How code becomes definitions: a function on a pointer returns the new state beside its result,
-- an `error` result is a data type or an Option, a nil pointer is `none`. A handler or an engine
-- is a function of the budget that returns the budget it leaves. Budgets and durations are natural
-- numbers, since nothing in the code makes one negative; limits and settings that can be are
-- integers. A mutex makes a call one step. Loops over rules, handlers and bytes recurse on their
-- list, and the retry loop on the attempts left, so no fuel is needed; only the loop over the
-- chunks of a file has fuel, the size of the file, which is proved to be enough. A channel of a
-- late result is the result it will carry.
--
-- Parameters, for code that is not in the repository: `CelEnv` (cel-go: compiling, building and
-- evaluating an expression), `Regex` (Go's `regexp`), `Provider` and `ResponseProvider` (what a
-- model answers, and its decoding), `Formats` (Go's `%+v`), `Decoders` (a line of the log as JSON),
-- `Net` (address parsing and trimming), `FilePaths` (`path/filepath`), `matches` (glob patterns),
-- `parses` (`net/url`), `World` (the attempts at a provider, its context and the
-- waits between them), and `Timing`, `CallClock` and `AiClock` (readings of the clock). A run of
-- the AI engines' loops is a list of `Poll`s or `ResponsePoll`s, and what the users of a session do
-- is a relation. The clients of a session and the native tools are fields of the model's `Gateway`.
--
-- Not modelled: logging, the text of denials, writing audit files, HTTP and MCP transport, the
-- providers, the transports of downstream clients, what runs a policy test and prints its result,
-- the command line and the hook scripts.
mod Prelude
pub mod Policy
pub mod AuditLog
pub mod Budget
pub mod Audit
pub mod Results
pub mod Settings
pub mod SuiteState
pub mod Trail
pub mod Gateway
pub mod AiEngine
pub mod AiResponse
pub mod Sessions
pub mod Auth
pub mod Downstream
pub mod Proxies
pub mod RateLimiter
pub mod Runner
pub mod Suite
pub mod Cel
pub mod Chain
pub mod Evaluator
pub mod Response
pub mod CelResponse
pub mod Intercept
pub mod Sanitize
pub mod Retry
pub mod Examples
