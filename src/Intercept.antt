-- ===== src/Intercept.antt =====
-- internal/gateway/intercept_handler.go: the endpoint of editor and agent hooks. A shell tool is
-- evaluated as a command and as a tool call, and the two results are merged.
pub mod Shell
use maybe_dont.Prelude.{
  ℕ, String, ◌+◌, Bool, true, false, ◌==◌, ◌&&◌, ◌||◌, not, List, [], ◌∷◌, ◌++◌, Option, none, some,
  contains, is_some, ltb, ◌⊎◌, inl, inr, if◌then◌else◌,
}
use maybe_dont.Policy.{PolicyAction, deny, is_deny}
use maybe_dont.Audit.{PhaseDetails}
use maybe_dont.Results.{ValidationResult, ValidationResults, AsyncCompletion, no_results}
use maybe_dont.Response.{ResponseResult, ResponseResults}

-- `mergeAuditRulesResults`, and `mergeAuditAIResults`, which has the same body.
unfoldable pub merge_details : Option PhaseDetails → Option PhaseDetails → Option PhaseDetails
merge_details none b = b
merge_details (some a) none = some a
merge_details (some a) (some b) =
    let first = not (a.deciding_rule == "") in
    some (record {
      action = if is_deny a.action || is_deny b.action then deny else a.action;
      blocked_ms = a.blocked_ms + b.blocked_ms;
      evaluation_ms = a.evaluation_ms + b.evaluation_ms;
      deciding_rule = if first then a.deciding_rule else b.deciding_rule;
      reason = if first then a.reason else if not (b.deciding_rule == "") then b.reason else "";
      entries = a.entries ++ b.entries;
    })

unfoldable pub merge_async_completions :
    Option AsyncCompletion → Option AsyncCompletion → Option AsyncCompletion
unfolding merge_details
merge_async_completions none mcp = mcp
merge_async_completions (some cli) none = some cli
merge_async_completions (some cli) (some mcp) = some (record {
  ai_details = merge_details cli.ai_details mcp.ai_details;
  evaluation_ms = cli.evaluation_ms + mcp.evaluation_ms;
})

unfoldable pub merge_shell_results : ValidationResults → ValidationResults → ValidationResults
merge_shell_results cli mcp =
    let allowed = cli.allowed && mcp.allowed in
    let from_cli = if cli.allowed then "" else cli.message in
    let message =
      if mcp.allowed then from_cli else if from_cli == "" then mcp.message else from_cli in
    record no_results {
      allowed = allowed;
      results = cli.results ++ mcp.results;
      allow_count = cli.allow_count + mcp.allow_count;
      deny_count = cli.deny_count + mcp.deny_count;
      failed_open = cli.failed_open || mcp.failed_open;
      audit_mode_bypass = if allowed then cli.audit_mode_bypass || mcp.audit_mode_bypass else false;
      rules_details = merge_details cli.rules_details mcp.rules_details;
      ai_details = merge_details cli.ai_details mcp.ai_details;
      async_completion = merge_async_completions cli.async_completion mcp.async_completion;
      message =
          if message == ""
          then (if allowed then "Tool call approved by policy" else "Tool call denied by policy")
          else message;
    }

-- The fields of a decoded request that the handler tests.
pub record InterceptRequest : Type 0 where
  pub event : String
  pub phase : String
  pub name : String
  pub result : Option (List String)

pub record InterceptConfig : Type 0 where
  pub enabled : Bool
  pub shell_tool_names : List String

-- A refused request: its HTTP status and error code.
pub record HttpError : Type 0 where
  pub status : ℕ
  pub code : String

abbrev is_none : Option (List String) → Bool
is_none none = true
is_none (some x) = false

-- The checks of `ServeHTTP` in order; `json` says that the content type is JSON, and the body is
-- `none` if it does not decode.
unfoldable pub check_request :
    InterceptConfig → Bool → Option InterceptRequest → HttpError ⊎ InterceptRequest
check_request c json body =
    if not c.enabled
    then inl (record { status = 400; code = "intercept_disabled" })
    else if not json
    then inl (record { status = 415; code = "invalid_content_type" })
    else elim body [
      | none ↦ inl (record { status = 400; code = "invalid_request" })
      | some r ↦
          if r.event == ""
          then inl (record { status = 400; code = "missing_event" })
          else if not (r.event == "tools/call")
          then inl (record { status = 400; code = "unsupported_event" })
          else if r.phase == ""
          then inl (record { status = 400; code = "missing_phase" })
          else if not (r.phase == "request") && not (r.phase == "response")
          then inl (record { status = 400; code = "invalid_phase" })
          else if r.name == ""
          then inl (record { status = 400; code = "missing_payload_name" })
          else if r.phase == "response" && is_none r.result
          then inl (record { status = 400; code = "response_phase_missing_result" })
          else inr r
    ]

unfoldable pub is_shell_tool : InterceptConfig → String → Bool
is_shell_tool c name = contains name c.shell_tool_names

pub data Severity : Type 0 where
  info warn severe : Severity

pub record InterceptMessage : Type 0 where
  pub message : String
  pub severity : Severity

pub record InterceptPolicyResult : Type 0 where
  pub policy_name : String
  pub policy_type : String
  pub action : PolicyAction
  pub message : String

-- `Type` and `Modified` are `mutation`; the payload is the redacted text. Fields that repeat the
-- request or the configuration, and the duration, are left out.
pub record InterceptResponse : Type 0 where
  pub mutation : Bool
  pub valid : Bool
  pub severity : Severity
  pub messages : List InterceptMessage
  pub results : List InterceptPolicyResult
  pub payload : Option String

unfoldable pub build_base_response :
    Bool → Bool → String → List InterceptPolicyResult → InterceptResponse
build_base_response allowed bypass message results =
    let severity = if not allowed then severe else if bypass then warn else info in
    record {
      mutation = false;
      valid = allowed;
      severity = severity;
      messages =
          if not allowed || bypass
          then record { message = message; severity = severity } ∷ []
          else [];
      results = results;
      payload = none;
    }

abbrev policy_results : List ValidationResult → List InterceptPolicyResult
policy_results [] = []
policy_results (r ∷ rs) =
    record {
      policy_name = r.policy_name;
      policy_type = r.policy_type;
      action = r.action;
      message = r.message;
    }
    ∷ policy_results rs

abbrev response_policy_results : List ResponseResult → List InterceptPolicyResult
response_policy_results [] = []
response_policy_results (r ∷ rs) =
    record {
      policy_name = r.policy_name;
      policy_type = r.policy_type;
      action = r.action;
      message = r.message;
    }
    ∷ response_policy_results rs

unfoldable pub build_validation_response : ValidationResults → InterceptResponse
unfolding build_base_response
build_validation_response r =
    build_base_response r.allowed r.audit_mode_bypass r.message (policy_results r.results)

unfoldable pub build_response_result : ResponseResults → InterceptResponse
unfolding build_base_response
build_response_result r =
    let base =
      build_base_response r.allowed r.audit_mode_bypass r.message
        (response_policy_results r.results) in
    elim r.redacted_content [
      | none ↦ base
      | some s ↦ record base { mutation = true; payload = some s }
    ]

-- `deriveRiskLevel` of internal/gateway/action_validation.go.
pub data RiskLevel : Type 0 where
  high medium low unknown : RiskLevel

abbrev is_empty : List ValidationResult → Bool
is_empty [] = true
is_empty (r ∷ rs) = false

unfoldable pub derive_risk_level : ValidationResults → RiskLevel
derive_risk_level r =
    if not r.allowed
    then high
    else if r.audit_mode_bypass
    then medium
    else if not (is_empty r.results)
        || (is_some r.rules_details || (is_some r.ai_details || ltb 0 r.allow_count))
    then low
    else unknown
