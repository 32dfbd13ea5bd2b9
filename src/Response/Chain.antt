-- ===== src/Response/Chain.antt =====
-- `ResponseValidationChain.Handle` of internal/gateway/response_validation.go. The handlers share the
-- tool's result: a redaction is written into it before the next handler sees it.
pub mod Redaction
use maybe_dont.Prelude.{
  ℕ, String, Bool, true, false, ◌==◌, ◌&&◌, not, List, [], ◌∷◌, ◌++◌, Option, none, some, or_else,
  ltb, if◌then◌else◌,
}
use maybe_dont.Policy.{PolicyAction, is_unset}
use maybe_dont.Budget.{BlockingBudget}
use maybe_dont.Response.{
  Content, ToolResult, ResponseResult, ResponseResults, allowed_response, deny_count, redact_count,
  replace_first_text,
}

pub data ResponseAnswer : Type 0 where
  answers : ResponseResults → ResponseAnswer
  errs : String → ResponseAnswer

abbrev pub ResponseHandler : Type 0
ResponseHandler = ToolResult → Option BlockingBudget → ResponseAnswer × Option BlockingBudget

-- What one answer does to the accumulated results.
unfoldable pub absorb_response : ResponseResults → ResponseResults → ResponseResults
absorb_response f r = record f {
  results = f.results ++ r.results;
  allowed = if r.allowed then f.allowed else false;
  message = if r.allowed then f.message else if f.message == "" then r.message else f.message;
  redacted_content = or_else r.redacted_content f.redacted_content;
  rules_details = or_else r.rules_details f.rules_details;
  ai_details = or_else r.ai_details f.ai_details;
  async_completion = or_else r.async_completion f.async_completion;
  failed_open = if r.failed_open then true else f.failed_open;
  audit_mode_bypass = if r.audit_mode_bypass then true else f.audit_mode_bypass;
  recommended_action =
      if r.audit_mode_bypass && not (is_unset r.recommended_action)
      then r.recommended_action
      else f.recommended_action;
}

-- What it does to the tool's result.
unfoldable pub apply_redaction_to : Option String → ToolResult → ToolResult
unfolding replace_first_text
apply_redaction_to none t = t
apply_redaction_to (some s) t = record t { content = replace_first_text s t.content }

abbrev pub absorb_answer :
    ResponseAnswer → ResponseResults × ToolResult → ResponseResults × ToolResult
absorb_answer (errs e) (f, t) = (f, t)
absorb_answer (answers r) (f, t) = (absorb_response f r, apply_redaction_to r.redacted_content t)

unfoldable pub run_response_handlers :
    List ResponseHandler
    → ResponseResults × ToolResult
    → Option BlockingBudget
    → ResponseResults × ToolResult × Option BlockingBudget
run_response_handlers [] (f, t) b = (f, t, b)
run_response_handlers (h ∷ hs) (f, t) b =
    let (a, b') = h t b in run_response_handlers hs (absorb_answer a (f, t)) b'

-- The default message.
unfoldable pub default_message : ResponseResults → ResponseResults
unfolding deny_count redact_count
default_message f =
    let m =
      if ltb 0 (deny_count f.results)
      then "Response denied by policy"
      else if ltb 0 (redact_count f.results)
      then "Response content redacted"
      else "Response validation passed" in
    if f.message == "" then record f { message = m } else f

unfoldable pub handle_response :
    List ResponseHandler
    → ToolResult
    → Option BlockingBudget
    → ResponseResults × ToolResult × Option BlockingBudget
unfolding default_message
handle_response hs t b =
    let (f, t', b') = run_response_handlers hs (allowed_response, t) b in
    (default_message f, t', b')
