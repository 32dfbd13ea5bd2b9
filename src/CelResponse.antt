-- ===== src/CelResponse.antt =====
-- internal/gateway/cel_response_engine.go: deterministic rules over the result of a tool call. cel-go
-- is `CelEnv`, Go's regular expressions are `Regex`, clock readings are `Timing`.
pub mod Load
pub mod Context
pub mod Decision
use maybe_dont.Prelude.{
  ℕ, suc, String, Bool, true, false, ◌==◌, List, [], ◌∷◌, ◌++◌, Option, none, some, not, ◌&&◌,
  if◌then◌else◌,
}
use maybe_dont.Prelude.Json.{Members}
use maybe_dont.Policy.{
  PolicyAction, PolicyMode, allow, deny, redact, unset, other, is_allow, is_deny, is_redact,
  is_audit_only,
}
use maybe_dont.Audit.{RuleEntry, RuleResult, PhaseDetails, contributed, error, mode_to_audit_string}
use maybe_dont.Budget.{BlockingBudget, PhaseTracker}
use maybe_dont.Cel.{
  CelEnv, Timing, Outcome, failed, matched, evaluate_rule, Flow, next, stop, mark_phase,
  phase_times, begin_phase,
}
use maybe_dont.Response.{
  ResponseResult, ResponseResults, ToolResult, allowed_response, get_text_content,
}

pub record CelResponsePolicy : Type 0 where
  pub name : String
  pub description : String
  pub expression : String
  pub action : PolicyAction
  pub message : String
  pub mode : PolicyMode
  pub redaction_pattern : String
  pub redaction_replacement : String

-- Go's `regexp`: whether a pattern compiles, and `ReplaceAllString` of a pattern that does.
pub record Regex : Type 0 where
  pub compiles : String → Bool
  pub replace_all : String → String → String → String

unfoldable pub apply_redaction : Regex → String → String → String → String
apply_redaction rx content pattern replacement =
    let replacement' = if replacement == "" then "[REDACTED]" else replacement in
    if pattern == ""
    then "[REDACTED]"
    else if rx.compiles pattern
    then rx.replace_all pattern content replacement'
    else content

pub record ResponseLoop : Type 0 where
  pub results : List ResponseResult
  pub allowed : Bool
  pub message : String
  pub failed_open : Bool
  pub entries : List RuleEntry
  pub deciding_rule : String
  pub deciding_reason : String
  pub final_action : PolicyAction
  pub redacted_content : Option String
  pub phase : Option (PhaseTracker × BlockingBudget)

abbrev pub response_start : Option (PhaseTracker × BlockingBudget) → ResponseLoop
response_start phase = record {
  results = [];
  allowed = true;
  message = "";
  failed_open = false;
  entries = [];
  deciding_rule = "";
  deciding_reason = "";
  final_action = allow;
  redacted_content = none;
  phase = phase;
}

abbrev response_entry : CelResponsePolicy → ℕ → RuleResult → String → RuleEntry
response_entry p ms result text = record {
  rule = p.name;
  action = p.action;
  mode = mode_to_audit_string p.mode;
  result = result;
  evaluation_ms = ms;
  error_text = text;
}

abbrev unmatched_result : PolicyAction → PolicyAction
unmatched_result a = if is_allow a then deny else allow

-- The entry of `results.Results`; a redaction is written into the last one.
abbrev response_result : CelResponsePolicy → ℕ → String → ResponseResult
response_result p ms redacted = record {
  policy_name = p.name;
  policy_type = "cel";
  action = p.action;
  mode = p.mode;
  message = p.message;
  error = "";
  redacted_content = redacted;
  duration_ms = ms;
}

-- A rule that matched: the `switch` on its action. `content` is the text that would be redacted.
unfoldable pub apply_match :
    Regex → String → CelResponsePolicy → ℕ → ℕ → PolicyAction → ResponseLoop → Flow ResponseLoop
unfolding apply_redaction
apply_match rx content p ms at deny s =
    let s' = record s { results = s.results ++ response_result p ms "" ∷ [] } in
    if is_audit_only p.mode
    then next s'
    else stop (record s' {
      phase = mark_phase s.phase at;
      final_action = deny;
      deciding_rule = p.name;
      deciding_reason = p.message;
      allowed = false;
      message = if s.message == "" then p.message else s.message;
    })
apply_match rx content p ms at redact s =
    let redacted = apply_redaction rx content p.redaction_pattern p.redaction_replacement in
    let s' = record s { results = s.results ++ response_result p ms redacted ∷ [] } in
    if content == ""
    then next (record s { results = s.results ++ response_result p ms "" ∷ [] })
    else if is_audit_only p.mode
    then next s'
    else next (record s' {
      final_action = if is_allow s.final_action then redact else s.final_action;
      redacted_content = some redacted;
    })
apply_match rx content p ms at allow s =
    next (record s { results = s.results ++ response_result p ms "" ∷ [] })
apply_match rx content p ms at unset s =
    next (record s { results = s.results ++ response_result p ms "" ∷ [] })
apply_match rx content p ms at (other a) s =
    next (record s { results = s.results ++ response_result p ms "" ∷ [] })

unfoldable pub apply_response_outcome :
    Regex → String → CelResponsePolicy → ℕ → ℕ → Outcome → ResponseLoop → Flow ResponseLoop
unfolding apply_match
apply_response_outcome rx content p ms at (failed text) s =
    let s' = record s { entries = s.entries ++ response_entry p ms error text ∷ [] } in
    if is_audit_only p.mode
    then next s'
    else stop (record s' { phase = mark_phase s.phase at; failed_open = true })
apply_response_outcome rx content p ms at (matched false) s = next (record s {
  entries = s.entries ++ response_entry p ms (contributed (unmatched_result p.action)) "" ∷ [];
})
apply_response_outcome rx content p ms at (matched true) s =
    apply_match rx content p ms at p.action
      (record s { entries = s.entries ++ response_entry p ms (contributed p.action) "" ∷ [] })

module _ (env : CelEnv) (rx : Regex) (vars : Members) (content : String) (t : Timing) where
  unfoldable pub response_step : ℕ → CelResponsePolicy → ResponseLoop → Flow ResponseLoop
  response_step i p s =
      apply_response_outcome rx content p (t.rule_ms i) (t.decided_at i)
        (evaluate_rule env p.expression vars) s

  unfoldable pub run_response_policies : ℕ → List CelResponsePolicy → ResponseLoop → ResponseLoop
  run_response_policies i [] s = s
  run_response_policies i (p ∷ ps) s = elim (response_step i p s) [
    | next s' ↦ run_response_policies (suc i) ps s'
    | stop s' ↦ s'
  ]

-- "Set final result message if not already set".
unfoldable pub response_message : ResponseLoop → String
response_message s =
    if not (s.message == "")
    then s.message
    else if s.failed_open
    then "CEL response evaluation failed, allowing response (fail-open)"
    else if is_deny s.final_action
    then (if s.deciding_reason == "" then "Response denied by CEL policy" else s.deciding_reason)
    else if is_redact s.final_action
    then "Response content redacted by CEL policy"
    else "No CEL response policies matched"

abbrev response_details : ResponseLoop → ℕ → ℕ → PhaseDetails
response_details s blocked evaluation =
    let named = not (s.deciding_rule == "") in
    record {
      action = s.final_action;
      blocked_ms = blocked;
      evaluation_ms = evaluation;
      deciding_rule = if named then s.deciding_rule else "";
      reason = if named then s.deciding_reason else "";
      entries = s.entries;
    }

-- `finalAction` is "allow", "deny" or "redact", so the recommendation is the action itself.
unfoldable pub finish_response : Timing → ResponseLoop → ResponseResults × Option BlockingBudget
unfolding response_message
finish_response t s =
    let (blocked, evaluation, b) = phase_times s.phase t.start t.end in
    (
      record allowed_response {
        results = s.results;
        allowed = s.allowed;
        message = response_message s;
        redacted_content = s.redacted_content;
        recommended_action = if s.failed_open then unset else s.final_action;
        failed_open = s.failed_open;
        rules_details = some (response_details s blocked evaluation);
      },
      b,
    )

unfoldable pub evaluate_response_phase :
    CelEnv
    → Regex
    → Members
    → String
    → Timing
    → List CelResponsePolicy
    → Option BlockingBudget
    → ResponseResults × Option BlockingBudget
unfolding finish_response
evaluate_response_phase env rx vars content t policies budget = finish_response t (
    run_response_policies env rx vars content t 0 policies
      (response_start (begin_phase budget t.start)))
