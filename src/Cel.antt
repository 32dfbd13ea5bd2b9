-- ===== src/Cel.antt =====
-- internal/gateway/cel_engine.go: deterministic request rules, over MCP tool calls and over CLI
-- commands. cel-go is the parameter `CelEnv`. Clock readings are the parameter `Timing`: how long
-- each rule took, and how far into the phase a decision or the end came. Logging is left out, and
-- the mutex makes a call one step.
pub mod Context
pub mod Load
pub mod Decision
pub mod Enforcement
use maybe_dont.Prelude.{
  ℕ, suc, String, Bool, true, false, ◌==◌, List, [], ◌∷◌, ◌++◌, Option, none, some, leb, ltb, not,
  ◌&&◌, if◌then◌else◌,
}
use maybe_dont.Prelude.Json.{Members}
use maybe_dont.Policy.{
  PolicyAction, PolicyMode, allow, deny, unset, is_allow, is_deny, is_audit_only,
}
use maybe_dont.Audit.{
  RuleEntry, RuleResult, PhaseDetails, contributed, error, mode_to_audit_string, format_audit_error,
}
use maybe_dont.Budget.{BlockingBudget, PhaseTracker, start_phase, mark_decided, finalize, since_ms}
use maybe_dont.Results.{ValidationResult, ValidationResults, no_results}

-- What evaluating a compiled program gives.
pub data CelValue : Type 0 where
  eval_error : String → CelValue
  non_boolean : CelValue
  boolean : Bool → CelValue

-- `env.Compile` and `env.Program` fail with a message or not; `prg.Eval` is over the variables.
pub record CelEnv : Type 0 where
  pub compile_error : String → Option String
  pub program_error : String → Option String
  pub eval : String → Members → CelValue

pub record CelPolicy : Type 0 where
  pub name : String
  pub description : String
  pub mcp_expression : String
  pub cli_expression : String
  pub action : PolicyAction
  pub message : String
  pub mode : PolicyMode

-- Readings of the clock, in nanoseconds, for the rule at each position; milliseconds for a rule.
pub record Timing : Type 0 where
  pub start : ℕ
  pub rule_ms : ℕ → ℕ
  pub decided_at : ℕ → ℕ
  pub end : ℕ

-- What one rule says of the request: the text that is audited for a failure, or its Boolean.
pub data Outcome : Type 0 where
  failed : String → Outcome
  matched : Bool → Outcome

unfoldable pub evaluate_rule : CelEnv → String → Members → Outcome
evaluate_rule env expression vars = elim (env.compile_error expression) [
  | some e ↦ failed (format_audit_error "compile_error" (some e))
  | none ↦ elim (env.program_error expression) [
    | some e ↦ failed (format_audit_error "program_error" (some e))
    | none ↦ elim (env.eval expression vars) [
      | eval_error e ↦ failed (format_audit_error "eval_error" (some e))
      | non_boolean ↦ failed "policy did not return a boolean"
      | boolean b ↦ matched b
    ]
  ]
]

-- The variables of the loop over the rules.
pub record Loop : Type 0 where
  pub results : List ValidationResult
  pub allow_count : ℕ
  pub deny_count : ℕ
  pub failed_open : Bool
  pub entries : List RuleEntry
  pub deciding_rule : String
  pub deciding_reason : String
  pub final_action : PolicyAction
  pub audit_only_deny : Bool
  pub phase : Option (PhaseTracker × BlockingBudget)

abbrev pub loop_start : Option (PhaseTracker × BlockingBudget) → Loop
loop_start phase = record {
  results = [];
  allow_count = 0;
  deny_count = 0;
  failed_open = false;
  entries = [];
  deciding_rule = "";
  deciding_reason = "";
  final_action = allow;
  audit_only_deny = false;
  phase = phase;
}

-- `if phaseTracker != nil { phaseTracker.MarkDecided() }`
abbrev pub mark_phase :
    Option (PhaseTracker × BlockingBudget) → ℕ → Option (PhaseTracker × BlockingBudget)
mark_phase none at = none
mark_phase (some p) at = some (mark_decided p at)

-- Whether the loop goes on to the next rule or breaks.
pub data Flow (S : Type 0) : Type 0 where
  next : S → Flow S
  stop : S → Flow S

abbrev pub entry : CelPolicy → ℕ → RuleResult → String → RuleEntry
entry p ms result text = record {
  rule = p.name;
  action = p.action;
  mode = mode_to_audit_string p.mode;
  result = result;
  evaluation_ms = ms;
  error_text = text;
}

-- A rule that matches means its action, one that does not the opposite.
abbrev pub effective_result : PolicyAction → Bool → PolicyAction
effective_result a true = a
effective_result a false = if is_deny a then allow else deny

abbrev legacy_result : CelPolicy → ℕ → ValidationResult
legacy_result p ms = record {
  policy_name = p.name;
  policy_type = "cel";
  action = p.action;
  mode = p.mode;
  message = p.message;
  error = "";
  duration_ms = ms;
}

-- What is done with the outcome of one rule: `ms` is its duration, `at` the clock at a decision.
unfoldable pub apply_outcome : CelPolicy → ℕ → ℕ → Outcome → Loop → Flow Loop
apply_outcome p ms at (failed text) s =
    let s' = record s { entries = s.entries ++ entry p ms error text ∷ [] } in
    if is_audit_only p.mode
    then next s'
    else stop (record s' { phase = mark_phase s.phase at; failed_open = true })
apply_outcome p ms at (matched false) s = next (record s {
  entries = s.entries ++ entry p ms (contributed (effective_result p.action false)) "" ∷ [];
})
apply_outcome p ms at (matched true) s =
    let s' = record s {
      entries = s.entries ++ entry p ms (contributed (effective_result p.action true)) "" ∷ [];
      results = s.results ++ legacy_result p ms ∷ [];
    } in
    if is_deny p.action
    then (if is_audit_only p.mode
        then next (record s' { audit_only_deny = true })
        else stop (record s' {
          phase = mark_phase s.phase at;
          final_action = deny;
          deciding_rule = p.name;
          deciding_reason = p.message;
          deny_count = suc s.deny_count;
        }))
    else if is_allow p.action && not (is_audit_only p.mode)
    then next (record s' { allow_count = suc s.allow_count })
    else next s'

module _ (env : CelEnv) (expression_of : CelPolicy → String) (vars : Members) (t : Timing) where
  -- One round: a rule without an expression of this kind is skipped.
  unfoldable pub policy_step : ℕ → CelPolicy → Loop → Flow Loop
  policy_step i p s =
      if expression_of p == ""
      then next s
      else apply_outcome p (t.rule_ms i) (t.decided_at i) (evaluate_rule env (expression_of p) vars)
          s

  unfoldable pub run_policies : ℕ → List CelPolicy → Loop → Loop
  run_policies i [] s = s
  run_policies i (p ∷ ps) s = elim (policy_step i p s) [
    | next s' ↦ run_policies (suc i) ps s'
    | stop s' ↦ s'
  ]

-- The message of the first enforced allow that has one.
unfoldable pub first_allow_message : List ValidationResult → String
first_allow_message [] = ""
first_allow_message (r ∷ rs) =
    if is_allow r.action && (not (is_audit_only r.mode) && not (r.message == ""))
    then r.message
    else first_allow_message rs

-- "Set final result".
unfoldable pub final_result : Loop → ValidationResults
final_result s =
    let base = record no_results {
      results = s.results;
      allow_count = s.allow_count;
      deny_count = s.deny_count;
      failed_open = s.failed_open;
    } in
    if is_deny s.final_action
    then record base { allowed = false; message = s.deciding_reason; recommended_action = deny }
    else if s.audit_only_deny
    then record base {
      allowed = true;
      audit_mode_bypass = true;
      recommended_action = deny;
      message = "CEL policy would deny but mode is audit_only";
    }
    else if s.failed_open
    then record base {
      allowed = true;
      message = "CEL evaluation failed, allowing request (fail-open)";
    }
    else if ltb 0 s.allow_count
    then record base {
      allowed = true;
      recommended_action = allow;
      message = first_allow_message s.results;
    }
    else record base { allowed = true; message = "No policies matched" }

-- Blocked and evaluation time of the phase, and the budget after it.
abbrev pub phase_times :
    Option (PhaseTracker × BlockingBudget) → ℕ → ℕ → ℕ × ℕ × Option BlockingBudget
phase_times none start end = (0, since_ms start end, none)
phase_times (some p) start end =
    let (q, b) = finalize p end in (q.blocked_ms, q.evaluation_ms, some b)

abbrev pub rules_details : Loop → ℕ → ℕ → PhaseDetails
rules_details s blocked evaluation =
    let named = not (s.deciding_rule == "") in
    record {
      action = s.final_action;
      blocked_ms = blocked;
      evaluation_ms = evaluation;
      deciding_rule = if named then s.deciding_rule else "";
      reason = if named then s.deciding_reason else "";
      entries = s.entries;
    }

-- From the end of the loop to the return.
unfoldable pub finish : Timing → Loop → ValidationResults × Option BlockingBudget
unfolding final_result
finish t s =
    let (blocked, evaluation, b) = phase_times s.phase t.start t.end in
    (record (final_result s) { rules_details = some (rules_details s blocked evaluation) }, b)

abbrev pub begin_phase : Option BlockingBudget → ℕ → Option (PhaseTracker × BlockingBudget)
begin_phase none start = none
begin_phase (some b) start = some (start_phase start, b)

abbrev pub mcp_expression_of : CelPolicy → String
mcp_expression_of p = p.mcp_expression

abbrev pub cli_expression_of : CelPolicy → String
cli_expression_of p = p.cli_expression

-- The two evaluations have one body, over `MCPExpression` and over `CLIExpression`.
unfoldable pub evaluate_phase :
    CelEnv
    → (CelPolicy → String)
    → Members
    → Timing
    → List CelPolicy
    → Option BlockingBudget
    → ValidationResults × Option BlockingBudget
unfolding finish
evaluate_phase env expression_of vars t policies budget =
    finish t
      (run_policies env expression_of vars t 0 policies (loop_start (begin_phase budget t.start)))
