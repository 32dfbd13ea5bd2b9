-- ===== src/Examples/Requests.antt =====
-- Rules, budgets and the request engines at concrete inputs.
use mathlib.Core.Bool.{false≢true}
use maybe_dont.Prelude.{
  String, ◌≡◌, ◌↔◌, ◌⊎◌, true, false, not, ◌&&◌, ◌==◌, List, [], ◌∷◌, none, some, some_of, arith,
  if◌then◌else◌,
}
use maybe_dont.Prelude.Json.{null}
use maybe_dont.Policy.{
  Policy, PolicyMode, Config, PolicyAction, deny, audit_only, enforce, no_mode, resolve_policy_mode,
}
use maybe_dont.Policy.Modes.{resolve_policy_mode-audit_only}
use maybe_dont.Budget.{BlockingBudget, PhaseTracker, new_blocking_budget}
use maybe_dont.Budget.Bounds.{IsValid, charge_all, charge_all-total}
use maybe_dont.Results.{no_results}
use maybe_dont.Cel.{CelEnv, CelPolicy, eval_error, boolean, Timing, mcp_expression_of}
use maybe_dont.Cel.Context.{
  ToolCall, CliRequest, tool_call_vars, evaluate_tool_call, evaluate_cli_command,
}
use maybe_dont.Cel.Load.{load_policies}
use maybe_dont.Cel.Load.AuditOnly.{audit_only_phase_allows}
use maybe_dont.Cel.Enforcement.{
  Blocked, evaluate_tool_call-blocks, enforced, SameDecision, observers_never_decide,
}
use maybe_dont.Chain.{Handler, answers, errs, handle}
use maybe_dont.Chain.Denials.{answers_of, denies_aloud, total_denials, handle-denies}
use maybe_dont.Evaluator.{
  Evaluator, evaluate_tool_call_with_budget, evaluate_cli_command_with_budget,
}
use maybe_dont.Evaluator.Merge.{Accounts, engine_answers, evaluate_with_budget-Accounts}

-- A rule engine in which an expression is its own value.
abbrev env : CelEnv
env = record {
  compile_error = λ e. if e == "((" then some "syntax" else none;
  program_error = λ e. none;
  eval = λ e vars. if e == "broken" then eval_error "no such key" else boolean (e == "true");
}

abbrev clock : Timing
clock = record { start = 0; rule_ms = λ i. i; decided_at = λ i. 2000000; end = 5000000 }

abbrev rule : String → String → PolicyAction → PolicyMode → Policy
rule name expression action mode = record {
  name = name;
  description = "";
  expression = "";
  mcp_expression = expression;
  cli_expression = expression;
  action = action;
  message = "no";
  enabled = none;
  mode = mode;
}

abbrev configured : List Policy
configured = rule "watch" "true" deny audit_only ∷ rule "block" "true" deny no_mode ∷ []

abbrev engine : List CelPolicy
engine =
    record {
      name = "watch";
      description = "";
      mcp_expression = "broken";
      cli_expression = "";
      action = deny;
      message = "no";
      mode = audit_only;
    }
    ∷ record {
      name = "block";
      description = "";
      mcp_expression = "true";
      cli_expression = "true";
      action = deny;
      message = "no";
      mode = enforce;
    }
    ∷ []

abbrev call : ToolCall
call = record { method = "tools/call"; name = "gh__push"; arguments = null; meta = none }

abbrev command : CliRequest
command = record {
  command = "gh";
  arguments = "pr" ∷ [];
  working_directory = "/";
  client_info = none;
}

abbrev budget : BlockingBudget
budget = record { max_blocking_ms = 10; total_blocked_ms = 4; exhausted = false }

abbrev tracker : PhaseTracker
tracker = record { start_time = 0; blocked_ms = 0; evaluation_ms = 0; decided = false }

abbrev config : Config
config = record {
  request_cel = record { enabled = true; mode = no_mode; rules = configured };
  request_ai = record { enabled = false; mode = enforce; rules = [] };
  response_cel = record { enabled = false; mode = no_mode; rules = [] };
  response_ai = record { enabled = false; mode = no_mode; rules = [] };
}

budget-IsValid : IsValid budget
budget-IsValid = record { within = omega arith; spent = λ h. absurd (false≢true h) }

resolve_policy_mode-audit_only_example :
    (resolve_policy_mode enforce audit_only ≡ audit_only)
    ↔ ((enforce ≡ audit_only) ⊎ (audit_only ≡ audit_only))
resolve_policy_mode-audit_only_example = resolve_policy_mode-audit_only enforce audit_only

charge_all-total_example :
    (charge_all (new_blocking_budget 10) (4 ∷ 3 ∷ 9 ∷ [])).total_blocked_ms ≡ 10
charge_all-total_example = charge_all-total 10 (4 ∷ 3 ∷ 9 ∷ [])

evaluate_tool_call-blocks_example :
    ((evaluate_tool_call env clock engine call (some budget)).0.allowed ≡ false)
    ↔ Blocked env mcp_expression_of (tool_call_vars call) engine
evaluate_tool_call-blocks_example = evaluate_tool_call-blocks env clock engine call (some budget)

observers_never_decide_example :
    SameDecision
      (evaluate_tool_call env clock engine call none).0
      (evaluate_tool_call env clock (enforced engine) call (some budget)).0
    × SameDecision
        (evaluate_cli_command env clock engine command none).0
        (evaluate_cli_command env clock (enforced engine) command (some budget)).0
observers_never_decide_example =
    observers_never_decide env clock clock engine call command none (some budget)

audit_only_phase_allows_example :
    let loaded = (load_policies env audit_only false [] configured).1 in
    ((evaluate_tool_call env clock loaded call none).0.allowed ≡ true)
    × ((evaluate_cli_command env clock loaded command none).0.allowed ≡ true)
audit_only_phase_allows_example =
    audit_only_phase_allows env false configured clock call command none

-- An engine that denies without a message, and one that fails.
abbrev silent : Handler
silent b = (answers (record no_results { allowed = false; deny_count = 1 }), b)

abbrev broken : Handler
broken b = (errs "no provider", b)

handle-denies_example :
    ((handle (silent ∷ broken ∷ []) none).0.allowed
      ≡ not (some_of denies_aloud (answers_of (silent ∷ broken ∷ []) none)))
    × ((handle (silent ∷ broken ∷ []) none).0.deny_count
        ≡ total_denials (answers_of (silent ∷ broken ∷ []) none))
handle-denies_example = handle-denies (silent ∷ broken ∷ []) none

abbrev both : Evaluator
both = record { cel = some silent; ai = some broken; max_blocking_ms = 0 }

evaluate_with_budget-Accounts_example :
    let r = (evaluate_tool_call_with_budget both none).0 in
    let c = (evaluate_cli_command_with_budget both none).0 in
    (Accounts r (engine_answers both none)
      × ((r.allowed && r.audit_mode_bypass) ≡ r.audit_mode_bypass))
    × (Accounts c (engine_answers both none)
        × ((c.allowed && c.audit_mode_bypass) ≡ c.audit_mode_bypass))
evaluate_with_budget-Accounts_example = evaluate_with_budget-Accounts both none
