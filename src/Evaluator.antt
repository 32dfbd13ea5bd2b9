-- ===== src/Evaluator.antt =====
-- internal/gateway/policy_evaluator.go: the request evaluation that the command line, action and
-- intercept endpoints share. An engine is nil, or a function of the budget that answers or errs.
pub mod Merge
use maybe_dont.Prelude.{
  ℕ, String, ◌+◌, Bool, true, false, ◌==◌, ◌&&◌, not, [], ◌++◌, Option, none, some, or_else, eqb,
  is_some, ◌||◌, if◌then◌else◌,
}
use maybe_dont.Budget.{BlockingBudget, new_blocking_budget}
use maybe_dont.Results.{ValidationResults, no_results}
use maybe_dont.Chain.{HandlerAnswer, Handler, answers, errs}

-- The engines for one kind of request, and the configured limit.
pub record Evaluator : Type 0 where
  pub cel : Option Handler
  pub ai : Option Handler
  pub max_blocking_ms : ℕ

unfoldable pub new_budget : Evaluator → BlockingBudget
new_budget e = new_blocking_budget (if eqb e.max_blocking_ms 0 then 90000 else e.max_blocking_ms)

unfoldable pub merge_engine_results : ValidationResults → ValidationResults → ValidationResults
merge_engine_results f r =
    let merged = record f {
      results = f.results ++ r.results;
      allow_count = f.allow_count + r.allow_count;
      deny_count = f.deny_count + r.deny_count;
      rules_details = or_else r.rules_details f.rules_details;
      ai_details = or_else r.ai_details f.ai_details;
      async_completion = or_else r.async_completion f.async_completion;
      audit_mode_bypass = if r.audit_mode_bypass then true else f.audit_mode_bypass;
      failed_open = if r.failed_open then true else f.failed_open;
    } in
    if not r.allowed && not r.audit_mode_bypass
    then record merged {
      allowed = false;
      message = if f.message == "" then r.message else f.message;
    }
    else merged

-- `approved` and `denied` are the two default messages for the kind of request.
unfoldable pub finalize_results : String → String → ValidationResults → ValidationResults
finalize_results approved denied r =
    let bypass = if r.allowed then r.audit_mode_bypass else false in
    record r {
      audit_mode_bypass = bypass;
      message = if r.message == "" then (if r.allowed then approved else denied) else r.message;
    }

-- An engine that errs makes the result fail open.
abbrev pub take_answer : ValidationResults → HandlerAnswer → ValidationResults
take_answer f (errs e) = record f { failed_open = true }
take_answer f (answers r) = merge_engine_results f r

-- One engine; a nil one does nothing.
abbrev pub run_engine :
    Option Handler
    → ValidationResults × Option BlockingBudget
    → ValidationResults × Option BlockingBudget
run_engine none (f, b) = (f, b)
run_engine (some engine) (f, b) = let (a, b') = engine b in (take_answer f a, b')

abbrev pub allowed_results : ValidationResults
allowed_results = record no_results { allowed = true }

abbrev pub unconfigured : ValidationResults
unconfigured = record no_results { allowed = true; message = "No validation policies configured" }

-- A nil budget is made; a given one is shared.
abbrev pub shared_budget : Evaluator → Option BlockingBudget → BlockingBudget
shared_budget e none = new_budget e
shared_budget e (some b) = b

abbrev pub run_engines :
    String → String → Evaluator → Option BlockingBudget → ValidationResults × Option BlockingBudget
run_engines approved denied e budget =
    let (r, b) =
      run_engine e.ai (run_engine e.cel (allowed_results, some (shared_budget e budget))) in
    (finalize_results approved denied r, b)

abbrev pub is_configured : Evaluator → Bool
is_configured e = is_some e.cel || is_some e.ai

-- With neither engine the request is allowed and no budget is made.
abbrev pub evaluate :
    String → String → Evaluator → Option BlockingBudget → ValidationResults × Option BlockingBudget
evaluate approved denied e budget =
    if is_configured e then run_engines approved denied e budget else (unconfigured, budget)

unfoldable pub evaluate_tool_call_with_budget :
    Evaluator → Option BlockingBudget → ValidationResults × Option BlockingBudget
unfolding merge_engine_results finalize_results new_budget
evaluate_tool_call_with_budget =
    evaluate "Tool call approved by policy" "Tool call denied by policy"

unfoldable pub evaluate_cli_command_with_budget :
    Evaluator → Option BlockingBudget → ValidationResults × Option BlockingBudget
unfolding merge_engine_results finalize_results new_budget
evaluate_cli_command_with_budget = evaluate "Command approved by policy" "Command denied by policy"

-- The command's evaluator and the tool call's hold the same engines' two entry points; the budget
-- that the first leaves is the one that the second is given.
unfoldable pub evaluate_shell_command :
    Evaluator → Evaluator → ValidationResults × ValidationResults × Option BlockingBudget
unfolding evaluate_cli_command_with_budget evaluate_tool_call_with_budget
evaluate_shell_command cli mcp =
    let (a, b) = evaluate_cli_command_with_budget cli (some (new_budget cli)) in
    let (c, d) = evaluate_tool_call_with_budget mcp b in (a, c, d)
