-- ===== src/AiResponse/Loop.antt =====
-- The loop of `EvaluateResponse` in internal/gateway/ai_response_engine.go that collects the results.
use maybe_dont.Prelude.{
  ℕ, ◌-◌, String, Bool, true, false, ◌==◌, ◌&&◌, ◌||◌, not, List, [], ◌∷◌, ◌++◌, Option, none, some,
  eqb, if◌then◌else◌,
}
use maybe_dont.Policy.{PolicyAction, allow, deny, redact, other, is_allow, is_audit_only}
use maybe_dont.Audit.{
  RuleEntry, RuleResult, contributed, error, mode_to_audit_string, format_audit_error,
}
use maybe_dont.Budget.{BlockingBudget, PhaseTracker}
use maybe_dont.Response.{ResponseResult}
use maybe_dont.Cel.{mark_phase, begin_phase}
use maybe_dont.AiEngine.{AiRule, count_enabled, count_rules, says_deny}
use maybe_dont.AiResponse.{ResponseOutcome}

-- One round of the loop: the clock at its head, what its `select` receives (`none` is the timeout of
-- 100 ms), and the clock when that is handled.
pub record ResponsePoll : Type 0 where
  pub checked : ℕ
  pub received : Option ResponseOutcome
  pub handled : ℕ

pub record ResponseAiLoop : Type 0 where
  pub entries : List RuleEntry
  pub results : List ResponseResult
  pub deciding_rule : String
  pub deciding_reason : String
  pub final_action : PolicyAction
  pub decided : Bool
  pub allowed : Bool
  pub redacted : Option String
  pub audit_only_deny : Bool
  pub failed_open : Bool
  pub remaining_enabled : ℕ
  pub remaining_total : ℕ
  pub phase : Option (PhaseTracker × BlockingBudget)

abbrev pub error_text_of : ResponseOutcome → Option String → String
error_text_of r none = ""
error_text_of r (some t) = format_audit_error r.err_category (some t)

abbrev pub outcome_entry : ResponseOutcome → RuleEntry
outcome_entry r = record {
  rule = r.rule;
  action = r.action;
  mode = mode_to_audit_string r.mode;
  result = r.result;
  evaluation_ms = r.evaluation_ms;
  error_text = error_text_of r r.err;
}

-- `config.PolicyAction(ruleResult.result)`.
abbrev as_action : RuleResult → PolicyAction
as_action (contributed a) = a
as_action error = other "error"

abbrev pub response_ai_result : ResponseOutcome → ResponseResult
response_ai_result r = record {
  policy_name = r.rule;
  policy_type = "ai";
  action = as_action r.result;
  mode = r.mode;
  message = r.message;
  error = error_text_of r r.err;
  redacted_content = r.redacted;
  duration_ms = r.evaluation_ms;
}

-- The head of a round: every enabled rule has answered.
unfoldable pub response_loop_head : ℕ → ResponseAiLoop → ResponseAiLoop
response_loop_head now s =
    if not s.decided && eqb s.remaining_enabled 0
    then record s { phase = mark_phase s.phase now; decided = true }
    else s

-- What the result of an enabled rule does to an open loop.
unfoldable pub judge : ℕ → ResponseOutcome → RuleResult → ResponseAiLoop → ResponseAiLoop
judge now r (contributed deny) s = record s {
  phase = mark_phase s.phase now;
  final_action = deny;
  deciding_rule = r.rule;
  deciding_reason = r.message;
  allowed = false;
  decided = true;
}
judge now r (contributed redact) s = record s {
  final_action = if is_allow s.final_action then redact else s.final_action;
  redacted = if r.redacted == "" then s.redacted else some r.redacted;
}
judge now r error s = record s { failed_open = true }
judge now r (contributed a) s = s

-- What every result does.
unfoldable pub note_outcome : ResponseOutcome → ResponseAiLoop → ResponseAiLoop
note_outcome r s =
    let observes = is_audit_only r.mode in
    record s {
      remaining_total = s.remaining_total - 1;
      remaining_enabled = if observes then s.remaining_enabled else s.remaining_enabled - 1;
      entries = s.entries ++ outcome_entry r ∷ [];
      results = s.results ++ response_ai_result r ∷ [];
      audit_only_deny = if observes && says_deny r.result then true else s.audit_only_deny;
    }

unfoldable pub receive_outcome : ℕ → ResponseOutcome → ResponseAiLoop → ResponseAiLoop
unfolding judge note_outcome
receive_outcome now r s =
    if not s.decided && not (is_audit_only r.mode)
    then judge now r r.result (note_outcome r s)
    else note_outcome r s

abbrev pub response_select : ℕ → Option ResponseOutcome → ResponseAiLoop → ResponseAiLoop
response_select now none s = s
response_select now (some r) s = receive_outcome now r s

-- The state in which the loop ends, or `none` if it still waits after these polls.
unfoldable pub collect_responses : List ResponsePoll → ResponseAiLoop → Option ResponseAiLoop
unfolding response_loop_head receive_outcome
collect_responses [] s = if eqb s.remaining_total 0 || s.decided then some s else none
collect_responses (p ∷ ps) s = elim (eqb s.remaining_total 0) [
  | true ↦ some s
  | false ↦
      let s' = response_loop_head p.checked s in
      elim s'.decided [
        | true ↦ some s'
        | false ↦ collect_responses ps (response_select p.handled p.received s')
      ]
]

unfoldable pub response_ai_start : List AiRule → ℕ → Option BlockingBudget → ResponseAiLoop
response_ai_start rules start b = record {
  entries = [];
  results = [];
  deciding_rule = "";
  deciding_reason = "";
  final_action = allow;
  decided = false;
  allowed = true;
  redacted = none;
  audit_only_deny = false;
  failed_open = false;
  remaining_enabled = count_enabled rules;
  remaining_total = count_rules rules;
  phase = begin_phase b start;
}
