-- ===== src/Chain.antt =====
-- `ToolValidationChain.Handle` of internal/gateway/tool_validation.go. A handler is given the
-- blocking budget that the context carries and answers with results or an error; the request is
-- fixed. `foundDeny` with `denyMessage` is one option, and so for allow.
pub mod Denials
use Prim.Native.String.{◌++◌ as join}
use maybe_dont.Prelude.{
  ℕ, String, ◌+◌, Bool, true, false, ◌==◌, ◌&&◌, not, List, [], ◌∷◌, ◌++◌, Option, none, some, ltb,
  or_else, if◌then◌else◌,
}
use maybe_dont.Policy.{PolicyAction, allow, deny, is_unset}
use maybe_dont.Budget.{BlockingBudget}
use maybe_dont.Results.{ValidationResults, no_results}

pub data HandlerAnswer : Type 0 where
  answers : ValidationResults → HandlerAnswer
  errs : String → HandlerAnswer

abbrev pub Handler : Type 0
Handler = Option BlockingBudget → HandlerAnswer × Option BlockingBudget

pub record ChainState : Type 0 where
  pub final : ValidationResults
  pub final_error : Option String
  pub deny_message : Option String
  pub allow_message : Option String

abbrev pub chain_start : ChainState
chain_start = record {
  final = no_results;
  final_error = none;
  deny_message = none;
  allow_message = none;
}

-- `fmt.Errorf("%w %w", finalError, err)`
unfoldable pub join_errors : Option String → String → Option String
join_errors none err = some err
join_errors (some old) err = some (join old (join " " err))

-- Keep the first message, if the count is positive and the message not empty.
unfoldable pub first_message : Option String → ℕ → String → Option String
first_message (some m) count message = some m
first_message none count message = if ltb 0 count && not (message == "") then some message else none

-- The body of the loop after a handler that answered.
unfoldable pub absorb : ChainState → ValidationResults → ChainState
unfolding first_message
absorb s r = record {
  final = record f {
    results = f.results ++ r.results;
    allow_count = f.allow_count + r.allow_count;
    deny_count = f.deny_count + r.deny_count;
    rules_details = or_else r.rules_details f.rules_details;
    ai_details = or_else r.ai_details f.ai_details;
    async_completion = or_else r.async_completion f.async_completion;
    failed_open = if r.failed_open then true else f.failed_open;
    audit_mode_bypass = if r.audit_mode_bypass then true else f.audit_mode_bypass;
    recommended_action =
        if r.audit_mode_bypass && not (is_unset r.recommended_action)
        then r.recommended_action
        else f.recommended_action;
  };
  final_error = s.final_error;
  deny_message = first_message s.deny_message r.deny_count r.message;
  allow_message = first_message s.allow_message r.allow_count r.message;
}
  where
    f : ValidationResults
    f = s.final

abbrev pub step_answer : ChainState → HandlerAnswer → ChainState
step_answer s (errs e) = record s { final_error = join_errors s.final_error e }
step_answer s (answers r) = absorb s r

unfoldable pub run_handlers :
    List Handler → ChainState → Option BlockingBudget → ChainState × Option BlockingBudget
run_handlers [] s b = (s, b)
run_handlers (h ∷ hs) s b = let (a, b') = h b in run_handlers hs (step_answer s a) b'

abbrev recommend_allow : ValidationResults → ValidationResults
recommend_allow f =
    if not f.audit_mode_bypass && not f.failed_open
    then record f { recommended_action = allow }
    else f

-- After the loop.
unfoldable pub conclude : ChainState → ValidationResults
conclude s = elim s.deny_message [
  | some m ↦ record (s.final) {
    allowed = false;
    message = m;
    recommended_action = deny;
    audit_mode_bypass = false;
  }
  | none ↦ elim s.allow_message [
    | some m ↦ recommend_allow (record (s.final) { allowed = true; message = m })
    | none ↦ recommend_allow (record (s.final) { allowed = true })
  ]
]

-- The results, the error, and the budget after the call.
unfoldable pub handle :
    List Handler → Option BlockingBudget → ValidationResults × Option String × Option BlockingBudget
unfolding conclude
handle handlers budget =
    let (s, b) = run_handlers handlers chain_start budget in (conclude s, s.final_error, b)
