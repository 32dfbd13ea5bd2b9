-- ===== src/AiResponse/Answer.antt =====
-- What `EvaluateResponse` of internal/gateway/ai_response_engine.go answers: without rules, with rules
-- that all observe, and from the end of its loop.
use maybe_dont.Prelude.{
  ℕ, Bool, true, false, ◌==◌, ◌&&◌, not, List, [], ◌∷◌, ◌++◌, Option, none, some, ltb, eqb,
  if◌then◌else◌,
}
use maybe_dont.Policy.{allow, deny, redact, is_deny, is_redact}
use maybe_dont.Audit.{RuleEntry, PhaseDetails}
use maybe_dont.Budget.{BlockingBudget, PhaseTracker, since_ms}
use maybe_dont.Response.{ResponseResults, allowed_response}
use maybe_dont.Cel.{mark_phase, begin_phase, phase_times}
use maybe_dont.AiEngine.{AiRule, AiClock, count_enabled, count_rules}
use maybe_dont.AiResponse.{ResponseOutcome}
use maybe_dont.AiResponse.Loop.{
  ResponsePoll, ResponseAiLoop, response_ai_start, outcome_entry, collect_responses,
}

abbrev pub response_ai_details : ResponseAiLoop → List RuleEntry → ℕ → ℕ → PhaseDetails
response_ai_details s entries blocked evaluation =
    let named = not (s.deciding_rule == "") in
    record {
      action = s.final_action;
      blocked_ms = blocked;
      evaluation_ms = evaluation;
      deciding_rule = if named then s.deciding_rule else "";
      reason = if named then s.deciding_reason else "";
      entries = entries;
    }

abbrev pub late_response_entries : List ResponseOutcome → List RuleEntry
late_response_entries [] = []
late_response_entries (r ∷ rs) = outcome_entry r ∷ late_response_entries rs

-- The message and the recommendation.
unfoldable pub conclude_ai_response : ResponseAiLoop → ResponseResults
conclude_ai_response s =
    let base = record allowed_response {
      results = s.results;
      allowed = s.allowed;
      redacted_content = if is_redact s.final_action then s.redacted else none;
      failed_open = s.failed_open;
    } in
    if is_deny s.final_action
    then record base {
      allowed = false;
      message =
          if s.deciding_reason == "" then "Response denied by AI policy" else s.deciding_reason;
      recommended_action = deny;
    }
    else if is_redact s.final_action
    then record base {
      message = "Response content redacted by AI policy";
      recommended_action = redact;
    }
    else if s.failed_open
    then record base { message = "AI response validation failed, allowing response (fail-open)" }
    else if s.audit_only_deny
    then record base {
      audit_mode_bypass = true;
      recommended_action = deny;
      message = "AI response policy would deny but mode is audit_only";
    }
    else record base { message = "All AI response policies passed"; recommended_action = allow }

-- From the end of the loop to the return. A loop that ends before all results are in and has rules
-- that only observe leaves the details to a completion: `late` are the remaining results.
unfoldable pub finish_ai_response :
    Bool → AiClock → List ResponseOutcome → ResponseAiLoop → ResponseResults × Option BlockingBudget
unfolding conclude_ai_response
finish_ai_response observers clock late s =
    let (blocked, evaluation, b) = phase_times s.phase clock.started clock.returned in
    let r = conclude_ai_response s in
    let done = since_ms clock.started clock.completed in
    (
      if observers && ltb 0 s.remaining_total
          then record r {
            async_completion = some (record {
              ai_details =
                  some
                    (response_ai_details s (s.entries ++ late_response_entries late) blocked done);
              evaluation_ms = done;
            });
          }
          else record r { ai_details = some (response_ai_details s s.entries blocked evaluation) },
      b,
    )

abbrev pub plain_details : ℕ → ℕ → List RuleEntry → PhaseDetails
plain_details blocked evaluation entries = record {
  action = allow;
  blocked_ms = blocked;
  evaluation_ms = evaluation;
  deciding_rule = "";
  reason = "";
  entries = entries;
}

-- Without rules.
unfoldable pub no_response_rules :
    AiClock → Option BlockingBudget → ResponseResults × Option BlockingBudget
no_response_rules clock budget =
    let (blocked, evaluation, b) =
      phase_times (begin_phase budget clock.started) clock.started clock.returned in
    (
      record allowed_response {
        message = "No AI response policies configured";
        ai_details = some (plain_details blocked evaluation []);
      },
      b,
    )

abbrev pub budget_of : Option (PhaseTracker × BlockingBudget) → Option BlockingBudget
budget_of none = none
budget_of (some (p, b)) = some b

-- Every rule only observes: the answer comes at once, the results later.
unfoldable pub observe_responses :
    AiClock → List ResponseOutcome → Option BlockingBudget → ResponseResults × Option BlockingBudget
observe_responses clock late budget =
    let done = since_ms clock.started clock.completed in
    (
      record allowed_response {
        message = "All policies are audit_only, proceeding without blocking";
        async_completion = some (record {
          ai_details = some (plain_details 0 done (late_response_entries late));
          evaluation_ms = done;
        });
      },
      budget_of (mark_phase (begin_phase budget clock.started) clock.returned),
    )

-- `answered`, or nothing as long as the loop waits.
pub data ResponseReply : Type 0 where
  still_waits : ResponseReply
  replied : ResponseResults → Option BlockingBudget → ResponseReply

abbrev pub replied_with : ResponseResults × Option BlockingBudget → ResponseReply
replied_with (r, b) = replied r b

abbrev pub concluded_response :
    Bool → AiClock → List ResponseOutcome → Option ResponseAiLoop → ResponseReply
concluded_response observers clock late none = still_waits
concluded_response observers clock late (some s) =
    replied_with (finish_ai_response observers clock late s)

unfoldable pub evaluate_ai_response :
    AiClock
    → List AiRule
    → List ResponsePoll
    → List ResponseOutcome
    → Option BlockingBudget
    → ResponseReply
unfolding collect_responses response_ai_start finish_ai_response observe_responses no_response_rules
evaluate_ai_response clock [] polls late budget = replied_with (no_response_rules clock budget)
evaluate_ai_response clock (p ∷ ps) polls late budget =
    let rules = p ∷ ps in
    elim (eqb (count_enabled rules) 0) [
      | true ↦ replied_with (observe_responses clock late budget)
      | false ↦
          concluded_response (ltb (count_enabled rules) (count_rules rules)) clock late
            (collect_responses polls (response_ai_start rules clock.started budget))
    ]
