-- ===== src/Examples/Models.antt =====
-- Rules that a model judges, at concrete inputs.
use maybe_dont.Prelude.{◌≡◌, refl, false, not, List, [], ◌∷◌, Option, none, some, some_of, String}
use maybe_dont.Policy.{PolicyMode, deny, audit_only, enforce}
use maybe_dont.Audit.{RuleResult, contributed, error}
use maybe_dont.Budget.{BlockingBudget, blocking_deadline, is_exhausted}
use maybe_dont.Results.{ValidationResults}
use maybe_dont.AiEngine.{AiRule, AiClock, answered, Poll, RuleOutcome, evaluate_ai}
use maybe_dont.AiEngine.Collect.{received_of, enforced_denies}
use maybe_dont.AiEngine.Decision.{evaluate_ai_decides, evaluate_ai_ends}

abbrev rule : String → PolicyMode → AiRule
rule name mode = record {
  name = name;
  description = "";
  prompt = "Is this safe?";
  action = deny;
  message = "";
  mode = mode;
}

abbrev outcome : String → PolicyMode → RuleResult → RuleOutcome
outcome name mode result = record {
  rule = name;
  action = deny;
  mode = mode;
  result = result;
  message = "unsafe";
  evaluation_ms = 7;
  err = none;
  err_category = "";
  provider_request_id = "req-1";
}

abbrev rules : List AiRule
rules = rule "watch" audit_only ∷ rule "shell" enforce ∷ rule "files" enforce ∷ []

abbrev poll : Option RuleOutcome → Poll
poll r = record { checked = 1000000; received = r; handled = 1500000 }

-- The rule that only observes denies, one that enforces fails, and the last one denies.
abbrev arrivals : List Poll
arrivals =
    poll (some (outcome "watch" audit_only (contributed deny)))
    ∷ poll none
    ∷ poll (some (outcome "files" enforce error))
    ∷ poll (some (outcome "shell" enforce (contributed deny)))
    ∷ []

abbrev slow : List Poll
slow =
    poll (some (outcome "files" enforce error))
    ∷ record { checked = 9000000000; received = none; handled = 9100000000 }
    ∷ []

abbrev clock : AiClock
clock = record { started = 0; returned = 2000000; completed = 3000000 }

abbrev budget : BlockingBudget
budget = record { max_blocking_ms = 5000; total_blocked_ms = 0; exhausted = false }

evaluate_ai_decides_example :
    (r : ValidationResults) × (c : Option BlockingBudget) × (evaluate_ai clock rules arrivals []
        (some budget)
      ≡ answered r c)
    × (r.allowed ≡ not (some_of enforced_denies (received_of arrivals)))
unfolding is_exhausted blocking_deadline
evaluate_ai_decides_example =
    evaluate_ai_decides clock rules arrivals [] budget refl refl refl refl refl

evaluate_ai_ends_example :
    (r : ValidationResults) × (c : Option BlockingBudget) × (evaluate_ai clock rules slow []
        (some budget)
      ≡ answered r c)
unfolding blocking_deadline
evaluate_ai_ends_example = evaluate_ai_ends clock rules slow [] budget refl
