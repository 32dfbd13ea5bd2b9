-- ===== src/Examples/Replies.antt =====
-- Rules by which a model judges a tool's result, at concrete inputs.
use maybe_dont.Prelude.{
  ◌≡◌, refl, true, false, not, List, [], ◌∷◌, Option, none, some, some_of, String, if◌then◌else◌,
}
use maybe_dont.Prelude.Text.{trim_space, decimal, split}
use maybe_dont.Policy.{PolicyAction, PolicyMode, allow, deny, redact, audit_only, enforce}
use maybe_dont.Audit.{RuleResult, contributed, error}
use maybe_dont.Budget.{BlockingBudget}
use maybe_dont.Response.{ResponseResults, text, image}
use maybe_dont.AiEngine.{AiRule, AiClock}
use maybe_dont.AiResponse.{
  ResponseOutcome, determine_response_decision, Formats, format_response_for_ai,
}
use maybe_dont.AiResponse.Loop.{ResponsePoll}
use maybe_dont.AiResponse.Answer.{replied, evaluate_ai_response}
use maybe_dont.AiResponse.Collect.{received_of, enforced_denies, last_redaction}
use maybe_dont.AiResponse.Decision.{evaluate_ai_response_decides}

abbrev rule : String → PolicyAction → PolicyMode → AiRule
rule name action mode = record {
  name = name;
  description = "";
  prompt = "Does this leak a key?";
  action = action;
  message = "";
  mode = mode;
}

abbrev outcome : String → PolicyAction → PolicyMode → RuleResult → String → ResponseOutcome
outcome name action mode result redacted = record {
  rule = name;
  action = action;
  mode = mode;
  result = result;
  message = "";
  redacted = redacted;
  evaluation_ms = 4;
  err = none;
  err_category = "";
}

abbrev rules : List AiRule
rules =
    rule "watch" deny audit_only
    ∷ rule "keys" redact enforce
    ∷ rule "names" redact enforce
    ∷ rule "malware" deny enforce
    ∷ []

abbrev poll : Option ResponseOutcome → ResponsePoll
poll r = record { checked = 1000000; received = r; handled = 1500000 }

-- The rule that only observes denies, one that enforces fails, and two redact.
abbrev arrivals : List ResponsePoll
arrivals =
    poll (some (outcome "watch" deny audit_only (contributed deny) ""))
    ∷ poll none
    ∷ poll (some (outcome "names" redact enforce (contributed redact) "key=1 by [name]"))
    ∷ poll (some (outcome "malware" deny enforce error ""))
    ∷ poll (some (outcome "keys" redact enforce (contributed redact) "key=[key] by Ann"))
    ∷ []

abbrev clock : AiClock
clock = record { started = 0; returned = 2000000; completed = 3000000 }

evaluate_ai_response_decides_example :
    (r : ResponseResults) × (c : Option BlockingBudget) × (evaluate_ai_response clock rules arrivals
        [] none
      ≡ replied r c)
    × (r.allowed ≡ not (some_of enforced_denies (received_of arrivals)))
    × (r.redacted_content ≡ (
        if some_of enforced_denies (received_of arrivals)
        then none
        else last_redaction none (received_of arrivals)))
evaluate_ai_response_decides_example =
    evaluate_ai_response_decides clock rules arrivals [] none refl refl refl

last_wins : last_redaction none (received_of arrivals) ≡ some "key=[key] by Ann"
last_wins = refl

echoed : determine_response_decision redact true "  a\n" "a " ≡ allow
unfolding determine_response_decision trim_space
echoed = refl

rewritten : determine_response_decision redact false "b" "a" ≡ redact
unfolding determine_response_decision trim_space
rewritten = refl

abbrev plain : Formats
plain = record { show_resource = λ v. "{}"; show_meta = λ v. "map[]" }

formatted :
    format_response_for_ai plain (record {
      is_error = false;
      content = text "hi" ∷ image "image/png" "abcd" ∷ [];
      meta = none;
    })
    ≡ "IsError: false\nContent:\n  [0] Text: hi\n  [1] Image (MIME: image/png, Data length: 4 bytes)\n"
unfolding format_response_for_ai
formatted = refl

comma_separated : split 44 "a, b,,c" ≡ "a" ∷ " b" ∷ "" ∷ "c" ∷ []
unfolding split
comma_separated = refl

large_number : decimal 1024 ≡ "1024"
unfolding decimal
large_number = refl
