-- ===== src/AiEngine/Decision.antt =====
-- What an evaluation of internal/gateway/ai_engine.go answers.
use mathlib.Core.Bool.{false≢true}
use maybe_dont.Prelude.{
  ℕ, ◌≡◌, refl, ◌∙◌, ap, Bool, true, false, not, List, [], ◌∷◌, Option, none, some, inl, inr, ltb,
  eqb, Bool-cases, some_of, is_some, length, arith,
}
use maybe_dont.Policy.{is_allow}
use maybe_dont.Budget.{BlockingBudget, is_exhausted, blocking_deadline}
use maybe_dont.Results.{ValidationResults}
use maybe_dont.AiEngine.{
  AiRule, AiClock, answered, Poll, RuleOutcome, AiLoop, collect, ai_start, evaluate_ai,
  count_enabled, count_rules, conclude_ai, finish_ai, concluded, observe_only,
}
use maybe_dont.AiEngine.Collect.{
  received_of, enforced_denies, count_enforced, collect_ends, in_time, decision,
}

conclude_ai-allowed : (s : AiLoop) → (conclude_ai s).allowed ≡ is_allow s.final_action
unfolding conclude_ai
conclude_ai-allowed s = ground arith

finish_ai-allowed :
    (observers : Bool) (start end done : ℕ) (late : List RuleOutcome) (s : AiLoop)
    → (finish_ai observers start end done late s).0.allowed ≡ is_allow s.final_action
unfolding finish_ai
finish_ai-allowed observers start end done late s = ground (arith, conclude_ai-allowed s)

allows_decision : (b : Bool) → is_allow (decision b) ≡ not b
allows_decision b = ground arith

-- The engine with an enabled rule and a budget is the loop.
evaluate_ai-collect :
    (clock : AiClock) (rules : List AiRule) (polls : List Poll) (late : List RuleOutcome)
    (b : BlockingBudget)
    → eqb (count_enabled rules) 0 ≡ false
    → evaluate_ai clock rules polls late (some b)
      ≡ concluded (ltb (count_enabled rules) (count_rules rules)) clock late (
          collect clock.started
            (blocking_deadline b clock.started)
            polls
            (ai_start rules clock.started b))
unfolding evaluate_ai
evaluate_ai-collect clock [] polls late b h = absurd (ground (arith, h))
evaluate_ai-collect clock (p ∷ ps) polls late b h = rw (h, evaluate_ai) refl

-- If the results of all rules arrive before the deadline, the engine answers, and it refuses exactly
-- when some enabled rule says deny: the order of arrival, failures of rules and rules that only
-- observe have no part in it.
pub evaluate_ai_decides :
    (clock : AiClock) (rules : List AiRule) (polls : List Poll) (late : List RuleOutcome)
    (b : BlockingBudget)
    → eqb (count_enabled rules) 0 ≡ false
    → is_exhausted b ≡ false
    → some_of (λ p. ltb (blocking_deadline b clock.started) p.checked) polls ≡ false
    → count_enforced (received_of polls) ≡ count_enabled rules
    → length (received_of polls) ≡ count_rules rules
    → (r : ValidationResults) × (c : Option BlockingBudget) × (evaluate_ai clock rules polls late
          (some b)
        ≡ answered r c)
      × (r.allowed ≡ not (some_of enforced_denies (received_of polls)))
unfolding ai_start
evaluate_ai_decides clock rules polls late b enabled open_budget early enforced total =
    let start = ai_start rules clock.started b in
    let observers = ltb (count_enabled rules) (count_rules rules) in
    let (s, e, f) =
      in_time clock.started (blocking_deadline b clock.started) polls start early
        (open_budget, refl) (enforced, total) in
    let out = finish_ai observers clock.started clock.returned clock.completed late s in
    (
      out.0,
      some out.1,
      evaluate_ai-collect clock rules polls late b enabled ∙ ap (concluded observers clock late) e,
      finish_ai-allowed observers clock.started clock.returned clock.completed late s
          ∙ ap is_allow f
          ∙ allows_decision (some_of enforced_denies (received_of polls)),
    )

concluded_answers :
    (observers : Bool) (clock : AiClock) (late : List RuleOutcome) (o : Option AiLoop)
    → is_some o ≡ true
    → (r : ValidationResults) × (c : Option BlockingBudget) × (concluded observers clock late o
        ≡ answered r c)
concluded_answers observers clock late none h = absurd (false≢true h)
concluded_answers observers clock late (some s) h =
    let out = finish_ai observers clock.started clock.returned clock.completed late s in
    (out.0, some out.1, refl)

-- The engine never waits past its blocking deadline: once the clock of a round is past it, the
-- engine has answered, whatever has arrived.
pub evaluate_ai_ends :
    (clock : AiClock) (rules : List AiRule) (polls : List Poll) (late : List RuleOutcome)
    (b : BlockingBudget)
    → some_of (λ p. ltb (blocking_deadline b clock.started) p.checked) polls ≡ true
    → (r : ValidationResults) × (c : Option BlockingBudget) × (evaluate_ai clock rules polls late
          (some b)
        ≡ answered r c)
unfolding evaluate_ai
evaluate_ai_ends clock [] polls late b past = (_, _, refl)
evaluate_ai_ends clock (p ∷ ps) polls late b past =
    let rules = p ∷ ps in
    elim (Bool-cases (eqb (count_enabled rules) 0)) [
      | inl h ↦
          let out = observe_only clock late (some b) in (out.0, out.1, rw (h, evaluate_ai) refl)
      | inr h ↦
          let (r, c, e) =
            concluded_answers (ltb (count_enabled rules) (count_rules rules)) clock late _ (
              collect_ends clock.started (blocking_deadline b clock.started) polls
                (ai_start rules clock.started b) past) in
          (r, c, evaluate_ai-collect clock rules polls late b h ∙ e)
    ]
