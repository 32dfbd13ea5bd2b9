-- ===== src/Suite.antt =====
-- internal/testsuite/executor.go: the verdict on a test case of policies. A decision is its text, as
-- in the source; confidence, a constant, and the wording of failures are left out.
pub mod Verdicts
use maybe_dont.Prelude.{
  ℕ, suc, String, Bool, true, false, ◌==◌, ◌&&◌, ◌||◌, not, List, [], ◌∷◌, ◌++◌, Option, none, some,
  ltb, eqb, contains, length, if◌then◌else◌,
}
use maybe_dont.Policy.{PolicyAction, allow, deny, redact, unset, other, is_unset}
use maybe_dont.Results.{ValidationResult, ValidationResults}
use maybe_dont.Response.{ResponseResult, ResponseResults}

pub record PolicyResult : Type 0 where
  pub policy_name : String
  pub decision : String
  pub elapsed_ms : ℕ

pub record ActualResult : Type 0 where
  pub decision : String
  pub reasoning : String
  pub policies_executed : List PolicyResult
  pub redacted_content : String

pub record PolicyExpectation : Type 0 where
  pub policy_name : String
  pub decision : String

pub record ExpectedResult : Type 0 where
  pub decision : String
  pub policies : List PolicyExpectation
  pub redacted_content : String

abbrev action_text : PolicyAction → String
action_text allow = "allow"
action_text deny = "deny"
action_text redact = "redact"
action_text unset = ""
action_text (other s) = s

abbrev policy_results : List ValidationResult → List PolicyResult
policy_results [] = []
policy_results (r ∷ rs) =
    record {
      policy_name = r.policy_name;
      decision = action_text r.action;
      elapsed_ms = r.duration_ms;
    }
    ∷ policy_results rs

abbrev response_policy_results : List ResponseResult → List PolicyResult
response_policy_results [] = []
response_policy_results (r ∷ rs) =
    record {
      policy_name = r.policy_name;
      decision = action_text r.action;
      elapsed_ms = r.duration_ms;
    }
    ∷ response_policy_results rs

unfoldable pub map_validation_result : ValidationResults → ActualResult
map_validation_result v = record {
  decision = if v.allowed then "allow" else "deny";
  reasoning = "";
  policies_executed = policy_results v.results;
  redacted_content = "";
}

abbrev text_or_empty : Option String → String
text_or_empty none = ""
text_or_empty (some s) = s

unfoldable pub map_response_validation_result : ResponseResults → ActualResult
map_response_validation_result v = record {
  decision =
      if not (is_unset v.recommended_action)
      then action_text v.recommended_action
      else if v.allowed
      then "allow"
      else "deny";
  reasoning = "";
  policies_executed = response_policy_results v.results;
  redacted_content = text_or_empty v.redacted_content;
}

unfoldable pub decision_severity : String → ℕ
decision_severity d = if d == "deny" then 2 else if d == "redact" then 1 else 0

-- The two phases of one case: the more restrictive decision wins.
unfoldable pub merge_actual_results : ActualResult → ActualResult → ActualResult
unfolding decision_severity
merge_actual_results request response =
    let worse = ltb (decision_severity request.decision) (decision_severity response.decision) in
    record {
      decision = if worse then response.decision else request.decision;
      reasoning = if worse then response.reasoning else request.reasoning;
      policies_executed = request.policies_executed ++ response.policies_executed;
      redacted_content =
          if response.redacted_content == ""
          then request.redacted_content
          else response.redacted_content;
    }

pub data Failure : Type 0 where
  wrong_decision : String → String → Failure
  no_redaction : Failure
  wrong_redaction : String → String → Failure
  wrong_policy_decision : String → String → String → Failure
  policy_not_executed : String → Failure
  unexpected_matches : ℕ → Failure

pub record Comparison : Type 0 where
  pub failures : List Failure
  pub warnings : List Failure
  pub extra_policy_only : Bool

unfoldable pub decision_failures : ExpectedResult → ActualResult → List Failure
decision_failures e a =
    if e.decision == a.decision then [] else wrong_decision e.decision a.decision ∷ []

unfoldable pub redaction_failures : ExpectedResult → ActualResult → List Failure
redaction_failures e a =
    if e.redacted_content == ""
    then []
    else if a.redacted_content == ""
    then no_redaction ∷ []
    else if e.redacted_content == a.redacted_content
    then []
    else wrong_redaction e.redacted_content a.redacted_content ∷ []

-- The first executed policy of that name decides.
unfoldable pub expectation_failures : PolicyExpectation → List PolicyResult → List Failure
expectation_failures p [] = policy_not_executed p.policy_name ∷ []
expectation_failures p (r ∷ rs) =
    let rest = expectation_failures p rs in
    if r.policy_name == p.policy_name
    then (if r.decision == p.decision
        then []
        else wrong_policy_decision p.policy_name p.decision r.decision ∷ [])
    else rest

unfoldable pub policy_failures : List PolicyExpectation → List PolicyResult → List Failure
policy_failures [] rs = []
policy_failures (p ∷ ps) rs = expectation_failures p rs ++ policy_failures ps rs

abbrev pub expected_names : List PolicyExpectation → List String
expected_names [] = []
expected_names (p ∷ ps) = p.policy_name ∷ expected_names ps

-- The policies that took the decision and are not among the expected ones.
unfoldable pub unexpected : List String → String → List PolicyResult → List String
unexpected names decision [] = []
unexpected names decision (r ∷ rs) =
    let rest = unexpected names decision rs in
    if r.decision == decision && not (contains r.policy_name names)
    then r.policy_name ∷ rest
    else rest

abbrev pub no_items {ℓ} : {A : Type ℓ} → List A → Bool
no_items [] = true
no_items (x ∷ xs) = false

-- The unexpected policies of a case that names some and was not allowed.
unfoldable pub extra_policies : ExpectedResult → ActualResult → List String
unfolding unexpected
extra_policies e a =
    if not (no_items e.policies) && not (a.decision == "allow")
    then unexpected (expected_names e.policies) a.decision a.policies_executed
    else []

-- The failures that are found before the extra policies.
unfoldable pub prior_failures : ExpectedResult → ActualResult → List Failure
unfolding decision_failures redaction_failures policy_failures
prior_failures e a =
    decision_failures e a
    ++ (redaction_failures e a ++ policy_failures e.policies a.policies_executed)

unfoldable pub compare_results : ExpectedResult → ActualResult → Bool → Comparison
unfolding prior_failures extra_policies
compare_results e a strict =
    let prior = prior_failures e a in
    let extra = extra_policies e a in
    let matches = unexpected_matches (length extra) in
    if no_items extra
    then record { failures = prior; warnings = []; extra_policy_only = false }
    else if strict
    then record {
      failures = prior ++ matches ∷ [];
      warnings = [];
      extra_policy_only = no_items prior;
    }
    else record { failures = prior; warnings = matches ∷ []; extra_policy_only = false }
