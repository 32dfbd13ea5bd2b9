-- ===== src/AiResponse.antt =====
-- internal/gateway/ai_response_engine.go: rules by which a model judges the result of a tool call.
-- Every rule is asked at once; a loop collects the results in the order of arrival, until an enabled
-- rule denies or all enabled rules have answered. `AIResponsePolicy` has the fields of `AiRule`. The
-- provider is the parameter `ResponseProvider`, Go's `%+v` of foreign types is `Formats`, and what
-- the loop meets is a list of polls. Logging is left out.
pub mod Load
pub mod Loop
pub mod Answer
pub mod Collect
pub mod Rounds
pub mod Decision
use Prim.Native.String.{len, ◌++◌ as join}
use maybe_dont.Prelude.{
  ℕ, suc, ◌+◌, ◌-◌, String, Bool, true, false, ◌==◌, ◌&&◌, ◌||◌, not, List, [], ◌∷◌, ◌++◌, Option,
  none, some, ◌⊎◌, inl, inr, ltb, eqb, if◌then◌else◌,
}
use maybe_dont.Prelude.Json.{Value, object, no_members}
use maybe_dont.Prelude.Text.{trim_space, decimal}
use maybe_dont.Policy.{
  PolicyAction, PolicyMode, allow, deny, redact, other, is_deny, is_allow, is_redact, is_audit_only,
}
use maybe_dont.Audit.{
  RuleEntry, RuleResult, PhaseDetails, contributed, error, mode_to_audit_string, format_audit_error,
}
use maybe_dont.Budget.{BlockingBudget, PhaseTracker, start_phase, since_ms, remaining_ms}
use maybe_dont.Results.{AsyncCompletion}
use maybe_dont.Response.{
  Content, text, image, resource, other_content, ToolResult, ResponseResult, ResponseResults,
  allowed_response,
}
use maybe_dont.Sanitize.{sanitize_json_escapes}
use maybe_dont.Cel.{mark_phase, begin_phase, phase_times}
use maybe_dont.AiEngine.{AiRule, AiClock, Generated, count_enabled, count_rules, says_deny}

-- `AIResponseEvaluation`.
pub record Evaluation : Type 0 where
  pub allowed : Bool
  pub message : String
  pub redacted_content : String

-- `Generate` within a time limit in milliseconds, an error with its category; and `json.Unmarshal`.
pub record ResponseProvider : Type 0 where
  pub generate_within : ℕ → String → (String × String) ⊎ Generated
  pub decode_evaluation : List ℕ → String ⊎ Evaluation

-- `DetermineResponseDecision`: a redaction that gives the content back is none.
unfoldable pub determine_response_decision : PolicyAction → Bool → String → String → PolicyAction
determine_response_decision action allowed redacted original =
    if is_redact action
    then (if not (redacted == "")
        then (if trim_space redacted == trim_space original then allow else redact)
        else allow)
    else if not allowed
    then deny
    else allow

-- `aiResponseRuleResult`.
pub record ResponseOutcome : Type 0 where
  pub rule : String
  pub action : PolicyAction
  pub mode : PolicyMode
  pub result : RuleResult
  pub message : String
  pub redacted : String
  pub evaluation_ms : ℕ
  pub err : Option String
  pub err_category : String

-- The time that one rule has: the configured one or ten seconds, and no more than the budget has
-- left; a tenth of a second if it has nothing left.
unfoldable pub rule_timeout_ms : ℕ → Option BlockingBudget → ℕ
rule_timeout_ms configured none = if eqb configured 0 then 10000 else configured
rule_timeout_ms configured (some b) =
    let limit : ℕ = if eqb configured 0 then 10000 else configured in
    let left = remaining_ms b in
    if ltb 0 left then (if ltb left limit then left else limit) else 100

abbrev failed_outcome : AiRule → ℕ → String → String → String → ResponseOutcome
failed_outcome p ms category what cause = record {
  rule = p.name;
  action = p.action;
  mode = p.mode;
  result = error;
  message = join what cause;
  redacted = "";
  evaluation_ms = ms;
  err = some cause;
  err_category = category;
}

abbrev judged_outcome : AiRule → ℕ → String → String ⊎ Evaluation → ResponseOutcome
judged_outcome p ms response (inl cause) =
    failed_outcome p ms "parse_error" "Failed to parse AI response: " cause
judged_outcome p ms response (inr e) = record {
  rule = p.name;
  action = p.action;
  mode = p.mode;
  result = contributed (determine_response_decision p.action e.allowed e.redacted_content response);
  message = e.message;
  redacted = e.redacted_content;
  evaluation_ms = ms;
  err = none;
  err_category = "";
}

-- The goroutine of one rule.
unfoldable pub evaluate_response_rule : ResponseProvider → ℕ → String → ℕ → AiRule → ResponseOutcome
unfolding sanitize_json_escapes determine_response_decision
evaluate_response_rule provider limit response ms p =
    elim (provider.generate_within limit
      (join p.prompt (join "\n\nResponse content:\n" response))) [
        | inl (category, cause) ↦
            failed_outcome p ms category "Failed to evaluate response policy: " cause
        | inr g ↦
            judged_outcome p ms response
              (provider.decode_evaluation (sanitize_json_escapes g.parsed_json))
      ]

-- `%+v` of a resource and of the additional fields of a result.
pub record Formats : Type 0 where
  pub show_resource : Value → String
  pub show_meta : Value → String

abbrev numbered : ℕ → String → String → String
numbered i kind rest = join "  [" (join (decimal i) (join "] " (join kind (join rest "\n"))))

abbrev format_item : Formats → ℕ → Content → String
format_item f i (text t) = numbered i "Text: " t
format_item f i (image mime payload) =
    numbered i "Image (MIME: "
      (join mime (join ", Data length: " (join (decimal (len payload)) " bytes)")))
format_item f i (resource v) = numbered i "Resource: " (f.show_resource v)
format_item f i (other_content v) = ""

abbrev format_items : Formats → ℕ → List Content → String
format_items f i [] = ""
format_items f i (c ∷ cs) = join (format_item f i c) (format_items f (suc i) cs)

abbrev format_content : Formats → List Content → String
format_content f [] = ""
format_content f (c ∷ cs) = join "Content:\n" (format_items f 0 (c ∷ cs))

abbrev format_meta : Formats → Option Value → String
format_meta f none = ""
format_meta f (some (object no_members)) = ""
format_meta f (some v) = join "Meta: " (join (f.show_meta v) "\n")

unfoldable pub format_response_for_ai : Formats → ToolResult → String
unfolding decimal
format_response_for_ai f t =
    join (if t.is_error then "IsError: true\n" else "IsError: false\n")
      (join (format_content f t.content) (format_meta f t.meta))
