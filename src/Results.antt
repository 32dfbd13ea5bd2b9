-- ===== src/Results.antt =====
-- The result types of internal/gateway/tool_validation.go. `AsyncCompletion` is a channel: `some c`
-- is a channel on which the completion `c` will be sent.
use maybe_dont.Prelude.{ℕ, String, Bool, List, [], ◌∷◌, Option, none, false, not, if◌then◌else◌}
use maybe_dont.Policy.{PolicyAction, PolicyMode, is_deny, unset}
use maybe_dont.Audit.{PhaseDetails}

pub record ValidationResult : Type 0 where
  pub policy_name : String
  pub policy_type : String
  pub action : PolicyAction
  pub mode : PolicyMode
  pub message : String
  pub error : String
  pub duration_ms : ℕ

pub record AsyncCompletion : Type 0 where
  pub ai_details : Option PhaseDetails
  pub evaluation_ms : ℕ

pub record ValidationResults : Type 0 where
  pub results : List ValidationResult
  pub allowed : Bool
  pub message : String
  pub error : String
  pub allow_count : ℕ
  pub deny_count : ℕ
  pub recommended_action : PolicyAction
  pub failed_open : Bool
  pub audit_mode_bypass : Bool
  pub rules_details : Option PhaseDetails
  pub ai_details : Option PhaseDetails
  pub async_completion : Option AsyncCompletion

-- Go's zero value.
abbrev pub no_results : ValidationResults
no_results = record {
  results = [];
  allowed = false;
  message = "";
  error = "";
  allow_count = 0;
  deny_count = 0;
  recommended_action = unset;
  failed_open = false;
  audit_mode_bypass = false;
  rules_details = none;
  ai_details = none;
  async_completion = none;
}

abbrev denying_names : List ValidationResult → List String
denying_names [] = []
denying_names (r ∷ rs) =
    let rest = denying_names rs in if is_deny r.action then r.policy_name ∷ rest else rest

unfoldable pub denying_rule_names : ValidationResults → List String
denying_rule_names v = denying_names v.results

pub data ActionReason : Type 0 where
  no_reason request_policy response_policy audit_mode fail_open : ActionReason

unfoldable pub derive_audit_action_reason : Bool → Bool → Bool → ActionReason → ActionReason
derive_audit_action_reason allowed bypass failed_open deny_reason =
    if not allowed
    then deny_reason
    else if bypass
    then audit_mode
    else if failed_open
    then fail_open
    else no_reason
