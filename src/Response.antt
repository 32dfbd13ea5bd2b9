-- ===== src/Response.antt =====
-- The result types of internal/gateway/response_validation.go, and the content of a tool's result.
pub mod Chain
use maybe_dont.Prelude.{
  ℕ, suc, String, Bool, true, false, ◌==◌, List, [], ◌∷◌, Option, none, some, if◌then◌else◌,
}
use maybe_dont.Prelude.Json.{Value}
use maybe_dont.Policy.{PolicyAction, PolicyMode, is_allow, is_deny, is_redact, unset}
use maybe_dont.Audit.{PhaseDetails}
use maybe_dont.Results.{AsyncCompletion}

-- `mcp.Content`: other kinds of content are kept as they are.
pub data Content : Type 0 where
  text : String → Content
  image : String → String → Content
  resource : Value → Content
  other_content : Value → Content

-- `mcp.CallToolResult`.
pub record ToolResult : Type 0 where
  pub is_error : Bool
  pub content : List Content
  pub meta : Option Value

pub record ResponseResult : Type 0 where
  pub policy_name : String
  pub policy_type : String
  pub action : PolicyAction
  pub mode : PolicyMode
  pub message : String
  pub error : String
  pub redacted_content : String
  pub duration_ms : ℕ

pub record ResponseResults : Type 0 where
  pub results : List ResponseResult
  pub allowed : Bool
  pub message : String
  pub error : String
  pub redacted_content : Option String
  pub recommended_action : PolicyAction
  pub failed_open : Bool
  pub audit_mode_bypass : Bool
  pub rules_details : Option PhaseDetails
  pub ai_details : Option PhaseDetails
  pub async_completion : Option AsyncCompletion

abbrev pub allowed_response : ResponseResults
allowed_response = record {
  results = [];
  allowed = true;
  message = "";
  error = "";
  redacted_content = none;
  recommended_action = unset;
  failed_open = false;
  audit_mode_bypass = false;
  rules_details = none;
  ai_details = none;
  async_completion = none;
}

abbrev count_actions : (PolicyAction → Bool) → List ResponseResult → ℕ
count_actions p [] = 0
count_actions p (r ∷ rs) = let rest = count_actions p rs in if p r.action then suc rest else rest

unfoldable pub allow_count : List ResponseResult → ℕ
allow_count = count_actions is_allow

unfoldable pub deny_count : List ResponseResult → ℕ
deny_count = count_actions is_deny

unfoldable pub redact_count : List ResponseResult → ℕ
redact_count = count_actions is_redact

abbrev denying_names : List ResponseResult → List String
denying_names [] = []
denying_names (r ∷ rs) =
    let rest = denying_names rs in if is_deny r.action then r.policy_name ∷ rest else rest

unfoldable pub denying_rule_names : ResponseResults → List String
denying_rule_names v = denying_names v.results

-- The first text item is overwritten.
unfoldable pub replace_first_text : String → List Content → List Content
replace_first_text s [] = []
replace_first_text s (text t ∷ cs) = text s ∷ cs
replace_first_text s (c ∷ cs) = c ∷ replace_first_text s cs

-- The text of the first text item, or "".
unfoldable pub get_text_content : List Content → String
get_text_content [] = ""
get_text_content (text t ∷ cs) = t
get_text_content (c ∷ cs) = get_text_content cs
