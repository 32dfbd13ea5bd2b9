-- ===== src/Audit.antt =====
-- internal/gateway/audit_entry.go and the error texts of internal/gateway/ai_engine.go: what is
-- recorded of each rule and phase. An action that the source writes as a string is a `PolicyAction`.
use Prim.Native.String.{len, slice}
use Prim.Native.String.{◌++◌ as join}
use maybe_dont.Prelude.{ℕ, String, List, Option, none, some, ◌==◌, ltb, if◌then◌else◌}
use maybe_dont.Policy.{PolicyAction, PolicyMode, audit_only}

-- `Result` of a rule: the action that it amounts to, or "error".
pub data RuleResult : Type 0 where
  contributed : PolicyAction → RuleResult
  error : RuleResult

-- `AuditRulesRuleResult`, and the identical `AuditAIRuleResult`. `mode` is "" or "audit_only".
pub record RuleEntry : Type 0 where
  pub rule : String
  pub action : PolicyAction
  pub mode : String
  pub result : RuleResult
  pub evaluation_ms : ℕ
  pub error_text : String

-- `AuditRulesResult`, and `AuditAIResult` but for its provider request id.
pub record PhaseDetails : Type 0 where
  pub action : PolicyAction
  pub blocked_ms : ℕ
  pub evaluation_ms : ℕ
  pub deciding_rule : String
  pub reason : String
  pub entries : List RuleEntry

unfoldable pub mode_to_audit_string : PolicyMode → String
mode_to_audit_string audit_only = "audit_only"
mode_to_audit_string _ = ""

-- `none` is a nil error.
unfoldable pub format_audit_error : String → Option String → String
format_audit_error category none = category
format_audit_error category (some msg) =
    if category == "timeout"
    then "timeout: rule evaluation exceeded max_rule_evaluation_ms limit"
    else if category == "canceled"
    then "canceled: rule evaluation was canceled"
    else let short = if ltb 100 (len msg) then join (slice msg 0 100) "..." else msg in
      join category (join ": " short)
