-- ===== src/Trail.antt =====
-- internal/gateway/audit_entry.go: the audit entry of a request and the context that collects it.
-- Times are clock readings; the provider's description is a value.
use maybe_dont.Prelude.{ℕ, String, Bool, true, false, ◌||◌, Option, none, some}
use maybe_dont.Prelude.Json.{Value, Members}
use maybe_dont.Policy.{PolicyAction, unset}
use maybe_dont.Audit.{PhaseDetails}
use maybe_dont.Budget.{since_ms}
use maybe_dont.Results.{AsyncCompletion, ActionReason, no_reason}

pub record ToolInfo : Type 0 where
  pub name : String
  pub client : String
  pub prefixed_name : String
  pub params : Option Members
  pub called_at : Option ℕ
  pub duration_ms : Option ℕ

pub record UpstreamRequest : Type 0 where
  pub request_id : String
  pub session_id : String
  pub client_ip : String
  pub user_agent : String

pub record ValidationInfo : Type 0 where
  pub cel : Option PhaseDetails
  pub ai : Option PhaseDetails

pub record AuditEntry : Type 0 where
  pub source : String
  pub validation_started : ℕ
  pub created_at : ℕ
  pub tool : ToolInfo
  pub upstream_request : UpstreamRequest
  pub provider : Option Value
  pub request_validation : Option ValidationInfo
  pub response_validation : Option ValidationInfo
  pub recommended_action : PolicyAction
  pub action : PolicyAction
  pub action_reason : ActionReason
  pub duration_ms : ℕ
  pub total_blocked_ms : ℕ

pub record AuditContext : Type 0 where
  pub entry : AuditEntry
  pub validation_start : ℕ
  pub request_ai_completion : Option AsyncCompletion
  pub response_ai_completion : Option AsyncCompletion

unfoldable pub new_audit_context :
    ℕ → String → String → String → String → String → String → AuditContext
new_audit_context now prefixed client tool session ip request = record {
  entry = record {
    source = "mcp";
    validation_started = now;
    created_at = 0;
    tool = record {
      name = tool;
      client = client;
      prefixed_name = prefixed;
      params = none;
      called_at = none;
      duration_ms = none;
    };
    upstream_request = record {
      request_id = request;
      session_id = session;
      client_ip = ip;
      user_agent = "";
    };
    provider = none;
    request_validation = none;
    response_validation = none;
    recommended_action = unset;
    action = unset;
    action_reason = no_reason;
    duration_ms = 0;
    total_blocked_ms = 0;
  };
  validation_start = now;
  request_ai_completion = none;
  response_ai_completion = none;
}

unfoldable pub set_tool_params : AuditContext → Members → AuditContext
set_tool_params c params = record c {
  entry = record (c.entry) { tool = record (c.entry.tool) { params = some params } };
}

unfoldable pub set_user_agent : AuditContext → String → AuditContext
set_user_agent c agent = record c {
  entry = record (c.entry) {
    upstream_request = record (c.entry.upstream_request) { user_agent = agent };
  };
}

unfoldable pub set_ai_provider : AuditContext → Option Value → AuditContext
set_ai_provider c provider = record c { entry = record (c.entry) { provider = provider } }

unfoldable pub set_tool_duration : AuditContext → ℕ → AuditContext
set_tool_duration c ms = record c {
  entry = record (c.entry) { tool = record (c.entry.tool) { duration_ms = some ms } };
}

unfoldable pub set_tool_called_at : AuditContext → ℕ → AuditContext
set_tool_called_at c now = record c {
  entry = record (c.entry) { tool = record (c.entry.tool) { called_at = some now } };
}

unfoldable pub set_request_duration : AuditContext → ℕ → AuditContext
unfolding set_tool_duration
set_request_duration = set_tool_duration

-- `if info == nil { info = &AuditValidationInfo{} }`
abbrev pub or_empty : Option ValidationInfo → ValidationInfo
or_empty none = record { cel = none; ai = none }
or_empty (some i) = i

unfoldable pub set_request_validation_rules : AuditContext → PhaseDetails → AuditContext
set_request_validation_rules c d = record c {
  entry = record (c.entry) {
    request_validation = some (record (or_empty c.entry.request_validation) { cel = some d });
  };
}

unfoldable pub set_request_validation_ai : AuditContext → PhaseDetails → AuditContext
set_request_validation_ai c d = record c {
  entry = record (c.entry) {
    request_validation = some (record (or_empty c.entry.request_validation) { ai = some d });
  };
}

unfoldable pub set_response_validation_rules : AuditContext → PhaseDetails → AuditContext
set_response_validation_rules c d = record c {
  entry = record (c.entry) {
    response_validation = some (record (or_empty c.entry.response_validation) { cel = some d });
  };
}

unfoldable pub set_response_validation_ai : AuditContext → PhaseDetails → AuditContext
set_response_validation_ai c d = record c {
  entry = record (c.entry) {
    response_validation = some (record (or_empty c.entry.response_validation) { ai = some d });
  };
}

unfoldable pub set_actions :
    AuditContext → PolicyAction → PolicyAction → ActionReason → AuditContext
set_actions c recommended actual reason = record c {
  entry = record (c.entry) {
    recommended_action = recommended;
    action = actual;
    action_reason = reason;
  };
}

unfoldable pub set_total_blocked_ms : AuditContext → ℕ → AuditContext
set_total_blocked_ms c ms = record c { entry = record (c.entry) { total_blocked_ms = ms } }

unfoldable pub set_request_ai_results_async : AuditContext → AsyncCompletion → AuditContext
set_request_ai_results_async c done = record c { request_ai_completion = some done }

unfoldable pub set_response_ai_results_async : AuditContext → AsyncCompletion → AuditContext
set_response_ai_results_async c done = record c { response_ai_completion = some done }

abbrev is_pending : Option AsyncCompletion → Bool
is_pending none = false
is_pending (some c) = true

unfoldable pub has_async_work : AuditContext → Bool
has_async_work c = is_pending c.request_ai_completion || is_pending c.response_ai_completion

-- `now` is the reading of the clock.
unfoldable pub finalize_entry : ℕ → AuditContext → AuditEntry
finalize_entry now c = record (c.entry) {
  created_at = now;
  duration_ms = since_ms c.validation_start now;
}

-- What a completion that arrives replaces, by one of the two setters.
abbrev pub complete :
    (AuditContext → PhaseDetails → AuditContext)
    → Option AsyncCompletion
    → AuditContext
    → AuditContext
complete set none c = c
complete set (some done) c = elim done.ai_details [ none ↦ c | some d ↦ set c d ]

unfoldable pub finalize_async : ℕ → AuditContext → AuditEntry
unfolding finalize_entry set_request_validation_ai set_response_validation_ai
finalize_async now c = finalize_entry now (
    complete set_response_validation_ai c.response_ai_completion
      (complete set_request_validation_ai c.request_ai_completion c))
