-- ===== src/Gateway.antt =====
-- internal/gateway/gateway.go: `Gateway.HandleToolCall`, the path of an MCP tool call from its
-- validation over the downstream client to the validation of the response. What the call does to
-- the outside is a list of events. Logging is left out, and of a denial its text.
pub mod Audits
pub mod Calls
pub mod Replies
pub mod Names
use Prim.Native.String.{len, slice, ◌++◌ as join}
use text.Mathlib.Text.{find?, starts_with}
use maybe_dont.Prelude.{
  ℕ, String, ◌+◌, Bool, true, false, ◌==◌, ◌&&◌, ◌||◌, not, List, [], ◌∷◌, Option, none, some, ltb,
  is_some, ◌⊎◌, inl, inr, if◌then◌else◌,
}
use maybe_dont.Prelude.Json.{Value, Members, str, object, no_members, field, put}
use maybe_dont.Policy.{PolicyAction, allow, deny, unset, is_allow, is_deny}
use maybe_dont.Budget.{BlockingBudget, new_blocking_budget}
use maybe_dont.Results.{
  ValidationResult, ValidationResults, ActionReason, request_policy, response_policy, audit_mode,
  fail_open, no_reason,
}
use maybe_dont.Cel.Context.{ToolCall}
use maybe_dont.Chain.{Handler, handle}
use maybe_dont.Response.{
  Content, ToolResult, ResponseResult, ResponseResults, deny_count, allowed_response,
}
use maybe_dont.Response.Chain.{ResponseHandler, handle_response, apply_redaction_to}
use maybe_dont.Trail.{
  AuditContext, AuditEntry, new_audit_context, set_user_agent, set_ai_provider, set_tool_params,
  set_request_duration, set_request_validation_rules, set_request_validation_ai,
  set_response_validation_rules, set_response_validation_ai, set_actions, set_total_blocked_ms,
  set_request_ai_results_async, set_response_ai_results_async, has_async_work, finalize_entry,
  finalize_async,
}

-- `ParsePrefixedName` of internal/gateway/client_manager.go: `SplitN(name, "__", 2)`.
abbrev pub split_at : String → Option ℕ → Option (String × String)
split_at name none = none
split_at name (some i) = some (slice name 0 i, slice name (i + len "__") (len name))

unfoldable pub parse_prefixed_name : String → Option (String × String)
parse_prefixed_name name = split_at name (find? name "__")

unfoldable pub prefix_name : String → String → String
prefix_name client_name name = join client_name (join "__" name)

-- `IsNativeTool` of internal/gateway/native_tools.go.
unfoldable pub is_native_tool : String → Bool
is_native_tool name = starts_with name "maybedont__"

unfoldable pub redact_tool_params : Members → Members
redact_tool_params no_members = no_members
redact_tool_params (field k v fs) = field k (str "[redacted]") (redact_tool_params fs)

-- What the context of a request says.
pub record RequestContext : Type 0 where
  pub session : Option String
  pub client_ip : String
  pub user_agent : String
  pub request_id : String

pub data CallFailure : Type 0 where
  invalid_tool_name client_not_found : CallFailure
  validation_failed tool_failed session_expired : String → CallFailure
  request_denied : List String → ℕ → String → CallFailure
  response_denied : String → ℕ → CallFailure

-- A client of a session; `none` if it is not there, an expiry with its reason.
pub data SessionClient : Type 0 where
  expired : String → SessionClient
  missing : SessionClient
  connected : (ToolCall → String ⊎ ToolResult) → SessionClient

pub record Gateway : Type 0 where
  pub provider : Option Value
  pub include_argument_values : Bool
  pub max_blocking_ms : ℕ
  pub validation_chain : ToolCall → List Handler
  pub response_chain : Option (ToolCall → List ResponseHandler)
  pub get_session_client : String → String → SessionClient
  pub native_tools : ToolCall → ToolResult

-- The clock at the start and when the audit entry is finalized, and how long the tool took.
pub record CallClock : Type 0 where
  pub started : ℕ
  pub finished : ℕ
  pub tool_ms : ℕ

pub data Event : Type 0 where
  called : String → ToolCall → Event
  audited : AuditEntry → Event

pub data Reply : Type 0 where
  native : ToolResult → Reply
  replied : ToolResult → Reply
  refused : CallFailure → Reply

abbrev pub when_some {ℓ κ} : {A : Type ℓ} {B : Type κ} → (B → A → B) → Option A → B → B
when_some f none b = b
when_some f (some a) b = f b a

abbrev pub is_empty {ℓ} : {A : Type ℓ} → List A → Bool
is_empty [] = true
is_empty (x ∷ xs) = false

unfoldable pub populate_request_validation_audit : AuditContext → ValidationResults → AuditContext
populate_request_validation_audit c r =
    if is_empty r.results
      && (not (is_some r.rules_details)
          && (not (is_some r.ai_details) && not (is_some r.async_completion)))
    then c
    else when_some set_request_ai_results_async r.async_completion (
        when_some set_request_validation_ai r.ai_details
          (when_some set_request_validation_rules r.rules_details c))

unfoldable pub populate_response_validation_audit : AuditContext → ResponseResults → AuditContext
populate_response_validation_audit c r =
    if is_empty r.results
      && (not (is_some r.rules_details)
          && (not (is_some r.ai_details) && not (is_some r.async_completion)))
    then c
    else when_some set_response_ai_results_async r.async_completion (
        when_some set_response_validation_ai r.ai_details
          (when_some set_response_validation_rules r.rules_details c))

-- The names in `buildPolicyDeniedError`.
unfoldable pub denied_policies : List ValidationResult → List String
denied_policies [] = []
denied_policies (r ∷ rs) =
    let rest = denied_policies rs in
    if is_deny r.action && not (r.policy_type == "audit") then r.policy_name ∷ rest else rest

abbrev verdict : Bool → Value
verdict passed = if passed then str "passed" else str "failed"

unfoldable pub validation_summary : Members → List ValidationResult → Members
validation_summary m [] = m
validation_summary m (r ∷ rs) =
    if r.policy_type == "audit"
    then validation_summary m rs
    else validation_summary (put r.policy_name (verdict (is_allow r.action)) m) rs

unfoldable pub response_validation_summary : Members → List ResponseResult → Members
response_validation_summary m [] = m
response_validation_summary m (r ∷ rs) =
    if r.policy_type == "audit"
    then response_validation_summary m rs
    else response_validation_summary (put r.policy_name (verdict (not (is_deny r.action))) m) rs

abbrev pub meta_fields : Option Value → Members
meta_fields (some (object fs)) = fs
meta_fields _ = no_members

-- `result.Meta.AdditionalFields[key] = summary`, made where it is nil.
abbrev pub add_meta : String → Members → ToolResult → ToolResult
add_meta key summary t = record t {
  meta = some (object (put key (object summary) (meta_fields t.meta)));
}

abbrev pub blocked_of : Option BlockingBudget → ℕ
blocked_of none = 0
blocked_of (some b) = b.total_blocked_ms

abbrev pub duration_of : Option ℕ → ℕ
duration_of none = 0
duration_of (some ms) = ms

-- The entry, after the late results if there are any.
unfoldable pub finished_entry : ℕ → AuditContext → AuditEntry
unfolding has_async_work finalize_entry finalize_async
finished_entry now c = if has_async_work c then finalize_async now c else finalize_entry now c

-- `writeAuditLog`: `budget` is the shared budget at that time.
unfoldable pub write_audit_log : CallClock → Option BlockingBudget → AuditContext → Event
unfolding set_total_blocked_ms finished_entry
write_audit_log clock budget c = audited (
    finished_entry clock.finished
      (set_total_blocked_ms c (blocked_of budget + duration_of c.entry.tool.duration_ms)))

-- The audit context of a call, before its validation.
abbrev pub start_audit :
    Gateway → RequestContext → CallClock → ToolCall → String → String → AuditContext
unfolding new_audit_context set_user_agent set_ai_provider set_tool_params redact_tool_params
start_audit g ctx clock r client_name tool =
    let audit =
      set_user_agent
        (new_audit_context clock.started r.name client_name tool (session_id ctx.session)
          ctx.client_ip ctx.request_id)
        ctx.user_agent in
    with_params g.include_argument_values r.arguments
      (when_some (λ c p. set_ai_provider c (some p)) g.provider audit)
  where
    session_id : Option String → String
    session_id none = ""
    session_id (some s) = s

    with_params : Bool → Value → AuditContext → AuditContext
    with_params include (object params) c =
        set_tool_params c (if include then params else redact_tool_params params)
    with_params include _ c = c

-- The recommended action and the reason of a call that is allowed.
abbrev pub allowed_actions : ValidationResults → PolicyAction × ActionReason
allowed_actions v =
    if v.failed_open
    then (unset, fail_open)
    else if v.audit_mode_bypass
    then (v.recommended_action, audit_mode)
    else (allow, no_reason)

-- The end of a call that nothing refused.
unfoldable pub succeed :
    CallClock
    → ValidationResults
    → AuditContext
    → Option BlockingBudget
    → ToolResult
    → Reply × List Event
unfolding write_audit_log set_actions validation_summary
succeed clock v audit b result =
    let (recommended, reason) = allowed_actions v in
    (
      replied (add_meta "validation_summary" (validation_summary no_members v.results) result),
      write_audit_log clock b (set_actions audit recommended allow reason) ∷ [],
    )

-- A response that passed: the redaction is written again, and the summary put beside it.
abbrev pub reviewed : ResponseResults → ToolResult → ToolResult
unfolding response_validation_summary
reviewed res result =
    add_meta "response_validation_summary" (response_validation_summary no_members res.results)
      (apply_redaction_to res.redacted_content result)

-- After the response chain: its results, and the result and the budget that it leaves.
unfoldable pub after_response :
    CallClock
    → ToolCall
    → ValidationResults
    → AuditContext
    → ResponseResults × ToolResult × Option BlockingBudget
    → Reply × List Event
unfolding succeed populate_response_validation_audit
after_response clock r v audit (res, result, b) =
    let audit' = populate_response_validation_audit audit res in
    elim res.allowed [
      | false ↦ (
        refused (response_denied r.name (deny_count res.results)),
        write_audit_log clock b (set_actions audit' deny deny response_policy) ∷ [],
      )
      | true ↦ succeed clock v audit' b (reviewed res result)
    ]

-- From the downstream's result to the return; an empty result is not validated.
unfoldable pub respond :
    Option (ToolCall → List ResponseHandler)
    → CallClock
    → ToolCall
    → ValidationResults
    → AuditContext
    → Option BlockingBudget
    → ToolResult
    → Reply × List Event
unfolding after_response
respond none clock r v audit b result = succeed clock v audit b result
respond (some chain) clock r v audit b result = elim (is_empty result.content) [
  | true ↦ succeed clock v audit b result
  | false ↦ after_response clock r v audit (handle_response (chain r) result b)
]

-- What the downstream answers, an error or a result.
unfoldable pub after_call :
    Gateway
    → CallClock
    → ToolCall
    → ValidationResults
    → AuditContext
    → Option BlockingBudget
    → String ⊎ ToolResult
    → Reply × List Event
unfolding respond set_request_duration
after_call g clock r v audit b (inl e) = (refused (tool_failed e), [])
after_call g clock r v audit b (inr result) =
    respond g.response_chain clock r v (set_request_duration audit clock.tool_ms) b result

-- The call on the client, with the tool's own name.
unfoldable pub call_tool :
    Gateway
    → CallClock
    → ToolCall
    → String
    → String
    → ValidationResults
    → AuditContext
    → Option BlockingBudget
    → SessionClient
    → Reply × List Event
unfolding after_call
call_tool g clock r client_name tool v audit b (expired reason) =
    (refused (session_expired reason), [])
call_tool g clock r client_name tool v audit b missing = (refused client_not_found, [])
call_tool g clock r client_name tool v audit b (connected call) =
    let original = record r { name = tool } in
    let (reply, events) = after_call g clock r v audit b (call original) in
    (reply, called client_name original ∷ events)

-- A call whose request passed: the session, its client, the call and the response.
unfoldable pub forward :
    Gateway
    → RequestContext
    → CallClock
    → ToolCall
    → String
    → String
    → ValidationResults
    → AuditContext
    → Option BlockingBudget
    → Reply × List Event
unfolding call_tool
forward g ctx clock r client_name tool v audit b = elim ctx.session [
  | none ↦ (refused (session_expired "no session established"), [])
  | some session ↦
      call_tool g clock r client_name tool v audit b (g.get_session_client session client_name)
]

-- After `ValidateToolCall`: its results, its error, and the budget.
unfoldable pub after_validation :
    Gateway
    → RequestContext
    → CallClock
    → ToolCall
    → String
    → String
    → ValidationResults
    → Option String
    → Option BlockingBudget
    → Reply × List Event
unfolding forward write_audit_log set_actions denied_policies populate_request_validation_audit
after_validation g ctx clock r client_name tool v (some e) b = (refused (validation_failed e), [])
after_validation g ctx clock r client_name tool v none b =
    let audit = populate_request_validation_audit (start_audit g ctx clock r client_name tool) v in
    elim (ltb 0 v.deny_count) [
      | true ↦ (
        refused (request_denied (denied_policies v.results) v.deny_count r.name),
        write_audit_log clock b (set_actions audit deny deny request_policy) ∷ [],
      )
      | false ↦ forward g ctx clock r client_name tool v audit b
    ]

unfoldable pub handle_tool_call :
    Gateway → RequestContext → CallClock → ToolCall → Reply × List Event
unfolding after_validation is_native_tool parse_prefixed_name new_blocking_budget
handle_tool_call g ctx clock r = elim (is_native_tool r.name) [
  | true ↦ (native (g.native_tools r), [])
  | false ↦ elim (parse_prefixed_name r.name) [
    | none ↦ (refused invalid_tool_name, [])
    | some (client_name, tool) ↦
        let (v, err, b) =
          handle (g.validation_chain r) (some (new_blocking_budget g.max_blocking_ms)) in
        after_validation g ctx clock r client_name tool v err b
  ]
]
