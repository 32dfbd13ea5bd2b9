-- ===== src/Gateway/Audits.antt =====
-- What `HandleToolCall` of internal/gateway/gateway.go writes to the audit log.
use maybe_dont.Prelude.{
  ℕ, ◌+◌, String, ◌≡◌, refl, List, [], ◌∷◌, Option, none, some, ltb, inl, inr, Bool-cases,
  Option-cases, ◌⊎◌, arith, ◌∙◌,
}
use maybe_dont.Policy.{allow, deny}
use maybe_dont.Budget.{BlockingBudget, new_blocking_budget}
use maybe_dont.Chain.{handle}
use maybe_dont.Results.{
  ValidationResults, AsyncCompletion, ActionReason, request_policy, response_policy,
}
use maybe_dont.Cel.Context.{ToolCall}
use maybe_dont.Response.{ToolResult, ResponseResults}
use maybe_dont.Trail.{
  AuditContext, AuditEntry, complete, has_async_work, finalize_entry, finalize_async, set_actions,
  set_request_duration, set_total_blocked_ms, set_request_validation_ai, set_response_validation_ai,
}
use maybe_dont.Response.Chain.{handle_response, ResponseHandler}
use maybe_dont.Gateway.{
  start_audit, populate_request_validation_audit, populate_response_validation_audit, reviewed,
  after_response, allowed_actions, blocked_of, duration_of, SessionClient, expired, missing,
  connected, is_empty, finished_entry, after_call, call_tool, after_validation, parse_prefixed_name,
  is_native_tool, Gateway, RequestContext, CallClock, Event, called, audited, Reply, native,
  replied, refused, request_denied, response_denied, invalid_tool_name, client_not_found,
  validation_failed, tool_failed, session_expired, write_audit_log, succeed, respond, forward,
  handle_tool_call,
}

abbrev pub audits_of : List Event → List AuditEntry
audits_of [] = []
audits_of (called c r ∷ es) = audits_of es
audits_of (audited e ∷ es) = e ∷ audits_of es

-- One entry of an allowed call, and one of a call denied for a reason.
abbrev Allowed : List AuditEntry → Type 0
Allowed es = (e : AuditEntry) × (es ≡ e ∷ []) × (e.action ≡ allow)

abbrev Denied : ActionReason → List AuditEntry → Type 0
Denied reason es = (e : AuditEntry) × (es ≡ e ∷ []) × (e.action ≡ deny) × (e.action_reason ≡ reason)

-- What the audit log holds after a reply.
abbrev pub Recorded : Reply × List Event → Type 0
Recorded (native t, es) = audits_of es ≡ []
Recorded (replied t, es) = Allowed (audits_of es)
Recorded (refused (request_denied names n tool), es) = Denied request_policy (audits_of es)
Recorded (refused (response_denied tool n), es) = Denied response_policy (audits_of es)
Recorded (refused invalid_tool_name, es) = audits_of es ≡ []
Recorded (refused client_not_found, es) = audits_of es ≡ []
Recorded (refused (validation_failed s), es) = audits_of es ≡ []
Recorded (refused (tool_failed s), es) = audits_of es ≡ []
Recorded (refused (session_expired s), es) = audits_of es ≡ []

-- A call made before does not change what is recorded.
with_call :
    (c : String) (q : ToolCall) (p : Reply × List Event)
    → Recorded p
    → Recorded (p.0, called c q ∷ p.1)
with_call c q (native t, es) h = h
with_call c q (replied t, es) h = h
with_call c q (refused (request_denied names n tool), es) h = h
with_call c q (refused (response_denied tool n), es) h = h
with_call c q (refused invalid_tool_name, es) h = h
with_call c q (refused client_not_found, es) h = h
with_call c q (refused (validation_failed s), es) h = h
with_call c q (refused (tool_failed s), es) h = h
with_call c q (refused (session_expired s), es) h = h

complete_request :
    (o : Option AsyncCompletion) (c : AuditContext)
    → let d = complete set_request_validation_ai o c in
      (d.entry.action ≡ c.entry.action) × (d.entry.action_reason ≡ c.entry.action_reason)
unfolding set_request_validation_ai
complete_request none c = (refl, refl)
complete_request (some o) c = (ground arith, ground arith)

complete_response :
    (o : Option AsyncCompletion) (c : AuditContext)
    → let d = complete set_response_validation_ai o c in
      (d.entry.action ≡ c.entry.action) × (d.entry.action_reason ≡ c.entry.action_reason)
unfolding set_response_validation_ai
complete_response none c = (refl, refl)
complete_response (some o) c = (ground arith, ground arith)

finalize_async_keeps :
    (now : ℕ) (c : AuditContext)
    → let e = finalize_async now c in
      (e.action ≡ c.entry.action) × (e.action_reason ≡ c.entry.action_reason)
unfolding finalize_async finalize_entry
finalize_async_keeps now c =
    let (a, r) = complete_request c.request_ai_completion c in
    let (a', r') =
      complete_response c.response_ai_completion
        (complete set_request_validation_ai c.request_ai_completion c) in
    (a' ∙ a, r' ∙ r)

finished_entry_keeps :
    (now : ℕ) (c : AuditContext)
    → let e = finished_entry now c in
      (e.action ≡ c.entry.action) × (e.action_reason ≡ c.entry.action_reason)
unfolding finished_entry finalize_entry
finished_entry_keeps now c = elim (Bool-cases (has_async_work c)) [
  | inl h ↦ rw h (finalize_async_keeps now c)
  | inr h ↦ rw h (refl, refl)
]

logged :
    (clock : CallClock) (b : Option BlockingBudget) (c : AuditContext)
    → (e : AuditEntry) × (audits_of (write_audit_log clock b c ∷ []) ≡ e ∷ [])
      × (e.action ≡ c.entry.action)
      × (e.action_reason ≡ c.entry.action_reason)
unfolding write_audit_log set_total_blocked_ms
logged clock b c =
    let c' = set_total_blocked_ms c (blocked_of b + duration_of c.entry.tool.duration_ms) in
    let (a, r) = finished_entry_keeps clock.finished c' in
    (finished_entry clock.finished c', refl, a, r)

succeed-Recorded :
    (clock : CallClock) (v : ValidationResults) (c : AuditContext) (b : Option BlockingBudget)
    (t : ToolResult)
    → Recorded (succeed clock v c b t)
unfolding succeed set_actions
succeed-Recorded clock v c b t =
    let (recommended, reason) = allowed_actions v in
    let (e, h, a, r) = logged clock b (set_actions c recommended allow reason) in (e, h, a)

Denied-write_audit_log :
    (clock : CallClock) (b : Option BlockingBudget) (c : AuditContext) (reason : ActionReason)
    → Denied reason (audits_of (write_audit_log clock b (set_actions c deny deny reason) ∷ []))
unfolding set_actions
Denied-write_audit_log clock b c reason = logged clock b (set_actions c deny deny reason)

after_response-Recorded :
    (clock : CallClock) (r : ToolCall) (v : ValidationResults) (c : AuditContext)
    (o : ResponseResults × ToolResult × Option BlockingBudget)
    → Recorded (after_response clock r v c o)
unfolding after_response
after_response-Recorded clock r v c (res, t, b) =
    let c' = populate_response_validation_audit c res in
    elim (Bool-cases res.allowed) [
      | inl h ↦ rw h (succeed-Recorded clock v c' b (reviewed res t))
      | inr h ↦ rw h (Denied-write_audit_log clock b c' response_policy)
    ]

respond-Recorded :
    (chain : Option (ToolCall → List ResponseHandler)) (clock : CallClock) (r : ToolCall)
    (v : ValidationResults) (c : AuditContext) (b : Option BlockingBudget) (t : ToolResult)
    → Recorded (respond chain clock r v c b t)
unfolding respond
respond-Recorded none clock r v c b t = succeed-Recorded clock v c b t
respond-Recorded (some chain) clock r v c b t = elim (Bool-cases (is_empty t.content)) [
  | inl m ↦ rw (m, respond) (succeed-Recorded clock v c b t)
  | inr m ↦ rw (m, respond) (after_response-Recorded clock r v c (handle_response (chain r) t b))
]

after_call-Recorded :
    (g : Gateway) (clock : CallClock) (r : ToolCall) (v : ValidationResults) (c : AuditContext)
    (b : Option BlockingBudget) (a : String ⊎ ToolResult)
    → Recorded (after_call g clock r v c b a)
unfolding after_call set_request_duration
after_call-Recorded g clock r v c b (inl e) = refl
after_call-Recorded g clock r v c b (inr t) =
    respond-Recorded g.response_chain clock r v (set_request_duration c clock.tool_ms) b t

call_tool-Recorded :
    (g : Gateway) (clock : CallClock) (r : ToolCall) (name tool : String) (v : ValidationResults)
    (c : AuditContext) (b : Option BlockingBudget) (k : SessionClient)
    → Recorded (call_tool g clock r name tool v c b k)
unfolding call_tool
call_tool-Recorded g clock r name tool v c b (expired reason) = refl
call_tool-Recorded g clock r name tool v c b missing = refl
call_tool-Recorded g clock r name tool v c b (connected call) =
    let q = record r { name = tool } in
    with_call name q (after_call g clock r v c b (call q))
      (after_call-Recorded g clock r v c b (call q))

forward-Recorded :
    (g : Gateway) (ctx : RequestContext) (clock : CallClock) (r : ToolCall) (name tool : String)
    (v : ValidationResults) (c : AuditContext) (b : Option BlockingBudget)
    → Recorded (forward g ctx clock r name tool v c b)
unfolding forward
forward-Recorded g ctx clock r name tool v c b = elim (Option-cases ctx.session) [
  | inl n ↦ rw n refl
  | inr (s, n) ↦ rw n (call_tool-Recorded g clock r name tool v c b (g.get_session_client s name))
]

-- Every reply leaves its record: a result one entry of an allowed call, a denial one entry of a
-- denied call with the phase that denied it as its reason, and a native tool, an unreadable name
-- and a failure of a handler, a session or a tool no entry.
pub handle_tool_call-Recorded :
    (g : Gateway) (ctx : RequestContext) (clock : CallClock) (r : ToolCall)
    → Recorded (handle_tool_call g ctx clock r)
unfolding handle_tool_call after_validation
handle_tool_call-Recorded g ctx clock r = elim (Bool-cases (is_native_tool r.name)) [
  | inl n ↦ rw (n, handle_tool_call) refl
  | inr n ↦ elim (Option-cases (parse_prefixed_name r.name)) [
    | inl p ↦ rw (n, p, handle_tool_call) refl
    | inr ((name, tool), p) ↦
        let (v, err, b) =
          handle (g.validation_chain r) (some (new_blocking_budget g.max_blocking_ms)) in
        rw (n, p, handle_tool_call) (validated name tool v err b)
  ]
]
  where
    validated :
        (name tool : String) (v : ValidationResults) (err : Option String)
        (b : Option BlockingBudget)
        → Recorded (after_validation g ctx clock r name tool v err b)
    validated name tool v (some e) b = refl
    validated name tool v none b =
        let c = populate_request_validation_audit (start_audit g ctx clock r name tool) v in
        elim (Bool-cases (ltb 0 v.deny_count)) [
          | inl d ↦ rw (d, after_validation) (Denied-write_audit_log clock b c request_policy)
          | inr d ↦ rw (d, after_validation) (forward-Recorded g ctx clock r name tool v c b)
        ]
