-- ===== src/Gateway/Calls.antt =====
-- Which calls `HandleToolCall` of internal/gateway/gateway.go makes downstream.
use maybe_dont.Prelude.{
  String, ◌≡◌, refl, subst, Bool, true, false, ◌||◌, List, [], ◌∷◌, Option, none, some, ltb, inl,
  inr, Bool-cases, Option-cases, ◌⊎◌, arith, some_of, is_some, not, ◌&&◌, if◌then◌else◌,
}
use maybe_dont.Budget.{BlockingBudget, new_blocking_budget}
use maybe_dont.Results.{ValidationResults}
use maybe_dont.Cel.Context.{ToolCall}
use maybe_dont.Chain.{
  Handler, HandlerAnswer, answers, errs, handle, ChainState, chain_start, run_handlers, step_answer,
  absorb, join_errors,
}
use maybe_dont.Chain.Denials.{answers_of, total_denials, handle-denies}
use maybe_dont.Response.{ToolResult, ResponseResults}
use maybe_dont.Response.Chain.{handle_response, ResponseHandler}
use maybe_dont.Trail.{AuditContext, set_request_duration}
use maybe_dont.Gateway.{
  Gateway, RequestContext, CallClock, Event, called, audited, SessionClient, expired, missing,
  connected, write_audit_log, succeed, after_response, respond, after_call, call_tool, forward,
  after_validation, handle_tool_call, parse_prefixed_name, is_native_tool, is_empty, start_audit,
  populate_request_validation_audit, populate_response_validation_audit, reviewed,
}

abbrev pub fails : HandlerAnswer → Bool
fails (answers r) = false
fails (errs e) = true

step_error :
    (s : ChainState) (a : HandlerAnswer)
    → is_some (step_answer s a).final_error ≡ (is_some s.final_error || fails a)
unfolding absorb join_errors
step_error s (answers r) = ground arith
step_error s (errs e) = ground arith

run_error :
    (hs : List Handler) (s : ChainState) (b : Option BlockingBudget)
    → is_some (run_handlers hs s b).0.final_error
      ≡ (is_some s.final_error || some_of fails (answers_of hs b))
unfolding run_handlers answers_of
run_error [] s b = ground arith
run_error (h ∷ hs) s b =
    let (a, b') = h b in ground (arith, run_error hs (step_answer s a) b', step_error s a)

-- The chain reports an error exactly when some handler fails.
pub handle-error :
    (hs : List Handler) (b : Option BlockingBudget)
    → is_some (handle hs b).1 ≡ some_of fails (answers_of hs b)
unfolding handle
handle-error hs b = run_error hs chain_start b

abbrev pub calls_of : List Event → List (String × ToolCall)
calls_of [] = []
calls_of (called c r ∷ es) = (c, r) ∷ calls_of es
calls_of (audited e ∷ es) = calls_of es

succeed_calls :
    (clock : CallClock) (v : ValidationResults) (c : AuditContext) (b : Option BlockingBudget)
    (t : ToolResult)
    → calls_of (succeed clock v c b t).1 ≡ []
unfolding succeed write_audit_log
succeed_calls clock v c b t = refl

after_response_calls :
    (clock : CallClock) (r : ToolCall) (v : ValidationResults) (c : AuditContext)
    (o : ResponseResults × ToolResult × Option BlockingBudget)
    → calls_of (after_response clock r v c o).1 ≡ []
unfolding after_response write_audit_log
after_response_calls clock r v c (res, t, b) =
    let c' = populate_response_validation_audit c res in
    elim (Bool-cases res.allowed) [
      | inl h ↦ rw h (succeed_calls clock v c' b (reviewed res t))
      | inr h ↦ rw h refl
    ]

respond_calls :
    (chain : Option (ToolCall → List ResponseHandler)) (clock : CallClock) (r : ToolCall)
    (v : ValidationResults) (c : AuditContext) (b : Option BlockingBudget) (t : ToolResult)
    → calls_of (respond chain clock r v c b t).1 ≡ []
unfolding respond
respond_calls none clock r v c b t = succeed_calls clock v c b t
respond_calls (some chain) clock r v c b t = elim (Bool-cases (is_empty t.content)) [
  | inl m ↦ rw (m, respond) (succeed_calls clock v c b t)
  | inr m ↦ rw (m, respond) (after_response_calls clock r v c (handle_response (chain r) t b))
]

after_call_calls :
    (g : Gateway) (clock : CallClock) (r : ToolCall) (v : ValidationResults) (c : AuditContext)
    (b : Option BlockingBudget) (a : String ⊎ ToolResult)
    → calls_of (after_call g clock r v c b a).1 ≡ []
unfolding after_call
after_call_calls g clock r v c b (inl e) = refl
after_call_calls g clock r v c b (inr t) =
    respond_calls g.response_chain clock r v (set_request_duration c clock.tool_ms) b t

-- The calls that a client of a session is sent: one, if there is one.
abbrev pub calls_on : ToolCall → String → String → SessionClient → List (String × ToolCall)
calls_on r name tool (expired reason) = []
calls_on r name tool missing = []
calls_on r name tool (connected call) = (name, record r { name = tool }) ∷ []

call_tool_calls :
    (g : Gateway) (clock : CallClock) (r : ToolCall) (name tool : String) (v : ValidationResults)
    (c : AuditContext) (b : Option BlockingBudget) (k : SessionClient)
    → calls_of (call_tool g clock r name tool v c b k).1 ≡ calls_on r name tool k
unfolding call_tool
call_tool_calls g clock r name tool v c b (expired reason) = refl
call_tool_calls g clock r name tool v c b missing = refl
call_tool_calls g clock r name tool v c b (connected call) =
    let q = record r { name = tool } in rw (after_call_calls g clock r v c b (call q)) refl

-- The calls of a request that its validation lets pass.
abbrev pub calls_in :
    Gateway → RequestContext → ToolCall → String → String → List (String × ToolCall)
calls_in g ctx r name tool = elim ctx.session [
  | none ↦ []
  | some session ↦ calls_on r name tool (g.get_session_client session name)
]

forward_calls :
    (g : Gateway) (ctx : RequestContext) (clock : CallClock) (r : ToolCall) (name tool : String)
    (v : ValidationResults) (c : AuditContext) (b : Option BlockingBudget)
    → calls_of (forward g ctx clock r name tool v c b).1 ≡ calls_in g ctx r name tool
unfolding forward
forward_calls g ctx clock r name tool v c b = elim (Option-cases ctx.session) [
  | inl n ↦ rw n refl
  | inr (s, n) ↦ rw n (call_tool_calls g clock r name tool v c b (g.get_session_client s name))
]

-- Whether no handler of the request chain fails or denies.
abbrev pub passes : Gateway → ToolCall → Bool
passes g r =
    let as' = answers_of (g.validation_chain r) (some (new_blocking_budget g.max_blocking_ms)) in
    not (some_of fails as') && not (ltb 0 (total_denials as'))

validated_calls :
    (g : Gateway) (ctx : RequestContext) (clock : CallClock) (r : ToolCall) (name tool : String)
    (v : ValidationResults) (err : Option String) (b : Option BlockingBudget)
    → calls_of (after_validation g ctx clock r name tool v err b).1
      ≡ (if not (is_some err) && not (ltb 0 v.deny_count) then calls_in g ctx r name tool else [])
unfolding after_validation write_audit_log
validated_calls g ctx clock r name tool v (some e) b = refl
validated_calls g ctx clock r name tool v none b =
    let c = populate_request_validation_audit (start_audit g ctx clock r name tool) v in
    elim (Bool-cases (ltb 0 v.deny_count)) [
      | inl d ↦ rw (d, after_validation) refl
      | inr d ↦ rw (d, after_validation) (forward_calls g ctx clock r name tool v c b)
    ]

-- The same of a name that may not parse.
abbrev pub calls_for :
    Gateway → RequestContext → ToolCall → Option (String × String) → List (String × ToolCall)
calls_for g ctx r none = []
calls_for g ctx r (some (name, tool)) = calls_in g ctx r name tool

none_either : {A : Type 0} (b : Bool) → ◌≡◌ {A = List A} [] (if b then [] else [])
none_either true = refl
none_either false = refl

handled_calls :
    (g : Gateway) (ctx : RequestContext) (clock : CallClock) (r : ToolCall) (name tool : String)
    → let (v, err, b) =
        handle (g.validation_chain r) (some (new_blocking_budget g.max_blocking_ms)) in
      calls_of (after_validation g ctx clock r name tool v err b).1
      ≡ (if passes g r then calls_in g ctx r name tool else [])
handled_calls g ctx clock r name tool =
    let hs = g.validation_chain r in
    let budget = some (new_blocking_budget g.max_blocking_ms) in
    let (v, err, b) = handle hs budget in
    subst
      (λ x. calls_of (after_validation g ctx clock r name tool v err b).1 ≡ (
        if not x && not (ltb 0 (total_denials (answers_of hs budget)))
        then calls_in g ctx r name tool
        else []))
      (handle-error hs budget)
      (subst
        (λ n.
          calls_of (after_validation g ctx clock r name tool v err b).1
          ≡ (if not (is_some err) && not (ltb 0 n) then calls_in g ctx r name tool else []))
        (handle-denies hs budget).1 (validated_calls g ctx clock r name tool v err b))

-- A tool call reaches a downstream server exactly when it is no native tool, its name has a prefix,
-- no handler of the chain fails or denies, and the session has the client named by the prefix; it
-- is then sent once, to that client, under the rest of its name and otherwise unchanged.
pub handle_tool_call_forwards :
    (g : Gateway) (ctx : RequestContext) (clock : CallClock) (r : ToolCall)
    → calls_of (handle_tool_call g ctx clock r).1 ≡ (
        if not (is_native_tool r.name) && passes g r
        then calls_for g ctx r (parse_prefixed_name r.name)
        else [])
unfolding handle_tool_call
handle_tool_call_forwards g ctx clock r = elim (Bool-cases (is_native_tool r.name)) [
  | inl n ↦ rw (n, handle_tool_call) refl
  | inr n ↦ elim (Option-cases (parse_prefixed_name r.name)) [
    | inl p ↦ rw (n, p, handle_tool_call) (none_either (passes g r))
    | inr ((name, tool), p) ↦ rw (n, p, handle_tool_call) (handled_calls g ctx clock r name tool)
  ]
]
