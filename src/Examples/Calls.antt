-- ===== src/Examples/Calls.antt =====
-- Tool calls through the gateway at concrete inputs.
use maybe_dont.Prelude.{
  ◌≡◌, refl, true, false, not, ◌&&◌, [], ◌∷◌, none, some, inr, if◌then◌else◌, String,
}
use maybe_dont.Prelude.Json.{object, field, str, no_members}
use maybe_dont.Results.{no_results}
use maybe_dont.Cel.Context.{ToolCall}
use maybe_dont.Chain.{Handler, answers, errs}
use maybe_dont.Response.{ToolResult, text, image, allowed_response}
use maybe_dont.Response.Chain as Responses
use maybe_dont.Response.Chain.{ResponseHandler}
use maybe_dont.Trail.{AuditContext, new_audit_context}
use maybe_dont.Gateway.{
  Gateway, RequestContext, CallClock, SessionClient, connected, handle_tool_call,
  parse_prefixed_name, is_native_tool,
}
use maybe_dont.Gateway.Audits.{Recorded, handle_tool_call-Recorded}
use maybe_dont.Gateway.Calls.{calls_of, calls_for, passes, handle_tool_call_forwards}

abbrev search : ToolCall
search = record {
  method = "tools/call";
  name = "github__search";
  arguments = object (field "query" (str "secret") no_members);
  meta = none;
}

abbrev found : ToolResult
found = record {
  is_error = false;
  content = image "iVBO" "image/png" ∷ text "token=42" ∷ text "done" ∷ [];
  meta = none;
}

abbrev allows : Handler
allows b = (answers (record no_results { allowed = true; allow_count = 1; message = "fine" }), b)

abbrev redacts : ResponseHandler
redacts t b =
    (Responses.answers (record allowed_response { redacted_content = some "token=[REDACTED]" }), b)

abbrev connect : String → String → SessionClient
connect session name = connected (λ q. inr found)

abbrev gateway : Gateway
gateway = record {
  provider = none;
  include_argument_values = false;
  max_blocking_ms = 5000;
  validation_chain = λ r. allows ∷ [];
  response_chain = some (λ r. redacts ∷ []);
  get_session_client = connect;
  native_tools = λ r. found;
}

abbrev context : RequestContext
context = record { session = some "s1"; client_ip = "10.0.0.1"; user_agent = ""; request_id = "r1" }

abbrev times : CallClock
times = record { started = 0; finished = 90000000; tool_ms = 40 }

abbrev trail : AuditContext
unfolding new_audit_context
trail = new_audit_context 0 "github__search" "github" "search" "s1" "10.0.0.1" "r1"

handle_tool_call_forwards_example : calls_of (handle_tool_call gateway context times search).1 ≡ (
    if not (is_native_tool search.name) && passes gateway search
    then calls_for gateway context search (parse_prefixed_name search.name)
    else [])
handle_tool_call_forwards_example = handle_tool_call_forwards gateway context times search

-- The call of the example is made.
search_is_called :
    calls_of (handle_tool_call gateway context times search).1
    ≡ ("github", record search { name = "search" }) ∷ []
unfolding handle_tool_call maybe_dont.Chain.handle maybe_dont.Chain.run_handlers
    maybe_dont.Chain.absorb Responses.handle_response Responses.run_response_handlers
    Responses.absorb_response
search_is_called = refl

handle_tool_call-Recorded_example : Recorded (handle_tool_call gateway context times search)
handle_tool_call-Recorded_example = handle_tool_call-Recorded gateway context times search
