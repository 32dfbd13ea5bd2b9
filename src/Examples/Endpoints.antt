-- ===== src/Examples/Endpoints.antt =====
-- Responses, the endpoints, repair and retries at concrete inputs.
use maybe_dont.Prelude.{
  ℕ, zero, suc, ◌≡◌, refl, true, false, not, ◌==◌, List, [], ◌∷◌, none, some, some_of,
}
use maybe_dont.Prelude.Json.{null}
use maybe_dont.Policy.{allow, redact, enforce}
use maybe_dont.Audit.{PhaseDetails}
use maybe_dont.Results.{ValidationResults, no_results}
use maybe_dont.Cel.{CelEnv, boolean, Timing}
use maybe_dont.Cel.Context.{ToolCall}
use maybe_dont.Response.{ToolResult, allowed_response, text, get_text_content}
use maybe_dont.Response.Chain.{ResponseHandler, answers, apply_redaction_to, handle_response}
use maybe_dont.Response.Chain.Redaction.{
  handle_response_redacts, response_answers, response_denies, handle_response-denies,
}
use maybe_dont.CelResponse.{CelResponsePolicy, Regex}
use maybe_dont.CelResponse.Context.{response_vars, evaluate_response}
use maybe_dont.CelResponse.Decision.{meant, evaluate_response-meant}
use maybe_dont.Sanitize.{backslash, quote, sanitize_json_escapes}
use maybe_dont.Sanitize.Escapes.{sanitize_json_escapes_idem}
use maybe_dont.Retry.{World, succeeds, fails, other_error}

abbrev env : CelEnv
env = record {
  compile_error = λ e. none;
  program_error = λ e. none;
  eval = λ e vars. boolean (e == "true");
}

abbrev rx : Regex
rx = record { compiles = λ p. true; replace_all = λ p content replacement. replacement }

abbrev clock : Timing
clock = record { start = 0; rule_ms = λ i. i; decided_at = λ i. 2000000; end = 5000000 }

abbrev call : ToolCall
call = record { method = "tools/call"; name = "gh__push"; arguments = null; meta = none }

abbrev secret : ToolResult
secret = record { is_error = false; content = text "key=1" ∷ []; meta = none }

abbrev hide : CelResponsePolicy
hide = record {
  name = "hide";
  description = "";
  expression = "true";
  action = redact;
  message = "";
  mode = enforce;
  redaction_pattern = "key";
  redaction_replacement = "";
}

evaluate_response-meant_example :
    let m =
      meant env rx (response_vars call secret) (get_text_content secret.content) none (hide ∷ []) in
    let out = (evaluate_response env rx clock (hide ∷ []) call secret none).0 in
    (out.allowed ≡ not m.denied)
    × (out.failed_open ≡ m.failed_open)
    × (out.redacted_content ≡ m.redaction)
evaluate_response-meant_example = evaluate_response-meant env rx clock (hide ∷ []) call secret none

abbrev redacts : ResponseHandler
redacts t b = (answers (record allowed_response { redacted_content = some "key=*" }), b)

abbrev refuses : ResponseHandler
refuses t b = (answers (record allowed_response { allowed = false; message = "no" }), b)

handle_response_redacts_example :
    (handle_response (redacts ∷ refuses ∷ []) secret none).1
    ≡ apply_redaction_to
        (handle_response (redacts ∷ refuses ∷ []) secret none).0.redacted_content
        secret
handle_response_redacts_example = handle_response_redacts (redacts ∷ refuses ∷ []) secret none

handle_response-denies_example :
    (handle_response (redacts ∷ refuses ∷ []) secret none).0.allowed
    ≡ not (
        some_of response_denies
          (response_answers (redacts ∷ refuses ∷ []) (allowed_response, secret) none))
handle_response-denies_example = handle_response-denies (redacts ∷ refuses ∷ []) secret none

abbrev cli_denied : ValidationResults
cli_denied = record no_results { allowed = false; message = "no rm"; deny_count = 1 }

abbrev mcp_bypassed : ValidationResults
mcp_bypassed = record no_results { allowed = true; audit_mode_bypass = true }

abbrev details : PhaseDetails
details = record {
  action = allow;
  blocked_ms = 1;
  evaluation_ms = 2;
  deciding_rule = "";
  reason = "";
  entries = [];
}

-- "\W"
abbrev windows : List ℕ
windows = quote ∷ backslash ∷ b'W' ∷ quote ∷ []

sanitize_windows : sanitize_json_escapes windows ≡ quote ∷ backslash ∷ backslash ∷ b'W' ∷ quote ∷ []
unfolding sanitize_json_escapes
sanitize_windows = refl

sanitize_json_escapes_idem_example :
    sanitize_json_escapes (sanitize_json_escapes windows) ≡ sanitize_json_escapes windows
sanitize_json_escapes_idem_example = sanitize_json_escapes_idem windows

-- An overloaded provider that answers the second time.
abbrev overloaded : World ℕ
overloaded = record {
  ctx_before = λ n. none;
  attempt = elim [ zero ↦ fails 503 (other_error "busy") | suc n ↦ succeeds 7 ];
  ctx_during = λ n. none;
}
