-- ===== src/Response/Chain/Redaction.antt =====
-- What the response chain of internal/gateway/response_validation.go guarantees.
use maybe_dont.Prelude.{
  String, ◌≡◌, refl, ap, ◌∙◌, sym, Bool, false, not, ◌&&◌, List, [], ◌∷◌, Option, none, some,
  or_else, arith, some_of,
}
use maybe_dont.Budget.{BlockingBudget}
use maybe_dont.Response.{
  Content, ToolResult, ResponseResults, allowed_response, replace_first_text, text, image, resource,
  other_content,
}
use maybe_dont.Response.Chain.{
  ResponseAnswer, ResponseHandler, answers, errs, absorb_response, absorb_answer,
  apply_redaction_to, run_response_handlers, default_message, handle_response,
}

-- A second redaction overwrites the first.
replace_twice :
    (r s : String) (cs : List Content)
    → replace_first_text s (replace_first_text r cs) ≡ replace_first_text s cs
unfolding replace_first_text
replace_twice r s [] = refl
replace_twice r s (text t ∷ cs) = refl
replace_twice r s (image d m ∷ cs) = ap (◌∷◌ (image d m)) (replace_twice r s cs)
replace_twice r s (resource v ∷ cs) = ap (◌∷◌ (resource v)) (replace_twice r s cs)
replace_twice r s (other_content v ∷ cs) = ap (◌∷◌ (other_content v)) (replace_twice r s cs)

redact_twice :
    (r s : Option String) (t : ToolResult)
    → apply_redaction_to s (apply_redaction_to r t) ≡ apply_redaction_to (or_else s r) t
unfolding apply_redaction_to
redact_twice r none t = refl
redact_twice none (some s) t = refl
redact_twice (some r) (some s) t =
    ap (λ (cs : List Content). record t { content = cs }) (replace_twice r s t.content)

abbrev Consistent : ToolResult → ResponseResults × ToolResult → Type 0
Consistent t (f, t') = t' ≡ apply_redaction_to f.redacted_content t

absorb_answer-Consistent :
    (t : ToolResult) (a : ResponseAnswer) (s : ResponseResults × ToolResult)
    → Consistent t s
    → Consistent t (absorb_answer a s)
unfolding absorb_response
absorb_answer-Consistent t (errs e) (f, t') h = h
absorb_answer-Consistent t (answers r) (f, t') h =
    ap (apply_redaction_to r.redacted_content) h
    ∙ redact_twice f.redacted_content r.redacted_content t

run_Consistent :
    (t : ToolResult) (hs : List ResponseHandler) (s : ResponseResults × ToolResult)
    (b : Option BlockingBudget)
    → Consistent t s
    → let (f, t', _) = run_response_handlers hs s b in Consistent t (f, t')
unfolding run_response_handlers
run_Consistent t [] (f, t') b h = h
run_Consistent t (g ∷ hs) (f, t') b h =
    let (a, b') = g t' b in
    run_Consistent t hs (absorb_answer a (f, t')) b' (absorb_answer-Consistent t a (f, t') h)

default_message_keeps :
    (f : ResponseResults)
    → ((default_message f).redacted_content ≡ f.redacted_content)
      × ((default_message f).allowed ≡ f.allowed)
unfolding default_message
default_message_keeps f = (ground arith, ground arith)

-- However many handlers redact, and whichever of them fail, the tool's result that the chain leaves
-- is the downstream's with the reported redaction written over its first text, and untouched if no
-- redaction is reported.
pub handle_response_redacts :
    (hs : List ResponseHandler) (t : ToolResult) (b : Option BlockingBudget)
    → (handle_response hs t b).1 ≡ apply_redaction_to (handle_response hs t b).0.redacted_content t
unfolding handle_response
handle_response_redacts hs t b =
    let (f, t', _) = run_response_handlers hs (allowed_response, t) b in
    run_Consistent t hs (allowed_response, t) b start
    ∙ ap (λ o. apply_redaction_to o t) (sym (default_message_keeps f).0)
  where
    start : t ≡ apply_redaction_to none t
    start = unfold apply_redaction_to in refl

-- The answers, each handler seeing the result as the ones before it left it.
pub response_answers :
    List ResponseHandler
    → ResponseResults × ToolResult
    → Option BlockingBudget
    → List ResponseAnswer
response_answers [] s b = []
response_answers (h ∷ hs) (f, t) b =
    let (a, b') = h t b in a ∷ response_answers hs (absorb_answer a (f, t)) b'

abbrev pub response_denies : ResponseAnswer → Bool
response_denies (answers r) = not r.allowed
response_denies (errs e) = false

absorb_allowed :
    (a : ResponseAnswer) (f : ResponseResults) (t : ToolResult)
    → (absorb_answer a (f, t)).0.allowed ≡ (f.allowed && not (response_denies a))
unfolding absorb_response
absorb_allowed (errs e) f t = ground arith
absorb_allowed (answers r) f t = ground arith

run_allowed :
    (hs : List ResponseHandler) (f : ResponseResults) (t : ToolResult) (b : Option BlockingBudget)
    → (run_response_handlers hs (f, t) b).0.allowed
      ≡ (f.allowed && not (some_of response_denies (response_answers hs (f, t) b)))
unfolding run_response_handlers response_answers
run_allowed [] f t b = ground arith
run_allowed (h ∷ hs) f t b =
    let (a, b') = h t b in
    let (f', t') = absorb_answer a (f, t) in
    ground (arith, run_allowed hs f' t' b', absorb_allowed a f t)

-- A response is denied exactly when some handler denies it: a handler that fails denies nothing, and
-- none that allows takes a denial back.
pub handle_response-denies :
    (hs : List ResponseHandler) (t : ToolResult) (b : Option BlockingBudget)
    → (handle_response hs t b).0.allowed
      ≡ not (some_of response_denies (response_answers hs (allowed_response, t) b))
unfolding handle_response
handle_response-denies hs t b = (default_message_keeps _).1 ∙ run_allowed hs allowed_response t b
