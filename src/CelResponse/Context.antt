-- ===== src/CelResponse/Context.antt =====
-- What response rules see, and the entry point (internal/gateway/cel_response_engine.go).
use maybe_dont.Prelude.{List, [], ◌∷◌, Option, none, some}
use maybe_dont.Prelude.Json.{
  Value, Elements, Members, str, bool, object, array, no_elements, element, no_members, field,
}
use maybe_dont.Budget.{BlockingBudget}
use maybe_dont.Cel.{CelEnv, Timing}
use maybe_dont.Cel.Context.{ToolCall}
use maybe_dont.Response.{
  Content, text, image, resource, other_content, ToolResult, ResponseResults, get_text_content,
}
use maybe_dont.CelResponse.{CelResponsePolicy, Regex, evaluate_response_phase}

abbrev content_items : List Content → Elements
content_items [] = no_elements
content_items (text t ∷ cs) =
    element (object (field "type" (str "text") (field "text" (str t) no_members)))
      (content_items cs)
content_items (image d m ∷ cs) =
    element
      (object
        (field "type" (str "image") (field "data" (str d) (field "mimeType" (str m) no_members))))
      (content_items cs)
content_items (resource v ∷ cs) =
    element (object (field "type" (str "resource") (field "resource" v no_members)))
      (content_items cs)
content_items (other_content v ∷ cs) = content_items cs

abbrev meta_field : Option Value → Members
meta_field none = no_members
meta_field (some m) = field "meta" m no_members

abbrev content_field : List Content → Members → Members
content_field [] rest = rest
content_field (c ∷ cs) rest = field "content" (array (content_items (c ∷ cs))) rest

unfoldable pub extract_response_data : ToolResult → Members
extract_response_data t =
    field "isError" (bool t.is_error) (content_field t.content (meta_field t.meta))

unfoldable pub response_vars : ToolCall → ToolResult → Members
unfolding extract_response_data
response_vars r t =
    field "request"
      (object (
        field "method" (str r.method) (
          field "params"
            (object (field "name" (str r.name) (field "arguments" r.arguments no_members)))
            no_members)))
      (field "response" (object (extract_response_data t)) no_members)

unfoldable pub evaluate_response :
    CelEnv
    → Regex
    → Timing
    → List CelResponsePolicy
    → ToolCall
    → ToolResult
    → Option BlockingBudget
    → ResponseResults × Option BlockingBudget
unfolding response_vars
evaluate_response env rx t policies r result budget =
    evaluate_response_phase env rx (response_vars r result) (get_text_content result.content) t
      policies budget
