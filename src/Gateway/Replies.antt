-- ===== src/Gateway/Replies.antt =====
-- What `HandleToolCall` of internal/gateway/gateway.go delivers of a downstream's result.
use maybe_dont.Prelude.{String, Bool, List, Option, none, some, some_of, if◌then◌else◌, ◌==◌, ◌||◌}
use maybe_dont.Prelude.Json.{Value, Members, no_members, field}
use maybe_dont.Budget.{BlockingBudget}
use maybe_dont.Cel.Context.{ToolCall}
use maybe_dont.Response.{Content, ToolResult, allowed_response}
use maybe_dont.Response.Chain.{handle_response, ResponseHandler, apply_redaction_to}
use maybe_dont.Response.Chain.Redaction.{response_denies, response_answers}
use maybe_dont.Gateway.{Reply, native, replied, refused, is_empty, meta_fields}

-- The result that a reply delivers.
abbrev pub delivered : Reply → Option ToolResult
delivered (native t) = some t
delivered (replied t) = some t
delivered (refused e) = none

-- A field of the meta data.
abbrev pub field_of : String → Members → Option Value
field_of k no_members = none
field_of k (field j v m) = let rest = field_of k m in if j == k then some v else rest

abbrev is_summary : String → Bool
is_summary k = k == "validation_summary" || k == "response_validation_summary"

-- What there is to see of a result: whether it is an error, its content, and one field of its meta
-- data, unless that is one of the two summaries that the gateway adds.
abbrev pub seen : String → ToolResult → Bool × List Content × Option Value
seen k t = (t.is_error, t.content, if is_summary k then none else field_of k (meta_fields t.meta))

abbrev pub seen_in : String → Option ToolResult → Option (Bool × List Content × Option Value)
seen_in k none = none
seen_in k (some t) = some (seen k t)

-- What a result should become: kept without a chain or where it has no content, withheld if a handler
-- denies it, and otherwise with the reported redaction over its first text.
abbrev pub deliverable :
    Option (ToolCall → List ResponseHandler)
    → ToolCall
    → Option BlockingBudget
    → ToolResult
    → Option ToolResult
deliverable none r b t = some t
deliverable (some chain) r b t =
    if is_empty t.content
    then some t
    else if some_of response_denies (response_answers (chain r) (allowed_response, t) b)
    then none
    else some (apply_redaction_to (handle_response (chain r) t b).0.redacted_content t)
