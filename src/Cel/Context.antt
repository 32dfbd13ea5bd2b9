-- ===== src/Cel/Context.antt =====
-- The variables that rules see: internal/gateway/cel_engine.go, and the two entry points.
use maybe_dont.Prelude.{String, List, Option, none, some}
use maybe_dont.Prelude.Json.{Value, Members, str, object, array, no_members, field, strings}
use maybe_dont.Budget.{BlockingBudget}
use maybe_dont.Results.{ValidationResults}
use maybe_dont.Cel.{CelEnv, CelPolicy, Timing, evaluate_phase, mcp_expression_of, cli_expression_of}

-- `mcp.CallToolRequest`: `meta` is nil or a value.
pub record ToolCall : Type 0 where
  pub method : String
  pub name : String
  pub arguments : Value
  pub meta : Option Value

-- `CLIClientInfo`, without the OS version, which rules do not see.
pub record ClientInfo : Type 0 where
  pub hostname : String
  pub username : String
  pub os : String
  pub arch : String
  pub shell : String
  pub cli_version : String

pub record CliRequest : Type 0 where
  pub command : String
  pub arguments : List String
  pub working_directory : String
  pub client_info : Option ClientInfo

abbrev tool_meta : Option Value → Value
tool_meta none = object no_members
tool_meta (some m) = m

unfoldable pub tool_call_vars : ToolCall → Members
tool_call_vars r =
    field "request"
      (object (
        field "method" (str r.method) (
          field "params"
            (object (
              field "name" (str r.name)
                (field "arguments" r.arguments (field "meta" (tool_meta r.meta) no_members))))
            no_members)))
      no_members

abbrev info_fields : ClientInfo → Members
info_fields i = field "hostname" (str i.hostname) (
    field "username" (str i.username) (
      field "os" (str i.os) (
        field "arch" (str i.arch)
          (field "shell" (str i.shell) (field "cli_version" (str i.cli_version) no_members)))))

abbrev client_info_or_empty : Option ClientInfo → ClientInfo
client_info_or_empty none = record {
  hostname = "";
  username = "";
  os = "";
  arch = "";
  shell = "";
  cli_version = "";
}
client_info_or_empty (some i) = i

unfoldable pub build_cli_context : CliRequest → Members
build_cli_context r =
    field "cli"
      (object (
        field "command" (str r.command) (
          field "arguments" (array (strings r.arguments)) (
            field "working_directory" (str r.working_directory) (
              field "client_info" (object (info_fields (client_info_or_empty r.client_info)))
                no_members)))))
      no_members

unfoldable pub evaluate_tool_call :
    CelEnv
    → Timing
    → List CelPolicy
    → ToolCall
    → Option BlockingBudget
    → ValidationResults × Option BlockingBudget
unfolding tool_call_vars
evaluate_tool_call env t policies r budget =
    evaluate_phase env mcp_expression_of (tool_call_vars r) t policies budget

unfoldable pub evaluate_cli_command :
    CelEnv
    → Timing
    → List CelPolicy
    → CliRequest
    → Option BlockingBudget
    → ValidationResults × Option BlockingBudget
unfolding build_cli_context
evaluate_cli_command env t policies r budget =
    evaluate_phase env cli_expression_of (build_cli_context r) t policies budget
