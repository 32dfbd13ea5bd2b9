-- ===== src/Cel/Load.antt =====
-- `LoadPolicies` of internal/gateway/cel_engine.go. The engine is the list of its rules, to which a
-- call appends; on an error the rules before the faulty one stay appended.
pub mod Accepted
pub mod AuditOnly
use maybe_dont.Prelude.{
  String, Bool, true, false, ◌==◌, ◌&&◌, ◌||◌, not, List, [], ◌∷◌, ◌++◌, Option, none, some,
  contains, is_some, if◌then◌else◌,
}
use maybe_dont.Policy.{
  PolicyAction, PolicyMode, Policy, is_allow, is_deny, is_valid, is_enabled, resolve_policy_mode,
}
use maybe_dont.Cel.{CelEnv, CelPolicy}

-- The errors that are returned; each names the rule.
pub data LoadError : Type 0 where
  invalid_mode : PolicyMode → LoadError
  duplicate_name no_expression : String → LoadError
  mcp_compile cli_compile : String → LoadError
  invalid_action : PolicyAction → String → LoadError

-- The MCP expression, or the older field where it is empty.
unfoldable pub resolved_expression : Policy → String
resolved_expression p = if p.mcp_expression == "" then p.expression else p.mcp_expression

-- `if expr != "" { Compile }` reports an issue.
abbrev pub compile_issue : CelEnv → String → Bool
compile_issue env expression = not (expression == "") && is_some (env.compile_error expression)

unfoldable pub loaded : PolicyMode → Policy → CelPolicy
unfolding resolved_expression
loaded top p = record {
  name = p.name;
  description = p.description;
  mcp_expression = resolved_expression p;
  cli_expression = p.cli_expression;
  action = p.action;
  message = p.message;
  mode = resolve_policy_mode top p.mode;
}

-- The checks of one rule that is not skipped.
unfoldable pub check_policy : CelEnv → Policy → Option LoadError
unfolding resolved_expression
check_policy env p =
    let mcp = resolved_expression p in
    if mcp == "" && p.cli_expression == ""
    then some (no_expression p.name)
    else if compile_issue env mcp
    then some (mcp_compile p.name)
    else if compile_issue env p.cli_expression
    then some (cli_compile p.name)
    else if not (is_allow p.action) && not (is_deny p.action)
    then some (invalid_action p.action p.name)
    else none

module _ (env : CelEnv) (top : PolicyMode) (load_disabled : Bool) where
  -- The loop: the names seen, the rules of the engine, the rules to load.
  unfoldable pub load_loop :
      List String → List CelPolicy → List Policy → Option LoadError × List CelPolicy
  load_loop seen engine [] = (none, engine)
  load_loop seen engine (p ∷ ps) = elim (contains p.name seen) [
    | true ↦ (some (duplicate_name p.name), engine)
    | false ↦ elim (not (is_enabled p.enabled) && not load_disabled) [
      | true ↦ load_loop (p.name ∷ seen) engine ps
      | false ↦ elim (check_policy env p) [
        | some e ↦ (some e, engine)
        | none ↦ load_loop (p.name ∷ seen) (engine ++ loaded top p ∷ []) ps
      ]
    ]
  ]

  unfoldable pub load_policies : List CelPolicy → List Policy → Option LoadError × List CelPolicy
  unfolding load_loop
  load_policies engine policies =
      if not (is_valid top) then (some (invalid_mode top), engine) else load_loop [] engine policies
