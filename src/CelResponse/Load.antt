-- ===== src/CelResponse/Load.antt =====
-- `LoadPolicies` of internal/gateway/cel_response_engine.go.
use maybe_dont.Prelude.{
  String, Bool, true, false, not, ◌&&◌, List, [], ◌∷◌, ◌++◌, Option, none, some, contains, is_some,
  if◌then◌else◌,
}
use maybe_dont.Policy.{
  PolicyAction, PolicyMode, ResponsePolicy, is_allow, is_deny, is_redact, is_valid, is_enabled,
  resolve_policy_mode,
}
use maybe_dont.Cel.{CelEnv}
use maybe_dont.CelResponse.{CelResponsePolicy}

pub data ResponseLoadError : Type 0 where
  invalid_mode : PolicyMode → ResponseLoadError
  duplicate_name compile_failed : String → ResponseLoadError
  invalid_action : PolicyAction → String → ResponseLoadError

unfoldable pub loaded_response : PolicyMode → ResponsePolicy → CelResponsePolicy
loaded_response top p = record {
  name = p.name;
  description = p.description;
  expression = p.expression;
  action = p.action;
  message = p.message;
  mode = resolve_policy_mode top p.mode;
  redaction_pattern = p.redaction_pattern;
  redaction_replacement = p.redaction_replacement;
}

unfoldable pub check_response_policy : CelEnv → ResponsePolicy → Option ResponseLoadError
check_response_policy env p =
    if is_some (env.compile_error p.expression)
    then some (compile_failed p.name)
    else if not (is_allow p.action) && (not (is_deny p.action) && not (is_redact p.action))
    then some (invalid_action p.action p.name)
    else none

module _ (env : CelEnv) (top : PolicyMode) (load_disabled : Bool) where
  unfoldable pub response_load_loop :
      List String
      → List CelResponsePolicy
      → List ResponsePolicy
      → Option ResponseLoadError × List CelResponsePolicy
  response_load_loop seen engine [] = (none, engine)
  response_load_loop seen engine (p ∷ ps) = elim (contains p.name seen) [
    | true ↦ (some (duplicate_name p.name), engine)
    | false ↦ elim (not (is_enabled p.enabled) && not load_disabled) [
      | true ↦ response_load_loop (p.name ∷ seen) engine ps
      | false ↦ elim (check_response_policy env p) [
        | some e ↦ (some e, engine)
        | none ↦ response_load_loop (p.name ∷ seen) (engine ++ loaded_response top p ∷ []) ps
      ]
    ]
  ]

  unfoldable pub load_response_policies :
      List CelResponsePolicy
      → List ResponsePolicy
      → Option ResponseLoadError × List CelResponsePolicy
  unfolding response_load_loop
  load_response_policies engine policies =
      if not (is_valid top)
      then (some (invalid_mode top), engine)
      else response_load_loop [] engine policies
