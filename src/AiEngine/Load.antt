-- ===== src/AiEngine/Load.antt =====
-- `LoadPolicies` of internal/gateway/ai_engine.go.
use text.Mathlib.Text.{find?}
use maybe_dont.Prelude.{
  String, true, false, not, ◌&&◌, List, [], ◌∷◌, ◌++◌, Option, none, some, contains, is_some,
  if◌then◌else◌,
}
use maybe_dont.Policy.{
  AiPolicy, PolicyAction, PolicyMode, is_allow, is_deny, is_enabled, is_valid, resolve_policy_mode,
}
use maybe_dont.AiEngine.{AiRule}

pub data AiLoadError : Type 0 where
  invalid_mode : PolicyMode → AiLoadError
  duplicate_name placeholder : String → AiLoadError
  invalid_action : PolicyAction → String → AiLoadError

-- The checks of a rule that is not skipped: no "%s" in its prompt, and an action of a request.
unfoldable pub check_ai_policy : AiPolicy → Option AiLoadError
check_ai_policy p =
    if is_some (find? p.prompt "%s")
    then some (placeholder p.name)
    else if not (is_allow p.action) && not (is_deny p.action)
    then some (invalid_action p.action p.name)
    else none

unfoldable pub loaded_ai : PolicyMode → AiPolicy → AiRule
unfolding resolve_policy_mode
loaded_ai top p = record {
  name = p.name;
  description = p.description;
  prompt = p.prompt;
  action = p.action;
  message = p.message;
  mode = resolve_policy_mode top p.mode;
}

module _ (top : PolicyMode) where
  -- The loop: the names seen, the rules of the engine, the rules to load.
  unfoldable pub load_ai_loop :
      List String → List AiRule → List AiPolicy → Option AiLoadError × List AiRule
  unfolding check_ai_policy loaded_ai
  load_ai_loop seen engine [] = (none, engine)
  load_ai_loop seen engine (p ∷ ps) = elim (contains p.name seen) [
    | true ↦ (some (duplicate_name p.name), engine)
    | false ↦ elim (is_enabled p.enabled) [
      | false ↦ load_ai_loop (p.name ∷ seen) engine ps
      | true ↦ elim (check_ai_policy p) [
        | some e ↦ (some e, engine)
        | none ↦ load_ai_loop (p.name ∷ seen) (engine ++ loaded_ai top p ∷ []) ps
      ]
    ]
  ]

  unfoldable pub load_ai_policies : List AiRule → List AiPolicy → Option AiLoadError × List AiRule
  unfolding load_ai_loop
  load_ai_policies engine policies =
      if not (is_valid top)
      then (some (invalid_mode top), engine)
      else load_ai_loop [] engine policies
