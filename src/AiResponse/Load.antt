-- ===== src/AiResponse/Load.antt =====
-- `LoadPolicies` of internal/gateway/ai_response_engine.go.
use text.Mathlib.Text.{find?}
use maybe_dont.Prelude.{
  String, true, false, not, ◌&&◌, List, [], ◌∷◌, ◌++◌, Option, none, some, contains, is_some,
  if◌then◌else◌,
}
use maybe_dont.Policy.{AiPolicy, PolicyMode, is_allow, is_deny, is_redact, is_enabled, is_valid}
use maybe_dont.AiEngine.{AiRule}
use maybe_dont.AiEngine.Load.{
  AiLoadError, invalid_mode, duplicate_name, placeholder, invalid_action, loaded_ai,
}

-- The checks of a rule that is not skipped: no "%s" in its prompt, and an action of a response.
unfoldable pub check_ai_response : AiPolicy → Option AiLoadError
check_ai_response p =
    if is_some (find? p.prompt "%s")
    then some (placeholder p.name)
    else if not (is_allow p.action) && not (is_deny p.action) && not (is_redact p.action)
    then some (invalid_action p.action p.name)
    else none

module _ (top : PolicyMode) where
  -- The loop: the names seen, the rules of the engine, the rules to load.
  unfoldable pub load_ai_response_loop :
      List String → List AiRule → List AiPolicy → Option AiLoadError × List AiRule
  unfolding check_ai_response loaded_ai
  load_ai_response_loop seen engine [] = (none, engine)
  load_ai_response_loop seen engine (p ∷ ps) = elim (contains p.name seen) [
    | true ↦ (some (duplicate_name p.name), engine)
    | false ↦ elim (is_enabled p.enabled) [
      | false ↦ load_ai_response_loop (p.name ∷ seen) engine ps
      | true ↦ elim (check_ai_response p) [
        | some e ↦ (some e, engine)
        | none ↦ load_ai_response_loop (p.name ∷ seen) (engine ++ loaded_ai top p ∷ []) ps
      ]
    ]
  ]

  unfoldable pub load_ai_response_policies :
      List AiRule → List AiPolicy → Option AiLoadError × List AiRule
  unfolding load_ai_response_loop
  load_ai_response_policies engine policies =
      if not (is_valid top)
      then (some (invalid_mode top), engine)
      else load_ai_response_loop [] engine policies
