-- ===== src/Cel/Load/AuditOnly.antt =====
-- A phase that is configured `audit_only` (internal/config/config.go, internal/gateway/cel_engine.go).
use mathlib.Core.Bool.{false≢true}
use maybe_dont.Prelude.{
  ◌≡◌, refl, sym, subst, ◌∙◌, Bool, true, false, List, [], ◌∷◌, ◌++◌, map, All, Option,
}
use maybe_dont.Policy.{Policy, audit_only, is_audit_only, is_valid, resolve_policy_mode}
use maybe_dont.Budget.{BlockingBudget}
use maybe_dont.Cel.{CelEnv, CelPolicy, Timing}
use maybe_dont.Cel.Context.{ToolCall, CliRequest, evaluate_tool_call, evaluate_cli_command}
use maybe_dont.Cel.Load.{loaded, load_policies}
use maybe_dont.Cel.Load.Accepted.{load_policies-Loads}
use maybe_dont.Cel.Enforcement.{evaluate_tool_call-blocks, evaluate_cli_command-blocks}

abbrev Observes : CelPolicy → Type 0
Observes p = is_audit_only p.mode ≡ true

observers : (ps : List Policy) → All Observes (map (loaded audit_only) ps)
unfolding loaded resolve_policy_mode
observers [] = tt
observers (p ∷ ps) = (refl, observers ps)

-- The element that follows a prefix.
All-middle :
    (before after : List CelPolicy) (p : CelPolicy)
    → All Observes (before ++ p ∷ after)
    → Observes p
All-middle [] after p h = h.0
All-middle (q ∷ before) after p h = All-middle before after p h.1

not_blocked : (b : Bool) → (b ≡ false → ⊥) → b ≡ true
not_blocked true h = refl
not_blocked false h = absurd (h refl)

-- An engine that was loaded for an `audit_only` phase blocks nothing, whatever modes, actions and
-- expressions its rules have: every tool call and every command is allowed.
pub audit_only_phase_allows :
    (env : CelEnv) (load_disabled : Bool) (config : List Policy) (t : Timing) (r : ToolCall)
    (q : CliRequest) (budget : Option BlockingBudget)
    → let engine = (load_policies env audit_only load_disabled [] config).1 in
      ((evaluate_tool_call env t engine r budget).0.allowed ≡ true)
      × ((evaluate_cli_command env t engine q budget).0.allowed ≡ true)
unfolding is_valid
audit_only_phase_allows env load_disabled config t r q budget =
    let loads = load_policies-Loads env audit_only load_disabled [] config valid in
    let (before, _, _, e, _, _, _) = loads in
    let all : All Observes (load_policies env audit_only load_disabled [] config).1 =
      subst (All Observes) (sym e) (observers _) in
    (
      not_blocked _ (λ h.
          let (before, p, after, w, _, (_, m, _, _)) =
            (evaluate_tool_call-blocks env t _ r budget).0 h in
          false≢true (sym m ∙ All-middle before after p (subst (All Observes) w all))),
      not_blocked _ (λ h.
          let (before, p, after, w, _, (_, m, _, _)) =
            (evaluate_cli_command-blocks env t _ q budget).0 h in
          false≢true (sym m ∙ All-middle before after p (subst (All Observes) w all))),
    )
  where
    valid : is_valid audit_only ≡ true
    valid = refl
