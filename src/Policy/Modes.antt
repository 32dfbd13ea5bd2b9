-- ===== src/Policy/Modes.antt =====
-- Modes: what normalisation and resolution of internal/config/config.go give.
use maybe_dont.Prelude.{◌≡◌, ◌≢◌, ◌↔◌, ◌⊎◌, ◌∷◌, refl, List, [], map, arith}
use maybe_dont.Policy.{
  PolicyMode, audit_only, enforce, no_mode, other_mode, normalize, resolve_policy_mode, Policy,
  AiPolicy, ResponsePolicy, Phase, Config, normalize_policy_modes,
}

-- A rule only observes exactly when its phase or the rule itself says so, whatever else is written
-- as a mode.
pub resolve_policy_mode-audit_only :
    (top rule : PolicyMode)
    → (resolve_policy_mode top rule ≡ audit_only) ↔ ((top ≡ audit_only) ⊎ (rule ≡ audit_only))
unfolding resolve_policy_mode
resolve_policy_mode-audit_only top rule = (λ h. ground arith, λ h. ground arith)

-- `after` is `before`, or the default where nothing was written.
abbrev pub Resolved : PolicyMode → PolicyMode → PolicyMode → Type 0
Resolved default_mode before after =
    (after ≢ no_mode)
    × (before ≢ no_mode → after ≡ before)
    × (before ≡ no_mode → after ≡ default_mode)

normalize-Resolved : (d m : PolicyMode) → d ≢ no_mode → Resolved d m (normalize m d)
unfolding normalize
normalize-Resolved d audit_only h = (λ e. cc, λ _. refl, λ e. cc)
normalize-Resolved d enforce h = (λ e. cc, λ _. refl, λ e. cc)
normalize-Resolved d no_mode h = (h, λ k. absurd (k refl), λ _. refl)
normalize-Resolved d (other_mode s) h = (λ e. cc, λ _. refl, λ e. cc)

-- The rules of a phase keep their number and order, and each has its mode resolved.
abbrev pub RulesResolved : {R : Type 0} → (R → PolicyMode) → List R → List R → Type 0
RulesResolved mode [] [] = Unit
RulesResolved mode (r ∷ rs) (s ∷ ss) = Resolved enforce (mode r) (mode s) × RulesResolved mode rs ss
RulesResolved mode _ _ = ⊥

abbrev pub PhaseResolved : {R : Type 0} → (R → PolicyMode) → Phase R → Phase R → Type 0
PhaseResolved mode p q = Resolved audit_only p.mode q.mode × RulesResolved mode p.rules q.rules

enforce-set : enforce ≢ no_mode
enforce-set e = cc

policies :
    (rs : List Policy)
    → RulesResolved
        (λ (r : Policy). r.mode)
        rs
        (map (λ (r : Policy). record r { mode = normalize r.mode enforce }) rs)
policies [] = tt
policies (r ∷ rs) = (normalize-Resolved enforce r.mode enforce-set, policies rs)

ai_policies :
    (rs : List AiPolicy)
    → RulesResolved
        (λ (r : AiPolicy). r.mode)
        rs
        (map (λ (r : AiPolicy). record r { mode = normalize r.mode enforce }) rs)
ai_policies [] = tt
ai_policies (r ∷ rs) = (normalize-Resolved enforce r.mode enforce-set, ai_policies rs)

response_policies :
    (rs : List ResponsePolicy)
    → RulesResolved
        (λ (r : ResponsePolicy). r.mode)
        rs
        (map (λ (r : ResponsePolicy). record r { mode = normalize r.mode enforce }) rs)
response_policies [] = tt
response_policies (r ∷ rs) = (normalize-Resolved enforce r.mode enforce-set, response_policies rs)

phase_mode : (m : PolicyMode) → Resolved audit_only m (normalize m audit_only)
phase_mode m = normalize-Resolved audit_only m (λ e. cc)

-- After loading, no phase and no rule is left without a mode: an unset phase observes, an unset rule
-- enforces, and a mode that was written is kept.
pub normalize_policy_modes-Resolved :
    (c : Config)
    → let d = normalize_policy_modes c in
      PhaseResolved (λ (r : Policy). r.mode) c.request_cel d.request_cel
      × PhaseResolved (λ (r : AiPolicy). r.mode) c.request_ai d.request_ai
      × PhaseResolved (λ (r : ResponsePolicy). r.mode) c.response_cel d.response_cel
      × PhaseResolved (λ (r : AiPolicy). r.mode) c.response_ai d.response_ai
unfolding normalize_policy_modes
normalize_policy_modes-Resolved c = (
  (phase_mode c.request_cel.mode, policies c.request_cel.rules),
  (phase_mode c.request_ai.mode, ai_policies c.request_ai.rules),
  (phase_mode c.response_cel.mode, response_policies c.response_cel.rules),
  (phase_mode c.response_ai.mode, ai_policies c.response_ai.rules),
)
