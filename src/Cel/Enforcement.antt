-- ===== src/Cel/Enforcement.antt =====
-- Which requests a phase of internal/gateway/cel_engine.go blocks, for tool calls and for commands.
use mathlib.Core.Bool.{false≢true}
use maybe_dont.Prelude.{
  String, ◌≡◌, ◌↔◌, ◌⊎◌, inl, inr, refl, sym, ap, subst, ◌∙◌, Bool, true, false, not, ◌==◌, List,
  [], ◌∷◌, ◌++◌, All, select, Option, arith, Bool-cases,
}
use maybe_dont.Prelude.Json.{Members}
use maybe_dont.Policy.{deny, is_deny, is_audit_only}
use maybe_dont.Budget.{BlockingBudget}
use maybe_dont.Results.{ValidationResults}
use maybe_dont.Cel.{
  CelEnv, CelPolicy, Timing, Outcome, failed, matched, evaluate_rule, evaluate_phase,
  mcp_expression_of, cli_expression_of,
}
use maybe_dont.Cel.Context.{
  ToolCall, CliRequest, tool_call_vars, build_cli_context, evaluate_tool_call, evaluate_cli_command,
}
use maybe_dont.Cel.Decision.{Decides, evaluate_phase-Decides}
use maybe_dont.Cel.Decision.Spec.{
  Verdict, denies, fails_open, passes, blocks, fails, blocks_on, fails_on, verdict, is_denial,
}

blocks_on-true :
    (p : CelPolicy) (o : Outcome)
    → blocks_on p o ≡ true
    → (is_audit_only p.mode ≡ false) × (p.action ≡ deny) × (o ≡ matched true)
blocks_on-true p (failed text) h = absurd (cc)
blocks_on-true p (matched false) h = absurd (cc)
blocks_on-true p (matched true) h = (ground arith, ground arith, refl)

blocks_on_rule :
    (p : CelPolicy) (o : Outcome)
    → is_audit_only p.mode ≡ false
    → p.action ≡ deny
    → o ≡ matched true
    → blocks_on p o ≡ true
blocks_on_rule p o m a e = rw (e, blocks_on, a, m) refl

-- What a rule with an expression says when it neither blocks nor fails.
abbrev Harmless : CelPolicy → Outcome → Type 0
Harmless p o =
    (is_audit_only p.mode ≡ true)
    ⊎ (o ≡ matched false)
    ⊎ ((o ≡ matched true) × (is_deny p.action ≡ false))

Harmless-of_quiet :
    (p : CelPolicy) (o : Outcome) → blocks_on p o ≡ false → fails_on p o ≡ false → Harmless p o
Harmless-of_quiet p (failed text) b f = inl (ground arith)
Harmless-of_quiet p (matched false) b f = inr (inl refl)
Harmless-of_quiet p (matched true) b f = elim (Bool-cases (is_audit_only p.mode)) [
  | inl e ↦ inl e
  | inr e ↦ inr (inr (refl, ground arith))
]

quiet_of_Harmless :
    (p : CelPolicy) (o : Outcome) → Harmless p o → (blocks_on p o ≡ false) × (fails_on p o ≡ false)
quiet_of_Harmless p (failed text) (inl e) = (refl, rw e refl)
quiet_of_Harmless p (failed text) (inr (inl e)) = absurd (cc)
quiet_of_Harmless p (failed text) (inr (inr e)) = absurd (cc e.0)
quiet_of_Harmless p (matched false) h = (refl, refl)
quiet_of_Harmless p (matched true) (inl e) = (ground arith, refl)
quiet_of_Harmless p (matched true) (inr (inl e)) = absurd (cc)
quiet_of_Harmless p (matched true) (inr (inr e)) = (rw e.1 refl, refl)

module _ (env : CelEnv) (expression_of : CelPolicy → String) (vars : Members) where
  abbrev outcome_of : CelPolicy → Outcome
  outcome_of p = evaluate_rule env (expression_of p) vars

  -- An enforced deny rule with an expression for this kind of request, which matches it.
  abbrev pub Blocks : CelPolicy → Type 0
  Blocks p =
      ((expression_of p == "") ≡ false)
      × (is_audit_only p.mode ≡ false)
      × (p.action ≡ deny)
      × (outcome_of p ≡ matched true)

  -- A rule that lets the loop go on: it has no expression of this kind, it only observes, or it was
  -- evaluated and is no deny rule that matches.
  abbrev pub LetsThrough : CelPolicy → Type 0
  LetsThrough p =
      ((expression_of p == "") ≡ true)
      ⊎ (is_audit_only p.mode ≡ true)
      ⊎ (outcome_of p ≡ matched false)
      ⊎ ((outcome_of p ≡ matched true) × (is_deny p.action ≡ false))

  abbrev pub Blocked : List CelPolicy → Type 0
  Blocked ps =
      (before : List CelPolicy) × (p : CelPolicy) × (after : List CelPolicy) × (ps
        ≡ before ++ p ∷ after)
      × All LetsThrough before
      × Blocks p

  blocks-Blocks : (p : CelPolicy) → blocks env expression_of vars p ≡ true → Blocks p
  blocks-Blocks p h = elim (Bool-cases (expression_of p == "")) [
    | inl e ↦ absurd (false≢true (rw e at h))
    | inr e ↦ let (m, a, o) = blocks_on-true p (outcome_of p) (rw e at h) in (e, m, a, o)
  ]

  Blocks-blocks : (p : CelPolicy) → Blocks p → blocks env expression_of vars p ≡ true
  Blocks-blocks p (e, m, a, o) = rw e (blocks_on_rule p (outcome_of p) m a o)

  lets_through :
      (p : CelPolicy)
      → blocks env expression_of vars p ≡ false
      → fails env expression_of vars p ≡ false
      → LetsThrough p
  lets_through p b f = elim (Bool-cases (expression_of p == "")) [
    | inl e ↦ inl e
    | inr e ↦ inr (Harmless-of_quiet p (outcome_of p) (rw e at b) (rw e at f))
  ]

  LetsThrough-quiet :
      (p : CelPolicy)
      → LetsThrough p
      → (blocks env expression_of vars p ≡ false) × (fails env expression_of vars p ≡ false)
  LetsThrough-quiet p (inl e) = rw e (refl, refl)
  LetsThrough-quiet p (inr h) = elim (Bool-cases (expression_of p == "")) [
    | inl e ↦ rw e (refl, refl)
    | inr e ↦ rw e (quiet_of_Harmless p (outcome_of p) h)
  ]

  verdict_of_Blocked :
      (ps : List CelPolicy) → Blocked ps → is_denial (verdict env expression_of vars ps) ≡ true
  unfolding verdict
  verdict_of_Blocked ps ([], p, after, e, _, b) = rw (e, verdict, Blocks-blocks p b) refl
  verdict_of_Blocked ps (q ∷ before, p, after, e, (l, ls), b) =
      let (qb, qf) = LetsThrough-quiet q l in
      rw (e, verdict, qb, qf)
        (verdict_of_Blocked (before ++ p ∷ after) (before, p, after, refl, ls, b))

  Blocked-of_verdict :
      (ps : List CelPolicy) → is_denial (verdict env expression_of vars ps) ≡ true → Blocked ps
  unfolding verdict
  Blocked-of_verdict [] h = absurd (false≢true h)
  Blocked-of_verdict (p ∷ ps) h = elim (Bool-cases (blocks env expression_of vars p)) [
    | inl b ↦ ([], p, ps, refl, tt, blocks-Blocks p b)
    | inr b ↦ elim (Bool-cases (fails env expression_of vars p)) [
      | inl f ↦ absurd (false≢true (rw (b, f) at h))
      | inr f ↦
          let (before, q, after, e, ls, bq) = Blocked-of_verdict ps (rw (b, f) at h) in
          (p ∷ before, q, after, ap (◌∷◌ p) e, (lets_through p b f, ls), bq)
    ]
  ]

denial_of_allowed :
    (v : Verdict) (r : ValidationResults) → Decides v r → (r.allowed ≡ not (is_denial v))
denial_of_allowed (denies p) r d = d.0
denial_of_allowed fails_open r d = d.0
denial_of_allowed passes r d = d.0

not-false : (b : Bool) → (not b ≡ false) ↔ (b ≡ true)
not-false true = (λ h. refl, λ h. refl)
not-false false = (λ h. absurd (false≢true (sym h)), λ h. absurd (false≢true h))

phase_blocks :
    (env : CelEnv) (expression_of : CelPolicy → String) (vars : Members) (t : Timing)
    (ps : List CelPolicy) (budget : Option BlockingBudget)
    → ((evaluate_phase env expression_of vars t ps budget).0.allowed ≡ false)
      ↔ Blocked env expression_of vars ps
phase_blocks env expression_of vars t ps budget =
    let v = verdict env expression_of vars ps in
    let e = denial_of_allowed v _ (evaluate_phase-Decides env expression_of vars t ps budget) in
    (
      λ h. Blocked-of_verdict env expression_of vars ps ((not-false (is_denial v)).0 (sym e ∙ h)),
      λ b. e ∙ (not-false (is_denial v)).1 (verdict_of_Blocked env expression_of vars ps b),
    )

-- A tool call is refused exactly when some enforced deny rule with an MCP expression matches it, and
-- every rule before that one lets the loop go on; whatever the clock and the budget say.
pub evaluate_tool_call-blocks :
    (env : CelEnv) (t : Timing) (ps : List CelPolicy) (r : ToolCall)
    (budget : Option BlockingBudget)
    → ((evaluate_tool_call env t ps r budget).0.allowed ≡ false)
      ↔ Blocked env mcp_expression_of (tool_call_vars r) ps
unfolding evaluate_tool_call
evaluate_tool_call-blocks env t ps r budget =
    phase_blocks env mcp_expression_of (tool_call_vars r) t ps budget

-- The same of a command, by the CLI expressions and the context built for it.
pub evaluate_cli_command-blocks :
    (env : CelEnv) (t : Timing) (ps : List CelPolicy) (r : CliRequest)
    (budget : Option BlockingBudget)
    → ((evaluate_cli_command env t ps r budget).0.allowed ≡ false)
      ↔ Blocked env cli_expression_of (build_cli_context r) ps
unfolding evaluate_cli_command
evaluate_cli_command-blocks env t ps r budget =
    phase_blocks env cli_expression_of (build_cli_context r) t ps budget

abbrev pub enforced : List CelPolicy → List CelPolicy
enforced = select (λ p. not (is_audit_only p.mode))

observer_quiet :
    (p : CelPolicy) (o : Outcome)
    → is_audit_only p.mode ≡ true
    → (blocks_on p o ≡ false) × (fails_on p o ≡ false)
observer_quiet p o h = quiet_of_Harmless p o (inl h)

verdict-enforced :
    (env : CelEnv) (expression_of : CelPolicy → String) (vars : Members) (ps : List CelPolicy)
    → verdict env expression_of vars ps ≡ verdict env expression_of vars (enforced ps)
unfolding verdict
verdict-enforced env expression_of vars [] = refl
verdict-enforced env expression_of vars (p ∷ ps) = elim (Bool-cases (is_audit_only p.mode)) [
  | inl e ↦
      let (b, f) = LetsThrough-quiet env expression_of vars p (inr (inl e)) in
      rw (b, f, e) (verdict-enforced env expression_of vars ps)
  | inr e ↦ rw (e, verdict, verdict-enforced env expression_of vars ps) refl
]

-- The part of a phase's result that the gateway acts on.
abbrev pub SameDecision : ValidationResults → ValidationResults → Type 0
SameDecision a b =
    (a.allowed ≡ b.allowed) × (a.failed_open ≡ b.failed_open) × (a.deny_count ≡ b.deny_count)

same_of_verdict :
    (v : Verdict) (a b : ValidationResults) → Decides v a → Decides v b → SameDecision a b
same_of_verdict (denies p) a b x y = (x.0 ∙ sym y.0, x.1 ∙ sym y.1, x.2 ∙ sym y.2)
same_of_verdict fails_open a b x y = (x.0 ∙ sym y.0, x.1 ∙ sym y.1, x.2 ∙ sym y.2)
same_of_verdict passes a b x y = (x.0 ∙ sym y.0, x.1 ∙ sym y.1, x.2 ∙ sym y.2)

phase_observers :
    (env : CelEnv) (expression_of : CelPolicy → String) (vars : Members) (t u : Timing)
    (ps : List CelPolicy) (b c : Option BlockingBudget)
    → SameDecision
        (evaluate_phase env expression_of vars t ps b).0
        (evaluate_phase env expression_of vars u (enforced ps) c).0
phase_observers env expression_of vars t u ps b c =
    same_of_verdict (verdict env expression_of vars ps) _ _
      (evaluate_phase-Decides env expression_of vars t ps b)
      (subst (λ v. Decides v (evaluate_phase env expression_of vars u (enforced ps) c).0)
        (sym (verdict-enforced env expression_of vars ps))
        (evaluate_phase-Decides env expression_of vars u (enforced ps) c))

-- Rules that only observe never change a decision: the engine without them answers a tool call, and
-- a command, with the same permission, the same fail-open flag and the same number of denials.
pub observers_never_decide :
    (env : CelEnv) (t u : Timing) (ps : List CelPolicy) (r : ToolCall) (q : CliRequest)
    (b c : Option BlockingBudget)
    → SameDecision
        (evaluate_tool_call env t ps r b).0
        (evaluate_tool_call env u (enforced ps) r c).0
      × SameDecision
          (evaluate_cli_command env t ps q b).0
          (evaluate_cli_command env u (enforced ps) q c).0
unfolding evaluate_tool_call evaluate_cli_command
observers_never_decide env t u ps r q b c = (
  phase_observers env mcp_expression_of (tool_call_vars r) t u ps b c,
  phase_observers env cli_expression_of (build_cli_context q) t u ps b c,
)
