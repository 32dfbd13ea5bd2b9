-- ===== src/Cel/Decision.antt =====
-- What the request phase of internal/gateway/cel_engine.go decides.
pub mod Spec
use maybe_dont.Prelude.{
  ℕ, suc, String, ◌≡◌, ◌↔◌, ◌⊎◌, inl, inr, refl, Bool, true, false, ◌==◌, List, [], ◌∷◌, ◌++◌, All,
  Option, arith, if◌then◌else◌, Bool-cases, not, ap, ◌∙◌, ◌&&◌,
}
use maybe_dont.Prelude.Json.{Members}
use maybe_dont.Policy.{PolicyAction, allow, deny, is_deny, is_allow, is_audit_only}
use maybe_dont.Budget.{BlockingBudget}
use maybe_dont.Results.{ValidationResults}
use maybe_dont.Cel.{
  CelEnv, CelPolicy, Timing, Outcome, failed, matched, Loop, loop_start, Flow, next, stop,
  evaluate_rule, apply_outcome, policy_step, run_policies, final_result, finish, evaluate_phase,
  begin_phase,
}
use Spec.{
  blocks, fails, Verdict, denies, fails_open, passes, blocks_on, fails_on, verdict, is_denial,
  is_failure,
}

-- Nothing has decided yet.
abbrev Quiet : Loop → Type 0
Quiet s = (is_deny s.final_action ≡ false) × (s.failed_open ≡ false) × (s.deny_count ≡ 0)

abbrev Agrees : Verdict → Loop → Type 0
Agrees (denies p) s =
    (s.final_action ≡ deny)
    × (s.failed_open ≡ false)
    × (s.deny_count ≡ 1)
    × (s.deciding_rule ≡ p.name)
    × (s.deciding_reason ≡ p.message)
Agrees fails_open s = (is_deny s.final_action ≡ false) × (s.failed_open ≡ true) × (s.deny_count ≡ 0)
Agrees passes s = Quiet s

abbrev StepIs : CelPolicy → Bool → Bool → Flow Loop → Type 0
StepIs p blocks fails (next s) = Quiet s × (blocks ≡ false) × (fails ≡ false)
StepIs p blocks fails (stop s) =
    (Agrees (denies p) s × (blocks ≡ true))
    ⊎ (Agrees fails_open s × (blocks ≡ false) × (fails ≡ true))

matched_step :
    (p : CelPolicy) (ms at : ℕ) (s : Loop)
    → Quiet s
    → StepIs p (blocks_on p (matched true)) false (apply_outcome p ms at (matched true) s)
unfolding apply_outcome
matched_step p ms at s q = elim (Bool-cases (is_deny p.action)) [
  | inl d ↦ elim (Bool-cases (is_audit_only p.mode)) [
    | inl e ↦ rw (d, e) (q, refl, refl)
    | inr e ↦ rw (d, e) (inl ((refl, q.1, ap suc q.2, refl, refl), refl))
  ]
  | inr d ↦ elim (Bool-cases (is_allow p.action && not (is_audit_only p.mode))) [
    | inl e ↦ rw (d, e) (q, refl, refl)
    | inr e ↦ rw (d, e) (q, refl, refl)
  ]
]

apply_outcome_step :
    (p : CelPolicy) (ms at : ℕ) (o : Outcome) (s : Loop)
    → Quiet s
    → StepIs p (blocks_on p o) (fails_on p o) (apply_outcome p ms at o s)
unfolding apply_outcome
apply_outcome_step p ms at (failed text) s q = elim (Bool-cases (is_audit_only p.mode)) [
  | inl e ↦ rw (e, apply_outcome, fails_on) (q, refl, refl)
  | inr e ↦ rw (e, apply_outcome, fails_on) (inr ((q.0, refl, q.2), refl, refl))
]
apply_outcome_step p ms at (matched false) s q = (q, refl, refl)
apply_outcome_step p ms at (matched true) s q = matched_step p ms at s q

module _ (env : CelEnv) (expression_of : CelPolicy → String) (vars : Members) (t : Timing) where
  abbrev Steps : CelPolicy → Flow Loop → Type 0
  Steps p f = StepIs p (blocks env expression_of vars p) (fails env expression_of vars p) f

  policy_step-StepIs :
      (i : ℕ) (p : CelPolicy) (s : Loop)
      → Quiet s
      → Steps p (policy_step env expression_of vars t i p s)
  unfolding policy_step
  policy_step-StepIs i p s q = elim (Bool-cases (expression_of p == "")) [
    | inl e ↦ rw e (q, refl, refl)
    | inr e ↦ rw e (
        apply_outcome_step p (t.rule_ms i) (t.decided_at i)
          (evaluate_rule env (expression_of p) vars) s q)
  ]

  run_policies-Agrees :
      (i : ℕ) (ps : List CelPolicy) (s : Loop)
      → Quiet s
      → Agrees (verdict env expression_of vars ps) (run_policies env expression_of vars t i ps s)
  unfolding run_policies verdict
  run_policies-Agrees i [] s q = q
  run_policies-Agrees i (p ∷ ps) s q =
      go (policy_step env expression_of vars t i p s) (policy_step-StepIs i p s q)
        (λ s' q'. run_policies-Agrees (suc i) ps s' q')
    where
      go :
          (f : Flow Loop)
          → Steps p f
          → ((s' : Loop)
              → Quiet s'
              → Agrees
                  (verdict env expression_of vars ps)
                  (run_policies env expression_of vars t (suc i) ps s'))
          → Agrees
              (if blocks env expression_of vars p
                then denies p
                else if fails env expression_of vars p
                then fails_open
                else verdict env expression_of vars ps)
              (elim f [
                | next s' ↦ run_policies env expression_of vars t (suc i) ps s'
                | stop s' ↦ s'
              ])
      go (next s') (q', b, f) ih = rw (b, f) (ih s' q')
      go (stop s') (inl (a, b)) ih = rw b a
      go (stop s') (inr (a, b, f)) ih = rw (b, f) a

-- The decision of a phase, in terms of the verdict on its rules.
abbrev pub Decides : Verdict → ValidationResults → Type 0
Decides (denies p) r =
    (r.allowed ≡ false)
    × (r.failed_open ≡ false)
    × (r.deny_count ≡ 1)
    × (r.message ≡ p.message)
    × (r.recommended_action ≡ deny)
    × (r.audit_mode_bypass ≡ false)
Decides fails_open r = (r.allowed ≡ true) × (r.failed_open ≡ true) × (r.deny_count ≡ 0)
Decides passes r = (r.allowed ≡ true) × (r.failed_open ≡ false) × (r.deny_count ≡ 0)

allowed_result : (s : Loop) → is_deny s.final_action ≡ false → (final_result s).allowed ≡ true
unfolding final_result
allowed_result s h = ground arith

kept_counts :
    (s : Loop)
    → ((final_result s).failed_open ≡ s.failed_open) × ((final_result s).deny_count ≡ s.deny_count)
unfolding final_result
kept_counts s = (ground arith, ground arith)

denied_result :
    (s : Loop)
    → s.final_action ≡ deny
    → ((final_result s).allowed ≡ false)
      × ((final_result s).message ≡ s.deciding_reason)
      × ((final_result s).recommended_action ≡ deny)
      × ((final_result s).audit_mode_bypass ≡ false)
unfolding final_result
denied_result s h = (ground arith, ground arith, ground arith, ground arith)

finish-Decides : (t : Timing) (v : Verdict) (s : Loop) → Agrees v s → Decides v (finish t s).0
unfolding finish
finish-Decides t (denies p) s (a, f, d, _, m) =
    let (al, ms, rec, by) = denied_result s a in
    let (kf, kd) = kept_counts s in (al, kf ∙ f, kd ∙ d, ms ∙ m, rec, by)
finish-Decides t fails_open s (a, f, d) =
    let (kf, kd) = kept_counts s in (allowed_result s a, kf ∙ f, kd ∙ d)
finish-Decides t passes s (a, f, d) =
    let (kf, kd) = kept_counts s in (allowed_result s a, kf ∙ f, kd ∙ d)

module _ (env : CelEnv) (expression_of : CelPolicy → String) (vars : Members) (t : Timing) where
  pub evaluate_phase-Decides :
      (ps : List CelPolicy) (budget : Option BlockingBudget)
      → Decides
          (verdict env expression_of vars ps)
          (evaluate_phase env expression_of vars t ps budget).0
  unfolding evaluate_phase
  evaluate_phase-Decides ps budget = finish-Decides t (verdict env expression_of vars ps) _ (
      run_policies-Agrees env expression_of vars t 0 ps (loop_start (begin_phase budget t.start))
        (refl, refl, refl))
