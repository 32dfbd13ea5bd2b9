-- ===== src/CelResponse/Decision.antt =====
-- What the response phase of internal/gateway/cel_response_engine.go decides.
use maybe_dont.Prelude.{
  ℕ, suc, String, ◌≡◌, ◌⊎◌, inl, inr, refl, subst, Bool, true, false, not, ◌&&◌, ◌==◌, List, [],
  ◌∷◌, Option, none, some, if◌then◌else◌, Bool-cases,
}
use maybe_dont.Prelude.Json.{Members}
use maybe_dont.Policy.{
  PolicyAction, allow, deny, redact, unset, other, is_deny, is_redact, is_audit_only,
}
use maybe_dont.Budget.{BlockingBudget}
use maybe_dont.Cel.{
  CelEnv, Timing, Outcome, failed, matched, evaluate_rule, Flow, next, stop, begin_phase,
}
use maybe_dont.Cel.Context.{ToolCall}
use maybe_dont.Response.{ToolResult, get_text_content}
use maybe_dont.CelResponse.{
  CelResponsePolicy, Regex, ResponseLoop, response_start, apply_redaction, apply_match,
  apply_response_outcome, response_step, run_response_policies, finish_response,
  evaluate_response_phase,
}
use maybe_dont.CelResponse.Context.{response_vars, evaluate_response}

-- What a phase is meant to give: whether the response is denied, whether the phase failed open, and
-- the content that replaces it.
pub record Meant : Type 0 where
  pub denied : Bool
  pub failed_open : Bool
  pub redaction : Option String

module _ (env : CelEnv) (rx : Regex) (vars : Members) (content : String) where
  abbrev outcome : CelResponsePolicy → Outcome
  outcome p = evaluate_rule env p.expression vars

  abbrev is_match : Outcome → Bool
  is_match (matched b) = b
  is_match (failed e) = false

  abbrev is_failed : Outcome → Bool
  is_failed (failed e) = true
  is_failed _ = false

  -- Read from the first rule on, with the redaction so far: rules that only observe are passed over,
  -- an enforced failure or denial ends the phase, an enforced redaction of a text replaces the one
  -- before it.
  unfoldable pub meant : Option String → List CelResponsePolicy → Meant
  meant so_far [] = record { denied = false; failed_open = false; redaction = so_far }
  meant so_far (p ∷ ps) =
      let replaced = is_match (outcome p) && (is_redact p.action && not (content == "")) in
      let redaction =
        if replaced && not (is_audit_only p.mode)
        then some (apply_redaction rx content p.redaction_pattern p.redaction_replacement)
        else so_far in
      let rest = meant redaction ps in
      if is_audit_only p.mode
      then rest
      else if is_failed (outcome p)
      then record { denied = false; failed_open = true; redaction = so_far }
      else if is_match (outcome p) && is_deny p.action
      then record { denied = true; failed_open = false; redaction = so_far }
      else rest

  abbrev redaction_after : CelResponsePolicy → Outcome → Option String → Option String
  redaction_after p o so_far =
      let replaced = is_match o && (is_redact p.action && not (content == "")) in
      if replaced && not (is_audit_only p.mode)
      then some (apply_redaction rx content p.redaction_pattern p.redaction_replacement)
      else so_far

  abbrev Quiet : ResponseLoop → Type 0
  Quiet s = (s.allowed ≡ true) × (s.failed_open ≡ false)

  abbrev Stops : CelResponsePolicy → Outcome → ResponseLoop → Type 0
  Stops p o s =
      ((is_failed o ≡ true) × (s.failed_open ≡ true) × (s.allowed ≡ true))
      ⊎ ((is_failed o ≡ false)
          × ((is_match o && is_deny p.action) ≡ true)
          × (s.failed_open ≡ false)
          × (s.allowed ≡ false))

  abbrev StepMeans : CelResponsePolicy → Outcome → Option String → Flow ResponseLoop → Type 0
  StepMeans p o so_far (next s) =
      Quiet s
      × (s.redacted_content ≡ redaction_after p o so_far)
      × ((is_audit_only p.mode ≡ true)
          ⊎ ((is_failed o ≡ false) × ((is_match o && is_deny p.action) ≡ false)))
  StepMeans p o so_far (stop s) =
      (is_audit_only p.mode ≡ false) × (s.redacted_content ≡ so_far) × Stops p o s

  match_means :
      (p : CelResponsePolicy) (ms at : ℕ) (a : PolicyAction) (s : ResponseLoop)
      → p.action ≡ a
      → Quiet s
      → StepMeans p (matched true) s.redacted_content (apply_match rx content p ms at a s)
  unfolding apply_match
  match_means p ms at deny s e q = elim (Bool-cases (is_audit_only p.mode)) [
    | inl m ↦ rw (e, m) (q, refl, inl m)
    | inr m ↦ rw (e, m) (m, refl, inr (refl, refl, q.1, refl))
  ]
  match_means p ms at redact s e q = elim (Bool-cases (content == "")) [
    | inl c ↦ rw (e, c) (q, rw c refl, inr (refl, refl))
    | inr c ↦ elim (Bool-cases (is_audit_only p.mode)) [
      | inl m ↦ rw (e, c, m) (q, rw (c, m) refl, inl m)
      | inr m ↦ rw (e, c, m) (q, rw (c, m) refl, inr (refl, refl))
    ]
  ]
  match_means p ms at allow s e q = rw e (q, refl, inr (refl, refl))
  match_means p ms at unset s e q = rw e (q, refl, inr (refl, refl))
  match_means p ms at (other x) s e q = rw e (q, refl, inr (refl, refl))

  outcome_means :
      (p : CelResponsePolicy) (ms at : ℕ) (o : Outcome) (s : ResponseLoop)
      → Quiet s
      → StepMeans p o s.redacted_content (apply_response_outcome rx content p ms at o s)
  unfolding apply_response_outcome
  outcome_means p ms at (failed text) s q = elim (Bool-cases (is_audit_only p.mode)) [
    | inl m ↦ rw m (q, refl, inl m)
    | inr m ↦ rw m (m, refl, inl (refl, refl, q.0))
  ]
  outcome_means p ms at (matched false) s q = (q, refl, inr (refl, refl))
  outcome_means p ms at (matched true) s q = match_means p ms at p.action _ refl q

  abbrev Fulfils : Meant → ResponseLoop → Type 0
  Fulfils m s =
      (s.allowed ≡ not m.denied)
      × (s.failed_open ≡ m.failed_open)
      × (s.redacted_content ≡ m.redaction)

  -- One rule, whatever the rest of the phase is.
  abbrev meant_step : CelResponsePolicy → Outcome → Option String → Meant → Meant
  meant_step p o so_far rest =
      if is_audit_only p.mode
      then rest
      else if is_failed o
      then record { denied = false; failed_open = true; redaction = so_far }
      else if is_match o && is_deny p.action
      then record { denied = true; failed_open = false; redaction = so_far }
      else rest

  next-Fulfils :
      (p : CelResponsePolicy) (o : Outcome) (so_far : Option String) (rest : Meant)
      (s : ResponseLoop)
      → ((is_audit_only p.mode ≡ true)
          ⊎ ((is_failed o ≡ false) × ((is_match o && is_deny p.action) ≡ false)))
      → Fulfils rest s
      → Fulfils (meant_step p o so_far rest) s
  next-Fulfils p o so_far rest s (inl m) f = rw m f
  next-Fulfils p o so_far rest s (inr (x, y)) f = elim (Bool-cases (is_audit_only p.mode)) [
    | inl m ↦ rw m f
    | inr m ↦ rw (m, x, y) f
  ]

  stop-Fulfils :
      (p : CelResponsePolicy) (o : Outcome) (so_far : Option String) (rest : Meant)
      (s : ResponseLoop)
      → is_audit_only p.mode ≡ false
      → s.redacted_content ≡ so_far
      → Stops p o s
      → Fulfils (meant_step p o so_far rest) s
  stop-Fulfils p o so_far rest s m r (inl (x, f, a)) = rw (m, x) (a, f, r)
  stop-Fulfils p o so_far rest s m r (inr (x, y, f, a)) = rw (m, x, y) (a, f, r)

  module _ (t : Timing) where
    run-Fulfils :
        (i : ℕ) (ps : List CelResponsePolicy) (s : ResponseLoop)
        → Quiet s
        → Fulfils (meant s.redacted_content ps) (run_response_policies env rx vars content t i ps s)
    unfolding run_response_policies meant
    run-Fulfils i [] s q = (q.0, q.1, refl)
    run-Fulfils i (p ∷ ps) s q =
        go (response_step env rx vars content t i p s)
          (unfold response_step in outcome_means p (t.rule_ms i) (t.decided_at i) (outcome p) s q)
          (λ s' q'. run-Fulfils (suc i) ps s' q')
      where
        go :
            (f : Flow ResponseLoop)
            → StepMeans p (outcome p) s.redacted_content f
            → ((s' : ResponseLoop)
                → Quiet s'
                → Fulfils
                    (meant s'.redacted_content ps)
                    (run_response_policies env rx vars content t (suc i) ps s'))
            → Fulfils
                (meant_step p
                  (outcome p)
                  s.redacted_content
                  (meant (redaction_after p (outcome p) s.redacted_content) ps))
                (elim f [
                  | next s' ↦ run_response_policies env rx vars content t (suc i) ps s'
                  | stop s' ↦ s'
                ])
        go (next s') (q', r, d) ih =
            next-Fulfils p (outcome p) s.redacted_content
              (meant (redaction_after p (outcome p) s.redacted_content) ps)
              (run_response_policies env rx vars content t (suc i) ps s') d
              (subst
                (λ o.
                  Fulfils (meant o ps) (run_response_policies env rx vars content t (suc i) ps s'))
                r (ih s' q'))
        go (stop s') (m, r, d) ih =
            stop-Fulfils p (outcome p) s.redacted_content
              (meant (redaction_after p (outcome p) s.redacted_content) ps) s' m r d

-- A response is denied, fails open and is redacted as the first deciding rule and the last enforced
-- redaction before it mean; the clock and the budget have no part in it.
pub evaluate_response-meant :
    (env : CelEnv) (rx : Regex) (t : Timing) (ps : List CelResponsePolicy) (r : ToolCall)
    (result : ToolResult) (budget : Option BlockingBudget)
    → let m = meant env rx (response_vars r result) (get_text_content result.content) none ps in
      let out = (evaluate_response env rx t ps r result budget).0 in
      (out.allowed ≡ not m.denied)
      × (out.failed_open ≡ m.failed_open)
      × (out.redacted_content ≡ m.redaction)
unfolding evaluate_response evaluate_response_phase finish_response
evaluate_response-meant env rx t ps r result budget =
    run-Fulfils env rx (response_vars r result) (get_text_content result.content) t 0 ps
      (response_start (begin_phase budget t.start)) (refl, refl)
