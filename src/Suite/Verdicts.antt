-- ===== src/Suite/Verdicts.antt =====
-- What the verdicts of internal/testsuite/executor.go mean.
use maybe_dont.Prelude.{
  ◌≡◌, refl, ◌∙◌, Bool, true, false, ◌==◌, ◌&&◌, ◌||◌, not, List, [], ◌∷◌, ◌++◌, if◌then◌else◌,
  arith, inl, inr, Bool-cases, length, String, some_of, contains, ap,
}
use maybe_dont.Suite.{
  PolicyResult, ActualResult, PolicyExpectation, ExpectedResult, decision_failures,
  redaction_failures, expectation_failures, policy_failures, extra_policies, expected_names,
  unexpected, no_items, compare_results, prior_failures, unexpected_matches,
}

-- Whether an expectation of a policy is met: the first executed policy of its name decided so.
abbrev pub met : List PolicyResult → PolicyExpectation → Bool
met [] p = false
met (r ∷ rs) p =
    let rest = met rs p in if r.policy_name == p.policy_name then r.decision == p.decision else rest

abbrev pub all_met : List PolicyResult → List PolicyExpectation → Bool
all_met rs [] = true
all_met rs (p ∷ ps) = met rs p && all_met rs ps

abbrev pub redaction_met : ExpectedResult → ActualResult → Bool
redaction_met e a =
    e.redacted_content == ""
    || (not (a.redacted_content == "") && e.redacted_content == a.redacted_content)

no_items-append : {A : Type 0} (xs ys : List A) → no_items (xs ++ ys) ≡ (no_items xs && no_items ys)
no_items-append [] ys = refl
no_items-append (x ∷ xs) ys = refl

ended : {A : Type 0} (xs : List A) (x : A) → no_items (xs ++ x ∷ []) ≡ false
ended [] x = refl
ended (y ∷ xs) x = refl

expectation_met :
    (p : PolicyExpectation) (rs : List PolicyResult)
    → no_items (expectation_failures p rs) ≡ met rs p
unfolding expectation_failures
expectation_met p [] = refl
expectation_met p (r ∷ rs) = ground (arith, expectation_met p rs)

expectations_met :
    (ps : List PolicyExpectation) (rs : List PolicyResult)
    → no_items (policy_failures ps rs) ≡ all_met rs ps
unfolding policy_failures
expectations_met [] rs = refl
expectations_met (p ∷ ps) rs =
    no_items-append (expectation_failures p rs) (policy_failures ps rs)
    ∙ ground (arith, expectation_met p rs, expectations_met ps rs)

decision_met :
    (e : ExpectedResult) (a : ActualResult)
    → no_items (decision_failures e a) ≡ (e.decision == a.decision)
unfolding decision_failures
decision_met e a = ground arith

redaction_is_met :
    (e : ExpectedResult) (a : ActualResult) → no_items (redaction_failures e a) ≡ redaction_met e a
unfolding redaction_failures
redaction_is_met e a = ground arith

-- What a case must show without regard to policies that it does not name.
abbrev pub matched : ExpectedResult → ActualResult → Bool
matched e a =
    e.decision == a.decision && (redaction_met e a && all_met a.policies_executed e.policies)

prior_matched :
    (e : ExpectedResult) (a : ActualResult) → no_items (prior_failures e a) ≡ matched e a
unfolding prior_failures
prior_matched e a =
    no_items-append (decision_failures e a) _
    ∙ ground (
      arith,
      no_items-append (redaction_failures e a) (policy_failures e.policies a.policies_executed),
      decision_met e a,
      redaction_is_met e a,
      expectations_met e.policies a.policies_executed,
    )

-- Whether a case names a policy.
abbrev pub names : ExpectedResult → String → Bool
names e n = some_of (λ p. p.policy_name == n) e.policies

-- In a case that names policies and was not allowed: some policy took the decision that it does not
-- name.
abbrev pub decided_elsewhere : ExpectedResult → ActualResult → Bool
decided_elsewhere e a =
    not (no_items e.policies)
    && (not (a.decision == "allow")
        && some_of (λ r. r.decision == a.decision && not (names e r.policy_name))
            a.policies_executed)

named_policies :
    (ps : List PolicyExpectation) (n : String)
    → contains n (expected_names ps) ≡ some_of (λ p. p.policy_name == n) ps
named_policies [] n = refl
named_policies (p ∷ ps) n = ap (λ b. p.policy_name == n || b) (named_policies ps n)

unexpected_found :
    (e : ExpectedResult) (d : String) (rs : List PolicyResult)
    → no_items (unexpected (expected_names e.policies) d rs)
      ≡ not (some_of (λ r. r.decision == d && not (names e r.policy_name)) rs)
unfolding unexpected
unexpected_found e d [] = refl
unexpected_found e d (r ∷ rs) =
    ground (arith, unexpected_found e d rs, named_policies e.policies r.policy_name)

extra_found :
    (e : ExpectedResult) (a : ActualResult)
    → no_items (extra_policies e a) ≡ not (decided_elsewhere e a)
unfolding extra_policies
extra_found e a = ground (arith, unexpected_found e a.decision a.policies_executed)

compared :
    (e : ExpectedResult) (a : ActualResult) (strict : Bool)
    → let c = compare_results e a strict in
      (no_items c.failures ≡ (matched e a && not (strict && not (no_items (extra_policies e a)))))
      × (c.extra_policy_only ≡ (matched e a && (strict && not (no_items (extra_policies e a)))))
      × (no_items c.warnings ≡ (strict || no_items (extra_policies e a)))
unfolding compare_results
compared e a true = elim (Bool-cases (no_items (extra_policies e a))) [
  | inl x ↦ rw x (ground (arith, prior_matched e a), ground arith, refl)
  | inr x ↦ rw x (
    ended (prior_failures e a) (unexpected_matches (length (extra_policies e a))) ∙ ground arith,
    ground (arith, prior_matched e a),
    refl,
  )
]
compared e a false = elim (Bool-cases (no_items (extra_policies e a))) [
  | inl x ↦ rw x (ground (arith, prior_matched e a), ground arith, refl)
  | inr x ↦ rw x (ground (arith, prior_matched e a), ground arith, refl)
]

-- A case passes exactly when its decision, its redaction and every policy that it names come out as
-- expected and, if matching is strict, the case names policies and was not allowed, no policy that it
-- does not name took the decision. It is marked as failing for extra policies only exactly when those
-- are its one failure; if matching is not strict, they are a warning.
pub compare_results-passes :
    (e : ExpectedResult) (a : ActualResult) (strict : Bool)
    → let c = compare_results e a strict in
      (no_items c.failures ≡ (matched e a && not (strict && decided_elsewhere e a)))
      × (c.extra_policy_only ≡ (matched e a && (strict && decided_elsewhere e a)))
      × (no_items c.warnings ≡ (strict || not (decided_elsewhere e a)))
compare_results-passes e a strict =
    let (f, x, w) = compared e a strict in
    let found = extra_found e a in
    (f ∙ ground (arith, found), x ∙ ground (arith, found), w ∙ ground (arith, found))
