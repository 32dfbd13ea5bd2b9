-- ===== src/Evaluator/Merge.antt =====
-- What the shared evaluation of internal/gateway/policy_evaluator.go decides.
use maybe_dont.Prelude.{
  String, ◌+◌, ◌≡◌, refl, ◌∙◌, Bool, true, false, not, ◌&&◌, ◌||◌, List, [], ◌∷◌, ◌++◌, Option,
  none, some, some_of, arith,
}
use maybe_dont.Budget.{BlockingBudget}
use maybe_dont.Results.{ValidationResults}
use maybe_dont.Chain.{HandlerAnswer, Handler, answers, errs}
use maybe_dont.Chain.Denials.{total_denials, denials}
use maybe_dont.Evaluator.{
  Evaluator, merge_engine_results, finalize_results, take_answer, run_engine, evaluate,
  allowed_results, is_configured, shared_budget, evaluate_tool_call_with_budget,
  evaluate_cli_command_with_budget,
}

abbrev ask : Option Handler → Option BlockingBudget → List HandlerAnswer × Option BlockingBudget
ask none b = ([], b)
ask (some engine) b = let (a, b') = engine b in (a ∷ [], b')

-- The answers of the engines that there are, CEL first, the budget passed along.
abbrev pub engine_answers : Evaluator → Option BlockingBudget → List HandlerAnswer
engine_answers e budget =
    let (cel, b) = ask e.cel (some (shared_budget e budget)) in cel ++ (ask e.ai b).0

-- An engine that refuses, and not merely observes that it would.
abbrev pub engine_denies : HandlerAnswer → Bool
engine_denies (answers r) = not r.allowed && not r.audit_mode_bypass
engine_denies (errs e) = false

abbrev pub engine_failed : HandlerAnswer → Bool
engine_failed (answers r) = r.failed_open
engine_failed (errs e) = true

-- How a result accounts for a list of answers.
abbrev pub Accounts : ValidationResults → List HandlerAnswer → Type 0
Accounts r as' =
    (r.allowed ≡ not (some_of engine_denies as'))
    × (r.failed_open ≡ some_of engine_failed as')
    × (r.deny_count ≡ total_denials as')

take_answer_accounts :
    (f : ValidationResults) (a : HandlerAnswer)
    → ((take_answer f a).allowed ≡ (f.allowed && not (engine_denies a)))
      × ((take_answer f a).failed_open ≡ (f.failed_open || engine_failed a))
      × ((take_answer f a).deny_count ≡ f.deny_count + denials a)
unfolding merge_engine_results
take_answer_accounts f (errs e) = (ground arith, ground arith, omega arith)
take_answer_accounts f (answers r) = (ground arith, ground arith, ground arith)

one_answer : (a : HandlerAnswer) → Accounts (take_answer allowed_results a) (a ∷ [])
one_answer a =
    let (al, fo, de) = take_answer_accounts allowed_results a in
    (al ∙ ground arith, fo ∙ ground arith, de ∙ omega arith)

two_answers :
    (a c : HandlerAnswer) → Accounts (take_answer (take_answer allowed_results a) c) (a ∷ c ∷ [])
two_answers a c =
    let (al, fo, de) = take_answer_accounts allowed_results a in
    let (al', fo', de') = take_answer_accounts (take_answer allowed_results a) c in
    (ground (arith, al, al'), ground (arith, fo, fo'), omega (arith, de, de'))

merged-Accounts :
    (cel ai : Option Handler) (b : Option BlockingBudget)
    → Accounts
        (run_engine ai (run_engine cel (allowed_results, b))).0
        (let (as', b') = ask cel b in as' ++ (ask ai b').0)
merged-Accounts none none b = (refl, refl, refl)
merged-Accounts none (some h) b = one_answer (h b).0
merged-Accounts (some g) none b = one_answer (g b).0
merged-Accounts (some g) (some h) b = let (a, b') = g b in two_answers a (h b').0

finalize_keeps :
    (approved denied : String) (r : ValidationResults)
    → let f = finalize_results approved denied r in
      (f.allowed ≡ r.allowed)
      × (f.failed_open ≡ r.failed_open)
      × (f.deny_count ≡ r.deny_count)
      × ((f.allowed && f.audit_mode_bypass) ≡ f.audit_mode_bypass)
unfolding finalize_results
finalize_keeps approved denied r = (refl, refl, refl, ground arith)

evaluate-Accounts :
    (approved denied : String) (e : Evaluator) (budget : Option BlockingBudget)
    → let r = (evaluate approved denied e budget).0 in
      Accounts r (engine_answers e budget)
      × ((r.allowed && r.audit_mode_bypass) ≡ r.audit_mode_bypass)
evaluate-Accounts approved denied e budget = go e.cel e.ai refl refl
  where
    configured :
        is_configured e ≡ true
        → let r = (evaluate approved denied e budget).0 in
          Accounts r (engine_answers e budget)
          × ((r.allowed && r.audit_mode_bypass) ≡ r.audit_mode_bypass)
    configured h =
        let (m, _) =
          run_engine e.ai (run_engine e.cel (allowed_results, some (shared_budget e budget))) in
        let (al, fo, de, by) = finalize_keeps approved denied m in
        let (al', fo', de') = merged-Accounts e.cel e.ai (some (shared_budget e budget)) in
        rw h ((al ∙ al', fo ∙ fo', de ∙ de'), by)

    go :
        (cel ai : Option Handler)
        → e.cel ≡ cel
        → e.ai ≡ ai
        → let r = (evaluate approved denied e budget).0 in
          Accounts r (engine_answers e budget)
          × ((r.allowed && r.audit_mode_bypass) ≡ r.audit_mode_bypass)
    go none none c a = rw (c, a) ((refl, refl, refl), refl)
    go (some g) ai c a = configured (rw c refl)
    go none (some h) c a = configured (rw (c, a) refl)

-- Both kinds of request: refused exactly when some engine refuses and does not merely observe, fail
-- open when some engine failed or said so, with the denials of all engines added up. A bypass is
-- reported only of a request that is allowed.
pub evaluate_with_budget-Accounts :
    (e : Evaluator) (budget : Option BlockingBudget)
    → let r = (evaluate_tool_call_with_budget e budget).0 in
      let c = (evaluate_cli_command_with_budget e budget).0 in
      (Accounts r (engine_answers e budget)
        × ((r.allowed && r.audit_mode_bypass) ≡ r.audit_mode_bypass))
      × (Accounts c (engine_answers e budget)
          × ((c.allowed && c.audit_mode_bypass) ≡ c.audit_mode_bypass))
unfolding evaluate_tool_call_with_budget evaluate_cli_command_with_budget
evaluate_with_budget-Accounts e budget =
    (evaluate-Accounts _ _ e budget, evaluate-Accounts _ _ e budget)
