-- ===== src/Chain/Denials.antt =====
-- Which denials the chain of internal/gateway/tool_validation.go reports.
use maybe_dont.Prelude.{
  ℕ, ◌+◌, ◌≡◌, ap, ◌∙◌, Bool, false, ◌==◌, ◌&&◌, ◌||◌, not, List, [], ◌∷◌, Option, ltb, is_some,
  arith, some_of,
}
use maybe_dont.Budget.{BlockingBudget}
use maybe_dont.Chain.{
  Handler, HandlerAnswer, answers, errs, ChainState, chain_start, absorb, step_answer, run_handlers,
  conclude, handle,
}

-- What each handler answers, with the budget passed along.
unfoldable pub answers_of : List Handler → Option BlockingBudget → List HandlerAnswer
answers_of [] b = []
answers_of (h ∷ hs) b = let (a, b') = h b in a ∷ answers_of hs b'

-- A denial that says something.
abbrev pub denies_aloud : HandlerAnswer → Bool
denies_aloud (answers r) = ltb 0 r.deny_count && not (r.message == "")
denies_aloud (errs e) = false

abbrev pub denials : HandlerAnswer → ℕ
denials (answers r) = r.deny_count
denials (errs e) = 0

abbrev pub total_denials : List HandlerAnswer → ℕ
total_denials [] = 0
total_denials (a ∷ as') = denials a + total_denials as'

step_denies :
    (s : ChainState) (a : HandlerAnswer)
    → is_some (step_answer s a).deny_message ≡ (is_some s.deny_message || denies_aloud a)
unfolding absorb
step_denies s (errs e) = ground arith
step_denies s (answers r) = ground arith

step_count :
    (s : ChainState) (a : HandlerAnswer)
    → (step_answer s a).final.deny_count ≡ s.final.deny_count + denials a
unfolding absorb
step_count s (errs e) = omega arith
step_count s (answers r) = omega arith

run_denies :
    (hs : List Handler) (s : ChainState) (b : Option BlockingBudget)
    → is_some (run_handlers hs s b).0.deny_message
      ≡ (is_some s.deny_message || some_of denies_aloud (answers_of hs b))
unfolding run_handlers answers_of
run_denies [] s b = ground arith
run_denies (h ∷ hs) s b =
    let (a, b') = h b in ground (arith, run_denies hs (step_answer s a) b', step_denies s a)

run_count :
    (hs : List Handler) (s : ChainState) (b : Option BlockingBudget)
    → (run_handlers hs s b).0.final.deny_count
      ≡ s.final.deny_count + total_denials (answers_of hs b)
unfolding run_handlers answers_of
run_count [] s b = omega arith
run_count (h ∷ hs) s b =
    let (a, b') = h b in omega (arith, run_count hs (step_answer s a) b', step_count s a)

conclude_allowed : (s : ChainState) → (conclude s).allowed ≡ not (is_some s.deny_message)
unfolding conclude
conclude_allowed s = ground arith

conclude_count : (s : ChainState) → (conclude s).deny_count ≡ s.final.deny_count
unfolding conclude
conclude_count s = ground arith

-- The chain denies exactly when some handler denied with a message, and it counts the denials of all
-- handlers, those without a message too. A handler that fails counts for nothing.
pub handle-denies :
    (hs : List Handler) (b : Option BlockingBudget)
    → ((handle hs b).0.allowed ≡ not (some_of denies_aloud (answers_of hs b)))
      × ((handle hs b).0.deny_count ≡ total_denials (answers_of hs b))
unfolding handle
handle-denies hs b =
    let s = (run_handlers hs chain_start b).0 in
    (
      conclude_allowed s ∙ ap not (run_denies hs chain_start b),
      conclude_count s ∙ run_count hs chain_start b ∙ omega arith,
    )
