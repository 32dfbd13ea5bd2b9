-- ===== src/SuiteState/Stale.antt =====
-- Results of other models under other policies, in internal/testsuite/state.go.
use maybe_dont.Prelude.{
  ◌≡◌, refl, ◌∙◌, String, true, false, ◌==◌, List, [], ◌∷◌, some, arith, eq_iff,
}
use maybe_dont.Sessions.{lookup}
use maybe_dont.SuiteState.{
  CachedResult, CachedTestCase, StateManager, hashes_match, same_strings, sort_strings, should_skip,
  record_result,
}
use maybe_dont.SuiteState.Skips.{record_result-should_skip}

same_strings_refl : (xs : List String) → same_strings xs xs ≡ true
same_strings_refl [] = refl
same_strings_refl (x ∷ xs) = ground (arith, eq_iff x x, same_strings_refl xs)

hashes_match_refl : (hs : List String) → hashes_match hs hs ≡ true
unfolding hashes_match
hashes_match_refl hs = ground (arith, same_strings_refl (sort_strings hs))

-- Once one model has run with the present policies, every result of another model for the same test is
-- taken for one of the present policies, whatever policies it came from: the test is skipped for it.
pub record_result-stale :
    (content id : String) (hashes : List String) (model model' : String)
    (result stale : CachedResult) (c : CachedTestCase) (sm : StateManager)
    → (model == model') ≡ false
    → lookup content sm.results ≡ some c
    → lookup model' c.models ≡ some stale
    → should_skip (record_result content id hashes model result sm) content hashes model' false
      ≡ true
record_result-stale content id hashes model model' result stale c sm n old there =
    record_result-should_skip content content id hashes hashes model model' result sm false
    ∙ rw ((eq_iff content content).1 refl, hashes_match_refl hashes, n, old, there) refl
