-- ===== src/Examples/Caches.antt =====
-- Results kept from run to run, at concrete inputs.
use maybe_dont.Prelude.{
  ◌≡◌, refl, String, true, false, ◌==◌, ◌&&◌, ◌||◌, not, [], ◌∷◌, some, if◌then◌else◌,
}
use maybe_dont.Sessions.{lookup}
use maybe_dont.SuiteState.{
  CachedResult, CachedTestCase, StateManager, new_state_manager, should_skip, record_result,
  hashes_match, skips,
}
use maybe_dont.SuiteState.Skips.{models_of, record_result-should_skip}
use maybe_dont.SuiteState.Stale.{record_result-stale}

abbrev result : String → CachedResult
result status = record {
  status = status;
  last_run = 5;
  duration_ms = 3;
  extra_policy_only = false;
  history = [];
}

abbrev case_one : CachedTestCase
case_one = record {
  case_id = "case-1";
  policy_hashes = some ("old" ∷ []);
  models = ("openai:a", result "failed") ∷ ("anthropic:b", result "passed") ∷ [];
}

abbrev earlier : StateManager
earlier = record (new_state_manager 3) { results = ("c1", case_one) ∷ [] }

record_result-should_skip_example :
    should_skip
      (record_result "c1" "case-1" ("new" ∷ []) "openai:a" (result "failed") earlier)
      "c1"
      ("new" ∷ [])
      "openai:a"
      true
    ≡ (if "c1" == "c1"
        then hashes_match ("new" ∷ []) ("new" ∷ [])
          && (if "openai:a" == "openai:a"
              then not true || (result "failed").status == "passed"
              else skips true (lookup "openai:a" (models_of (lookup "c1" earlier.results))))
        else should_skip earlier "c1" ("new" ∷ []) "openai:a" true)
record_result-should_skip_example =
    record_result-should_skip "c1" "c1" "case-1" ("new" ∷ []) ("new" ∷ []) "openai:a" "openai:a"
      (result "failed") earlier true

record_result-stale_example :
    should_skip
      (record_result "c1" "case-1" ("new" ∷ []) "openai:a" (result "passed") earlier)
      "c1"
      ("new" ∷ [])
      "anthropic:b"
      false
    ≡ true
unfolding new_state_manager
record_result-stale_example =
    record_result-stale "c1" "case-1" ("new" ∷ []) "openai:a" "anthropic:b" (result "passed")
      (result "passed") case_one earlier refl refl refl

-- Before, the other model's result did not count for the new policies.
not_before : should_skip earlier "c1" ("new" ∷ []) "anthropic:b" false ≡ false
unfolding should_skip new_state_manager
not_before = refl

any_order : hashes_match ("b" ∷ "a" ∷ "b" ∷ []) ("b" ∷ "b" ∷ "a" ∷ []) ≡ true
unfolding hashes_match
any_order = refl
