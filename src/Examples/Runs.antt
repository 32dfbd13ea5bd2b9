-- ===== src/Examples/Runs.antt =====
-- The runner of the policy test suite, at concrete inputs.
use maybe_dont.Prelude.{
  ◌+◌, ◌≤◌, ◌≡◌, refl, String, Bool, true, false, ◌==◌, not, List, [], ◌∷◌, none, some, select,
  some_of, length,
}
use maybe_dont.Runner.{ModelConfig}
use maybe_dont.Runner.Order.{interleave_by_provider, of_provider}
use maybe_dont.Runner.Order.Passes.{interleave_by_provider-of_provider}
use maybe_dont.Runner.Models.{refused, chosen, invalid_format, get_models_to_test}
use maybe_dont.Runner.Filters.{TestCase, FilterOptions, filter_test_cases}
use maybe_dont.Runner.Filters.Passing.{passes, filter_test_cases-passes}
use maybe_dont.Runner.Summary.{TestResult, calculate_results, effective_status}
use maybe_dont.Runner.Summary.Accounts.{fails, tallied, unknown_count, calculate_results-strict}

abbrev model : String → String → ModelConfig
model provider name = record {
  provider = provider;
  model = name;
  endpoint = "";
  api_key = "";
  parameters = none;
  query_params = none;
  headers = none;
  enabled = none;
}

abbrev matrix : List ModelConfig
matrix =
    model "a" "1"
    ∷ model "a" "2"
    ∷ model "a" "3"
    ∷ model "b" "1"
    ∷ model "b" "2"
    ∷ model "c" "1"
    ∷ []

-- The example of the source's comment.
interleaved :
    interleave_by_provider matrix
    ≡ model "a" "1"
      ∷ model "b" "1"
      ∷ model "c" "1"
      ∷ model "a" "2"
      ∷ model "b" "2"
      ∷ model "a" "3"
      ∷ []
unfolding interleave_by_provider
interleaved = refl

interleave_by_provider-of_provider_example :
    of_provider "b" (interleave_by_provider matrix) ≡ of_provider "b" matrix
interleave_by_provider-of_provider_example = interleave_by_provider-of_provider "b" matrix

flag_of_provider :
    get_models_to_test
      (some (("b", record { api_key = "key"; endpoint = "" }) ∷ []))
      matrix
      " b:9 ,"
      false
    ≡ chosen (record (model "b" "9") { api_key = "key" } ∷ [])
unfolding get_models_to_test
flag_of_provider = refl

flag_without_colon : get_models_to_test none matrix "b" false ≡ refused (invalid_format "b")
unfolding get_models_to_test
flag_without_colon = refl

abbrev test_case : String → List String → TestCase
test_case id tags = record { case_id = id; engine = "both"; tags = tags }

abbrev cases : List TestCase
cases =
    test_case "one" ("net" ∷ "slow" ∷ [])
    ∷ test_case "two" ("net" ∷ [])
    ∷ test_case "three" ("disk" ∷ [])
    ∷ []

abbrev options : FilterOptions
options = record { case_pattern = "one, two"; tags = "net"; exclude_tags = " slow," }

two_kept : (filter_test_cases (λ p s. p == s) options cases).0 ≡ test_case "two" ("net" ∷ []) ∷ []
unfolding filter_test_cases
two_kept = refl

filter_test_cases-passes_example :
    let (kept_cases, stats) = filter_test_cases (λ p s. p == s) options cases in
    (kept_cases ≡ select (passes (λ p s. p == s) options) cases)
    × (stats.after_exclude ≡ length kept_cases)
    × (stats.after_exclude ≤ stats.after_tags)
    × (stats.after_tags ≤ stats.after_pattern)
    × (stats.after_pattern ≤ stats.total)
    × (stats.total ≡ length cases)
filter_test_cases-passes_example = filter_test_cases-passes (λ p s. p == s) options cases

abbrev outcome : String → Bool → TestResult
outcome status extra = record {
  case_id = "one";
  status = status;
  error = some (record { kind = "cached"; message = "cached failed" });
  extra_policy_only = extra;
}

abbrev outcomes : List TestResult
outcomes = outcome "passed" false ∷ outcome "skipped" true ∷ outcome "errored" false ∷ []

cached_counts : effective_status (outcome "skipped" false) ≡ "failed"
unfolding effective_status
cached_counts = refl

calculate_results-strict_example :
    let r = calculate_results 0 5 9 outcomes in
    (r.thresholds_met ≡ not (some_of fails outcomes))
    × (tallied r + unknown_count outcomes ≡ r.total_cases)
calculate_results-strict_example = calculate_results-strict 5 9 outcomes
