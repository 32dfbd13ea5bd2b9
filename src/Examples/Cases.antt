-- ===== src/Examples/Cases.antt =====
-- Test cases of policies at concrete inputs.
use maybe_dont.Prelude.{String, ◌≡◌, true, not, ◌&&◌, ◌||◌, [], ◌∷◌}
use maybe_dont.Suite.{PolicyResult, ActualResult, ExpectedResult, compare_results, no_items}
use maybe_dont.Suite.Verdicts.{matched, decided_elsewhere, compare_results-passes}

abbrev ran : String → String → PolicyResult
ran name decision = record { policy_name = name; decision = decision; elapsed_ms = 1 }

-- A denial that one named policy and another one took.
abbrev denied : ActualResult
denied = record {
  decision = "deny";
  reasoning = "";
  policies_executed = ran "no-rm" "deny" ∷ ran "no-sudo" "deny" ∷ [];
  redacted_content = "";
}

abbrev masked : ActualResult
masked = record {
  decision = "redact";
  reasoning = "";
  policies_executed = [];
  redacted_content = "token=[REDACTED]";
}

abbrev wanted : ExpectedResult
wanted = record {
  decision = "deny";
  policies = record { policy_name = "no-rm"; decision = "deny" } ∷ [];
  redacted_content = "";
}

compare_results-passes_example :
    let c = compare_results wanted denied true in
    (no_items c.failures ≡ (matched wanted denied && not (true && decided_elsewhere wanted denied)))
    × (c.extra_policy_only ≡ (matched wanted denied && (true && decided_elsewhere wanted denied)))
    × (no_items c.warnings ≡ (true || not (decided_elsewhere wanted denied)))
compare_results-passes_example = compare_results-passes wanted denied true
