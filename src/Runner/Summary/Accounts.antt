-- ===== src/Runner/Summary/Accounts.antt =====
-- What the summary of internal/testsuite/runner.go accounts for.
use maybe_dont.Prelude.{
  ℕ, suc, ◌+◌, ◌*◌, ◌≡◌, refl, ◌∙◌, String, Bool, true, false, ◌==◌, ◌&&◌, ◌||◌, not, List, [], ◌∷◌,
  inl, inr, leb, eqb, length, some_of, if◌then◌else◌, Bool-cases, arith,
}
use maybe_dont.Prelude.Text.{apart}
use maybe_dont.Runner.Summary.{
  TestResult, RunResult, effective_status, count_result, count_results, calculate_results,
  no_counts,
}

abbrev pub tallied : RunResult → ℕ
tallied c = c.passed + c.failed + c.extra_policy_only + c.errored + c.skipped

-- A status that is none of the four.
abbrev is_unknown : String → Bool
is_unknown s = not (s == "passed" || s == "failed" || s == "errored" || s == "skipped")

abbrev pub unknown_count : List TestResult → ℕ
unknown_count [] = 0
unknown_count (r ∷ rs) =
    let n = unknown_count rs in if is_unknown (effective_status r) then suc n else n

-- A result that fails for more than extra policies.
abbrev pub fails : TestResult → Bool
fails r = effective_status r == "failed" && not r.extra_policy_only

known_once :
    (s : String)
    → ((s == "passed") ≡ true → ((s == "failed") || (s == "errored") || (s == "skipped")) ≡ false)
      × ((s == "failed") ≡ true → ((s == "errored") || (s == "skipped")) ≡ false)
      × ((s == "errored") ≡ true → (s == "skipped") ≡ false)
known_once s = (
  λ h.
      rw
        (
          apart s "passed" "failed" refl h,
          apart s "passed" "errored" refl h,
          apart s "passed" "skipped" refl h,
        )
        refl,
  λ h. rw (apart s "failed" "errored" refl h, apart s "failed" "skipped" refl h) refl,
  λ h. apart s "errored" "skipped" refl h,
)

-- One result is counted once, if its status is known.
tallied-count :
    (r : TestResult) (c : RunResult)
    → tallied (count_result r c)
      ≡ (if is_unknown (effective_status r) then tallied c else suc (tallied c))
unfolding count_result
tallied-count r c =
    let s = effective_status r in
    let (p, f, e) = known_once s in
    elim (Bool-cases (s == "passed")) [
      | inl h ↦ ground (arith, h, p h)
      | inr h ↦ elim (Bool-cases (s == "failed")) [
        | inl g ↦ ground (arith, h, g, f g)
        | inr g ↦ elim (Bool-cases (s == "errored")) [
          | inl k ↦ ground (arith, h, g, k, e k)
          | inr k ↦ ground (arith, h, g, k)
        ]
      ]
    ]

count_results-tallied :
    (rs : List TestResult) (c : RunResult)
    → tallied (count_results rs c) + unknown_count rs ≡ tallied c + length rs
unfolding count_results
count_results-tallied [] c = omega arith
count_results-tallied (r ∷ rs) c =
    let ih = count_results-tallied rs (count_result r c) in
    let one = tallied-count r c in
    elim (Bool-cases (is_unknown (effective_status r))) [
      | inl u ↦ ground (arith, ih, one, u)
      | inr u ↦ ground (arith, ih, one, u)
    ]

failed-count :
    (r : TestResult) (c : RunResult)
    → eqb (count_result r c).failed 0 ≡ (eqb c.failed 0 && not (fails r))
unfolding count_result
failed-count r c = elim (Bool-cases (effective_status r == "failed")) [
  | inl f ↦ elim (Bool-cases r.extra_policy_only) [
    | inl x ↦ ground (arith, f, x)
    | inr x ↦ ground (arith, f, x)
  ]
  | inr f ↦ ground (arith, f)
]

count_results-failed :
    (rs : List TestResult) (c : RunResult)
    → eqb (count_results rs c).failed 0 ≡ (eqb c.failed 0 && not (some_of fails rs))
unfolding count_results
count_results-failed [] c = ground arith
count_results-failed (r ∷ rs) c =
    let ih = count_results-failed rs (count_result r c) in
    let one = failed-count r c in ground (arith, ih, one)

count_results-total :
    (rs : List TestResult) (c : RunResult) → (count_results rs c).total_cases ≡ c.total_cases
unfolding count_results count_result
count_results-total [] c = refl
count_results-total (r ∷ rs) c = count_results-total rs (count_result r c)

strict_rate :
    (p f e : ℕ)
    → (if eqb (p + f + e) 0 then true else leb (1000 * (p + f + e)) ((p + e) * 1000)) ≡ eqb f 0
strict_rate p f e = ground arith

-- Without a threshold in the suite, a run meets its thresholds exactly when no result fails for more
-- than extra policies, whatever else is skipped or breaks down; and every result with a known status
-- is counted exactly once.
pub calculate_results-strict :
    (max_tests filtered : ℕ) (rs : List TestResult)
    → let r = calculate_results 0 max_tests filtered rs in
      (r.thresholds_met ≡ not (some_of fails rs)) × (tallied r + unknown_count rs ≡ r.total_cases)
unfolding calculate_results
calculate_results-strict max_tests filtered rs =
    let c = count_results rs (no_counts (length rs)) in
    (
      strict_rate c.passed c.failed c.extra_policy_only
          ∙ count_results-failed rs (no_counts (length rs)),
      omega (
        arith,
        count_results-tallied rs (no_counts (length rs)),
        count_results-total rs (no_counts (length rs)),
      ),
    )
