-- ===== src/Runner/Summary.antt =====
-- The summary of the results of internal/testsuite/runner.go. A rate is a pair of numbers; the least
-- rate that is accepted is given in parts of 1000.
pub mod Accounts
use Prim.Native.String.{len, slice}
use text.Mathlib.Text.{starts_with}
use maybe_dont.Prelude.{
  ℕ, suc, ◌+◌, ◌-◌, ◌*◌, ◌≡◌, refl, String, Bool, true, false, ◌==◌, ◌&&◌, List, [], ◌∷◌, Option,
  none, some, ltb, leb, eqb, length, if◌then◌else◌, arith,
}

pub record TestError : Type 0 where
  pub kind : String
  pub message : String

pub record TestResult : Type 0 where
  pub case_id : String
  pub status : String
  pub error : Option TestError
  pub extra_policy_only : Bool

abbrev has_kind : String → Option TestError → Bool
has_kind k none = false
has_kind k (some e) = e.kind == k

abbrev trim_prefix : String → String → String
trim_prefix s p = if starts_with s p then slice s (len p) (len s) else s

abbrev cached_status : String → Option TestError → String
cached_status s none = s
cached_status s (some e) = if e.kind == "cached" then trim_prefix e.message "cached " else s

unfoldable pub effective_status : TestResult → String
effective_status r = if r.status == "skipped" then cached_status r.status r.error else r.status

pub record RunResult : Type 0 where
  pub total_cases : ℕ
  pub passed : ℕ
  pub failed : ℕ
  pub extra_policy_only : ℕ
  pub errored : ℕ
  pub skipped : ℕ
  pub cached_count : ℕ
  pub rate_limited : ℕ
  pub thresholds_met : Bool
  pub remaining : ℕ
  pub more_tests_remain : Bool

-- `cond ? n + 1 : n`.
abbrev count_if : Bool → ℕ → ℕ
count_if b n = if b then suc n else n

-- One result. The kinds of a skipped result, then its effective status.
unfoldable pub count_result : TestResult → RunResult → RunResult
unfolding effective_status
count_result r c =
    let s = effective_status r in
    let skipped = r.status == "skipped" in
    record c {
      cached_count = count_if (skipped && has_kind "cached" r.error) c.cached_count;
      rate_limited = count_if (skipped && has_kind "rate_limited" r.error) c.rate_limited;
      passed = count_if (s == "passed") c.passed;
      failed =
          if s == "failed"
          then (if r.extra_policy_only then c.failed else suc c.failed)
          else c.failed;
      extra_policy_only = count_if (s == "failed" && r.extra_policy_only) c.extra_policy_only;
      errored = count_if (s == "errored") c.errored;
      skipped = count_if (s == "skipped") c.skipped;
    }

unfoldable pub count_results : List TestResult → RunResult → RunResult
count_results [] c = c
count_results (r ∷ rs) c = count_results rs (count_result r c)

abbrev pub no_counts : ℕ → RunResult
no_counts n = record {
  total_cases = n;
  passed = 0;
  failed = 0;
  extra_policy_only = 0;
  errored = 0;
  skipped = 0;
  cached_count = 0;
  rate_limited = 0;
  thresholds_met = false;
  remaining = 0;
  more_tests_remain = false;
}

abbrev decided : RunResult → ℕ
decided c = c.passed + c.failed + c.extra_policy_only

-- `filtered` is the number of test cases that pass the filters, `max_tests` the option.
unfoldable pub calculate_results : ℕ → ℕ → ℕ → List TestResult → RunResult
unfolding count_results count_result
calculate_results min_rate max_tests filtered rs =
    let c = count_results rs (no_counts (length rs)) in
    let least : ℕ = if eqb min_rate 0 then 1000 else min_rate in
    record c {
      thresholds_met =
          if eqb (decided c) 0
          then true
          else leb (least * decided c) ((c.passed + c.extra_policy_only) * 1000);
      remaining = if ltb 0 max_tests then filtered - length rs else 0;
      more_tests_remain = if ltb 0 max_tests then ltb 0 (filtered - length rs) else false;
    }
