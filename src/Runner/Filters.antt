-- ===== src/Runner/Filters.antt =====
-- The filters of internal/testsuite/runner.go on test cases. `matches` is `filepath.Match`, false on an
-- invalid pattern.
pub mod Passing
use maybe_dont.Prelude.{
  ℕ, String, Bool, true, false, ◌==◌, ◌||◌, ◌&&◌, not, List, [], ◌∷◌, Option, none, some, contains,
  length, select, some_of, if◌then◌else◌,
}
use maybe_dont.Prelude.Text.{split, trim_space}

pub record TestCase : Type 0 where
  pub case_id : String
  pub engine : String
  pub tags : List String

pub record FilterOptions : Type 0 where
  pub case_pattern : String
  pub tags : String
  pub exclude_tags : String

-- The counts after each stage.
pub record FilterStats : Type 0 where
  pub total : ℕ
  pub after_pattern : ℕ
  pub after_tags : ℕ
  pub after_exclude : ℕ

abbrev pub trimmed : List String → List String
trimmed [] = []
trimmed (s ∷ ss) =
    let rest = trimmed ss in let t = trim_space s in if t == "" then rest else t ∷ rest

unfoldable pub split_tags : String → List String
unfolding split trim_space
split_tags tags = if tags == "" then [] else trimmed (split 44 tags)

unfoldable pub has_all_tags : List String → List String → Bool
has_all_tags tags [] = true
has_all_tags tags (r ∷ rs) = contains r tags && has_all_tags tags rs

unfoldable pub has_any_tag : List String → List String → Bool
has_any_tag tags [] = false
has_any_tag tags (e ∷ es) = contains e tags || has_any_tag tags es

abbrev pub tags_stage : FilterOptions → List TestCase → List TestCase
tags_stage o cases =
    if o.tags == "" then cases else select (λ tc. has_all_tags tc.tags (split_tags o.tags)) cases

abbrev pub exclude_stage : FilterOptions → List TestCase → List TestCase
exclude_stage o cases =
    if o.exclude_tags == ""
    then cases
    else select (λ tc. not (has_any_tag tc.tags (split_tags o.exclude_tags))) cases

module _ (matches : String → String → Bool) where
  -- Some of the patterns, each trimmed, matches the id.
  unfoldable pub matches_any : List String → String → Bool
  matches_any [] id = false
  matches_any (p ∷ ps) id = matches (trim_space p) id || matches_any ps id

  abbrev pub pattern_stage : FilterOptions → List TestCase → List TestCase
  pattern_stage o cases =
      if not (o.case_pattern == "") && not (o.case_pattern == "*")
      then select (λ tc. matches_any (split 44 o.case_pattern) tc.case_id) cases
      else cases

  unfoldable pub filter_test_cases : FilterOptions → List TestCase → List TestCase × FilterStats
  unfolding matches_any has_all_tags has_any_tag split_tags
  filter_test_cases o cases =
      let after_pattern = pattern_stage o cases in
      let after_tags = tags_stage o after_pattern in
      let after_exclude = exclude_stage o after_tags in
      (
        after_exclude,
        record {
          total = length cases;
          after_pattern = length after_pattern;
          after_tags = length after_tags;
          after_exclude = length after_exclude;
        },
      )

unfoldable pub filter_cases_for_engine : List TestCase → String → List TestCase
filter_cases_for_engine cases engine =
    select (λ tc. tc.engine == engine || tc.engine == "both") cases
