-- ===== src/Runner/Filters/Passing.antt =====
-- Which test cases pass the filters of internal/testsuite/runner.go.
use maybe_dont.Prelude.{
  ◌≤◌, ◌≡◌, refl, sym, ◌∙◌, ap, String, Bool, true, false, ◌==◌, ◌||◌, ◌&&◌, not, List, [], ◌∷◌,
  length, select, some_of, contains, map, Bool-cases, inl, inr, eq_iff, if◌then◌else◌, arith,
}
use maybe_dont.Prelude.Text.{split, trim_space}
use maybe_dont.Runner.Filters.{
  TestCase, FilterOptions, trimmed, split_tags, has_all_tags, has_any_tag, matches_any,
  pattern_stage, tags_stage, exclude_stage, filter_test_cases,
}

select-select :
    (p r : TestCase → Bool) (cs : List TestCase)
    → select r (select p cs) ≡ select (λ c. p c && r c) cs
select-select p r [] = refl
select-select p r (c ∷ cs) = ground (arith, select-select p r cs)

select_all : (cs : List TestCase) → select (λ c. true) cs ≡ cs
select_all [] = refl
select_all (c ∷ cs) = ap (λ r. c ∷ r) (select_all cs)

select-length : (p : TestCase → Bool) (cs : List TestCase) → length (select p cs) ≤ length cs
select-length p [] = omega arith
select-length p (c ∷ cs) = ground (arith, select-length p cs)

-- A filter that an option switches off.
when_on :
    (off : Bool) (p : TestCase → Bool) (cs : List TestCase)
    → (if off then cs else select p cs) ≡ select (λ c. off || p c) cs
when_on true p cs = sym (select_all cs)
when_on false p cs = refl

when_not :
    (on : Bool) (p : TestCase → Bool) (cs : List TestCase)
    → (if on then select p cs else cs) ≡ select (λ c. not on || p c) cs
when_not true p cs = refl
when_not false p cs = sym (select_all cs)

-- A tag that stands among those of a case.
abbrev pub carries : TestCase → String → Bool
carries c tag = some_of (λ t. t == tag) c.tags

-- The pieces of a text between commas, without the space around them and without the empty ones.
abbrev pub pieces : String → List String
pieces s = select (λ t. not (t == "")) (map trim_space (split 44 s))

contains-some : (k : String) (js : List String) → contains k js ≡ some_of (λ t. t == k) js
contains-some k [] = refl
contains-some k (j ∷ js) = ap (λ b. j == k || b) (contains-some k js)

all_carried :
    (c : TestCase) (rs : List String)
    → has_all_tags c.tags rs ≡ not (some_of (λ r. not (carries c r)) rs)
unfolding has_all_tags
all_carried c [] = refl
all_carried c (r ∷ rs) = rw (contains-some r c.tags, all_carried c rs) (ground arith)

any_carried : (c : TestCase) (es : List String) → has_any_tag c.tags es ≡ some_of (carries c) es
unfolding has_any_tag
any_carried c [] = refl
any_carried c (e ∷ es) = rw (contains-some e c.tags, any_carried c es) refl

trimmed_pieces : (ss : List String) → trimmed ss ≡ select (λ t. not (t == "")) (map trim_space ss)
trimmed_pieces [] = refl
trimmed_pieces (s ∷ ss) = rw (trimmed_pieces ss) (ground arith)

split_pieces : (s : String) → split_tags s ≡ pieces s
unfolding split_tags
split_pieces s = elim (Bool-cases (s == "")) [
  | inl e ↦ rw ((eq_iff s "").0 e) (unfold split trim_space in refl)
  | inr e ↦ rw e (trimmed_pieces (split 44 s))
]

any_matched :
    (matches : String → String → Bool) (ps : List String) (id : String)
    → matches_any matches ps id ≡ some_of (λ p. matches (trim_space p) id) ps
unfolding matches_any
any_matched matches [] id = refl
any_matched matches (p ∷ ps) id =
    ap (λ b. matches (trim_space p) id || b) (any_matched matches ps id)

module _ (matches : String → String → Bool) (o : FilterOptions) where
  abbrev named : TestCase → Bool
  named c =
      not (not (o.case_pattern == "") && not (o.case_pattern == "*"))
      || matches_any matches (split 44 o.case_pattern) c.case_id

  abbrev tagged : TestCase → Bool
  tagged c = o.tags == "" || has_all_tags c.tags (split_tags o.tags)

  abbrev kept : TestCase → Bool
  kept c = o.exclude_tags == "" || not (has_any_tag c.tags (split_tags o.exclude_tags))

  abbrev filtered : TestCase → Bool
  filtered c = (named c && tagged c) && kept c

  -- A case is run if its id matches one of the patterns, no tag that is asked for is missing from it,
  -- and it carries none of the excluded ones, as far as each is asked for.
  abbrev pub passes : TestCase → Bool
  passes c =
      ((o.case_pattern == ""
          || o.case_pattern == "*"
          || some_of (λ p. matches (trim_space p) c.case_id) (split 44 o.case_pattern))
        && (o.tags == "" || not (some_of (λ r. not (carries c r)) (pieces o.tags))))
      && (o.exclude_tags == "" || not (some_of (carries c) (pieces o.exclude_tags)))

  filtered-passes : (c : TestCase) → filtered c ≡ passes c
  filtered-passes c =
      rw
        (
          any_matched matches (split 44 o.case_pattern) c.case_id,
          split_pieces o.tags,
          split_pieces o.exclude_tags,
          all_carried c (pieces o.tags),
          any_carried c (pieces o.exclude_tags),
        )
        (ground arith)

  select-passes : (cs : List TestCase) → select filtered cs ≡ select passes cs
  select-passes [] = refl
  select-passes (c ∷ cs) =
      ap (λ r. if filtered c then c ∷ r else r) (select-passes cs)
      ∙ ap (λ b. if b then c ∷ select passes cs else select passes cs) (filtered-passes c)

  stages :
      (cs : List TestCase)
      → exclude_stage o (tags_stage o (pattern_stage matches o cs)) ≡ select passes cs
  stages cs =
      ap (λ x. exclude_stage o (tags_stage o x)) (when_not _ _ cs)
      ∙ ap (λ x. exclude_stage o x) (when_on (o.tags == "") _ (select named cs))
      ∙ ap (λ x. exclude_stage o x) (select-select named tagged cs)
      ∙ when_on (o.exclude_tags == "") _ (select (λ c. named c && tagged c) cs)
      ∙ select-select (λ c. named c && tagged c) kept cs
      ∙ select-passes cs

  if-length :
      (b : Bool) (p : TestCase → Bool) (cs : List TestCase)
      → length (if b then cs else select p cs) ≤ length cs
  if-length true p cs = omega arith
  if-length false p cs = select-length p cs

  -- The filters keep, in order, the cases whose id matches one of the patterns, that miss none of the
  -- tags asked for and carry none of the excluded ones, as far as each is asked for; each stage counts
  -- no more than the one before, and the last counts what is kept.
  pub filter_test_cases-passes :
      (cs : List TestCase)
      → let (kept_cases, stats) = filter_test_cases matches o cs in
        (kept_cases ≡ select passes cs)
        × (stats.after_exclude ≡ length kept_cases)
        × (stats.after_exclude ≤ stats.after_tags)
        × (stats.after_tags ≤ stats.after_pattern)
        × (stats.after_pattern ≤ stats.total)
        × (stats.total ≡ length cs)
  unfolding filter_test_cases
  filter_test_cases-passes cs = (
    stages cs,
    refl,
    if-length (o.exclude_tags == "") _ (tags_stage o (pattern_stage matches o cs)),
    if-length (o.tags == "") _ (pattern_stage matches o cs),
    ground (
      arith,
      select-length (λ (tc : TestCase). matches_any matches (split 44 o.case_pattern) tc.case_id)
          cs,
    ),
    refl,
  )
