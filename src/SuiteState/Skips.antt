-- ===== src/SuiteState/Skips.antt =====
-- Which tests a later run skips after a result is recorded, in internal/testsuite/state.go.
use maybe_dont.Prelude.{
  ℕ, ◌≡◌, refl, ◌∙◌, ap, String, Bool, ◌==◌, ◌&&◌, ◌||◌, not, List, [], Option, none, some, inl,
  inr, if◌then◌else◌, Bool-cases, arith,
}
use maybe_dont.Sessions.{lookup, lookup-store}
use maybe_dont.SuiteState.{
  CachedResult, CachedTestCase, StateManager, hashes_match, cached_by, cached_result, skips,
  should_skip, case_or_new, recorded_case, record_result,
}

-- The models of a test case that is recorded, and of one that is new.
abbrev pub models_of : Option CachedTestCase → List (String × CachedResult)
models_of none = []
models_of (some c) = c.models

models-case_or_new :
    (id : String) (o : Option CachedTestCase) → (case_or_new id o).models ≡ models_of o
models-case_or_new id none = refl
models-case_or_new id (some c) = refl

-- What a run says of a model whose result it records, and of another.
skips_recorded :
    (depth : ℕ) (id : String) (hashes hashes' : List String) (model model' : String)
    (result : CachedResult) (old : Option CachedTestCase) (retry : Bool)
    → skips retry (cached_by (some (recorded_case depth id hashes model result old)) hashes' model')
      ≡ (hashes_match hashes hashes'
          && (if model == model'
              then not retry || result.status == "passed"
              else skips retry (lookup model' (models_of old))))
skips_recorded depth id hashes hashes' model model' result old retry =
    elim (Bool-cases (hashes_match hashes hashes')) [
      | inr n ↦ rw n refl
      | inl m ↦
          rw (m, lookup-store, models-case_or_new id old)
            (elim (Bool-cases (model == model')) [ inl e ↦ ground (arith, e) | inr e ↦ rw e refl ])
    ]

-- After a result is recorded, a test is skipped exactly so: for the recorded test, if the policies are
-- those of the recording and either the model is the recorded one (and, when failures are retried,
-- passed) or its result that was there before would be skipped; for another test, as before.
pub record_result-should_skip :
    (content content' id : String) (hashes hashes' : List String) (model model' : String)
    (result : CachedResult) (sm : StateManager) (retry : Bool)
    → should_skip (record_result content id hashes model result sm) content' hashes' model' retry
      ≡ (if content == content'
          then hashes_match hashes hashes'
            && (if model == model'
                then not retry || result.status == "passed"
                else skips retry (lookup model' (models_of (lookup content sm.results))))
          else should_skip sm content' hashes' model' retry)
unfolding should_skip cached_result record_result
record_result-should_skip content content' id hashes hashes' model model' result sm retry =
    ap (λ c. skips retry (cached_by c hashes' model'))
      (lookup-store content content'
        (recorded_case sm.history_depth id hashes model result (lookup content sm.results))
        sm.results)
    ∙ elim (Bool-cases (content == content')) [
      | inl e ↦ rw e (
          skips_recorded sm.history_depth id hashes hashes' model model' result
            (lookup content sm.results) retry)
      | inr e ↦ rw e refl
    ]
