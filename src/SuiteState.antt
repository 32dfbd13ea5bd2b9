-- ===== src/SuiteState.antt =====
-- internal/testsuite/state.go: what earlier runs of the test suite have found, kept from run to run. The
-- maps are association lists; `none` policy hashes are nil. Rates are pairs of counts. The file, its
-- lock and the hash functions are left out.
pub mod Skips
pub mod Stale
use Prim.Native.Nat.{Ordering}
use Prim.Native.String.{compare, ◌++◌ as join}
use maybe_dont.Prelude.{
  ℕ, zero, suc, ◌+◌, String, Bool, true, false, ◌==◌, ◌&&◌, ◌||◌, not, List, [], ◌∷◌, ◌++◌, Option,
  none, some, ltb, leb, eqb, is_some, contains, length, if◌then◌else◌,
}
use maybe_dont.Sessions.{lookup, store}
use maybe_dont.AuditLog.Chunk.{take}

pub record RunOutcome : Type 0 where
  pub status : String
  pub run_at : ℕ
  pub duration_ms : ℕ
  pub policy_change : Bool

pub record CachedResult : Type 0 where
  pub status : String
  pub last_run : ℕ
  pub duration_ms : ℕ
  pub extra_policy_only : Bool
  pub history : List RunOutcome

pub record CachedTestCase : Type 0 where
  pub case_id : String
  pub policy_hashes : Option (List String)
  pub models : List (String × CachedResult)

pub record StateManager : Type 0 where
  pub results : List (String × CachedTestCase)
  pub dirty : Bool
  pub history_depth : ℕ

abbrev pub default_history_depth : ℕ
default_history_depth = 20

unfoldable pub new_state_manager : ℕ → StateManager
new_state_manager depth = record {
  results = [];
  dirty = false;
  history_depth = if eqb depth 0 then default_history_depth else depth;
}

abbrev string_le : String → String → Bool
string_le a b = elim (compare a b) [ Ordering.gt ↦ false | _ ↦ true ]

abbrev insert_sorted : String → List String → List String
insert_sorted a [] = a ∷ []
insert_sorted a (b ∷ bs) =
    let rest = insert_sorted a bs in if string_le a b then a ∷ b ∷ bs else b ∷ rest

-- `sort.Strings` on a copy.
abbrev pub sort_strings : List String → List String
sort_strings [] = []
sort_strings (a ∷ as') = insert_sorted a (sort_strings as')

abbrev pub same_strings : List String → List String → Bool
same_strings [] [] = true
same_strings [] (b ∷ bs) = false
same_strings (a ∷ as') [] = false
same_strings (a ∷ as') (b ∷ bs) = let rest = same_strings as' bs in if a == b then rest else false

unfoldable pub hashes_match : List String → List String → Bool
hashes_match a b = eqb (length a) (length b) && same_strings (sort_strings a) (sort_strings b)

abbrev pub hashes_of : Option (List String) → List String
hashes_of none = []
hashes_of (some hs) = hs

-- The result of a model for a test case under the current policies.
abbrev pub cached_by : Option CachedTestCase → List String → String → Option CachedResult
cached_by none hashes model = none
cached_by (some c) hashes model =
    if hashes_match (hashes_of c.policy_hashes) hashes then lookup model c.models else none

unfoldable pub cached_result : StateManager → String → List String → String → Option CachedResult
unfolding hashes_match
cached_result sm content hashes model = cached_by (lookup content sm.results) hashes model

abbrev pub skips : Bool → Option CachedResult → Bool
skips retry none = false
skips retry (some r) = if retry then r.status == "passed" else true

unfoldable pub should_skip : StateManager → String → List String → String → Bool → Bool
unfolding cached_result
should_skip sm content hashes model retry = skips retry (cached_result sm content hashes model)

abbrev status_of : Option CachedResult → String
status_of none = ""
status_of (some r) = r.status

unfoldable pub get_cached_status : StateManager → String → List String → String → String
unfolding cached_result
get_cached_status sm content hashes model = status_of (cached_result sm content hashes model)

abbrev duration_of : Option CachedResult → ℕ
duration_of none = 0
duration_of (some r) = r.duration_ms

unfoldable pub get_cached_duration : StateManager → String → List String → String → ℕ
unfolding cached_result
get_cached_duration sm content hashes model = duration_of (cached_result sm content hashes model)

abbrev pub case_or_new : String → Option CachedTestCase → CachedTestCase
case_or_new id none = record { case_id = id; policy_hashes = none; models = [] }
case_or_new id (some c) = c

-- Whether the policies differ from those of the run before; without an entry or hashes they do not.
abbrev changed : Option CachedTestCase → List String → Bool
changed none hashes = false
changed (some c) hashes =
    is_some c.policy_hashes && not (hashes_match (hashes_of c.policy_hashes) hashes)

abbrev pub history_of : Option CachedResult → List RunOutcome
history_of none = []
history_of (some r) = r.history

-- The new history: the run in front of those before, cut to the depth.
unfoldable pub extended_history : ℕ → RunOutcome → Option CachedResult → List RunOutcome
extended_history depth o existing = take depth (o ∷ history_of existing)

abbrev pub recorded_case :
    ℕ → String → List String → String → CachedResult → Option CachedTestCase → CachedTestCase
recorded_case depth id hashes model result old =
    let c = case_or_new id old in
    let outcome : RunOutcome = record {
      status = result.status;
      run_at = result.last_run;
      duration_ms = result.duration_ms;
      policy_change = changed old hashes;
    } in
    record c {
      policy_hashes = some hashes;
      models =
          store model
            (record result { history = extended_history depth outcome (lookup model c.models) })
            c.models;
    }

unfoldable pub record_result :
    String → String → List String → String → CachedResult → StateManager → StateManager
unfolding extended_history hashes_match
record_result content id hashes model result sm = record sm {
  results =
      store content
        (recorded_case sm.history_depth id hashes model result (lookup content sm.results))
        sm.results;
  dirty = true;
}

abbrev passed_in : List RunOutcome → ℕ
passed_in [] = 0
passed_in (o ∷ os) = let n = passed_in os in if o.status == "passed" then suc n else n

-- The passed runs and all runs.
unfoldable pub pass_rate : CachedResult → ℕ × ℕ
pass_rate r = (passed_in r.history, length r.history)

-- From the newest run to the last change of policies, which a change at the newest run is not.
abbrev since_change : List RunOutcome → List RunOutcome
since_change [] = []
since_change (o ∷ os) = let rest = since_change os in if o.policy_change then o ∷ [] else o ∷ rest

abbrev window : List RunOutcome → List RunOutcome
window [] = []
window (o ∷ os) = o ∷ since_change os

unfoldable pub pass_rate_since_policy_change : CachedResult → ℕ × ℕ
pass_rate_since_policy_change r = (passed_in (window r.history), length (window r.history))

abbrev pruned : List String → List (String × CachedTestCase) → List (String × CachedTestCase)
pruned current [] = []
pruned current ((h, c) ∷ rs) =
    let rest = pruned current rs in if contains h current then (h, c) ∷ rest else rest

abbrev any_stale : List String → List (String × CachedTestCase) → Bool
any_stale current [] = false
any_stale current ((h, c) ∷ rs) = not (contains h current) || any_stale current rs

unfoldable pub prune_stale_hashes : List String → StateManager → StateManager
prune_stale_hashes current sm = record sm {
  results = pruned current sm.results;
  dirty = if any_stale current sm.results then true else sm.dirty;
}

unfoldable pub model_key : String → String → String
model_key provider model = join provider (join ":" model)

unfoldable pub has_results : StateManager → Bool
has_results sm = ltb 0 (length sm.results)
