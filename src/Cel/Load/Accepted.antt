-- ===== src/Cel/Load/Accepted.antt =====
-- What an engine holds after its rules were loaded (internal/gateway/cel_engine.go).
use maybe_dont.Prelude.{
  String, ◌≡◌, ◌⊎◌, inl, inr, refl, sym, ap, ◌∙◌, Bool, true, false, not, ◌&&◌, ◌||◌, ◌==◌, List,
  [], ◌∷◌, ◌++◌, All, Option, none, some, arith, contains, Bool-cases, Option-cases, map,
  append_assoc, append-nil, select,
}
use maybe_dont.Policy.{PolicyMode, Policy, is_allow, is_deny, is_valid, is_enabled}
use maybe_dont.Cel.{CelEnv, CelPolicy}
use maybe_dont.Cel.Load.{
  LoadError, invalid_mode, duplicate_name, no_expression, mcp_compile, cli_compile, invalid_action,
  loaded, check_policy, compile_issue, load_loop, load_policies,
}

-- A rule that evaluation can use: it has an expression, what it has compiles, and it allows or denies.
pub record IsUsable (env : CelEnv) (p : CelPolicy) : Type 0 where
  pub has_expression : ((p.mcp_expression == "") && (p.cli_expression == "")) ≡ false
  pub mcp_compiles : compile_issue env p.mcp_expression ≡ false
  pub cli_compiles : compile_issue env p.cli_expression ≡ false
  pub decides : (is_allow p.action || is_deny p.action) ≡ true

check_policy-IsUsable :
    (env : CelEnv) (top : PolicyMode) (p : Policy)
    → check_policy env p ≡ none
    → IsUsable env (loaded top p)
unfolding check_policy loaded
check_policy-IsUsable env top p h = record {
  has_expression = ground arith;
  mcp_compiles = ground arith;
  cli_compiles = ground arith;
  decides = ground arith;
}

-- A rule that is enabled, or loaded although it is not.
abbrev pub is_wanted : Bool → Policy → Bool
is_wanted load_disabled p = is_enabled p.enabled || load_disabled

abbrev pub wanted : Bool → List Policy → List Policy
wanted load_disabled = select (is_wanted load_disabled)

-- No two rules share a name, disabled ones included, nor is a name in `seen`.
abbrev pub DistinctNames : List String → List Policy → Type 0
DistinctNames seen [] = Unit {0}
DistinctNames seen (p ∷ ps) = (contains p.name seen ≡ false) × DistinctNames (p.name ∷ seen) ps

-- The names in `seen` and those of the rules.
abbrev pub names_after : List String → List Policy → List String
names_after seen [] = seen
names_after seen (p ∷ ps) = names_after (p.name ∷ seen) ps

-- The rule that an error is about.
abbrev pub rule_of : LoadError → Option String
rule_of (invalid_mode m) = none
rule_of (duplicate_name n) = some n
rule_of (no_expression n) = some n
rule_of (mcp_compile n) = some n
rule_of (cli_compile n) = some n
rule_of (invalid_action a n) = some n

-- A rule that has the name of an earlier one, or is wanted and cannot be used.
abbrev pub IsFaulty : CelEnv → PolicyMode → Bool → List String → Policy → Type 0
IsFaulty env top load_disabled seen p =
    (contains p.name seen ≡ true)
    ⊎ ((is_wanted load_disabled p ≡ true) × (IsUsable env (loaded top p) → ⊥))

-- Where the loading of rules ends: after the last one, or with an error about the first faulty one.
abbrev pub EndsAt :
    CelEnv → PolicyMode → Bool → List String → List Policy → Option LoadError → Type 0
EndsAt env top load_disabled seen rest none = rest ≡ []
EndsAt env top load_disabled seen [] (some x) = ⊥
EndsAt env top load_disabled seen (p ∷ rest) (some x) =
    IsFaulty env top load_disabled seen p × (rule_of x ≡ some p.name)

-- What a call appended to the engine: all the wanted rules before the place where it ends, with their
-- modes resolved; they are usable and none of the rules before that place repeats a name.
abbrev pub Loads :
    CelEnv
    → PolicyMode
    → Bool
    → List String
    → List CelPolicy
    → List Policy
    → Option LoadError × List CelPolicy
    → Type 0
Loads env top load_disabled seen engine ps out =
    (before : List Policy) × (rest : List Policy) × (ps ≡ before ++ rest)
    × (out.1 ≡ engine ++ map (loaded top) (wanted load_disabled before))
    × All (λ p. IsUsable env (loaded top p)) (wanted load_disabled before)
    × DistinctNames seen before
    × EndsAt env top load_disabled (names_after seen before) rest out.0

check_policy-unusable :
    (env : CelEnv) (top : PolicyMode) (p : Policy) (x : LoadError)
    → check_policy env p ≡ some x
    → IsUsable env (loaded top p)
    → ⊥
unfolding check_policy loaded
check_policy-unusable env top p x h u =
    ground (arith, h, u.has_expression, u.mcp_compiles, u.cli_compiles, u.decides)

check_policy-names :
    (env : CelEnv) (p : Policy) (x : LoadError)
    → check_policy env p ≡ some x
    → rule_of x ≡ some p.name
unfolding check_policy
check_policy-names env p x h = ground (arith, h)

module _ (env : CelEnv) (top : PolicyMode) (load_disabled : Bool) where
  stopped :
      (x : LoadError) (seen : List String) (engine : List CelPolicy) (p : Policy) (ps : List Policy)
      → IsFaulty env top load_disabled seen p
      → rule_of x ≡ some p.name
      → Loads env top load_disabled seen engine (p ∷ ps) (some x, engine)
  stopped x seen engine p ps f n = ([], p ∷ ps, refl, sym (append-nil engine), tt, tt, (f, n))

  -- One round of the loop, by what it finds.
  module _ (seen : List String) (engine : List CelPolicy) (p : Policy) (ps : List Policy) where
    round_duplicate :
        contains p.name seen ≡ true
        → load_loop env top load_disabled seen engine (p ∷ ps)
          ≡ (some (duplicate_name p.name), engine)
    unfolding load_loop
    round_duplicate e = rw (e, load_loop)

    round_skipped :
        contains p.name seen ≡ false
        → (not (is_enabled p.enabled) && not load_disabled) ≡ true
        → load_loop env top load_disabled seen engine (p ∷ ps)
          ≡ load_loop env top load_disabled (p.name ∷ seen) engine ps
    unfolding load_loop
    round_skipped e s = rw (e, s, load_loop)

    round_refused :
        (x : LoadError)
        → contains p.name seen ≡ false
        → (not (is_enabled p.enabled) && not load_disabled) ≡ false
        → check_policy env p ≡ some x
        → load_loop env top load_disabled seen engine (p ∷ ps) ≡ (some x, engine)
    unfolding load_loop
    round_refused x e s c = rw (e, s, c, load_loop)

    round_loaded :
        contains p.name seen ≡ false
        → (not (is_enabled p.enabled) && not load_disabled) ≡ false
        → check_policy env p ≡ none
        → load_loop env top load_disabled seen engine (p ∷ ps)
          ≡ load_loop env top load_disabled (p.name ∷ seen) (engine ++ loaded top p ∷ []) ps
    unfolding load_loop
    round_loaded e s c = rw (e, s, c, load_loop)

    after_skip :
        (out : Option LoadError × List CelPolicy)
        → contains p.name seen ≡ false
        → (not (is_enabled p.enabled) && not load_disabled) ≡ true
        → Loads env top load_disabled (p.name ∷ seen) engine ps out
        → Loads env top load_disabled seen engine (p ∷ ps) out
    after_skip out e s (before, rest, w, a, u, d, f) =
        let unwanted : is_wanted load_disabled p ≡ false = ground (arith, s) in
        (p ∷ before, rest, ap (◌∷◌ p) w, rw unwanted a, rw unwanted u, (e, d), f)

    after_load :
        (out : Option LoadError × List CelPolicy)
        → contains p.name seen ≡ false
        → (not (is_enabled p.enabled) && not load_disabled) ≡ false
        → check_policy env p ≡ none
        → Loads env top load_disabled (p.name ∷ seen) (engine ++ loaded top p ∷ []) ps out
        → Loads env top load_disabled seen engine (p ∷ ps) out
    after_load out e s c (before, rest, w, a, u, d, f) =
        let is_one : is_wanted load_disabled p ≡ true = ground (arith, s) in
        (
          p ∷ before,
          rest,
          ap (◌∷◌ p) w,
          rw is_one (
              a
              ∙ append_assoc engine (loaded top p ∷ [])
                  (map (loaded top) (wanted load_disabled before))),
          rw is_one (check_policy-IsUsable env top p c, u),
          (e, d),
          f,
        )

  load_loop-Loads :
      (seen : List String) (engine : List CelPolicy) (ps : List Policy)
      → Loads env top load_disabled seen engine ps (load_loop env top load_disabled seen engine ps)
  load_loop-Loads seen engine [] =
      unfold load_loop in ([], [], refl, sym (append-nil engine), tt, tt, refl)
  load_loop-Loads seen engine (p ∷ ps) = elim (Bool-cases (contains p.name seen)) [
    | inl e ↦
        rw (round_duplicate seen engine p ps e)
          (stopped (duplicate_name p.name) seen engine p ps (inl e) refl)
    | inr e ↦ elim (Bool-cases (not (is_enabled p.enabled) && not load_disabled)) [
      | inl skip ↦
          rw (round_skipped seen engine p ps e skip)
            (after_skip seen engine p ps _ e skip (load_loop-Loads (p.name ∷ seen) engine ps))
      | inr keep ↦ elim (Option-cases (check_policy env p)) [
        | inl good ↦ rw (round_loaded seen engine p ps e keep good) (
            after_load seen engine p ps _ e keep good
              (load_loop-Loads (p.name ∷ seen) (engine ++ loaded top p ∷ []) ps))
        | inr (x, bad) ↦ rw (round_refused seen engine p ps x e keep bad) (
            stopped x seen engine p ps
              (inr (ground (arith, keep), check_policy-unusable env top p x bad))
              (check_policy-names env p x bad))
      ]
    ]
  ]

pub load_policies-Loads :
    (env : CelEnv) (top : PolicyMode) (load_disabled : Bool) (engine : List CelPolicy)
    (ps : List Policy)
    → is_valid top ≡ true
    → Loads env top load_disabled [] engine ps (load_policies env top load_disabled engine ps)
unfolding load_policies
load_policies-Loads env top load_disabled engine ps valid =
    rw valid (load_loop-Loads env top load_disabled [] engine ps)
