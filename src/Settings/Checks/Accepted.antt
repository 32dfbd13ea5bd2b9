-- ===== src/Settings/Checks/Accepted.antt =====
-- What internal/config/config.go guarantees of a configuration that it accepts.
use maybe_dont.Prelude.{
  ℕ, suc, ◌≤◌, ◌≡◌, ◌⊎◌, inl, inr, refl, ◌∙◌, ap, String, Bool, true, false, ◌==◌, ◌||◌, not, List,
  [], ◌∷◌, ◌++◌, none, some, All, if◌then◌else◌, Bool-cases, Option-cases, arith,
}
use maybe_dont.Prelude.Int.{ℤ, pos, negsuc, is_negative, exceeds}
use maybe_dont.Policy.{PolicyMode, Phase, Config, is_valid}
use maybe_dont.Settings.Paths.{FilePaths, components, validate_relative_path}
use maybe_dont.Settings.Paths.Inside.{walk, named, validate_relative_path-inside}
use maybe_dont.Settings.Checks.{
  ConfigError, Settings, when, check_rules, check_modes, check_rule_modes, check_limit, check_path,
  check_server, check_clients, check_ai, check_rest, needs_ai, load_errors_of, validate_config,
}

module _ {A : Type 0} where
  -- No error together means none in either part.
  pub both_empty : (xs ys : List A) → xs ++ ys ≡ [] → (xs ≡ []) × (ys ≡ [])
  both_empty [] ys h = (refl, h)
  both_empty (x ∷ xs) ys h = absurd (cc)

pub when-none : (bad : Bool) (e : ConfigError) → when bad e ≡ [] → bad ≡ false
when-none true e h = absurd (cc)
when-none false e h = refl

pub not-not : (b : Bool) → not b ≡ false → b ≡ true
not-not true h = refl
not-not false h = absurd (cc)

-- Between 0 and a limit, both included.
abbrev pub IsUpTo : ℕ → ℤ → Type 0
IsUpTo limit (pos n) = n ≤ limit
IsUpTo limit (negsuc n) = ⊥

up_to : (limit : ℕ) (v : ℤ) → is_negative v ≡ false → exceeds v limit ≡ false → IsUpTo limit v
up_to limit (pos n) h k = ground arith
up_to limit (negsuc n) h k = absurd (cc)

pub limit_checked :
    (path : String) (v : ℤ) (limit : ℕ) → check_limit path v limit ≡ [] → IsUpTo limit v
limit_checked path v limit h =
    let (a, b) = both_empty (when (is_negative v) _) (when (exceeds v limit) _) h in
    up_to limit v (when-none (is_negative v) _ a) (when-none (exceeds v limit) _ b)

module _ {R : Type 0} (name_of : R → String) (mode_of : R → PolicyMode) (path : String) where
  rules_checked :
      (i : ℕ) (rs : List R)
      → check_rules name_of mode_of path i rs ≡ []
      → All (λ r. is_valid (mode_of r) ≡ true) rs
  rules_checked i [] h = tt
  rules_checked i (r ∷ rs) h =
      let (a, b) =
        both_empty (when (not (is_valid (mode_of r))) _)
          (check_rules name_of mode_of path (suc i) rs) h in
      (not-not (is_valid (mode_of r)) (when-none _ _ a), rules_checked (suc i) rs b)

-- The mode of a phase and of its rules.
abbrev pub HasModes : {R : Type 0} → (R → PolicyMode) → Phase R → Type 0
HasModes mode_of p = (is_valid p.mode ≡ true) × All (λ r. is_valid (mode_of r) ≡ true) p.rules

abbrev pub IsModed : Config → Type 0
IsModed c =
    HasModes (λ r. r.mode) c.request_cel
    × HasModes (λ r. r.mode) c.request_ai
    × HasModes (λ r. r.mode) c.response_cel
    × HasModes (λ r. r.mode) c.response_ai

mode_checked :
    (path : String) (m : PolicyMode)
    → when (not (is_valid m)) (ConfigError.invalid_mode path m) ≡ []
    → is_valid m ≡ true
mode_checked path m h = not-not (is_valid m) (when-none _ _ h)

modes_checked : (c : Config) → check_modes c ≡ [] → check_rule_modes c ≡ [] → IsModed c
unfolding check_modes check_rule_modes
modes_checked c h k =
    let (a, h1) = both_empty _ _ h in
    let (b, h2) = both_empty _ _ h1 in
    let (d, e) = both_empty _ _ h2 in
    let (p, k1) = both_empty _ _ k in
    let (q, k2) = both_empty _ _ k1 in
    let (r, s) = both_empty _ _ k2 in
    (
      (mode_checked _ _ a, rules_checked _ _ _ 0 _ p),
      (mode_checked _ _ b, rules_checked _ _ _ 0 _ q),
      (mode_checked _ _ d, rules_checked _ _ _ 0 _ r),
      (mode_checked _ _ e, rules_checked _ _ _ 0 _ s),
    )

-- No file at all, or one below the directory that the path is resolved in.
abbrev pub StaysInside : String → Type 0
StaysInside path =
    ((path == "" || path == "stdout" || path == "stderr") ≡ true)
    ⊎ (walk 0 (components path) ≡ some (named (components path)))

refused_none :
    (os : FilePaths) (setting path : String)
    → check_path os setting path ≡ []
    → (path == "" || path == "stdout" || path == "stderr") ≡ false
    → validate_relative_path os path ≡ none
unfolding check_path
refused_none os setting path h n = elim (Option-cases (validate_relative_path os path)) [
  | inl e ↦ e
  | inr (x, e) ↦ absurd (ground (arith, h, n, e))
]

path_checked :
    (os : FilePaths) (setting path : String) → check_path os setting path ≡ [] → StaysInside path
path_checked os setting path h =
    elim (Bool-cases (path == "" || path == "stdout" || path == "stderr")) [
      | inl e ↦ inl e
      | inr e ↦ inr (
          (validate_relative_path-inside os path 0 (refused_none os setting path h e)).0
          ∙ ap some (omega arith))
    ]

rest_checked :
    (os : FilePaths) (s : Settings)
    → check_rest os s ≡ []
    → StaysInside s.logger_path × StaysInside s.audit_path
unfolding check_rest
rest_checked os s h =
    let (_, h1) = both_empty _ _ h in
    let (_, h2) = both_empty _ _ h1 in
    let (l, h3) = both_empty _ _ h2 in
    let (a, _) = both_empty _ _ h3 in
    (path_checked os "logger.path" s.logger_path l, path_checked os "audit.path" s.audit_path a)

-- The parts of the check, each without an error.
pub parts_checked :
    (os : FilePaths) (parses : String → Bool) (load_errors : List String) (s : Settings)
    → validate_config os parses load_errors s ≡ []
    → (load_errors_of load_errors ≡ [])
      × (check_modes s.policies ≡ [])
      × (check_rule_modes s.policies ≡ [])
      × (check_server s.server ≡ [])
      × (check_clients s.downstream ≡ [])
      × ((if needs_ai s then check_ai parses s.ai else []) ≡ [])
      × (check_limit "validation.max_blocking_ms" s.max_blocking_ms 120000 ≡ [])
      × (check_limit "validation.max_rule_evaluation_ms" s.max_rule_evaluation_ms 120000 ≡ [])
      × (check_rest os s ≡ [])
unfolding validate_config
parts_checked os parses load_errors s h =
    let (a, h1) = both_empty _ _ h in
    let (b, h2) = both_empty _ _ h1 in
    let (c, h3) = both_empty _ _ h2 in
    let (d, h4) = both_empty _ _ h3 in
    let (e, h5) = both_empty _ _ h4 in
    let (f, h6) = both_empty _ _ h5 in
    let (g, h7) = both_empty _ _ h6 in let (i, j) = both_empty _ _ h7 in (a, b, c, d, e, f, g, i, j)

-- In an accepted configuration each phase and each of its rules is in the mode `audit_only` or
-- `enforce`, both limits of time lie between 0 and 120000 ms, and the paths of the logger and of the
-- audit log, unless they are empty, "stdout" or "stderr", stay below the directory they are resolved in.
pub validate_config_sound :
    (os : FilePaths) (parses : String → Bool) (load_errors : List String) (s : Settings)
    → validate_config os parses load_errors s ≡ []
    → IsModed s.policies
      × IsUpTo 120000 s.max_blocking_ms
      × IsUpTo 120000 s.max_rule_evaluation_ms
      × (StaysInside s.logger_path × StaysInside s.audit_path)
validate_config_sound os parses load_errors s h =
    let (_, m, r, _, _, _, b, e, p) = parts_checked os parses load_errors s h in
    (
      modes_checked s.policies m r,
      limit_checked _ _ 120000 b,
      limit_checked _ _ 120000 e,
      rest_checked os s p,
    )
