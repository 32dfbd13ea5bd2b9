-- ===== src/Settings/Paths/Inside.antt =====
-- Where a path leads that internal/config/config.go accepts.
use Prim.Native.Char.{Char, code}
use text.Mathlib.Text.{starts_with}
use maybe_dont.Prelude.{
  ℕ, zero, suc, ◌+◌, ◌<◌, ◌≡◌, refl, ◌∙◌, String, Bool, true, false, ◌==◌, ◌||◌, List, [], ◌∷◌,
  Option, none, some, inl, inr, eqb, if◌then◌else◌, Bool-cases, Option-cases, arith,
}
use maybe_dont.Prelude.Text.{split, cons_first, replace_all, codes}
use maybe_dont.Settings.Paths.{
  FilePaths, PathError, check_location, has_encoding, bad_character, empty_path, url_encoding,
  absolute, parent_reference, or_error, check_component, check_components, components,
  validate_relative_path,
}

abbrev up : ℕ → Option ℕ
up zero = none
up (suc n) = some n

-- One component: nothing and "." stay, ".." leads up, and any other name down.
abbrev step : String → ℕ → Option ℕ
step c depth =
    if c == "" || c == "." then some depth else if c == ".." then up depth else some (suc depth)

-- How far below its base directory a walk along components ends; `none` if it leaves the base.
unfoldable pub walk : ℕ → List String → Option ℕ
walk depth [] = some depth
walk depth (c ∷ cs) = elim (step c depth) [ none ↦ none | some d ↦ walk d cs ]

-- The components that are not empty.
abbrev pub named : List String → ℕ
named [] = 0
named (c ∷ cs) = let n = named cs in if c == "" then n else suc n

plain_component :
    (c : String) → check_component c ≡ none → ((c == "..") ≡ false) × ((c == ".") ≡ false)
unfolding check_component
plain_component c h = elim (Bool-cases (c == "..")) [
  | inl d ↦ absurd (ground (arith, h, d))
  | inr d ↦ elim (Bool-cases (c == ".")) [
    | inl e ↦ absurd (ground (arith, h, d, e))
    | inr e ↦ (d, e)
  ]
]

checked_rest :
    (first : Bool) (c : String) (cs : List String)
    → (c == "") ≡ false
    → check_components first (c ∷ cs) ≡ none
    → (check_component c ≡ none) × (check_components false cs ≡ none)
unfolding check_components
checked_rest first c cs n h = elim (Option-cases (check_component c)) [
  | inl e ↦ (e, ground (arith, n, e, h))
  | inr (x, e) ↦ absurd (ground (arith, n, e, h))
]

last_only :
    (first : Bool) (c d : String) (cs : List String)
    → (c == "") ≡ true
    → check_components first (c ∷ d ∷ cs) ≡ none
    → ⊥
unfolding check_components
last_only first c d cs e h = ground (arith, e, h)

walk-some :
    (c : String) (cs : List String) (depth d : ℕ)
    → step c depth ≡ some d
    → walk depth (c ∷ cs) ≡ walk d cs
unfolding walk
walk-some c cs depth d e = rw (e, walk) refl

checked_walk :
    (first : Bool) (cs : List String) (depth : ℕ)
    → check_components first cs ≡ none
    → walk depth cs ≡ some (depth + named cs)
unfolding walk
checked_walk first [] depth h = ground arith
checked_walk first (c ∷ []) depth h = elim (Bool-cases (c == "")) [
  | inl e ↦ ground (arith, e)
  | inr e ↦
      let (p, r) = checked_rest first c [] e h in
      let (u, v) = plain_component c p in ground (arith, e, u, v)
]
checked_walk first (c ∷ d ∷ cs) depth h = elim (Bool-cases (c == "")) [
  | inl e ↦ absurd (last_only first c d cs e h)
  | inr e ↦
      let (p, r) = checked_rest first c (d ∷ cs) e h in
      let (u, v) = plain_component c p in
      walk-some c (d ∷ cs) depth (suc depth) (ground (arith, e, u, v))
      ∙ checked_walk false (d ∷ cs) (suc depth) r
      ∙ ground (arith, e)
]

first_named :
    (c : String) (cs : List String) → check_components true (c ∷ cs) ≡ none → 0 < named (c ∷ cs)
unfolding check_components
first_named c cs h = elim (Bool-cases (c == "")) [
  | inl e ↦ absurd (ground (arith, e, h))
  | inr e ↦ ground (arith, e)
]

abbrev IsCons : List String → Type 0
IsCons [] = ⊥
IsCons (c ∷ cs) = Unit

first-IsCons : (c : Char) (l : List String) → IsCons (cons_first c l)
first-IsCons c [] = tt
first-IsCons c (s ∷ ss) = tt

if-IsCons : (b : Bool) (x y : List String) → IsCons x → IsCons y → IsCons (if b then x else y)
if-IsCons true x y h k = h
if-IsCons false x y h k = k

split-IsCons : (sep : ℕ) (s : String) → IsCons (split sep s)
unfolding split
split-IsCons sep String.[] = tt
split-IsCons sep (String.◌∷◌ c s) =
    if-IsCons (eqb (code c) sep) ("" ∷ split sep s) (cons_first c (split sep s)) tt
      (first-IsCons c (split sep s))

cons_named : (cs : List String) → IsCons cs → check_components true cs ≡ none → 0 < named cs
cons_named [] i h = absurd i
cons_named (c ∷ cs) i h = first_named c cs h

or_none : (a b : Option PathError) → or_error a b ≡ none → (a ≡ none) × (b ≡ none)
or_none none b h = (refl, h)
or_none (some e) b h = absurd (cc)

location_checks :
    (a b c : Bool) (r : Option PathError)
    → (if a
        then some url_encoding
        else if b
        then some absolute
        else if c
        then some parent_reference
        else r)
      ≡ none
    → r ≡ none
location_checks true b c r h = absurd (cc)
location_checks false true c r h = absurd (cc)
location_checks false false true r h = absurd (cc)
location_checks false false false r h = h

located :
    (os : FilePaths) (path : String)
    → check_location os path ≡ none
    → check_components true (components path) ≡ none
unfolding check_location
located os path h =
    location_checks (has_encoding path) (os.is_abs (os.clean path))
      (starts_with (os.clean path) "..") (check_components true (components path)) h

past_first :
    (b : Bool) (e : PathError) (r : Option PathError) → (if b then some e else r) ≡ none → r ≡ none
past_first true e r h = absurd (cc)
past_first false e r h = h

accepted_checks :
    (os : FilePaths) (path : String)
    → validate_relative_path os path ≡ none
    → check_location os path ≡ none
unfolding validate_relative_path
accepted_checks os path h =
    (or_none (bad_character (codes path)) (check_location os path)
      (past_first (path == "") empty_path _ h)).1

-- An accepted path never leaves its base directory: walked along its components, with "/" and "\\" as
-- separators, it ends as far below the base as it has components with a name, of which it has at
-- least one.
pub validate_relative_path-inside :
    (os : FilePaths) (path : String) (depth : ℕ)
    → validate_relative_path os path ≡ none
    → (walk depth (components path) ≡ some (depth + named (components path)))
      × (0 < named (components path))
validate_relative_path-inside os path depth h =
    let c = located os path (accepted_checks os path h) in
    (
      checked_walk true (components path) depth c,
      cons_named (components path) (split-IsCons 47 (replace_all 92 "/" path)) c,
    )
