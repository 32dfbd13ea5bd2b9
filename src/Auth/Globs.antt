-- ===== src/Auth/Globs.antt =====
-- The regular expressions of internal/gateway/auth_middleware.go, on code points (and stray bytes): how a glob becomes a
-- pattern, and the part of Go's `regexp` that such a pattern uses.
pub mod Meaning
pub mod Matching
use maybe_dont.Prelude.{
  ℕ, Bool, true, false, ◌&&◌, ◌||◌, not, List, [], ◌∷◌, ◌++◌, Option, none, some, eqb, leb, some_of,
  if◌then◌else◌,
}

abbrev any_of : List ℕ → ℕ → Bool
any_of [] c = false
any_of (d ∷ ds) c = eqb d c || any_of ds c

-- The characters of `\.+*?()|[]{}^$`.
abbrev pub is_special : ℕ → Bool
is_special c =
    any_of (92 ∷ 46 ∷ 43 ∷ 42 ∷ 63 ∷ 40 ∷ 41 ∷ 124 ∷ 91 ∷ 93 ∷ 123 ∷ 125 ∷ 94 ∷ 36 ∷ []) c

-- `regexp.QuoteMeta`.
unfoldable pub quote_meta : List ℕ → List ℕ
quote_meta [] = []
quote_meta (c ∷ cs) = let rest = quote_meta cs in if is_special c then 92 ∷ c ∷ rest else c ∷ rest

-- `strings.ReplaceAll(s, "\\*", ".+")`.
unfoldable pub replace_stars : List ℕ → List ℕ
replace_stars [] = []
replace_stars (c ∷ []) = c ∷ []
replace_stars (c ∷ d ∷ cs) = elim (eqb c 92 && eqb d 42) [
  | true ↦ 46 ∷ 43 ∷ replace_stars cs
  | false ↦ c ∷ replace_stars (d ∷ cs)
]

unfoldable pub glob_pattern : List ℕ → List ℕ
unfolding quote_meta replace_stars
glob_pattern value = replace_stars (94 ∷ quote_meta value ++ 36 ∷ [])

-- A character as it is, or `.+`.
pub data Atom : Type 0 where
  literal : ℕ → Atom
  some_more : Atom

abbrev pub put {ℓ} : {A : Type ℓ} → A → Option (List A) → Option (List A)
put a none = none
put a (some as') = some (a ∷ as')

-- After `^`, up to a `$` at the end. None for syntax that no glob leads to.
unfoldable pub compile_rest : List ℕ → Option (List Atom)
compile_rest [] = none
compile_rest (c ∷ []) = if eqb c 36 then some [] else none
compile_rest (c ∷ d ∷ cs) = elim (eqb c 92) [
  | true ↦ (if is_special d then put (literal d) (compile_rest cs) else none)
  | false ↦ elim (eqb c 46 && eqb d 43) [
    | true ↦ put some_more (compile_rest cs)
    | false ↦ if is_special c then none else put (literal c) (compile_rest (d ∷ cs))
  ]
]

-- A byte that is no part of valid UTF-8. Such a byte b stands as the code point 0x10FF00 + b.
abbrev pub is_stray : ℕ → Bool
is_stray c = leb 0x10ff80 c

unfoldable pub compile_parts : List ℕ → Option (List Atom)
unfolding compile_rest
compile_parts [] = none
compile_parts (c ∷ cs) = if eqb c 94 then compile_rest cs else none

-- An expression that is not valid UTF-8 is refused first.
unfoldable pub compile : List ℕ → Option (List Atom)
unfolding compile_parts
compile cs = if some_of is_stray cs then none else compile_parts cs

-- `MatchString` of the anchored expression; `.` is any character but a line feed.
unfoldable pub match_string : List Atom → List ℕ → Bool
match_string [] [] = true
match_string [] (c ∷ cs) = false
match_string (a ∷ as') [] = false
match_string (literal d ∷ as') (c ∷ cs) = eqb d c && match_string as' cs
match_string (some_more ∷ as') (c ∷ cs) =
    not (eqb c 10) && (match_string as' cs || match_string (some_more ∷ as') cs)
