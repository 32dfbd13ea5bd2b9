-- ===== src/Settings/Paths.antt =====
-- `ValidateRelativePath` of internal/config/config.go. Lower case is that of ASCII, since the patterns
-- that it serves are ASCII.
pub mod Inside
use text.Mathlib.Text.{starts_with}
use maybe_dont.Prelude.{
  ℕ, suc, ◌+◌, String, Bool, true, false, ◌==◌, ◌&&◌, ◌||◌, not, List, [], ◌∷◌, Option, none, some,
  ltb, leb, eqb, is_some, some_of, map, if◌then◌else◌,
}
use maybe_dont.Prelude.Text.{split, trim_space, replace_all, codes, contains_codes, lower_code}

-- `filepath.Clean` and `filepath.IsAbs`, which depend on the operating system.
pub record FilePaths : Type 0 where
  pub clean : String → String
  pub is_abs : String → Bool

pub data PathError : Type 0 where
  empty_path null_byte control_character url_encoding absolute parent_reference : PathError
  leading_separator empty_component parent_component current_component : PathError
  hidden_component dot_sequence outer_space colon : PathError

abbrev encoded_patterns : List String
encoded_patterns =
    "%2e" ∷ "%2f" ∷ "%5c" ∷ "%00" ∷ "%252e" ∷ "%252f" ∷ "%c0%ae" ∷ "%c0%af" ∷ "%c1%9c" ∷ []

-- The first character that is not allowed: 0, or another below 32 that is no tab.
abbrev pub bad_character : List ℕ → Option PathError
bad_character [] = none
bad_character (c ∷ cs) =
    let rest = bad_character cs in
    if eqb c 0
    then some null_byte
    else if ltb c 32 && not (eqb c 9)
    then some control_character
    else rest

-- The checks of one component that is not empty.
unfoldable pub check_component : String → Option PathError
check_component c =
    if c == ".."
    then some parent_component
    else if c == "."
    then some current_component
    else if starts_with c "."
    then some hidden_component
    else if contains_codes (codes "...") (codes c)
    then some dot_sequence
    else if not (trim_space c == c)
    then some outer_space
    else if contains_codes (codes ":") (codes c)
    then some colon
    else none

-- The loop over the components; `first` is the one at index 0.
unfoldable pub check_components : Bool → List String → Option PathError
unfolding check_component
check_components first [] = none
check_components first (c ∷ cs) =
    let rest = check_components false cs in
    if c == ""
    then (if first
        then some leading_separator
        else elim cs [ [] ↦ none | d ∷ ds ↦ some empty_component ])
    else elim (check_component c) [ some e ↦ some e | none ↦ rest ]

-- `\` counts as a separator.
abbrev pub components : String → List String
components path = split 47 (replace_all 92 "/" path)

abbrev pub has_encoding : String → Bool
has_encoding path =
    some_of (λ p. contains_codes (codes p) (map lower_code (codes path))) encoded_patterns

abbrev pub or_error : Option PathError → Option PathError → Option PathError
or_error (some e) rest = some e
or_error none rest = rest

-- The checks after those of the characters.
unfoldable pub check_location : FilePaths → String → Option PathError
unfolding check_components split replace_all contains_codes
check_location os path =
    if has_encoding path
    then some url_encoding
    else if os.is_abs (os.clean path)
    then some absolute
    else if starts_with (os.clean path) ".."
    then some parent_reference
    else check_components true (components path)

-- `none` if the path is accepted.
unfoldable pub validate_relative_path : FilePaths → String → Option PathError
unfolding check_location
validate_relative_path os path =
    if path == ""
    then some empty_path
    else or_error (bad_character (codes path)) (check_location os path)
