-- ===== src/Auth.antt =====
-- internal/gateway/auth_middleware.go: which requests the gateway lets in by a required header. What
-- `r.Header.Get` answers stands for the request; "" is a missing header. A text is its
-- code points; a byte that is not valid UTF-8 stands as one of the code points from 0x10FF80 on, which
-- no text is taken to have otherwise.
pub mod Globs
pub mod Values
pub mod Admission
pub mod Credentials
use maybe_dont.Prelude.{
  ℕ, String, Bool, true, false, ◌==◌, ◌||◌, ◌&&◌, ◌⊎◌, inl, inr, eqb, not, List, [], ◌∷◌, Option,
  none, some, map, if◌then◌else◌,
}
use maybe_dont.Prelude.Text.{split, trim_space, codes, contains_codes}
use maybe_dont.Auth.Globs.{Atom, compile, glob_pattern, match_string}

-- `regex` is none for an exact match.
pub record AllowedValue : Type 0 where
  pub original : String
  pub regex : Option (List Atom)

pub record CallerAuthConfig : Type 0 where
  pub header_name : String
  pub allowed_values : List AllowedValue
  pub enabled : Bool

pub data AuthError : Type 0 where
  only_wildcards not_compiled : String → AuthError

pub data Loaded : Type 0 where
  configured : CallerAuthConfig → Loaded
  refused : AuthError → Loaded

pub data Parsed : Type 0 where
  parsed : AllowedValue → Parsed
  unusable : AuthError → Parsed

pub data AuthOutcome : Type 0 where
  passes_on missing_header invalid_value : AuthOutcome

abbrev pub has_star : String → Bool
has_star v = contains_codes (42 ∷ []) (codes v)

-- `strings.ReplaceAll(value, "*", "")` is empty.
abbrev pub only_stars : List ℕ → Bool
only_stars [] = true
only_stars (c ∷ cs) = eqb c 42 && only_stars cs

-- The pattern is compiled once, as the configuration is loaded.
unfoldable pub parse_allowed_value : String → Parsed
unfolding contains_codes
parse_allowed_value v =
    if not (has_star v)
    then parsed record { original = v; regex = none }
    else if only_stars (codes v)
    then unusable (only_wildcards v)
    else elim (compile (glob_pattern (codes v))) [
      | none ↦ unusable (not_compiled v)
      | some r ↦ parsed record { original = v; regex = some r }
    ]

abbrev pub add_value :
    AllowedValue → (List AllowedValue) ⊎ AuthError → (List AllowedValue) ⊎ AuthError
add_value a (inl as') = inl (a ∷ as')
add_value a (inr e) = inr e

-- The loop over the values between commas; the first one that is unusable ends it.
unfoldable pub parse_values : List String → (List AllowedValue) ⊎ AuthError
unfolding parse_allowed_value
parse_values [] = inl []
parse_values (v ∷ vs) =
    let rest = parse_values vs in
    if v == ""
    then rest
    else elim (parse_allowed_value v) [ parsed a ↦ add_value a rest | unusable e ↦ inr e ]

abbrev pub disabled : CallerAuthConfig
disabled = record { header_name = ""; allowed_values = []; enabled = false }

-- The values between commas, with the space around them taken off.
abbrev pub values_of : String → List String
values_of raw = map trim_space (split 44 (trim_space raw))

abbrev pub from_values : String → (List AllowedValue) ⊎ AuthError → Loaded
from_values name (inr e) = refused e
from_values name (inl []) = configured disabled
from_values name (inl (a ∷ as')) =
    configured record { header_name = name; allowed_values = a ∷ as'; enabled = true }

-- The two arguments are the two variables of the environment.
unfoldable pub load_caller_auth_config : String → String → Loaded
unfolding parse_values split trim_space
load_caller_auth_config name raw =
    if trim_space name == "" || trim_space raw == ""
    then configured disabled
    else from_values (trim_space name) (parse_values (values_of raw))

-- `AllowedValue.Matches`.
unfoldable pub matches : AllowedValue → String → Bool
matches a v = elim a.regex [ some r ↦ match_string r (codes v) | none ↦ v == a.original ]

unfoldable pub matches_any : List AllowedValue → String → Bool
unfolding matches
matches_any [] v = false
matches_any (a ∷ as') v = matches a v || matches_any as' v

unfoldable pub auth_middleware : CallerAuthConfig → (String → String) → AuthOutcome
unfolding matches_any
auth_middleware c header =
    if not c.enabled
    then passes_on
    else if header c.header_name == ""
    then missing_header
    else if not (matches_any c.allowed_values (header c.header_name))
    then invalid_value
    else passes_on

-- The caller that later handlers see; none if authentication is off.
unfoldable pub extract_caller : CallerAuthConfig → (String → String) → Option String
extract_caller c header =
    if not c.enabled
    then none
    else if header c.header_name == ""
    then none
    else some (header c.header_name)
