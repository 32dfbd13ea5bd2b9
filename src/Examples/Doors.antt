-- ===== src/Examples/Doors.antt =====
-- Authentication and credentials, at concrete inputs.
use maybe_dont.Prelude.{
  ◌≡◌, refl, String, true, ◌==◌, ◌||◌, ◌&&◌, not, [], ◌∷◌, some, some_of, if◌then◌else◌,
}
use maybe_dont.Prelude.Text.{trim_space, is_space, split, contains_codes}
use maybe_dont.Sessions.{lookup}
use maybe_dont.Settings.Checks.{CredentialMapping}
use maybe_dont.Auth.{
  CallerAuthConfig, refused, only_wildcards, passes_on, missing_header, invalid_value, values_of,
  load_caller_auth_config, auth_middleware, extract_caller, parse_allowed_value, matches,
}
use maybe_dont.Auth.Globs.{match_string}
use maybe_dont.Auth.Values.{is_unusable, present, value_of}
use maybe_dont.Auth.Admission.{is_refused, load_caller_auth_config-refuses}
use maybe_dont.Auth.Credentials.{auth_headers}
use maybe_dont.Auth.Credentials.Passed.{last_value, auth_headers-lookup}

abbrev name : String
name = " X-Caller "

abbrev raw : String
raw = "alpha, team.*,"

abbrev guarded : CallerAuthConfig
guarded = record {
  header_name = "X-Caller";
  allowed_values = value_of "alpha" ∷ value_of "team.*" ∷ [];
  enabled = true;
}

-- A request with one header.
abbrev called : String → String → String
called v h = if h == "X-Caller" then v else ""

team_passes : auth_middleware guarded (called "team.blue") ≡ passes_on
unfolding auth_middleware contains_codes match_string matches
team_passes = refl

-- The point of the glob is no wildcard.
point_is_literal : auth_middleware guarded (called "teams") ≡ invalid_value
unfolding auth_middleware contains_codes match_string matches
point_is_literal = refl

-- A star takes at least one character.
star_takes_some : auth_middleware guarded (called "team.") ≡ invalid_value
unfolding auth_middleware contains_codes match_string matches
star_takes_some = refl

no_header : auth_middleware guarded (λ h. "") ≡ missing_header
unfolding auth_middleware
no_header = refl

caller_is_kept : extract_caller guarded (called "alpha") ≡ some "alpha"
unfolding extract_caller
caller_is_kept = refl

star_refused : load_caller_auth_config name "alpha,**" ≡ refused (only_wildcards "**")
unfolding load_caller_auth_config trim_space split contains_codes parse_allowed_value is_space
star_refused = refl

load_caller_auth_config-refuses_example : is_refused (load_caller_auth_config name "alpha,**") ≡ (
    not (trim_space name == "" || trim_space "alpha,**" == "")
    && some_of is_unusable (present (values_of "alpha,**")))
load_caller_auth_config-refuses_example = load_caller_auth_config-refuses name "alpha,**"

abbrev bearer : CredentialMapping
bearer = record {
  source_header = "X-Caller";
  target_header = "Authorization";
  format = "Bearer {value}";
}

bearer_passed :
    auth_headers (bearer ∷ []) (some (called "key")) ≡ ("Authorization", "Bearer key") ∷ []
unfolding auth_headers
bearer_passed = refl

auth_headers-lookup_example :
    lookup "Authorization" (auth_headers (bearer ∷ []) (some (called "key")))
    ≡ last_value (called "key") "Authorization" (bearer ∷ [])
auth_headers-lookup_example =
    auth_headers-lookup (bearer ∷ []) (some (called "key")) "Authorization"
