-- ===== src/Auth/Admission.antt =====
-- Which requests internal/gateway/auth_middleware.go lets in, in terms of the two variables of the
-- environment.
use maybe_dont.Prelude.{
  ◌≡◌, ◌↔◌, ◌⊎◌, refl, ◌∙◌, ap, inl, inr, String, Bool, true, false, ◌==◌, ◌&&◌, ◌||◌, not, List,
  [], ◌∷◌, map, some_of, Bool-cases,
}
use maybe_dont.Prelude.Text.{trim_space}
use maybe_dont.Auth.{
  CallerAuthConfig, AuthError, Loaded, configured, refused, passes_on, disabled, values_of,
  from_values, parse_values, load_caller_auth_config, auth_middleware,
}
use maybe_dont.Auth.Values.{
  AllowsOneOf, is_unusable, present, value_of, values_usable, values_unusable,
}

abbrev is_empty : {A : Type 0} → List A → Bool
is_empty [] = true
is_empty (a ∷ as') = false

-- A variable is blank, or the second has no value between its commas.
abbrev pub is_open : String → String → Bool
is_open name raw =
    trim_space name == "" || trim_space raw == "" || is_empty (present (values_of raw))

-- The configuration that is loaded when no value is unusable.
abbrev usable_config : String → List String → CallerAuthConfig
usable_config name [] = disabled
usable_config name (v ∷ vs) = record {
  header_name = name;
  allowed_values = map value_of (v ∷ vs);
  enabled = true;
}

usable_from :
    (name : String) (vs : List String)
    → from_values name (inl (map value_of vs)) ≡ configured (usable_config name vs)
usable_from name [] = refl
usable_from name (v ∷ vs) = refl

loads_open :
    (name raw : String)
    → (trim_space name == "" || trim_space raw == "") ≡ true
    → load_caller_auth_config name raw ≡ configured disabled
unfolding load_caller_auth_config
loads_open name raw h = rw h refl

loads_parsed :
    (name raw : String)
    → (trim_space name == "" || trim_space raw == "") ≡ false
    → load_caller_auth_config name raw
      ≡ from_values (trim_space name) (parse_values (values_of raw))
unfolding load_caller_auth_config
loads_parsed name raw h = rw h refl

loads_usable :
    (name raw : String)
    → (trim_space name == "" || trim_space raw == "") ≡ false
    → some_of is_unusable (present (values_of raw)) ≡ false
    → load_caller_auth_config name raw
      ≡ configured (usable_config (trim_space name) (present (values_of raw)))
loads_usable name raw h k =
    loads_parsed name raw h
    ∙ ap (from_values (trim_space name)) (values_usable (values_of raw) k)
    ∙ usable_from (trim_space name) (present (values_of raw))

loads_unusable :
    (name raw : String)
    → (trim_space name == "" || trim_space raw == "") ≡ false
    → some_of is_unusable (present (values_of raw)) ≡ true
    → (e : AuthError) × (load_caller_auth_config name raw ≡ refused e)
loads_unusable name raw h k =
    let (e, p) = values_unusable (values_of raw) k in
    (e, loads_parsed name raw h ∙ ap (from_values (trim_space name)) p)

abbrev pub is_refused : Loaded → Bool
is_refused (configured c) = false
is_refused (refused e) = true

-- Loading fails exactly when both variables are set and one of the values between the commas consists
-- of stars only, or has a star and is not valid UTF-8; no other value fails to compile.
pub load_caller_auth_config-refuses :
    (name raw : String)
    → is_refused (load_caller_auth_config name raw) ≡ (
        not (trim_space name == "" || trim_space raw == "")
        && some_of is_unusable (present (values_of raw)))
load_caller_auth_config-refuses name raw =
    elim (Bool-cases (trim_space name == "" || trim_space raw == "")) [
      | inl o ↦ rw (loads_open name raw o, o) refl
      | inr o ↦ elim (Bool-cases (some_of is_unusable (present (values_of raw)))) [
        | inl b ↦ let (e, p) = loads_unusable name raw o b in rw (p, o, b) refl
        | inr b ↦ rw (loads_usable name raw o b, o, b) refl
      ]
    ]

-- What the middleware asks of a request.
abbrev pub IsLetIn : String → List String → (String → String) → Type 0
IsLetIn name vs header = ((header name == "") ≡ false) × AllowsOneOf vs (header name)

LetsIn : String → String → (String → String) → CallerAuthConfig → Type 0
LetsIn name raw header c =
    (auth_middleware c header ≡ passes_on)
    ↔ ((is_open name raw ≡ true) ⊎ IsLetIn (trim_space name) (present (values_of raw)) header)
