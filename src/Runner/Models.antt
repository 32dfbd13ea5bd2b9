-- ===== src/Runner/Models.antt =====
-- Which models internal/testsuite/runner.go tests: the flag, the matrix or the first enabled model; and
-- the keys and endpoints of internal/testsuite/types.go.
use Prim.Native.Char.{code}
use maybe_dont.Prelude.{
  String, Bool, true, ◌==◌, ◌&&◌, List, [], ◌∷◌, Option, none, some, ◌⊎◌, inl, inr, eqb,
  if◌then◌else◌,
}
use maybe_dont.Prelude.Text.{split, trim_space}
use maybe_dont.Policy.{is_enabled}
use maybe_dont.Sessions.{lookup}
use maybe_dont.Runner.{ModelConfig}

pub record ProviderConfig : Type 0 where
  pub api_key : String
  pub endpoint : String

-- `none` is a suite without a section of providers.
abbrev pub Providers : Type 0
Providers = Option (List (String × ProviderConfig))

abbrev provider_of : Providers → String → Option ProviderConfig
provider_of none p = none
provider_of (some ps) p = lookup p ps

abbrev field_of : (ProviderConfig → String) → Option ProviderConfig → String
field_of f none = ""
field_of f (some c) = f c

unfoldable pub resolve_api_key : Providers → ModelConfig → String
resolve_api_key ps m =
    if m.api_key == "" then field_of (λ c. c.api_key) (provider_of ps m.provider) else m.api_key

unfoldable pub resolve_endpoint : Providers → ModelConfig → String
resolve_endpoint ps m =
    if m.endpoint == "" then field_of (λ c. c.endpoint) (provider_of ps m.provider) else m.endpoint

unfoldable pub resolve_model_config : Providers → ModelConfig → ModelConfig
unfolding resolve_api_key resolve_endpoint
resolve_model_config ps m = record m {
  api_key = if m.api_key == "" then resolve_api_key ps m else m.api_key;
  endpoint = if m.endpoint == "" then resolve_endpoint ps m else m.endpoint;
}

-- `strings.SplitN(flag, ":", 2)`: the parts round the first colon, if there is one.
unfoldable pub split_colon : String → Option (String × String)
split_colon String.[] = none
split_colon (String.◌∷◌ c s) =
    let rest = split_colon s in if eqb (code c) 58 then some (String.[], s) else prefixed rest
  where
    prefixed : Option (String × String) → Option (String × String)
    prefixed none = none
    prefixed (some (a, b)) = some (String.◌∷◌ c a, b)

abbrev find_exact : String → String → List ModelConfig → Option ModelConfig
find_exact p m [] = none
find_exact p m (c ∷ cs) =
    let rest = find_exact p m cs in
    if c.provider == p && c.model == m then some (record c { enabled = some true }) else rest

abbrev find_provider : String → String → List ModelConfig → Option ModelConfig
find_provider p m [] = none
find_provider p m (c ∷ cs) =
    let rest = find_provider p m cs in
    if c.provider == p then some (record c { provider = p; model = m; enabled = none }) else rest

abbrev or_model : Option ModelConfig → Option ModelConfig → Option ModelConfig
or_model (some m) d = some m
or_model none d = d

abbrev find_model : List ModelConfig → Option (String × String) → Option ModelConfig
find_model matrix none = none
find_model matrix (some (p, m)) = or_model (find_exact p m matrix) (find_provider p m matrix)

unfoldable pub parse_model_flag : String → List ModelConfig → Option ModelConfig
unfolding split_colon
parse_model_flag flag matrix = find_model matrix (split_colon flag)

pub data ModelError : Type 0 where
  invalid_format unknown_provider : String → ModelError

pub data ModelChoice : Type 0 where
  refused : ModelError → ModelChoice
  chosen : List ModelConfig → ModelChoice

abbrev bare_model : String → String → ModelConfig
bare_model p m = record {
  provider = p;
  model = m;
  endpoint = "";
  api_key = "";
  parameters = none;
  query_params = none;
  headers = none;
  enabled = none;
}

-- A provider of the section whose model is not in the matrix.
abbrev from_section : Providers → String → Option (String × String) → ModelError ⊎ ModelConfig
from_section ps flag none = inl (invalid_format flag)
from_section ps flag (some (p, m)) = elim (provider_of ps p) [
  | none ↦ inl (unknown_provider p)
  | some c ↦ inr (bare_model p m)
]

abbrev flag_model : Providers → List ModelConfig → String → ModelError ⊎ ModelConfig
flag_model ps matrix flag = elim (parse_model_flag flag matrix) [
  | some m ↦ inr m
  | none ↦ from_section ps flag (split_colon flag)
]

abbrev onto_choice : ModelConfig → ModelChoice → ModelChoice
onto_choice m (refused e) = refused e
onto_choice m (chosen ms) = chosen (m ∷ ms)

-- The flags of `--model`, each trimmed and none empty.
unfoldable pub flagged_models : Providers → List ModelConfig → List String → ModelChoice
unfolding parse_model_flag resolve_model_config
flagged_models ps matrix [] = chosen []
flagged_models ps matrix (f ∷ fs) =
    let rest = flagged_models ps matrix fs in
    let flag = trim_space f in
    if flag == "" then rest else elim (flag_model ps matrix flag) [
      | inl e ↦ refused e
      | inr m ↦ onto_choice (resolve_model_config ps m) rest
    ]

abbrev enabled_models : Providers → List ModelConfig → List ModelConfig
enabled_models ps [] = []
enabled_models ps (m ∷ ms) =
    let rest = enabled_models ps ms in
    if is_enabled m.enabled then resolve_model_config ps m ∷ rest else rest

abbrev first_model : List ModelConfig → List ModelConfig
first_model [] = []
first_model (m ∷ ms) = m ∷ []

unfoldable pub get_models_to_test : Providers → List ModelConfig → String → Bool → ModelChoice
unfolding flagged_models split trim_space
get_models_to_test ps matrix flag run_matrix =
    if flag == ""
    then (if run_matrix
        then chosen (enabled_models ps matrix)
        else chosen (first_model (enabled_models ps matrix)))
    else flagged_models ps matrix (split 44 flag)
