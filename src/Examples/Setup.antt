-- ===== src/Examples/Setup.antt =====
-- The checks of a configuration, at concrete inputs.
use text.Mathlib.Text.{starts_with}
use maybe_dont.Prelude.{
  Bool, ◌≤◌, ◌↔◌, ℕ, List, ltb, if◌then◌else◌, ◌≡◌, refl, String, true, false, [], ◌∷◌, none, some,
  All,
}
use maybe_dont.Prelude.Int.{pos, negsuc}
use maybe_dont.Policy.{Policy, Config, is_valid, audit_only, enforce, no_mode, deny}
use maybe_dont.Prelude.Text.{trim_space}
use maybe_dont.Downstream.{
  Answer, answers, fails, ready, found, backoff, initialize, initialize_from, natural,
  discover_tools,
}
use maybe_dont.Downstream.Startup.{IsPatient, accepted_starts_patiently}
use maybe_dont.Downstream.Discovery.{
  Reaches, initialize_from-ready, first_tools, first_or_last, discover_tools-first,
}
use maybe_dont.Settings.Paths.{
  parent_reference, url_encoding, parent_component, absolute, FilePaths, validate_relative_path,
}
use maybe_dont.Settings.Checks.{
  ConfigError, Settings, ClientSettings, validate_config, required, invalid_mode, too_large,
  negative, unsafe_path,
}
use maybe_dont.Settings.Checks.Accepted.{IsModed, IsUpTo, StaysInside, validate_config_sound}
use maybe_dont.Settings.Checks.Clients.{IsRunnable, IsTimed, validate_config-downstream}

-- Paths that are clean already, where "/" begins an absolute one.
abbrev unix : FilePaths
unix = record { clean = λ p. p; is_abs = λ p. starts_with p "/" }

log_accepted : validate_relative_path unix "logs/audit.log" ≡ none
unfolding validate_relative_path trim_space
log_accepted = refl

-- A separator at the end is no empty component.
trailing : validate_relative_path unix "logs/" ≡ none
unfolding validate_relative_path trim_space
trailing = refl

parent_refused : validate_relative_path unix "../secrets" ≡ some parent_reference
unfolding validate_relative_path trim_space
parent_refused = refl

encoded_refused : validate_relative_path unix "logs/%2E%2e/x" ≡ some url_encoding
unfolding validate_relative_path trim_space
encoded_refused = refl

inner_refused : validate_relative_path unix "logs\\..\\x" ≡ some parent_component
unfolding validate_relative_path trim_space
inner_refused = refl

abbrev no_shell : Policy
no_shell = record {
  name = "no-shell";
  description = "";
  expression = "";
  mcp_expression = "";
  cli_expression = "";
  action = deny;
  message = "";
  enabled = none;
  mode = enforce;
}

abbrev phases : Config
phases = record {
  request_cel = record { enabled = true; mode = audit_only; rules = no_shell ∷ [] };
  request_ai = record { enabled = true; mode = enforce; rules = [] };
  response_cel = record { enabled = false; mode = audit_only; rules = [] };
  response_ai = record { enabled = false; mode = audit_only; rules = [] };
}

abbrev github : ClientSettings
github = record {
  kind = "http";
  downstream_url = "https://mcp.test";
  command = "";
  startup_timeout_ms = pos 300000;
  initialization_retries = pos 10;
  retry_delay_ms = pos 1000;
  capability_discovery_delay_ms = pos 0;
  capability_discovery_retries = pos 3;
  capability_retry_delay_ms = pos 500;
  pass_through = true;
  pass_through_headers =
      record { source_header = "X-Token"; target_header = "Authorization"; format = "" } ∷ [];
}

abbrev setup : Settings
setup = record {
  policies = phases;
  server = record {
    kind = "http";
    listen_addr = ":8080";
    tls_enabled = false;
    cert_file = "";
    key_file = "";
  };
  downstream = ("github", github) ∷ [];
  ai = record { provider = ""; endpoint = ""; model = "gpt"; api_key = "key" };
  max_blocking_ms = pos 120000;
  max_rule_evaluation_ms = pos 5000;
  audit_log_enabled = true;
  audit_log_max_entries = pos 500;
  audit_report_enabled = false;
  audit_report_max_entries = pos 0;
  audit_report_timeout_seconds = pos 0;
  logger_path = "stdout";
  audit_path = "logs/audit.log";
  cli_enabled = false;
  cli_commands = [];
}

setup_accepted : validate_config unix (λ u. true) [] setup ≡ []
unfolding validate_config is_valid validate_relative_path trim_space
setup_accepted = refl

-- Each fault is reported, in order.
faults :
    validate_config unix
      (λ u. true)
      ("unreadable" ∷ [])
      record setup {
        policies = record phases { request_ai = record phases.request_ai { mode = no_mode } };
        ai = record setup.ai { api_key = "" };
        max_blocking_ms = pos 120001;
        max_rule_evaluation_ms = negsuc 0;
        audit_path = "/var/log/audit";
      }
    ≡ ConfigError.load_error "unreadable"
      ∷ invalid_mode "request_validation.ai.mode" no_mode
      ∷ required "validation.ai.api_key"
      ∷ too_large "validation.max_blocking_ms"
      ∷ negative "validation.max_rule_evaluation_ms"
      ∷ unsafe_path "audit.path" absolute
      ∷ []
unfolding validate_config is_valid validate_relative_path trim_space
faults = refl

validate_config_sound_example :
    IsModed phases
    × IsUpTo 120000 setup.max_blocking_ms
    × IsUpTo 120000 setup.max_rule_evaluation_ms
    × (StaysInside "stdout" × StaysInside "logs/audit.log")
validate_config_sound_example = validate_config_sound unix (λ u. true) [] setup setup_accepted

validate_config-downstream_example :
    All (λ (e : String × ClientSettings). IsRunnable e.1 × IsTimed e.1) (("github", github) ∷ [])
validate_config-downstream_example =
    validate_config-downstream unix (λ u. true) [] setup setup_accepted

-- The server answers the third call.
abbrev slow : ℕ → Answer (List String)
slow n = if ltb n 2 then fails "refused" else answers ("read" ∷ [])

abbrev never : ℕ → Bool
never n = false

slow_starts :
    initialize github slow never never
    ≡ (ready ("read" ∷ []), (3, pos 1000000000 ∷ pos 2000000000 ∷ []))
unfolding initialize
slow_starts = refl

-- With a delay of 10^13 ms, which the checks refuse, the product would overflow.
overflow : backoff 10000000000000 0 ≡ negsuc 8446744073709551615
unfolding backoff
overflow = refl

accepted_starts_patiently_example :
    All
      (λ (e : String × ClientSettings).
        IsPatient 2000000000 (natural e.1.initialization_retries) (initialize e.1 slow never never))
      (("github", github) ∷ [])
accepted_starts_patiently_example =
    accepted_starts_patiently unix (λ u. true) [] setup (λ n. slow) (λ n. never) (λ n. never)
      setup_accepted

initialize_from-ready_example :
    ((initialize_from (backoff 1000) slow never never 10 0).0 ≡ ready ("read" ∷ []))
    ↔ ((k : ℕ) × (k ≤ 10) × Reaches (backoff 1000) slow never never k 0 ("read" ∷ []))
initialize_from-ready_example =
    initialize_from-ready (backoff 1000) slow never never 10 ("read" ∷ [])

abbrev late : ℕ → Answer (List String)
late n = if ltb n 2 then answers [] else answers ("read" ∷ [])

late_tools : discover_tools 3 late never ≡ found ("read" ∷ [])
unfolding discover_tools
late_tools = refl

no_tools : discover_tools 1 late never ≡ found []
unfolding discover_tools
no_tools = refl

discover_tools-first_example :
    discover_tools 3 late never ≡ first_or_last (first_tools late 3 0) (late 3)
discover_tools-first_example = discover_tools-first 3 late never (λ i. refl)
