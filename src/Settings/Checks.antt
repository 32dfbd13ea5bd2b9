-- ===== src/Settings/Checks.antt =====
-- `validateConfigWithOptions` of internal/config/config.go: every error of a configuration, in order. An
-- error is a value with the path of the setting; the wording and the guidance after it are left out.
-- A list stands for the map of downstream servers. `parses` says whether `url.Parse` accepts a text.
pub mod Accepted
pub mod Clients
use Prim.Native.String.{◌++◌ as join}
use maybe_dont.Prelude.{
  ℕ, suc, String, Bool, true, false, ◌==◌, ◌&&◌, ◌||◌, not, List, [], ◌∷◌, ◌++◌, Option, none, some,
  eqb, contains, if◌then◌else◌,
}
use maybe_dont.Prelude.Int.{ℤ, is_negative, exceeds, is_below}
use maybe_dont.Prelude.Text.{decimal}
use maybe_dont.Policy.{PolicyMode, Policy, AiPolicy, ResponsePolicy, Phase, Config, is_valid}
use maybe_dont.Settings.Paths.{FilePaths, PathError, validate_relative_path}

pub data ConfigError : Type 0 where
  load_error required negative too_large out_of_range : String → ConfigError
  invalid_mode : String → PolicyMode → ConfigError
  invalid_rule_mode : String → ℕ → String → PolicyMode → ConfigError
  invalid_value : String → String → ConfigError
  unsupported_pass_through : String → String → ConfigError
  unsafe_path : String → PathError → ConfigError

pub record ServerSettings : Type 0 where
  pub kind : String
  pub listen_addr : String
  pub tls_enabled : Bool
  pub cert_file : String
  pub key_file : String

pub record CredentialMapping : Type 0 where
  pub source_header : String
  pub target_header : String
  pub format : String

pub record ClientSettings : Type 0 where
  pub kind : String
  pub downstream_url : String
  pub command : String
  pub startup_timeout_ms : ℤ
  pub initialization_retries : ℤ
  pub retry_delay_ms : ℤ
  pub capability_discovery_delay_ms : ℤ
  pub capability_discovery_retries : ℤ
  pub capability_retry_delay_ms : ℤ
  pub pass_through : Bool
  pub pass_through_headers : List CredentialMapping

pub record AiSettings : Type 0 where
  pub provider : String
  pub endpoint : String
  pub model : String
  pub api_key : String

-- The settings that the checks read; `policies` are the four validation phases.
pub record Settings : Type 0 where
  pub policies : Config
  pub server : ServerSettings
  pub downstream : List (String × ClientSettings)
  pub ai : AiSettings
  pub max_blocking_ms : ℤ
  pub max_rule_evaluation_ms : ℤ
  pub audit_log_enabled : Bool
  pub audit_log_max_entries : ℤ
  pub audit_report_enabled : Bool
  pub audit_report_max_entries : ℤ
  pub audit_report_timeout_seconds : ℤ
  pub logger_path : String
  pub audit_path : String
  pub cli_enabled : Bool
  pub cli_commands : List String

-- `if bad { errors = append(errors, e) }`.
abbrev pub when : Bool → ConfigError → List ConfigError
when bad e = if bad then e ∷ [] else []

abbrev pub check_mode : String → PolicyMode → List ConfigError
check_mode path m = when (not (is_valid m)) (invalid_mode path m)

module _ {R : Type 0} (name_of : R → String) (mode_of : R → PolicyMode) (path : String) where
  abbrev pub check_rules : ℕ → List R → List ConfigError
  check_rules i [] = []
  check_rules i (r ∷ rs) =
      when (not (is_valid (mode_of r))) (invalid_rule_mode path i (name_of r) (mode_of r))
      ++ check_rules (suc i) rs

unfoldable pub check_modes : Config → List ConfigError
check_modes c =
    check_mode "request_validation.cel.mode" c.request_cel.mode
    ++ (check_mode "request_validation.ai.mode" c.request_ai.mode
        ++ (check_mode "response_validation.cel.mode" c.response_cel.mode
            ++ check_mode "response_validation.ai.mode" c.response_ai.mode))

abbrev pub check_cel_rules : String → List Policy → List ConfigError
check_cel_rules path = check_rules (λ r. r.name) (λ r. r.mode) path 0

abbrev pub check_ai_rules : String → List AiPolicy → List ConfigError
check_ai_rules path = check_rules (λ r. r.name) (λ r. r.mode) path 0

abbrev pub check_response_rules : String → List ResponsePolicy → List ConfigError
check_response_rules path = check_rules (λ r. r.name) (λ r. r.mode) path 0

unfoldable pub check_rule_modes : Config → List ConfigError
check_rule_modes c =
    check_cel_rules "request_validation.cel.rules" c.request_cel.rules
    ++ (check_ai_rules "request_validation.ai.rules" c.request_ai.rules
        ++ (check_response_rules "response_validation.cel.rules" c.response_cel.rules
            ++ check_ai_rules "response_validation.ai.rules" c.response_ai.rules))

unfoldable pub check_server : ServerSettings → List ConfigError
check_server s =
    when (not (contains s.kind ("stdio" ∷ "http" ∷ "sse" ∷ [])))
      (invalid_value "server.type" s.kind)
    ++ (when (not (s.kind == "stdio") && s.listen_addr == "") (required "server.listen_addr")
        ++ (if s.kind == "sse" && s.tls_enabled
            then when (s.cert_file == "") (required "server.sse.tls.cert_file")
              ++ when (s.key_file == "") (required "server.sse.tls.key_file")
            else []))

abbrev pub of_client : String → String → String
of_client name field = join "downstream_mcp_servers[" (join name (join "]." field))

abbrev pub check_client_kind : String → ClientSettings → List ConfigError
check_client_kind name c =
    if c.kind == "stdio"
    then when (c.command == "") (required (of_client name "command"))
    else if c.kind == "sse" || c.kind == "http"
    then when (c.downstream_url == "") (required (of_client name "url"))
    else invalid_value (of_client name "type") c.kind ∷ []

-- A value that is negative or above its limit.
abbrev pub check_limit : String → ℤ → ℕ → List ConfigError
check_limit path v limit =
    when (is_negative v) (negative path) ++ when (exceeds v limit) (too_large path)

abbrev pub check_mappings : String → ℕ → List CredentialMapping → List ConfigError
check_mappings name i [] = []
check_mappings name i (m ∷ ms) =
    let at_index = join (of_client name "auth.pass_through.headers[") (join (decimal i) "].") in
    when (m.source_header == "") (required (join at_index "source_header"))
    ++ (when (m.target_header == "") (required (join at_index "target_header"))
        ++ check_mappings name (suc i) ms)

abbrev pub check_pass_through : String → ClientSettings → List ConfigError
check_pass_through name c =
    if not c.pass_through
    then []
    else if c.kind == "http" || c.kind == "sse"
    then (elim c.pass_through_headers [
      | [] ↦ required (of_client name "auth.pass_through.headers") ∷ []
      | m ∷ ms ↦ check_mappings name 0 (m ∷ ms)
    ])
    else unsupported_pass_through name c.kind ∷ []

unfoldable pub check_client : String → ClientSettings → List ConfigError
unfolding decimal
check_client name c =
    check_client_kind name c
    ++ (check_limit (of_client name "startup_timeout_ms") c.startup_timeout_ms 300000
        ++ (check_limit (of_client name "initialization_retries") c.initialization_retries 10
            ++ (check_limit (of_client name "retry_delay_ms") c.retry_delay_ms 10000
                ++ (check_limit (of_client name "capability_discovery_delay_ms")
                      c.capability_discovery_delay_ms 60000
                    ++ (check_limit (of_client name "capability_discovery_retries")
                          c.capability_discovery_retries 10
                        ++ (check_limit (of_client name "capability_retry_delay_ms")
                              c.capability_retry_delay_ms 30000
                            ++ check_pass_through name c))))))

unfoldable pub check_clients : List (String × ClientSettings) → List ConfigError
unfolding check_client
check_clients [] = []
check_clients ((name, c) ∷ cs) = check_client name c ++ check_clients cs

unfoldable pub check_ai : (String → Bool) → AiSettings → List ConfigError
check_ai parses a =
    when (not (contains a.provider ("" ∷ "openai" ∷ "openai_compatible" ∷ "anthropic" ∷ [])))
      (invalid_value "validation.ai.provider" a.provider)
    ++ (when (a.api_key == "") (required "validation.ai.api_key")
        ++ (when (a.provider == "openai_compatible" && a.endpoint == "")
              (required "validation.ai.endpoint")
            ++ (when (not (a.endpoint == "") && not (parses a.endpoint))
                  (invalid_value "validation.ai.endpoint" a.endpoint)
                ++ when (a.model == "") (required "validation.ai.model"))))

-- `validateRange`.
unfoldable pub validate_range : ℤ → ℕ → ℕ → String → List ConfigError
validate_range v low high path = when (is_below v low || exceeds v high) (out_of_range path)

abbrev path_error : String → Option PathError → List ConfigError
path_error setting none = []
path_error setting (some e) = unsafe_path setting e ∷ []

unfoldable pub check_path : FilePaths → String → String → List ConfigError
check_path os setting path =
    if path == "" || path == "stdout" || path == "stderr"
    then []
    else path_error setting (validate_relative_path os path)

abbrev is_empty : List String → Bool
is_empty [] = true
is_empty (c ∷ cs) = false

abbrev load_errors_of : List String → List ConfigError
load_errors_of [] = []
load_errors_of (e ∷ es) = load_error e ∷ load_errors_of es

abbrev needs_ai : Settings → Bool
needs_ai s =
    s.policies.request_ai.enabled || s.policies.response_ai.enabled || s.audit_report_enabled

-- The native tools, the two paths and the validation of commands.
unfoldable pub check_rest : FilePaths → Settings → List ConfigError
unfolding check_path validate_range
check_rest os s =
    (if s.audit_log_enabled
      then validate_range s.audit_log_max_entries 10 500 "native_tools.audit_log.max_entries"
      else [])
    ++ ((if s.audit_report_enabled
          then validate_range s.audit_report_max_entries 10 2000
              "native_tools.audit_report.max_entries"
            ++ validate_range s.audit_report_timeout_seconds 30 300
                "native_tools.audit_report.timeout_seconds"
          else [])
        ++ (check_path os "logger.path" s.logger_path
            ++ (check_path os "audit.path" s.audit_path
                ++ when (s.cli_enabled && is_empty s.cli_commands)
                    (required "cli_request_validation.validate_commands"))))

-- All errors; none means that the configuration is accepted.
unfoldable pub validate_config :
    FilePaths → (String → Bool) → List String → Settings → List ConfigError
unfolding check_modes check_rule_modes check_server check_clients check_ai check_rest
validate_config os parses load_errors s =
    load_errors_of load_errors
    ++ (check_modes s.policies
        ++ (check_rule_modes s.policies
            ++ (check_server s.server
                ++ (check_clients s.downstream
                    ++ ((if needs_ai s then check_ai parses s.ai else [])
                        ++ (check_limit "validation.max_blocking_ms" s.max_blocking_ms 120000
                            ++ (check_limit "validation.max_rule_evaluation_ms"
                                  s.max_rule_evaluation_ms 120000
                                ++ check_rest os s)))))))
