-- ===== src/Policy.antt =====
-- internal/config/config.go: rules, their actions and modes. `PolicyAction` and `PolicyMode` are
-- Go strings: the constants are constructors, the empty string is `unset`, any other is `other`.
pub mod Modes
use maybe_dont.Prelude.{
  ℕ, String, Bool, true, false, Option, none, some, List, map, ◌||◌, if◌then◌else◌,
}

pub data PolicyAction : Type 0 where
  allow deny redact unset : PolicyAction
  other : String → PolicyAction

abbrev pub is_allow : PolicyAction → Bool
is_allow allow = true
is_allow _ = false

abbrev pub is_deny : PolicyAction → Bool
is_deny deny = true
is_deny _ = false

abbrev pub is_redact : PolicyAction → Bool
is_redact redact = true
is_redact _ = false

abbrev pub is_unset : PolicyAction → Bool
is_unset unset = true
is_unset _ = false

pub data PolicyMode : Type 0 where
  audit_only enforce no_mode : PolicyMode
  other_mode : String → PolicyMode

unfoldable pub is_valid : PolicyMode → Bool
is_valid audit_only = true
is_valid enforce = true
is_valid _ = false

unfoldable pub normalize : PolicyMode → PolicyMode → PolicyMode
normalize no_mode default_mode = default_mode
normalize m default_mode = m

abbrev pub is_audit_only : PolicyMode → Bool
is_audit_only audit_only = true
is_audit_only _ = false

unfoldable pub resolve_policy_mode : PolicyMode → PolicyMode → PolicyMode
resolve_policy_mode top rule =
    if is_audit_only top then audit_only else if is_audit_only rule then audit_only else enforce

pub record Policy : Type 0 where
  pub name : String
  pub description : String
  pub expression : String
  pub mcp_expression : String
  pub cli_expression : String
  pub action : PolicyAction
  pub message : String
  pub enabled : Option Bool
  pub mode : PolicyMode

pub record AiPolicy : Type 0 where
  pub name : String
  pub description : String
  pub prompt : String
  pub action : PolicyAction
  pub message : String
  pub enabled : Option Bool
  pub mode : PolicyMode

pub record ResponsePolicy : Type 0 where
  pub name : String
  pub description : String
  pub expression : String
  pub action : PolicyAction
  pub message : String
  pub redaction_pattern : String
  pub redaction_replacement : String
  pub enabled : Option Bool
  pub mode : PolicyMode

-- `IsEnabled` of each of the rule types: absent means enabled.
unfoldable pub is_enabled : Option Bool → Bool
is_enabled none = true
is_enabled (some b) = b

-- One validation phase of the configuration: its mode and its rules.
pub record Phase (R : Type 0) : Type 0 where
  pub enabled : Bool
  pub mode : PolicyMode
  pub rules : List R

-- The part of `Config` that normalisation reads and writes.
pub record Config : Type 0 where
  pub request_cel : Phase Policy
  pub request_ai : Phase AiPolicy
  pub response_cel : Phase ResponsePolicy
  pub response_ai : Phase AiPolicy

abbrev normalize_phase : {R : Type 0} → (R → R) → Phase R → Phase R
normalize_phase f p = record p { mode = normalize p.mode audit_only; rules = map f p.rules }

abbrev normalize_policy : Policy → Policy
normalize_policy r = record r { mode = normalize r.mode enforce }

abbrev normalize_ai : AiPolicy → AiPolicy
normalize_ai r = record r { mode = normalize r.mode enforce }

abbrev normalize_response : ResponsePolicy → ResponsePolicy
normalize_response r = record r { mode = normalize r.mode enforce }

-- Phases default to `audit_only`, rules to `enforce`.
pub normalize_policy_modes : Config → Config
normalize_policy_modes c = record c {
  request_cel = normalize_phase normalize_policy c.request_cel;
  request_ai = normalize_phase normalize_ai c.request_ai;
  response_cel = normalize_phase normalize_response c.response_cel;
  response_ai = normalize_phase normalize_ai c.response_ai;
}
