-- ===== src/Cel/Decision/Spec.antt =====
-- What a request phase is meant to decide: the first rule that decides, decides.
use maybe_dont.Prelude.{String, Bool, true, false, ◌==◌, ◌&&◌, List, [], ◌∷◌, not, if◌then◌else◌}
use maybe_dont.Prelude.Json.{Members}
use maybe_dont.Policy.{is_deny, is_audit_only}
use maybe_dont.Cel.{CelEnv, CelPolicy, Outcome, failed, matched, evaluate_rule}

pub data Verdict : Type 0 where
  denies : CelPolicy → Verdict
  fails_open passes : Verdict

abbrev pub is_denial : Verdict → Bool
is_denial (denies p) = true
is_denial _ = false

abbrev pub is_failure : Verdict → Bool
is_failure fails_open = true
is_failure _ = false

-- An enforced deny rule that matches.
abbrev pub blocks_on : CelPolicy → Outcome → Bool
blocks_on p (matched true) = is_deny p.action && not (is_audit_only p.mode)
blocks_on p _ = false

-- An enforced rule that could not be evaluated.
abbrev pub fails_on : CelPolicy → Outcome → Bool
fails_on p (failed text) = not (is_audit_only p.mode)
fails_on p _ = false

module _ (env : CelEnv) (expression_of : CelPolicy → String) (vars : Members) where
  abbrev pub blocks : CelPolicy → Bool
  blocks p = not (expression_of p == "") && blocks_on p (evaluate_rule env (expression_of p) vars)

  abbrev pub fails : CelPolicy → Bool
  fails p = not (expression_of p == "") && fails_on p (evaluate_rule env (expression_of p) vars)

  unfoldable pub verdict : List CelPolicy → Verdict
  verdict [] = passes
  verdict (p ∷ ps) =
      let rest = verdict ps in if blocks p then denies p else if fails p then fails_open else rest
