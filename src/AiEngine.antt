-- ===== src/AiEngine.antt =====
-- internal/gateway/ai_engine.go: rules that a model judges. Every rule is asked at once; the results
-- arrive in some order, and a loop collects them until a decision. `EvaluateToolCall` and
-- `EvaluateCLICommand` have one body, over two descriptions of the request. The provider is the
-- parameter `Provider`, and what the loop meets is a list of polls. One reading of the clock stands for
-- the start and for the one that `BlockingDeadline` takes right after it. Logging is left out.
pub mod Collect
pub mod Load
pub mod Decision
use Prim.Native.String.{◌++◌ as join}
use maybe_dont.Prelude.{
  ℕ, suc, ◌+◌, ◌-◌, String, Bool, true, false, ◌==◌, ◌&&◌, ◌||◌, not, List, [], ◌∷◌, ◌++◌, Option,
  none, some, ◌⊎◌, inl, inr, ltb, eqb, if◌then◌else◌,
}
use maybe_dont.Policy.{PolicyAction, PolicyMode, allow, deny, is_deny, is_allow, is_audit_only}
use maybe_dont.Audit.{
  RuleEntry, RuleResult, PhaseDetails, contributed, error, mode_to_audit_string, format_audit_error,
}
use maybe_dont.Budget.{
  BlockingBudget, PhaseTracker, start_phase, mark_decided, finalize, since_ms, is_exhausted,
  blocking_deadline,
}
use maybe_dont.Results.{ValidationResults, AsyncCompletion, no_results}
use maybe_dont.Sanitize.{sanitize_json_escapes}

pub record AiRule : Type 0 where
  pub name : String
  pub description : String
  pub prompt : String
  pub action : PolicyAction
  pub message : String
  pub mode : PolicyMode

-- The JSON that a provider returns, with its request id.
pub record Generated : Type 0 where
  pub parsed_json : List ℕ
  pub request_id : String

-- `Generate` on a prompt, an error with its category; and `json.Unmarshal` into `AIResponse`.
pub record Provider : Type 0 where
  pub generate : String → (String × String) ⊎ Generated
  pub decode : List ℕ → String ⊎ (Bool × String)

-- `aiRuleResult`.
pub record RuleOutcome : Type 0 where
  pub rule : String
  pub action : PolicyAction
  pub mode : PolicyMode
  pub result : RuleResult
  pub message : String
  pub evaluation_ms : ℕ
  pub err : Option String
  pub err_category : String
  pub provider_request_id : String

-- A deny rule and an allow rule both contribute what the model says.
abbrev pub result_action : PolicyAction → Bool → PolicyAction
result_action action allowed =
    if is_deny action then (if allowed then allow else deny) else (if allowed then allow else deny)

abbrev failed_rule : AiRule → ℕ → String → String → RuleOutcome
failed_rule p ms category text = record {
  rule = p.name;
  action = p.action;
  mode = p.mode;
  result = error;
  message = "";
  evaluation_ms = ms;
  err = some text;
  err_category = category;
  provider_request_id = "";
}

abbrev judged_rule : AiRule → ℕ → String → String ⊎ (Bool × String) → RuleOutcome
judged_rule p ms request (inl text) = failed_rule p ms "parse_error" text
judged_rule p ms request (inr (allowed, message)) = record {
  rule = p.name;
  action = p.action;
  mode = p.mode;
  result = contributed (result_action p.action allowed);
  message = message;
  evaluation_ms = ms;
  err = none;
  err_category = "";
  provider_request_id = request;
}

-- The goroutine of one rule: `kind` is "Tool call" or "CLI command".
unfoldable pub evaluate_ai_rule : Provider → String → String → ℕ → AiRule → RuleOutcome
unfolding sanitize_json_escapes
evaluate_ai_rule provider kind operation ms p =
    let prompt = join p.prompt (join "\n\n" (join kind (join ":\n" operation))) in
    elim (provider.generate prompt) [
      | inl (category, text) ↦ failed_rule p ms category text
      | inr g ↦
          judged_rule p ms g.request_id (provider.decode (sanitize_json_escapes g.parsed_json))
    ]

-- One round of the loop: the clock at its head, what its `select` receives (`none` is the timeout
-- of 100 ms), and the clock when that is handled.
pub record Poll : Type 0 where
  pub checked : ℕ
  pub received : Option RuleOutcome
  pub handled : ℕ

pub record AiLoop : Type 0 where
  pub entries : List RuleEntry
  pub deciding_rule : String
  pub deciding_reason : String
  pub blocked_ms : ℕ
  pub decided : Bool
  pub final_action : PolicyAction
  pub audit_only_deny : Bool
  pub failed_open : Bool
  pub last_request_id : String
  pub remaining_enabled : ℕ
  pub remaining_total : ℕ
  pub phase : PhaseTracker × BlockingBudget

abbrev pub ai_entry : RuleOutcome → RuleEntry
ai_entry r = record {
  rule = r.rule;
  action = r.action;
  mode = mode_to_audit_string r.mode;
  result = r.result;
  evaluation_ms = r.evaluation_ms;
  error_text = failure r.err;
}
  where
    failure : Option String → String
    failure none = ""
    failure (some text) = format_audit_error r.err_category (some text)

abbrev pub last_id : RuleOutcome → String → String
last_id r old = if r.provider_request_id == "" then old else r.provider_request_id

abbrev pub says_deny : RuleResult → Bool
says_deny (contributed a) = is_deny a
says_deny error = false

abbrev pub says_error : RuleResult → Bool
says_error (contributed a) = false
says_error error = true

-- `decided` at a time.
abbrev pub decide : ℕ → ℕ → AiLoop → AiLoop
decide start now s = record s {
  phase = mark_decided s.phase now;
  blocked_ms = since_ms start now;
  decided = true;
}

-- The two checks at the head of a round: past the deadline, and no enabled rule left.
unfoldable pub check_deadline : ℕ → ℕ → ℕ → AiLoop → AiLoop
check_deadline start deadline now s =
    if not s.decided && ltb deadline now
    then record (decide start now s) { final_action = allow; failed_open = true }
    else s

unfoldable pub check_enabled : ℕ → ℕ → AiLoop → AiLoop
check_enabled start now s =
    if not s.decided && eqb s.remaining_enabled 0 then decide start now s else s

-- What arrives: the first denial of an enabled rule decides, its failure lets the request pass.
unfoldable pub receive : ℕ → ℕ → RuleOutcome → AiLoop → AiLoop
receive start now r s =
    let observes = is_audit_only r.mode in
    let s' = record s {
      remaining_total = s.remaining_total - 1;
      remaining_enabled = if observes then s.remaining_enabled else s.remaining_enabled - 1;
      entries = s.entries ++ ai_entry r ∷ [];
      last_request_id = last_id r s.last_request_id;
      audit_only_deny = if observes && says_deny r.result then true else s.audit_only_deny;
    } in
    if not s.decided && not observes
    then (if says_deny r.result
        then record (decide start now s') {
          final_action = deny;
          deciding_rule = r.rule;
          deciding_reason = r.message;
        }
        else if says_error r.result
        then record s' { failed_open = true }
        else s')
    else s'

abbrev pub select_arm : ℕ → ℕ → Option RuleOutcome → AiLoop → AiLoop
select_arm start now none s = s
select_arm start now (some r) s = receive start now r s

abbrev pub after_select : ℕ → Poll → AiLoop → AiLoop
after_select start p s = select_arm start p.handled p.received s

-- The head of a round.
unfoldable pub loop_head : ℕ → ℕ → Poll → AiLoop → AiLoop
unfolding check_deadline check_enabled
loop_head start deadline p s =
    check_enabled start p.checked (check_deadline start deadline p.checked s)

module _ (start deadline : ℕ) where
  -- The state in which the loop ends, or `none` if it still waits after these polls.
  unfoldable pub collect : List Poll → AiLoop → Option AiLoop
  unfolding loop_head receive
  collect [] s = if eqb s.remaining_total 0 || s.decided then some s else none
  collect (p ∷ ps) s = elim (eqb s.remaining_total 0) [
    | true ↦ some s
    | false ↦
        let s' = loop_head start deadline p s in
        elim s'.decided [ true ↦ some s' | false ↦ collect ps (after_select start p s') ]
  ]

abbrev pub count_enabled : List AiRule → ℕ
count_enabled [] = 0
count_enabled (p ∷ ps) = let n = count_enabled ps in if is_audit_only p.mode then n else suc n

abbrev pub count_rules : List AiRule → ℕ
count_rules [] = 0
count_rules (p ∷ ps) = suc (count_rules ps)

-- The variables before the loop; an exhausted budget has decided already.
unfoldable pub ai_start : List AiRule → ℕ → BlockingBudget → AiLoop
unfolding start_phase is_exhausted
ai_start rules start b = record {
  entries = [];
  deciding_rule = "";
  deciding_reason = "";
  blocked_ms = 0;
  decided = is_exhausted b;
  final_action = allow;
  audit_only_deny = false;
  failed_open = is_exhausted b;
  last_request_id = "";
  remaining_enabled = count_enabled rules;
  remaining_total = count_rules rules;
  phase = (start_phase start, b);
}

abbrev ai_details : AiLoop → ℕ → ℕ → PhaseDetails
ai_details s blocked evaluation =
    let named = not (s.deciding_rule == "") in
    record {
      action = s.final_action;
      blocked_ms = blocked;
      evaluation_ms = evaluation;
      deciding_rule = if named then s.deciding_rule else "";
      reason = if named then s.deciding_reason else "";
      entries = s.entries;
    }

abbrev pub late_entries : List RuleOutcome → List RuleEntry
late_entries [] = []
late_entries (r ∷ rs) = ai_entry r ∷ late_entries rs

-- The completion that the background collection of the remaining results sends: `late` are they,
-- `done` is the clock after the last.
abbrev pub completion : ℕ → ℕ → List RuleOutcome → AiLoop → AsyncCompletion
completion start done late s =
    let ms = since_ms start done in
    record {
      ai_details =
          some (ai_details (record s { entries = s.entries ++ late_entries late }) s.blocked_ms ms);
      evaluation_ms = ms;
    }

-- The message, the counts and the recommendation.
unfoldable pub conclude_ai : AiLoop → ValidationResults
conclude_ai s =
    let base = record no_results {
      allowed = is_allow s.final_action;
      failed_open = s.failed_open;
    } in
    if is_deny s.final_action
    then record base {
      message = "Maybe Don't, A policy failed.";
      deny_count = 1;
      recommended_action = deny;
    }
    else if s.failed_open
    then record base {
      message = "AI validation failed, allowing request (fail-open)";
      allow_count = 1;
    }
    else if s.audit_only_deny
    then record base {
      audit_mode_bypass = true;
      recommended_action = deny;
      message = "AI policy would deny but mode is audit_only";
      allow_count = 1;
    }
    else record base {
      message = "All policies passed, maybe do.";
      allow_count = 1;
      recommended_action = allow;
    }

-- From the end of the loop to the return; `observers` says that some rule only observes.
unfoldable pub finish_ai :
    Bool → ℕ → ℕ → ℕ → List RuleOutcome → AiLoop → ValidationResults × BlockingBudget
unfolding conclude_ai
finish_ai observers start end done late s =
    let (p, b) = finalize s.phase end in
    let r = conclude_ai s in
    (
      if observers && ltb 0 s.remaining_total
          then record r { async_completion = some (completion start done late s) }
          else record r { ai_details = some (ai_details s p.blocked_ms p.evaluation_ms) },
      b,
    )

-- What the call returns: an error without a budget, or nothing as long as the loop waits.
pub data AiReply : Type 0 where
  needs_budget waits : AiReply
  answered : ValidationResults → Option BlockingBudget → AiReply

-- The readings of the clock at the start, at the return and after the last late result.
pub record AiClock : Type 0 where
  pub started : ℕ
  pub returned : ℕ
  pub completed : ℕ

-- Every rule only observes: the answer comes at once, the results later.
unfoldable pub observe_only :
    AiClock → List RuleOutcome → Option BlockingBudget → ValidationResults × Option BlockingBudget
unfolding start_phase
observe_only clock late budget = (
  record no_results {
    allowed = true;
    message = "All policies are audit_only, proceeding without blocking";
    allow_count = 1;
    async_completion = some (record {
      ai_details = some (record {
        action = allow;
        blocked_ms = 0;
        evaluation_ms = ms;
        deciding_rule = "";
        reason = "";
        entries = late_entries late;
      });
      evaluation_ms = ms;
    });
  },
  charged budget,
)
  where
    ms : ℕ
    ms = since_ms clock.started clock.completed

    charged : Option BlockingBudget → Option BlockingBudget
    charged none = none
    charged (some b) = some (mark_decided (start_phase clock.started, b) clock.started).1

abbrev pub concluded : Bool → AiClock → List RuleOutcome → Option AiLoop → AiReply
concluded observers clock late none = waits
concluded observers clock late (some s) =
    let (r, b) = finish_ai observers clock.started clock.returned clock.completed late s in
    answered r (some b)

unfoldable pub evaluate_ai :
    AiClock → List AiRule → List Poll → List RuleOutcome → Option BlockingBudget → AiReply
unfolding collect ai_start finish_ai observe_only
evaluate_ai clock [] polls late budget =
    answered (record no_results { allowed = true; message = "No policies configured" }) budget
evaluate_ai clock (p ∷ ps) polls late budget =
    let rules = p ∷ ps in
    elim (eqb (count_enabled rules) 0) [
      | true ↦ let (r, b) = observe_only clock late budget in answered r b
      | false ↦ elim budget [
        | none ↦ needs_budget
        | some b ↦ concluded (ltb (count_enabled rules) (count_rules rules)) clock late (
            collect clock.started (blocking_deadline b clock.started) polls
              (ai_start rules clock.started b))
      ]
    ]
