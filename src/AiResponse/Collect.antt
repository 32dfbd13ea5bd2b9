-- ===== src/AiResponse/Collect.antt =====
-- What the loop of internal/gateway/ai_response_engine.go has decided when it ends.
use maybe_dont.Prelude.{
  ℕ, suc, ◌≡◌, refl, String, Bool, true, false, ◌==◌, ◌&&◌, ◌||◌, not, List, [], ◌∷◌, Option, none,
  some, if◌then◌else◌, some_of, length, arith,
}
use maybe_dont.Policy.{is_allow, is_deny, is_redact, is_audit_only}
use maybe_dont.Audit.{RuleResult, contributed, error}
use maybe_dont.AiEngine.{says_deny}
use maybe_dont.AiResponse.{ResponseOutcome}
use maybe_dont.AiResponse.Loop.{ResponsePoll, ResponseAiLoop}

abbrev pub prepend : Option ResponseOutcome → List ResponseOutcome → List ResponseOutcome
prepend none rs = rs
prepend (some r) rs = r ∷ rs

-- What the polls receive, in order.
abbrev pub received_of : List ResponsePoll → List ResponseOutcome
received_of [] = []
received_of (p ∷ ps) = prepend p.received (received_of ps)

abbrev pub enforced_denies : ResponseOutcome → Bool
enforced_denies r = not (is_audit_only r.mode) && says_deny r.result

abbrev pub says_redact : RuleResult → Bool
says_redact (contributed a) = is_redact a
says_redact error = false

-- A result of an enabled rule with a redaction.
abbrev pub redacts : ResponseOutcome → Bool
redacts r = not (is_audit_only r.mode) && (says_redact r.result && not (r.redacted == ""))

abbrev pub count_enforced : List ResponseOutcome → ℕ
count_enforced [] = 0
count_enforced (r ∷ rs) = let n = count_enforced rs in if is_audit_only r.mode then n else suc n

-- The redaction that arrives last, after one that has arrived before.
abbrev pub last_redaction : Option String → List ResponseOutcome → Option String
last_redaction m [] = m
last_redaction m (r ∷ rs) = last_redaction (if redacts r then some r.redacted else m) rs

abbrev pub delivered : ResponseAiLoop → Option String
delivered s = if is_redact s.final_action then s.redacted else none

pub none_denies :
    (rs : List ResponseOutcome) → count_enforced rs ≡ 0 → some_of enforced_denies rs ≡ false
none_denies [] h = refl
none_denies (r ∷ rs) h =
    let k : count_enforced rs ≡ 0 = ground (arith, h) in ground (arith, h, none_denies rs k)

pub none_redacts :
    (m : Option String) (rs : List ResponseOutcome)
    → count_enforced rs ≡ 0
    → last_redaction m rs ≡ m
none_redacts m [] h = refl
none_redacts m (r ∷ rs) h =
    let k : count_enforced rs ≡ 0 = ground (arith, h) in
    let q : redacts r ≡ false = ground (arith, h) in rw q (none_redacts m rs k)

-- What the results to come mean, given the redaction before them.
abbrev pub redaction_of : Option String → List ResponseOutcome → Option String
redaction_of m rs = if some_of enforced_denies rs then none else last_redaction m rs

-- The loop ends with the decision and the redaction that the results mean.
abbrev pub Concludes : Option String → List ResponseOutcome → Option ResponseAiLoop → Type 0
Concludes m rs out =
    (s : ResponseAiLoop) × (out ≡ some s)
    × (is_deny s.final_action ≡ some_of enforced_denies rs)
    × (s.allowed ≡ not (some_of enforced_denies rs))
    × (delivered s ≡ redaction_of m rs)

-- Nothing has denied yet, and the redaction so far is the one that would be delivered.
pub record IsOpen (s : ResponseAiLoop) : Type 0 where
  pub undecided : s.decided ≡ false
  pub permits : s.allowed ≡ true
  pub mild : (is_allow s.final_action || is_redact s.final_action) ≡ true
  pub kept : delivered s ≡ s.redacted

abbrev pub Awaits : List ResponseOutcome → ResponseAiLoop → Type 0
Awaits rs s = (count_enforced rs ≡ s.remaining_enabled) × (length rs ≡ s.remaining_total)
