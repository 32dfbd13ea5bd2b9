-- ===== src/AiResponse/Rounds.antt =====
-- The rounds of the loop of internal/gateway/ai_response_engine.go, up to its end.
use maybe_dont.Prelude.{
  ℕ, ◌≡◌, refl, ◌∙◌, true, false, ◌==◌, ◌&&◌, not, List, [], ◌∷◌, some, inl, inr, eqb,
  if◌then◌else◌, Bool-cases, arith,
}
use maybe_dont.Policy.{allow, deny, redact, unset, other, is_audit_only}
use maybe_dont.Audit.{RuleResult, contributed, error}
use maybe_dont.AiEngine.{says_deny}
use maybe_dont.AiResponse.{ResponseOutcome}
use maybe_dont.AiResponse.Loop.{
  ResponsePoll, ResponseAiLoop, response_loop_head, judge, note_outcome, receive_outcome,
  response_select, collect_responses,
}
use maybe_dont.AiResponse.Collect.{enforced_denies, says_redact, redacts, IsOpen, Awaits}

pub collect_done :
    (ps : List ResponsePoll) (s : ResponseAiLoop)
    → eqb s.remaining_total 0 ≡ true
    → collect_responses ps s ≡ some s
unfolding collect_responses
collect_done [] s h = rw h refl
collect_done (p ∷ ps) s h = rw (h, collect_responses) refl

pub collect_stops :
    (p : ResponsePoll) (ps : List ResponsePoll) (s : ResponseAiLoop)
    → eqb s.remaining_total 0 ≡ false
    → (response_loop_head p.checked s).decided ≡ true
    → collect_responses (p ∷ ps) s ≡ some (response_loop_head p.checked s)
unfolding collect_responses
collect_stops p ps s h d = rw (h, d, collect_responses) refl

pub collect_goes :
    (p : ResponsePoll) (ps : List ResponsePoll) (s : ResponseAiLoop)
    → eqb s.remaining_total 0 ≡ false
    → (response_loop_head p.checked s).decided ≡ false
    → collect_responses (p ∷ ps) s
      ≡ collect_responses ps (response_select p.handled p.received (response_loop_head p.checked s))
unfolding collect_responses
collect_goes p ps s h d = rw (h, d, collect_responses) refl

pub head_quiet :
    (now : ℕ) (s : ResponseAiLoop)
    → eqb s.remaining_enabled 0 ≡ false
    → response_loop_head now s ≡ s
unfolding response_loop_head
head_quiet now s e = ground (arith, e)

-- The head changes the flag and the budget only.
abbrev pub SameVerdict : ResponseAiLoop → ResponseAiLoop → Type 0
SameVerdict s' s =
    (s'.decided ≡ true)
    × (s'.final_action ≡ s.final_action)
    × (s'.allowed ≡ s.allowed)
    × (s'.redacted ≡ s.redacted)

pub head_full :
    (now : ℕ) (s : ResponseAiLoop)
    → eqb s.remaining_enabled 0 ≡ true
    → SameVerdict (response_loop_head now s) s
unfolding response_loop_head
head_full now s e = (ground (arith, e), ground arith, ground arith, ground arith)

pub head_decided :
    (now : ℕ) (s : ResponseAiLoop) → s.decided ≡ true → SameVerdict (response_loop_head now s) s
unfolding response_loop_head
head_decided now s d = (ground (arith, d), ground arith, ground arith, ground arith)

note_IsOpen : (r : ResponseOutcome) (s : ResponseAiLoop) → IsOpen s → IsOpen (note_outcome r s)
unfolding note_outcome
note_IsOpen r s o = record {
  undecided = o.undecided;
  permits = o.permits;
  mild = o.mild;
  kept = o.kept;
}

judge-IsOpen :
    (now : ℕ) (r : ResponseOutcome) (res : RuleResult) (s : ResponseAiLoop)
    → IsOpen s
    → says_deny res ≡ false
    → IsOpen (judge now r res s)
      × ((judge now r res s).redacted
          ≡ (if says_redact res && not (r.redacted == "") then some r.redacted else s.redacted))
unfolding judge
judge-IsOpen now r error s o d = (ground (arith, o), ground arith)
judge-IsOpen now r (contributed deny) s o d = absurd (ground (arith, d))
judge-IsOpen now r (contributed redact) s o d = (
  record {
    undecided = o.undecided;
    permits = o.permits;
    mild = ground (arith, o);
    kept = ground (arith, o);
  },
  ground arith,
)
judge-IsOpen now r (contributed allow) s o d = (ground (arith, o), ground arith)
judge-IsOpen now r (contributed unset) s o d = (ground (arith, o), ground arith)
judge-IsOpen now r (contributed (other t)) s o d = (ground (arith, o), ground arith)

judge_keeps :
    (now : ℕ) (r : ResponseOutcome) (res : RuleResult) (s : ResponseAiLoop)
    → ((judge now r res s).remaining_enabled ≡ s.remaining_enabled)
      × ((judge now r res s).remaining_total ≡ s.remaining_total)
unfolding judge
judge_keeps now r error s = (refl, refl)
judge_keeps now r (contributed deny) s = (refl, refl)
judge_keeps now r (contributed redact) s = (refl, refl)
judge_keeps now r (contributed allow) s = (refl, refl)
judge_keeps now r (contributed unset) s = (refl, refl)
judge_keeps now r (contributed (other t)) s = (refl, refl)

pub judge_denial :
    (now : ℕ) (r : ResponseOutcome) (res : RuleResult) (s : ResponseAiLoop)
    → says_deny res ≡ true
    → let s' = judge now r res s in
      (s'.decided ≡ true) × (s'.final_action ≡ deny) × (s'.allowed ≡ false)
unfolding judge
judge_denial now r error s d = absurd (ground (arith, d))
judge_denial now r (contributed deny) s d = (refl, refl, refl)
judge_denial now r (contributed redact) s d = absurd (ground (arith, d))
judge_denial now r (contributed allow) s d = absurd (ground (arith, d))
judge_denial now r (contributed unset) s d = absurd (ground (arith, d))
judge_denial now r (contributed (other t)) s d = absurd (ground (arith, d))

receive-note :
    (now : ℕ) (r : ResponseOutcome) (s : ResponseAiLoop)
    → is_audit_only r.mode ≡ true
    → receive_outcome now r s ≡ note_outcome r s
unfolding receive_outcome
receive-note now r s m = ground (arith, m)

pub receive-judge :
    (now : ℕ) (r : ResponseOutcome) (s : ResponseAiLoop)
    → is_audit_only r.mode ≡ false
    → s.decided ≡ false
    → receive_outcome now r s ≡ judge now r r.result (note_outcome r s)
unfolding receive_outcome
receive-judge now r s m u = ground (arith, m, u)

-- A result that is no denial of an enabled rule leaves the loop open.
pub receive_quiet :
    (now : ℕ) (r : ResponseOutcome) (s : ResponseAiLoop)
    → IsOpen s
    → enforced_denies r ≡ false
    → IsOpen (receive_outcome now r s)
      × ((receive_outcome now r s).redacted ≡ (if redacts r then some r.redacted else s.redacted))
receive_quiet now r s o q = elim (Bool-cases (is_audit_only r.mode)) [
  | inl m ↦ rw (receive-note now r s m) (note_IsOpen r s o, noted m)
  | inr m ↦ rw (receive-judge now r s m o.undecided) (
      let (o', e) =
        judge-IsOpen now r r.result (note_outcome r s) (note_IsOpen r s o) (ground (arith, q, m)) in
      (o', e ∙ judged m))
]
  where
    noted :
        is_audit_only r.mode ≡ true
        → (note_outcome r s).redacted ≡ (if redacts r then some r.redacted else s.redacted)
    noted m = unfold note_outcome in ground (arith, m)

    judged :
        is_audit_only r.mode ≡ false
        → (if says_redact r.result && not (r.redacted == "")
            then some r.redacted
            else (note_outcome r s).redacted)
          ≡ (if redacts r then some r.redacted else s.redacted)
    judged m = unfold note_outcome in ground (arith, m)

pub receive_counts :
    (now : ℕ) (r : ResponseOutcome) (rs : List ResponseOutcome) (s : ResponseAiLoop)
    → s.decided ≡ false
    → Awaits (r ∷ rs) s
    → Awaits rs (receive_outcome now r s)
unfolding note_outcome
receive_counts now r rs s u (a, b) = elim (Bool-cases (is_audit_only r.mode)) [
  | inl m ↦ rw (receive-note now r s m) (ground (arith, m, a), omega (arith, b))
  | inr m ↦
      let (e, f) = judge_keeps now r r.result (note_outcome r s) in
      rw (receive-judge now r s m u) (ground (arith, m, a, e), omega (arith, b, f))
]
