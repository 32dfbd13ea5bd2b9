-- ===== src/AiResponse/Decision.antt =====
-- What an evaluation of internal/gateway/ai_response_engine.go answers.
use maybe_dont.Prelude.{
  ℕ, ◌≡◌, refl, sym, ◌∙◌, ap, String, Bool, true, false, ◌||◌, not, List, [], ◌∷◌, Option, none,
  some, inl, inr, ltb, eqb, if◌then◌else◌, Bool-cases, some_of, length, arith,
}
use maybe_dont.Policy.{deny, is_deny}
use maybe_dont.Budget.{BlockingBudget}
use maybe_dont.Response.{ResponseResults}
use maybe_dont.AiEngine.{AiRule, AiClock, count_enabled, count_rules}
use maybe_dont.AiResponse.{ResponseOutcome}
use maybe_dont.AiResponse.Loop.{
  ResponsePoll, ResponseAiLoop, response_loop_head, note_outcome, receive_outcome, response_select,
  collect_responses, response_ai_start,
}
use maybe_dont.AiResponse.Answer.{
  replied, concluded_response, finish_ai_response, conclude_ai_response, evaluate_ai_response,
}
use maybe_dont.AiResponse.Collect.{
  prepend, received_of, enforced_denies, redacts, count_enforced, last_redaction, delivered,
  none_denies, none_redacts, redaction_of, Concludes, IsOpen, Awaits,
}
use maybe_dont.AiResponse.Rounds.{
  collect_done, collect_stops, collect_goes, head_quiet, head_full, head_decided, SameVerdict,
  judge_denial, receive-judge, receive_quiet, receive_counts,
}

mild-deny : (s : ResponseAiLoop) → IsOpen s → is_deny s.final_action ≡ false
mild-deny s o = elim (Bool-cases (is_deny s.final_action)) [
  | inl d ↦ absurd (ground (arith, o, d))
  | inr d ↦ d
]

delivered_same : (s' s : ResponseAiLoop) → SameVerdict s' s → delivered s' ≡ delivered s
delivered_same s' s v = ground (arith, v)

-- The loop ends in an open state, with no denial and no redaction to come.
ends_open :
    (rs : List ResponseOutcome) (out : Option ResponseAiLoop) (s s' : ResponseAiLoop)
    → IsOpen s
    → count_enforced rs ≡ 0
    → out ≡ some s'
    → s'.final_action ≡ s.final_action
    → s'.allowed ≡ s.allowed
    → s'.redacted ≡ s.redacted
    → Concludes s.redacted rs out
ends_open rs out s s' o n e f a r =
    let d = none_denies rs n in
    let l = none_redacts s.redacted rs n in
    (
      s',
      e,
      ap is_deny f ∙ mild-deny s o ∙ sym d,
      a ∙ o.permits ∙ ap not (sym d),
      ground (arith, f, r, d, l, o),
    )

empty_enforced : (rs : List ResponseOutcome) → length rs ≡ 0 → count_enforced rs ≡ 0
empty_enforced [] h = refl
empty_enforced (r ∷ rs) h = absurd (omega (arith, h))

-- A loop that has denied ends with the denial, whatever is polled.
denied_collects :
    (ps : List ResponsePoll) (s : ResponseAiLoop)
    → s.decided ≡ true
    → (s' : ResponseAiLoop) × (collect_responses ps s ≡ some s')
      × (s'.final_action ≡ s.final_action)
      × (s'.allowed ≡ s.allowed)
unfolding collect_responses
denied_collects [] s d = (s, ground (arith, d), refl, refl)
denied_collects (p ∷ ps) s d =
    let (d', f, a, r) = head_decided p.checked s d in
    elim (Bool-cases (eqb s.remaining_total 0)) [
      | inl t ↦ (s, collect_done (p ∷ ps) s t, refl, refl)
      | inr t ↦ (response_loop_head p.checked s, collect_stops p ps s t d', f, a)
    ]

denial_concludes :
    (now : ℕ) (r : ResponseOutcome) (rs : List ResponseOutcome) (ps : List ResponsePoll)
    (m : Option String) (s : ResponseAiLoop)
    → IsOpen s
    → enforced_denies r ≡ true
    → Concludes m (r ∷ rs) (collect_responses ps (receive_outcome now r s))
denial_concludes now r rs ps m s o e =
    let x = receive-judge now r s (ground (arith, e)) o.undecided in
    let (d, f, a) = judge_denial now r r.result (note_outcome r s) (ground (arith, e)) in
    let (s', c, f', a') =
      denied_collects ps (receive_outcome now r s) (ap (λ (y : ResponseAiLoop). y.decided) x ∙ d) in
    let f'' : s'.final_action ≡ deny = f' ∙ ap (λ (y : ResponseAiLoop). y.final_action) x ∙ f in
    let a'' : s'.allowed ≡ false = a' ∙ ap (λ (y : ResponseAiLoop). y.allowed) x ∙ a in
    (s', c, ground (arith, f'', e), ground (arith, a'', e), ground (arith, f'', e))

quiet_concludes :
    (now : ℕ) (r : ResponseOutcome) (rs : List ResponseOutcome) (ps : List ResponsePoll)
    (s : ResponseAiLoop)
    → IsOpen s
    → enforced_denies r ≡ false
    → Concludes
        (receive_outcome now r s).redacted
        rs
        (collect_responses ps (receive_outcome now r s))
    → Concludes s.redacted (r ∷ rs) (collect_responses ps (receive_outcome now r s))
quiet_concludes now r rs ps s o e (s', c, f, a, l) =
    let (o', q) = receive_quiet now r s o e in
    (
      s',
      c,
      f ∙ ap (λ b. b || some_of enforced_denies rs) (sym e),
      a ∙ ap (λ b. not (b || some_of enforced_denies rs)) (sym e),
      l
          ∙ ap (λ x. redaction_of x rs) q
          ∙ ap
              (λ b.
                if b || some_of enforced_denies rs
                then none
                else last_redaction (if redacts r then some r.redacted else s.redacted) rs)
              (sym e),
    )

select_in_time :
    (now : ℕ) (m : Option ResponseOutcome) (ps : List ResponsePoll) (s : ResponseAiLoop)
    → ((s' : ResponseAiLoop)
        → IsOpen s'
        → Awaits (received_of ps) s'
        → Concludes s'.redacted (received_of ps) (collect_responses ps s'))
    → IsOpen s
    → Awaits (prepend m (received_of ps)) s
    → Concludes s.redacted
        (prepend m (received_of ps))
        (collect_responses ps (response_select now m s))
select_in_time now none ps s ih o a = ih s o a
select_in_time now (some r) ps s ih o a = elim (Bool-cases (enforced_denies r)) [
  | inl e ↦ denial_concludes now r (received_of ps) ps s.redacted s o e
  | inr e ↦ quiet_concludes now r (received_of ps) ps s o e (
      ih (receive_outcome now r s) (receive_quiet now r s o e).0
        (receive_counts now r (received_of ps) s o.undecided a))
]

in_time :
    (ps : List ResponsePoll) (s : ResponseAiLoop)
    → IsOpen s
    → Awaits (received_of ps) s
    → Concludes s.redacted (received_of ps) (collect_responses ps s)
in_time [] s o a = elim (Bool-cases (eqb s.remaining_total 0)) [
  | inl z ↦ ends_open [] _ s s o refl (collect_done [] s z) refl refl refl
  | inr z ↦ absurd (ground (arith, z, a))
]
in_time (p ∷ ps) s o a = elim (Bool-cases (eqb s.remaining_total 0)) [
  | inl z ↦
      ends_open (received_of (p ∷ ps)) _ s s o
        (empty_enforced (received_of (p ∷ ps)) (ground (arith, z, a))) (collect_done (p ∷ ps) s z)
        refl refl refl
  | inr z ↦ elim (Bool-cases (eqb s.remaining_enabled 0)) [
    | inl e ↦
        let (d, f, al, r) = head_full p.checked s e in
        ends_open (received_of (p ∷ ps)) _ s (response_loop_head p.checked s) o
          (ground (arith, e, a)) (collect_stops p ps s z d) f al r
    | inr e ↦
        let q = head_quiet p.checked s e in
        let (s', c, f, al, r) = select_in_time p.handled p.received ps s (in_time ps) o a in
        (
          s',
          collect_goes p ps s z (ap (λ (x : ResponseAiLoop). x.decided) q ∙ o.undecided)
              ∙ ap (λ x. collect_responses ps (response_select p.handled p.received x)) q
              ∙ c,
          f,
          al,
          r,
        )
  ]
]

finish-verdict :
    (observers : Bool) (clock : AiClock) (late : List ResponseOutcome) (s : ResponseAiLoop)
    → s.allowed ≡ not (is_deny s.final_action)
    → let r = (finish_ai_response observers clock late s).0 in
      (r.allowed ≡ s.allowed) × (r.redacted_content ≡ delivered s)
unfolding finish_ai_response conclude_ai_response
finish-verdict observers clock late s a = (ground (arith, a), ground arith)

start-IsOpen :
    (rules : List AiRule) (start : ℕ) (b : Option BlockingBudget)
    → IsOpen (response_ai_start rules start b)
unfolding response_ai_start
start-IsOpen rules start b = record { undecided = refl; permits = refl; mild = refl; kept = refl }

evaluate-collect :
    (clock : AiClock) (rules : List AiRule) (polls : List ResponsePoll)
    (late : List ResponseOutcome) (b : Option BlockingBudget)
    → eqb (count_enabled rules) 0 ≡ false
    → evaluate_ai_response clock rules polls late b
      ≡ concluded_response
          (ltb (count_enabled rules) (count_rules rules))
          clock
          late
          (collect_responses polls (response_ai_start rules clock.started b))
unfolding evaluate_ai_response
evaluate-collect clock [] polls late b h = absurd (ground (arith, h))
evaluate-collect clock (p ∷ ps) polls late b h = rw (h, evaluate_ai_response) refl

-- If some rule is enforced and the results of all rules arrive, the engine answers. It refuses the
-- response exactly when some enforced rule says deny; otherwise it delivers the redaction of the
-- enforced redact rule whose result arrived last, if there was one, and with a denial none. Rules
-- that only observe and rules that fail have no part in either.
pub evaluate_ai_response_decides :
    (clock : AiClock) (rules : List AiRule) (polls : List ResponsePoll)
    (late : List ResponseOutcome) (b : Option BlockingBudget)
    → eqb (count_enabled rules) 0 ≡ false
    → count_enforced (received_of polls) ≡ count_enabled rules
    → length (received_of polls) ≡ count_rules rules
    → (r : ResponseResults) × (c : Option BlockingBudget) × (evaluate_ai_response clock rules polls
          late b
        ≡ replied r c)
      × (r.allowed ≡ not (some_of enforced_denies (received_of polls)))
      × (r.redacted_content ≡ (
          if some_of enforced_denies (received_of polls)
          then none
          else last_redaction none (received_of polls)))
unfolding response_ai_start
evaluate_ai_response_decides clock rules polls late b enabled enforced total =
    let rs = received_of polls in
    let observers = ltb (count_enabled rules) (count_rules rules) in
    let (s, e, d, a, l) =
      in_time polls (response_ai_start rules clock.started b) (start-IsOpen rules clock.started b)
        (enforced, total) in
    let out = finish_ai_response observers clock late s in
    let (v, w) = finish-verdict observers clock late s (a ∙ ap not (sym d)) in
    (
      out.0,
      out.1,
      evaluate-collect clock rules polls late b enabled
          ∙ ap (concluded_response observers clock late) e,
      v ∙ a,
      w ∙ l,
    )
