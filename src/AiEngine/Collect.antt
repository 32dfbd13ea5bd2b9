-- ===== src/AiEngine/Collect.antt =====
-- When the loop of internal/gateway/ai_engine.go ends, and what it decides.
use mathlib.Core.Bool.{false≢true}
use maybe_dont.Prelude.{
  ℕ, suc, ◌-◌, ◌≡◌, refl, sym, ◌∙◌, ap, Bool, true, false, ◌&&◌, ◌||◌, not, List, [], ◌∷◌, Option,
  none, some, inl, inr, ltb, eqb, if◌then◌else◌, Bool-cases, some_of, is_some, length, arith,
}
use maybe_dont.Policy.{PolicyAction, allow, deny, is_audit_only}
use maybe_dont.AiEngine.{
  RuleOutcome, Poll, AiLoop, says_deny, loop_head, check_deadline, check_enabled, receive,
  after_select, select_arm, collect,
}

or_right : (b c : Bool) → b ≡ false → (b || c) ≡ true → c ≡ true
or_right b c e h = ground (arith, e, h)

module _ (start deadline : ℕ) where
  collect_done :
      (ps : List Poll) (s : AiLoop)
      → eqb s.remaining_total 0 ≡ true
      → collect start deadline ps s ≡ some s
  unfolding collect
  collect_done [] s h = rw h refl
  collect_done (p ∷ ps) s h = rw (h, collect) refl

  collect_stops :
      (p : Poll) (ps : List Poll) (s : AiLoop)
      → eqb s.remaining_total 0 ≡ false
      → (loop_head start deadline p s).decided ≡ true
      → collect start deadline (p ∷ ps) s ≡ some (loop_head start deadline p s)
  unfolding collect
  collect_stops p ps s h d = rw (h, d, collect) refl

  collect_goes :
      (p : Poll) (ps : List Poll) (s : AiLoop)
      → eqb s.remaining_total 0 ≡ false
      → (loop_head start deadline p s).decided ≡ false
      → collect start deadline (p ∷ ps) s
        ≡ collect start deadline ps (after_select start p (loop_head start deadline p s))
  unfolding collect
  collect_goes p ps s h d = rw (h, d, collect) refl

  past_decided :
      (p : Poll) (s : AiLoop)
      → ltb deadline p.checked ≡ true
      → (loop_head start deadline p s).decided ≡ true
  unfolding loop_head check_deadline check_enabled
  past_decided p s h = ground (arith, h)

  -- The loop does not wait past its deadline: it ends at the first round whose clock is past it, if
  -- it did not end before, whatever has arrived.
  pub collect_ends :
      (ps : List Poll) (s : AiLoop)
      → some_of (λ p. ltb deadline p.checked) ps ≡ true
      → is_some (collect start deadline ps s) ≡ true
  collect_ends [] s h = absurd (false≢true h)
  collect_ends (p ∷ ps) s h = elim (Bool-cases (eqb s.remaining_total 0)) [
    | inl t ↦ rw (collect_done (p ∷ ps) s t) refl
    | inr t ↦ elim (Bool-cases (loop_head start deadline p s).decided) [
      | inl d ↦ rw (collect_stops p ps s t d) refl
      | inr d ↦ elim (Bool-cases (ltb deadline p.checked)) [
        | inl b ↦ rw (collect_stops p ps s t (past_decided p s b)) refl
        | inr b ↦ rw (collect_goes p ps s t d) (collect_ends ps _ (or_right _ _ b h))
      ]
    ]
  ]

abbrev pub prepend : Option RuleOutcome → List RuleOutcome → List RuleOutcome
prepend none rs = rs
prepend (some r) rs = r ∷ rs

-- What the polls receive, in order.
abbrev pub received_of : List Poll → List RuleOutcome
received_of [] = []
received_of (p ∷ ps) = prepend p.received (received_of ps)

abbrev pub enforced_denies : RuleOutcome → Bool
enforced_denies r = not (is_audit_only r.mode) && says_deny r.result

abbrev pub count_enforced : List RuleOutcome → ℕ
count_enforced [] = 0
count_enforced (r ∷ rs) = let n = count_enforced rs in if is_audit_only r.mode then n else suc n

none_denies : (rs : List RuleOutcome) → count_enforced rs ≡ 0 → some_of enforced_denies rs ≡ false
none_denies [] h = refl
none_denies (r ∷ rs) h =
    let k : count_enforced rs ≡ 0 = ground (arith, h) in ground (arith, h, none_denies rs k)

empty_denies : (rs : List RuleOutcome) → length rs ≡ 0 → some_of enforced_denies rs ≡ false
empty_denies [] h = refl
empty_denies (r ∷ rs) h = absurd (omega (arith, h))

abbrev pub decision : Bool → PolicyAction
decision denied = if denied then deny else allow

module _ (start deadline : ℕ) where
  -- Nothing has decided yet.
  abbrev Open : AiLoop → Type 0
  Open s = (s.decided ≡ false) × (s.final_action ≡ allow)

  head_quiet :
      (p : Poll) (s : AiLoop)
      → ltb deadline p.checked ≡ false
      → Open s
      → eqb s.remaining_enabled 0 ≡ false
      → loop_head start deadline p s ≡ s
  unfolding loop_head check_deadline check_enabled
  head_quiet p s t o e = ground (arith, t, o, e)

  head_full :
      (p : Poll) (s : AiLoop)
      → ltb deadline p.checked ≡ false
      → Open s
      → eqb s.remaining_enabled 0 ≡ true
      → ((loop_head start deadline p s).decided ≡ true)
        × ((loop_head start deadline p s).final_action ≡ allow)
  unfolding loop_head check_deadline check_enabled
  head_full p s t o e = (ground (arith, t, o, e), ground (arith, t, o, e))

  head_decided :
      (p : Poll) (s : AiLoop)
      → s.decided ≡ true
      → ((loop_head start deadline p s).decided ≡ true)
        × ((loop_head start deadline p s).final_action ≡ s.final_action)
  unfolding loop_head check_deadline check_enabled
  head_decided p s d = (ground (arith, d), ground (arith, d))

  decided_collects :
      (ps : List Poll) (s : AiLoop)
      → s.decided ≡ true
      → (s' : AiLoop) × (collect start deadline ps s ≡ some s') × (s'.final_action ≡ s.final_action)
  unfolding collect
  decided_collects [] s d = (s, ground (arith, d), refl)
  decided_collects (p ∷ ps) s d =
      let (d', f) = head_decided p s d in
      elim (Bool-cases (eqb s.remaining_total 0)) [
        | inl t ↦ (s, collect_done start deadline (p ∷ ps) s t, refl)
        | inr t ↦ (loop_head start deadline p s, collect_stops start deadline p ps s t d', f)
      ]

  receive_observer :
      (now : ℕ) (r : RuleOutcome) (s : AiLoop)
      → Open s
      → is_audit_only r.mode ≡ true
      → let s' = receive start now r s in
        Open s'
        × (s'.remaining_enabled ≡ s.remaining_enabled)
        × (s'.remaining_total ≡ s.remaining_total - 1)
  unfolding receive
  receive_observer now r s o m =
      ((ground (arith, o, m), ground (arith, o, m)), ground (arith, o, m), ground (arith, o, m))

  receive_denial :
      (now : ℕ) (r : RuleOutcome) (s : AiLoop)
      → Open s
      → is_audit_only r.mode ≡ false
      → says_deny r.result ≡ true
      → let s' = receive start now r s in (s'.decided ≡ true) × (s'.final_action ≡ deny)
  unfolding receive
  receive_denial now r s o m d = (ground (arith, o, m, d), ground (arith, o, m, d))

  receive_other :
      (now : ℕ) (r : RuleOutcome) (s : AiLoop)
      → Open s
      → is_audit_only r.mode ≡ false
      → says_deny r.result ≡ false
      → let s' = receive start now r s in
        Open s'
        × (s'.remaining_enabled ≡ s.remaining_enabled - 1)
        × (s'.remaining_total ≡ s.remaining_total - 1)
  unfolding receive
  receive_other now r s o m d = (
    (ground (arith, o, m, d), ground (arith, o, m, d)),
    ground (arith, o, m, d),
    ground (arith, o, m, d),
  )

  -- The loop ends with the decision that the results mean.
  abbrev Concludes : List RuleOutcome → Option AiLoop → Type 0
  Concludes rs out =
      (s : AiLoop) × (out ≡ some s) × (s.final_action ≡ decision (some_of enforced_denies rs))

  -- The results to come are those that the loop counts on.
  abbrev Awaits : List RuleOutcome → AiLoop → Type 0
  Awaits rs s = (count_enforced rs ≡ s.remaining_enabled) × (length rs ≡ s.remaining_total)

  with_denial :
      (r : RuleOutcome) (rs : List RuleOutcome) (ps : List Poll) (s : AiLoop)
      → enforced_denies r ≡ true
      → s.decided ≡ true
      → s.final_action ≡ deny
      → Concludes (r ∷ rs) (collect start deadline ps s)
  with_denial r rs ps s e d f =
      let (s', c, f') = decided_collects ps s d in
      (s', c, f' ∙ f ∙ ap (λ b. decision (b || some_of enforced_denies rs)) (sym e))

  skips :
      (r : RuleOutcome) (rs : List RuleOutcome) (out : Option AiLoop)
      → enforced_denies r ≡ false
      → Concludes rs out
      → Concludes (r ∷ rs) out
  skips r rs out e (s, c, f) =
      (s, c, f ∙ ap (λ b. decision (b || some_of enforced_denies rs)) (sym e))

  select_in_time :
      (now : ℕ) (m : Option RuleOutcome) (ps : List Poll) (s : AiLoop)
      → ((s' : AiLoop)
          → Open s'
          → Awaits (received_of ps) s'
          → Concludes (received_of ps) (collect start deadline ps s'))
      → Open s
      → Awaits (prepend m (received_of ps)) s
      → Concludes
          (prepend m (received_of ps))
          (collect start deadline ps (select_arm start now m s))
  select_in_time now none ps s ih o a = ih s o a
  select_in_time now (some r) ps s ih o a = elim (Bool-cases (is_audit_only r.mode)) [
    | inl m ↦
        let (o', e, n) = receive_observer now r s o m in
        skips r (received_of ps) _ (ground (arith, m))
          (ih (receive start now r s) o' (ground (arith, m, a, e), omega (arith, a, n)))
    | inr m ↦ elim (Bool-cases (says_deny r.result)) [
      | inl d ↦
          let (d', f) = receive_denial now r s o m d in
          with_denial r (received_of ps) ps (receive start now r s) (ground (arith, m, d)) d' f
      | inr d ↦
          let (o', e, n) = receive_other now r s o m d in
          skips r (received_of ps) _ (ground (arith, m, d))
            (ih (receive start now r s) o' (ground (arith, m, a, e), omega (arith, a, n)))
    ]
  ]

  pub in_time :
      (ps : List Poll) (s : AiLoop)
      → some_of (λ p. ltb deadline p.checked) ps ≡ false
      → Open s
      → Awaits (received_of ps) s
      → Concludes (received_of ps) (collect start deadline ps s)
  in_time [] s t o a = elim (Bool-cases (eqb s.remaining_total 0)) [
    | inl z ↦ (s, collect_done start deadline [] s z, o.1)
    | inr z ↦ absurd (ground (arith, z, a))
  ]
  in_time (p ∷ ps) s t o a = elim (Bool-cases (eqb s.remaining_total 0)) [
    | inl z ↦ (
      s,
      collect_done start deadline (p ∷ ps) s z,
      o.1 ∙ ap decision (sym (empty_denies (received_of (p ∷ ps)) (ground (arith, z, a)))),
    )
    | inr z ↦
        let c : ltb deadline p.checked ≡ false = ground (arith, t) in
        let t' : some_of (λ q. ltb deadline q.checked) ps ≡ false = ground (arith, t) in
        elim (Bool-cases (eqb s.remaining_enabled 0)) [
          | inl e ↦
              let (d, f) = head_full p s c o e in
              (
                loop_head start deadline p s,
                collect_stops start deadline p ps s z d,
                f ∙ ap decision (sym (none_denies (received_of (p ∷ ps)) (ground (arith, e, a)))),
              )
          | inr e ↦
              let q = head_quiet p s c o e in
              let (s', k, f) =
                select_in_time p.handled p.received ps s (λ s'. in_time ps s' t') o a in
              (
                s',
                collect_goes start deadline p ps s z (ap (λ (x : AiLoop). x.decided) q ∙ o.0)
                    ∙ ap (λ x. collect start deadline ps (after_select start p x)) q
                    ∙ k,
                f,
              )
        ]
  ]
