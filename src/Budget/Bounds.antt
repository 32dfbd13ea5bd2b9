-- ===== src/Budget/Bounds.antt =====
-- Bounds of the blocking budget of internal/gateway/blocking_budget.go.
use maybe_dont.Prelude.{
  ℕ, ◌+◌, ◌-◌, ◌≤◌, ◌≡◌, refl, true, List, [], ◌∷◌, min, arith, Option, none, some,
}
use maybe_dont.Budget.{
  BlockingBudget, PhaseTracker, new_blocking_budget, remaining_ms, consume_blocking, start_phase,
  mark_decided, finalize, since_ms,
}

-- Never more is charged than configured, and only a spent budget is marked.
pub record IsValid (b : BlockingBudget) : Type 0 where
  pub within : b.total_blocked_ms ≤ b.max_blocking_ms
  pub spent : b.exhausted ≡ true → b.total_blocked_ms ≡ b.max_blocking_ms

pub new_blocking_budget-IsValid : (max : ℕ) → IsValid (new_blocking_budget max)
unfolding new_blocking_budget
new_blocking_budget-IsValid max = ground arith

pub consume_blocking-IsValid :
    (b : BlockingBudget) (ms : ℕ) → IsValid b → IsValid (consume_blocking b ms).1
unfolding consume_blocking
consume_blocking-IsValid b ms v = ground arith

-- What is charged is what the caller asks for, capped by what remains, and exactly that is added.
pub consume_blocking_exact :
    (b : BlockingBudget) (ms : ℕ)
    → IsValid b
    → ((consume_blocking b ms).0 ≡ min ms (remaining_ms b))
      × ((consume_blocking b ms).1.total_blocked_ms ≡ b.total_blocked_ms + min ms (remaining_ms b))
      × ((consume_blocking b ms).1.max_blocking_ms ≡ b.max_blocking_ms)
      × (remaining_ms (consume_blocking b ms).1 ≡ remaining_ms b - ms)
unfolding consume_blocking remaining_ms
consume_blocking_exact b ms v = ground arith

abbrev pub charge_all : BlockingBudget → List ℕ → BlockingBudget
charge_all b [] = b
charge_all b (ms ∷ rest) = charge_all (consume_blocking b ms).1 rest

abbrev total : List ℕ → ℕ
total [] = 0
total (ms ∷ rest) = ms + total rest

left_over :
    (b : BlockingBudget) → IsValid b → b.total_blocked_ms + remaining_ms b ≡ b.max_blocking_ms
unfolding remaining_ms
left_over b v = ground arith

charge_all-min :
    (b : BlockingBudget) (charges : List ℕ)
    → IsValid b
    → ((charge_all b charges).total_blocked_ms
        ≡ min (b.total_blocked_ms + total charges) b.max_blocking_ms)
      × IsValid (charge_all b charges)
charge_all-min b [] v = (omega arith, v)
charge_all-min b (ms ∷ rest) v =
    let ih = charge_all-min (consume_blocking b ms).1 rest (consume_blocking-IsValid b ms v) in
    let step = consume_blocking_exact b ms v in let left = left_over b v in (omega arith, ih.1)

-- Whatever the phases of one request charge to a new budget, in any order, the time recorded as
-- blocked is their sum, capped by the configured maximum; it never wraps or passes the cap.
pub charge_all-total :
    (max : ℕ) (charges : List ℕ)
    → (charge_all (new_blocking_budget max) charges).total_blocked_ms ≡ min (total charges) max
unfolding new_blocking_budget
charge_all-total max charges =
    omega (
      arith,
      (charge_all-min (new_blocking_budget max) charges (new_blocking_budget-IsValid max)).0,
    )

-- One phase: it starts, may be decided, and is finalized.
abbrev pub phase : BlockingBudget → ℕ → Option ℕ → ℕ → PhaseTracker × BlockingBudget
phase b start none end = finalize (start_phase start, b) end
phase b start (some at) end = finalize (mark_decided (start_phase start, b) at) end

abbrev pub blocking_end : Option ℕ → ℕ → ℕ
blocking_end none end = end
blocking_end (some at) end = at

-- A phase charges the budget once: up to its decision, or up to its end if it made none. What it
-- reports as blocked is what the budget grew by, and what it reports as evaluation runs to its end.
pub phase_charges_once :
    (b : BlockingBudget) (start : ℕ) (decision : Option ℕ) (end : ℕ)
    → IsValid b
    → let (p, b') = phase b start decision end in
      (p.blocked_ms ≡ min (since_ms start (blocking_end decision end)) (remaining_ms b))
      × (b'.total_blocked_ms ≡ b.total_blocked_ms + p.blocked_ms)
      × (p.evaluation_ms ≡ since_ms start end)
      × IsValid b'
unfolding finalize mark_decided start_phase
phase_charges_once b start none end v =
    let charge = consume_blocking_exact b (since_ms start end) v in
    (charge.0, omega arith, refl, consume_blocking-IsValid b (since_ms start end) v)
phase_charges_once b start (some at) end v =
    let charge = consume_blocking_exact b (since_ms start at) v in
    (charge.0, omega arith, refl, consume_blocking-IsValid b (since_ms start at) v)
