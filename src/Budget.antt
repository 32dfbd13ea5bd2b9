-- ===== src/Budget.antt =====
-- internal/gateway/blocking_budget.go: how long one request may be kept waiting by its validation
-- phases. A method that writes through the pointer returns the new record. `max_blocking_ms` is
-- configured between 0 and 120000 (ValidateConfig), so milliseconds are natural numbers. The clock
-- is the argument `now`, in nanoseconds of the monotonic clock that `time.Since` reads. The mutex
-- makes each method one step.
pub mod Bounds
use maybe_dont.Prelude.{
  ℕ, ◌+◌, ◌-◌, ◌*◌, ◌/◌, Bool, true, false, not, ◌&&◌, ◌||◌, ltb, leb, if◌then◌else◌,
}

pub record BlockingBudget : Type 0 where
  pub max_blocking_ms : ℕ
  pub total_blocked_ms : ℕ
  pub exhausted : Bool

unfoldable pub new_blocking_budget : ℕ → BlockingBudget
new_blocking_budget max = record { max_blocking_ms = max; total_blocked_ms = 0; exhausted = false }

unfoldable pub remaining_ms : BlockingBudget → ℕ
remaining_ms b = if b.exhausted then 0 else b.max_blocking_ms - b.total_blocked_ms

unfoldable pub is_exhausted : BlockingBudget → Bool
is_exhausted b = b.exhausted

-- The amount that is charged, and the budget after it. `total - max` below 0 is the branch
-- `remaining <= 0`.
unfoldable pub consume_blocking : BlockingBudget → ℕ → ℕ × BlockingBudget
consume_blocking b ms =
    let remaining = b.max_blocking_ms - b.total_blocked_ms in
    if b.exhausted
    then (0, b)
    else if leb remaining 0
    then (0, record b { exhausted = true })
    else if ltb remaining ms
    then (
      remaining,
      record b { total_blocked_ms = b.total_blocked_ms + remaining; exhausted = true },
    )
    else (ms, record b { total_blocked_ms = b.total_blocked_ms + ms })

-- The wall-clock time at which the budget runs out, in nanoseconds.
unfoldable pub blocking_deadline : BlockingBudget → ℕ → ℕ
blocking_deadline b now =
    let remaining = b.max_blocking_ms - b.total_blocked_ms in
    if leb remaining 0 || b.exhausted then now else now + remaining * 1000000

pub record PhaseTracker : Type 0 where
  pub start_time : ℕ
  pub blocked_ms : ℕ
  pub evaluation_ms : ℕ
  pub decided : Bool

-- `time.Since(start).Milliseconds()`.
unfoldable pub since_ms : ℕ → ℕ → ℕ
since_ms start now = (now - start) / 1000000

unfoldable pub start_phase : ℕ → PhaseTracker
start_phase now = record { start_time = now; blocked_ms = 0; evaluation_ms = 0; decided = false }

-- The tracker holds a pointer to the budget: both are changed.
unfoldable pub mark_decided : PhaseTracker × BlockingBudget → ℕ → PhaseTracker × BlockingBudget
unfolding since_ms
mark_decided (p, b) now =
    let (charged, b') = consume_blocking b (since_ms p.start_time now) in
    if p.decided then (p, b) else (record p { decided = true; blocked_ms = charged }, b')

unfoldable pub finalize : PhaseTracker × BlockingBudget → ℕ → PhaseTracker × BlockingBudget
unfolding since_ms
finalize (p, b) now =
    let elapsed = since_ms p.start_time now in
    let (charged, b') = consume_blocking b elapsed in
    if p.decided
    then (record p { evaluation_ms = elapsed }, b)
    else (record p { evaluation_ms = elapsed; blocked_ms = charged }, b')

unfoldable pub should_block : PhaseTracker × BlockingBudget → Bool
unfolding is_exhausted
should_block (p, b) = not p.decided && not (is_exhausted b)

unfoldable pub remaining_blocking_ms : PhaseTracker × BlockingBudget → ℕ
unfolding remaining_ms
remaining_blocking_ms (p, b) = if p.decided then 0 else remaining_ms b
