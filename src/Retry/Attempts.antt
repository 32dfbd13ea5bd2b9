-- ===== src/Retry/Attempts.antt =====
-- When an operation of internal/gateway/ai_provider_retry.go is tried again.
use maybe_dont.Prelude.{ℕ, zero, suc, ◌≤◌, ◌≡◌, ◌≢◌, ◌⊎◌, none}
use maybe_dont.Retry.{
  CallError, deadline_exceeded, canceled, succeeds, fails, World, Retried, value, gives_up,
}

-- What is tried again: one of the five status codes, or an error without a status that is not one of
-- the context.
abbrev pub IsTransient : ℕ → CallError → Type 0
IsTransient status e =
    ((status ≡ 429) ⊎ (status ≡ 500) ⊎ (status ≡ 502) ⊎ (status ≡ 503) ⊎ (status ≡ 504))
    ⊎ ((status ≡ 0) × (e ≢ deadline_exceeded) × (e ≢ canceled))

module _ {T : Type 0} (w : World T) where
  -- An attempt that fails in a way that is tried again, with the context alive before and after.
  pub record Retries (n : ℕ) : Type 0 where
    pub alive : w.ctx_before n ≡ none
    pub status : ℕ
    pub error : CallError
    pub failed : w.attempt n ≡ fails status error
    pub transient : IsTransient status error
    pub waited : w.ctx_during n ≡ none

  -- Attempt `k` succeeds with `v`, and each one from `n` to it is reached.
  abbrev pub Succeeds : ℕ → ℕ → T → Type 0
  Succeeds zero n v = (w.ctx_before n ≡ none) × (w.attempt n ≡ succeeds v)
  Succeeds (suc k) n v = Retries n × Succeeds k (suc n) v

  -- The value of attempt `k`, after `k` that were tried again, in `k + 1` calls.
  abbrev Fetched : ℕ → ℕ → T → Retried T × ℕ → Type 0
  Fetched left n v out = (k : ℕ) × (k ≤ left) × Succeeds k n v × (out.1 ≡ suc k)

  -- How one round ends, when it is not tried again.
  abbrev Ends : ℕ → Retried T × ℕ → Type 0
  Ends n out =
      ((v : T) × (w.ctx_before n ≡ none) × (w.attempt n ≡ succeeds v) × (out ≡ (value v, 1)))
      ⊎ ((e : CallError) × (out.0 ≡ gives_up e) × (out.1 ≤ 1))

  abbrev Sound : ℕ → ℕ → Retried T × ℕ → Type 0
  Sound left n out = (out.1 ≤ suc left) × ((v : T) → out.0 ≡ value v → Fetched left n v out)
