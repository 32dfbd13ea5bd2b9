-- ===== src/Retry.antt =====
-- internal/gateway/ai_provider_retry.go: attempts at an AI provider, with exponential backoff. The
-- provider, the context and the waits are `World`: what the attempt with a given number meets.
pub mod Attempts
use maybe_dont.Prelude.{
  ℕ, zero, suc, ◌+◌, ◌*◌, ◌^◌, String, Bool, true, false, ◌&&◌, ◌||◌, not, List, [], ◌∷◌, Option,
  none, some, eqb, ltb, if◌then◌else◌,
}

abbrev pub retry_max_attempts : ℕ
retry_max_attempts = 2

unfoldable pub is_retryable_status_code : ℕ → Bool
is_retryable_status_code c = eqb c 429 || (eqb c 500 || (eqb c 502 || (eqb c 503 || eqb c 504)))

-- An error, as far as `errors.Is` looks at it.
pub data CallError : Type 0 where
  deadline_exceeded canceled : CallError
  other_error : String → CallError

unfoldable pub is_retryable_error : Option CallError → Bool
is_retryable_error none = false
is_retryable_error (some deadline_exceeded) = false
is_retryable_error (some canceled) = false
is_retryable_error (some (other_error s)) = true

-- What the operation gives: a value, or an error with a status code, 0 if there is none.
pub data Attempt (T : Type 0) : Type 0 where
  succeeds : T → Attempt T
  fails : ℕ → CallError → Attempt T

-- `ctx_before n` and `ctx_during n` are `ctx.Err()` before attempt n and in the wait after it.
pub record World (T : Type 0) : Type 0 where
  pub ctx_before : ℕ → Option CallError
  pub attempt : ℕ → Attempt T
  pub ctx_during : ℕ → Option CallError

pub data Retried (T : Type 0) : Type 0 where
  value : T → Retried T
  gives_up : CallError → Retried T

unfoldable pub should_retry : ℕ → CallError → Bool
unfolding is_retryable_status_code is_retryable_error
should_retry status e =
    if not (eqb status 0) && is_retryable_status_code status
    then true
    else eqb status 0 && is_retryable_error (some e)

module _ {T : Type 0} (w : World T) where
  -- Attempt `n`, with `left` more allowed after it: the result, and how many calls were made.
  unfoldable pub retry_from : ℕ → ℕ → Retried T × ℕ
  retry_from zero n = elim (w.ctx_before n) [
    | some e ↦ (gives_up e, 0)
    | none ↦ elim (w.attempt n) [ succeeds v ↦ (value v, 1) | fails status e ↦ (gives_up e, 1) ]
  ]
  retry_from (suc left) n = elim (w.ctx_before n) [
    | some e ↦ (gives_up e, 0)
    | none ↦ elim (w.attempt n) [
      | succeeds v ↦ (value v, 1)
      | fails status e ↦ elim (should_retry status e) [
        | false ↦ (gives_up e, 1)
        | true ↦ elim (w.ctx_during n) [
          | some c ↦ (gives_up c, 1)
          | none ↦ let (r, calls) = retry_from left (suc n) in (r, suc calls)
        ]
      ]
    ]
  ]

  unfoldable pub retry_operation : Retried T × ℕ
  unfolding retry_from
  retry_operation = retry_from retry_max_attempts 0

-- The delay of `calculateBackoffDelay` in milliseconds, before the random ±25%.
unfoldable pub backoff_base : ℕ → ℕ
backoff_base attempt = let delay = 500 * 2 ^ attempt in if ltb 8000 delay then 8000 else delay
