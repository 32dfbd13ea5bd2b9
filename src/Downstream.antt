-- ===== src/Downstream.antt =====
-- How internal/gateway/client_manager.go starts a downstream server and discovers what it offers, with
-- retries. The answers of the server and the state of the context are functions of the number of
-- the attempt. Waits are in nanoseconds.
pub mod Startup
pub mod Discovery
use maybe_dont.Prelude.{
  ℕ, zero, suc, ◌*◌, ◌-◌, ◌^◌, ◌%◌, min, String, Bool, true, false, ◌||◌, not, List, [], ◌∷◌,
  Option, none, some, eqb, ltb, length, if◌then◌else◌,
}
use maybe_dont.Prelude.Int.{ℤ, pos, negsuc}
use maybe_dont.Settings.Checks.{ClientSettings}

-- What one call gives: a value or an error.
pub data Answer (T : Type 0) : Type 0 where
  answers : T → Answer T
  fails : String → Answer T

-- An `int64`: the number modulo 2^64, between -2^63 and 2^63 - 1.
unfoldable pub to_int64 : ℕ → ℤ
to_int64 n = let m = n % 2 ^ 64 in if ltb m (2 ^ 63) then pos m else negsuc (2 ^ 64 - 1 - m)

abbrev pub at_most : ℕ → ℤ → ℤ
at_most limit (pos n) = pos (min n limit)
at_most limit (negsuc n) = negsuc n

-- The delay after attempt `n`, doubled each time, at most 2 seconds.
unfoldable pub backoff : ℕ → ℕ → ℤ
unfolding to_int64
backoff retry_delay_ms n = at_most 2000000000 (to_int64 (retry_delay_ms * 1000000 * 2 ^ n))

pub data Initialized (T : Type 0) : Type 0 where
  ready : T → Initialized T
  exhausted : ℕ → String → Initialized T
  timed_out : Initialized T

module _ {T : Type 0} where
  -- The last attempt, with its number.
  abbrev pub last_round : ℕ → Answer T → Initialized T × (ℕ × List ℤ)
  last_round n (answers v) = (ready v, (1, []))
  last_round n (fails e) = (exhausted (suc n) e, (1, []))

  -- Another attempt: the delay after it, what the later ones come to, its answer, and whether the
  -- time is up after it and while waiting.
  abbrev pub next_round :
      ℤ → Initialized T × (ℕ × List ℤ) → Answer T → Bool → Bool → Initialized T × (ℕ × List ℤ)
  next_round delay rest (answers v) expired expires_waiting = (ready v, (1, []))
  next_round delay rest (fails e) true expires_waiting = (timed_out, (1, []))
  next_round delay rest (fails e) false true = (timed_out, (1, delay ∷ []))
  next_round delay (o, (calls, waits)) (fails e) false false = (o, (suc calls, delay ∷ waits))

module _ {T : Type 0} (delay : ℕ → ℤ) (attempt : ℕ → Answer T)
    (expired expires_waiting : ℕ → Bool) where
  -- Attempt `n`, with `left` retries after it: the outcome, the calls and the waits.
  unfoldable pub initialize_from : ℕ → ℕ → Initialized T × (ℕ × List ℤ)
  initialize_from zero n = last_round n (attempt n)
  initialize_from (suc left) n =
      next_round (delay n) (initialize_from left (suc n)) (attempt n) (expired n)
        (expires_waiting n)

abbrev pub natural : ℤ → ℕ
natural (pos n) = n
natural (negsuc n) = 0

-- `initializeSessionClientWithRetry`, for settings that are not negative.
unfoldable pub initialize :
    {T : Type 0}
    → ClientSettings
    → (ℕ → Answer T)
    → (ℕ → Bool)
    → (ℕ → Bool)
    → Initialized T × (ℕ × List ℤ)
unfolding initialize_from backoff
initialize c attempt expired expires_waiting =
    initialize_from (backoff (natural c.retry_delay_ms)) attempt expired expires_waiting
      (natural c.initialization_retries) 0

-- `nothing` is the zero value without an error.
pub data Discovered (T : Type 0) : Type 0 where
  found : T → Discovered T
  failed : String → Discovered T
  nothing cancelled : Discovered T

abbrev pub ended : {T : Type 0} → Option String → Discovered T
ended none = nothing
ended (some e) = failed e

module _ {T : Type 0} (attempt : ℕ → Answer T) (is_cancelled : ℕ → Bool)
    (accepts : T → ℕ → Bool) where
  -- Attempt `n`, with `left` retries after it and the last error so far.
  unfoldable pub session_retry_from : ℕ → ℕ → Option String → Discovered T
  session_retry_from zero n last = elim (attempt n) [
    | answers v ↦ (if accepts v n then found v else ended last)
    | fails e ↦ failed e
  ]
  session_retry_from (suc left) n last =
      let after = λ (e : Option String).
        if is_cancelled n then cancelled else session_retry_from left (suc n) e in
      elim (attempt n) [
        | answers v ↦ (if accepts v n then found v else after last)
        | fails e ↦ after (some e)
      ]

abbrev pub none_of : {A : Type 0} → List A → Bool
none_of [] = true
none_of (a ∷ as') = false

-- Tools are accepted if there are some, or at the last attempt.
unfoldable pub discover_tools :
    {A : Type 0} → ℕ → (ℕ → Answer (List A)) → (ℕ → Bool) → Discovered (List A)
unfolding session_retry_from
discover_tools retries attempt is_cancelled =
    session_retry_from attempt is_cancelled (λ ts n. not (none_of ts) || eqb n retries) retries 0
      none

-- Prompts, resources and templates: any answer is accepted.
unfoldable pub discover_others : {T : Type 0} → ℕ → (ℕ → Answer T) → (ℕ → Bool) → Discovered T
unfolding session_retry_from
discover_others retries attempt is_cancelled =
    session_retry_from attempt is_cancelled (λ v n. true) retries 0 none
