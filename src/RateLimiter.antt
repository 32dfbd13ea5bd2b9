-- ===== src/RateLimiter.antt =====
-- internal/testsuite/ratelimiter.go: how fast the test runner asks each provider. Each critical section
-- of the mutex is one function on the limiter; waiting, on the condition variable or for time to
-- pass, stands between them. Maps from providers are functions, with Go's zero value where the map
-- has no entry. Times are nanoseconds, the limits of providers and the settings
-- integers. Output is left out.
pub mod Window
pub mod Slot
pub mod Zero
use maybe_dont.Prelude.{
  ℕ, ◌+◌, ◌-◌, ◌*◌, String, Bool, true, false, ◌==◌, not, ◌&&◌, List, [], ◌∷◌, ◌++◌, Option, none,
  some, ltb, leb, eqb, length, select, if◌then◌else◌,
}
use maybe_dont.Prelude.Int.{ℤ, pos, negsuc, exceeds}
use maybe_dont.Sessions.{lookup}

-- Counts that a provider reports; `none` is a negative number of remaining ones.
pub record RateLimitInfo : Type 0 where
  pub provider : String
  pub requests_limit : ℕ
  pub requests_remaining : Option ℕ
  pub requests_reset : Option ℕ
  pub tokens_limit : ℕ
  pub tokens_remaining : Option ℕ
  pub tokens_reset : Option ℕ
  pub retry_after : ℕ

pub record LearnedLimits : Type 0 where
  pub requests_limit : ℕ
  pub requests_remaining : ℕ
  pub requests_reset : Option ℕ
  pub tokens_limit : ℕ
  pub tokens_remaining : ℕ
  pub tokens_reset : Option ℕ
  pub last_updated : ℕ

-- `slot` says that the semaphore of a provider is taken.
pub record RateLimiter : Type 0 where
  pub provider_limits : List (String × ℤ)
  pub default_limit : ℕ
  pub delay_between_requests_ms : ℕ
  pub rate_limit_buffer_ms : ℕ
  pub wait_on_limit : Bool
  pub provider_requests : String → List ℕ
  pub provider_stopped : String → Bool
  pub provider_waiting : String → Bool
  pub provider_sequential : String → Bool
  pub learned_limits : String → Option LearnedLimits
  pub slot : String → Bool

-- `m[k] = v`.
abbrev pub at : {A : Type 0} → String → A → (String → A) → String → A
at k v m j = if j == k then v else m j

pub record RateLimiterConfig : Type 0 where
  pub limits : List (String × ℤ)
  pub default_limit : ℤ
  pub delay_between_requests_ms : ℤ
  pub rate_limit_buffer_ms : ℤ
  pub override_rpm : ℤ
  pub wait_on_limit : Bool

abbrev override_all : ℤ → List (String × ℤ) → List (String × ℤ)
override_all n [] = []
override_all n ((p, l) ∷ ls) = (p, n) ∷ override_all n ls

abbrev if_positive : ℕ → ℕ → ℕ
if_positive n d = if ltb 0 n then n else d

abbrev positive_or : ℤ → ℕ → ℕ
positive_or (pos n) d = if_positive n d
positive_or (negsuc n) d = d

unfoldable pub new_rate_limiter : RateLimiterConfig → RateLimiter
new_rate_limiter cfg = record {
  provider_limits =
      if exceeds cfg.override_rpm 0 then override_all cfg.override_rpm cfg.limits else cfg.limits;
  default_limit = positive_or cfg.override_rpm (positive_or cfg.default_limit 30);
  delay_between_requests_ms = positive_or cfg.delay_between_requests_ms 100;
  rate_limit_buffer_ms = positive_or cfg.rate_limit_buffer_ms 5000;
  wait_on_limit = cfg.wait_on_limit;
  provider_requests = λ p. [];
  provider_stopped = λ p. false;
  provider_waiting = λ p. false;
  provider_sequential = λ p. false;
  learned_limits = λ p. none;
  slot = λ p. false;
}

abbrev or_default : ℕ → Option ℕ → ℕ
or_default d none = d
or_default d (some l) = l

abbrev own_limit : ℕ → Option ℤ → ℤ
own_limit d none = pos d
own_limit d (some l) = l

-- A limit that is configured for a provider may be negative.
unfoldable pub get_limit : String → RateLimiter → ℤ
get_limit p rl = own_limit rl.default_limit (lookup p rl.provider_limits)

unfoldable pub stop_provider : String → RateLimiter → RateLimiter
stop_provider p rl = record rl { provider_stopped = at p true rl.provider_stopped }

unfoldable pub record_request : String → ℕ → RateLimiter → RateLimiter
record_request p now rl = record rl {
  provider_requests = at p (rl.provider_requests p ++ now ∷ []) rl.provider_requests;
}

abbrev pub lower_limit : ℤ → Option LearnedLimits → ℤ
lower_limit limit none = limit
lower_limit limit (some l) =
    if ltb 0 l.requests_limit && exceeds limit l.requests_limit then pos l.requests_limit else limit

-- The configured limit, or the provider's own if that is lower.
unfoldable pub effective_limit : String → RateLimiter → ℤ
unfolding get_limit
effective_limit p rl = lower_limit (get_limit p rl) (rl.learned_limits p)

abbrev pub minute : ℕ
minute = 60000000000

-- The requests of the last minute.
abbrev pub recent_requests : ℕ → List ℕ → List ℕ
recent_requests now = select (λ t. ltb now (t + minute))

-- What a critical section of `WaitBeforeRequest` or `Handle429WithInfo` decides: an error, waiting on
-- the condition variable, waiting for a time before the flag is cleared, going on after a delay, the
-- error that tells the caller to try again, or the panic of an index out of range.
pub data Admission : Type 0 where
  refused queued retries panics : Admission
  waits_for : ℕ → Admission
  goes_after : ℕ → Admission

abbrev pub last_or : ℕ → List ℕ → ℕ
last_or d [] = d
last_or d (t ∷ ts) = last_or t ts

-- The delay between two requests.
unfoldable pub delay_after : ℕ → ℕ → List ℕ → ℕ
delay_after delay_ms now [] = 0
delay_after delay_ms now (t ∷ ts) = delay_ms * 1000000 - (now - last_or t ts)

unfoldable pub prune : String → ℕ → RateLimiter → RateLimiter
prune p now rl = record rl {
  provider_requests = at p (recent_requests now (rl.provider_requests p)) rl.provider_requests;
}

-- At the limit: `oldest` is the first of the window; `checked` is the clock when the wait is computed.
unfoldable pub at_limit : String → ℕ → ℕ → List ℕ → RateLimiter → Admission × RateLimiter
at_limit p now checked [] rl = (panics, rl)
at_limit p now checked (oldest ∷ rest) rl =
    if ltb checked (oldest + minute)
    then (if not rl.wait_on_limit
        then (refused, record rl { provider_stopped = at p true rl.provider_stopped })
        else (
          waits_for (oldest + minute - checked),
          record rl { provider_waiting = at p true rl.provider_waiting },
        ))
    else (goes_after (delay_after rl.delay_between_requests_ms now (oldest ∷ rest)), rl)

-- The section of `WaitBeforeRequest` under the lock, entered at first and after each wake-up.
unfoldable pub admit : String → ℕ → ℕ → RateLimiter → Admission × RateLimiter
unfolding effective_limit prune at_limit delay_after
admit p now checked rl =
    let recent = recent_requests now (rl.provider_requests p) in
    if rl.provider_stopped p
    then (refused, rl)
    else if rl.provider_waiting p
    then (queued, rl)
    else if not (exceeds (effective_limit p rl) (length recent))
    then at_limit p now checked recent (prune p now rl)
    else (goes_after (delay_after rl.delay_between_requests_ms now recent), prune p now rl)

-- After a wait that `ended`, or was cancelled.
unfoldable pub end_wait : String → Bool → RateLimiter → RateLimiter
end_wait p ended rl = record rl {
  provider_waiting = at p false rl.provider_waiting;
  provider_sequential = if ended then at p true rl.provider_sequential else rl.provider_sequential;
}

-- Entering `WaitBeforeRequest`: in sequential mode the slot is taken, or waited for (`none`).
unfoldable pub acquire : String → RateLimiter → Option RateLimiter
acquire p rl =
    if rl.provider_sequential p
    then (if rl.slot p then none else some (record rl { slot = at p true rl.slot }))
    else some rl

-- `releaseSequentialSlotIfNeeded`: it asks for the mode at this time.
unfoldable pub release_sequential_slot : String → RateLimiter → RateLimiter
release_sequential_slot p rl =
    if rl.provider_sequential p then record rl { slot = at p false rl.slot } else rl

abbrev or_zero : Option LearnedLimits → LearnedLimits
or_zero none = record {
  requests_limit = 0;
  requests_remaining = 0;
  requests_reset = none;
  tokens_limit = 0;
  tokens_remaining = 0;
  tokens_reset = none;
  last_updated = 0;
}
or_zero (some l) = l

abbrev newer : Option ℕ → Option ℕ → Option ℕ
newer none old = old
newer (some t) old = some t

unfoldable pub update_from_response : Option RateLimitInfo → ℕ → RateLimiter → RateLimiter
update_from_response none now rl = rl
update_from_response (some i) now rl =
    let l = or_zero (rl.learned_limits i.provider) in
    record rl {
      learned_limits =
          at i.provider
            (some (record {
              requests_limit = if_positive i.requests_limit l.requests_limit;
              requests_remaining = or_default l.requests_remaining i.requests_remaining;
              requests_reset = newer i.requests_reset l.requests_reset;
              tokens_limit = if_positive i.tokens_limit l.tokens_limit;
              tokens_remaining = or_default l.tokens_remaining i.tokens_remaining;
              tokens_reset = newer i.tokens_reset l.tokens_reset;
              last_updated = now;
            }))
            rl.learned_limits;
    }

-- How long a 429 is waited for; a time that has passed is 0.
unfoldable pub wait_duration : Option RateLimitInfo → ℕ → ℕ → ℕ
wait_duration none now buffer_ms = minute + buffer_ms * 1000000
wait_duration (some i) now buffer_ms =
    if ltb 0 i.retry_after
    then i.retry_after + buffer_ms * 1000000
    else until_reset i.requests_reset
  where
    until_reset : Option ℕ → ℕ
    until_reset none = minute + buffer_ms * 1000000
    until_reset (some t) = t + buffer_ms * 1000000 - now

-- The first section of `Handle429WithInfo`.
unfoldable pub handle_429 :
    String → Option RateLimitInfo → ℕ → RateLimiter → Admission × RateLimiter
unfolding stop_provider wait_duration
handle_429 p info now rl =
    if not rl.wait_on_limit
    then (refused, stop_provider p rl)
    else if rl.provider_waiting p
    then (queued, rl)
    else (
      waits_for (wait_duration info now rl.rate_limit_buffer_ms),
      record rl { provider_waiting = at p true rl.provider_waiting },
    )

-- Its section after each wake-up from the condition variable.
unfoldable pub woken_429 : String → Option RateLimitInfo → ℕ → RateLimiter → Admission × RateLimiter
unfolding wait_duration
woken_429 p info now rl =
    if rl.provider_stopped p
    then (refused, rl)
    else if rl.provider_sequential p
    then (retries, rl)
    else if rl.provider_waiting p
    then (queued, rl)
    else (
      waits_for (wait_duration info now rl.rate_limit_buffer_ms),
      record rl { provider_waiting = at p true rl.provider_waiting },
    )
