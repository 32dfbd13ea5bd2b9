-- ===== src/Examples/Limits.antt =====
-- The rate limiter of the test runner, at concrete inputs.
use maybe_dont.Prelude.{◌+◌, ◌≤◌, ◌≡◌, ◌↔◌, refl, true, [], ◌∷◌, none, arith}
use maybe_dont.Prelude.Int.{pos, negsuc}
use maybe_dont.RateLimiter.{
  RateLimiter, RateLimiterConfig, new_rate_limiter, panics, waits_for, goes_after, admit,
  record_request, effective_limit, handle_429, at, acquire,
}
use maybe_dont.RateLimiter.Window.{within, IsAtMost, paced-within-limit}
use maybe_dont.RateLimiter.Slot.{
  Traffic, Reach, here, further, enters_holding, operates, operate, meets_429, sequential_single,
  late_release_doubles,
}
use maybe_dont.RateLimiter.Zero.{IsUnusable, admit-panics}

abbrev config : RateLimiterConfig
config = record {
  limits = ("anthropic", pos 2) ∷ ("broken", pos 0) ∷ ("inverted", negsuc 4) ∷ [];
  default_limit = pos 30;
  delay_between_requests_ms = pos 0;
  rate_limit_buffer_ms = pos 0;
  override_rpm = pos 0;
  wait_on_limit = true;
}

abbrev base : RateLimiter
base = new_rate_limiter config

-- Two requests were made, in the tenth and the twentieth second.
abbrev busy : RateLimiter
busy = record base { provider_requests = λ p. 10000000000 ∷ 20000000000 ∷ [] }

-- The third waits until the first has left the window.
third_waits : (admit "anthropic" 30000000000 30000000001 busy).0 ≡ waits_for 39999999999
unfolding admit new_rate_limiter
third_waits = refl

unlisted_goes : (admit "openai" 30000000000 30000000001 busy).0 ≡ goes_after 0
unfolding admit new_rate_limiter
unlisted_goes = refl

default_wait : (handle_429 "openai" none 0 busy).0 ≡ waits_for 65000000000
unfolding handle_429 new_rate_limiter
default_wait = refl

paced-within-limit_example : IsAtMost (effective_limit "anthropic" busy) (
    within 70000000000 (
      (record_request "anthropic" 70000000000
          (admit "anthropic" 30000000000 30000000001 busy).1).provider_requests
        "anthropic"))
unfolding admit new_rate_limiter effective_limit
paced-within-limit_example =
    paced-within-limit "anthropic" 30000000000 30000000001 70000000000 70000000000 busy
      (omega arith) refl (omega arith)

admit-panics_example : ((admit "broken" 0 0 base).0 ≡ panics) ↔ IsUnusable "broken" 0 base
admit-panics_example = admit-panics "broken" 0 0 base

inverted_panics : (admit "inverted" 0 0 base).0 ≡ panics
unfolding admit new_rate_limiter
inverted_panics = refl

broken_panics : (admit "broken" 0 0 base).0 ≡ panics
unfolding admit new_rate_limiter
broken_panics = refl

abbrev sequential : RateLimiter
sequential = record base { provider_sequential = λ p. true }

abbrev held : RateLimiter
held = record sequential { slot = λ p. true }

abbrev quiet : Traffic
quiet = record { limiter = sequential; holding = 0; free = 0 }

abbrev crowded : Traffic
crowded = record { limiter = held; holding = 1; free = 1 }

-- One request takes the slot, and another provider's 429 is handled meanwhile.
abbrev entered : Traffic
entered = record quiet {
  limiter = record sequential { slot = at "anthropic" true sequential.slot };
  holding = 1;
}

abbrev later : Traffic
later = record entered { limiter = operate (meets_429 "openai" none 5) entered.limiter }

quiet-Reach : Reach "anthropic" quiet later
unfolding acquire new_rate_limiter
quiet-Reach =
    further (further here (enters_holding quiet entered.limiter refl refl))
      (operates entered (meets_429 "openai" none 5))

sequential_single_example : later.holding + later.free ≤ 1
sequential_single_example = sequential_single "anthropic" refl refl refl quiet-Reach

late_release_doubles_example : (t : Traffic) × Reach "anthropic" crowded t × (t.holding ≡ 2)
late_release_doubles_example = late_release_doubles "anthropic" crowded refl refl refl (omega arith)
