-- ===== src/RateLimiter/Zero.antt =====
-- When internal/testsuite/ratelimiter.go reads the first of no requests.
use maybe_dont.Prelude.{
  ℕ, ◌≡◌, ◌↔◌, refl, sym, ◌∙◌, ap, String, false, List, [], ◌∷◌, inl, inr, length, Bool-cases,
  arith,
}
use maybe_dont.Prelude.Int.{exceeds}
use maybe_dont.RateLimiter.{
  RateLimiter, Admission, panics, admit, at_limit, prune, effective_limit, recent_requests,
}
use maybe_dont.RateLimiter.Window.{within, admit_full}

-- A provider for which nothing is under way: not stopped, nobody waiting, no request in the minute,
-- and a limit that is 0 or negative.
pub record IsUnusable (p : String) (now : ℕ) (rl : RateLimiter) : Type 0 where
  pub running : rl.provider_stopped p ≡ false
  pub unwatched : rl.provider_waiting p ≡ false
  pub no_limit : exceeds (effective_limit p rl) 0 ≡ false
  pub no_requests : within now (rl.provider_requests p) ≡ 0

at_limit-empty :
    (p : String) (now checked : ℕ) (ts : List ℕ) (rl : RateLimiter)
    → length ts ≡ 0
    → (at_limit p now checked ts rl).0 ≡ panics
unfolding at_limit
at_limit-empty p now checked [] rl h = refl
at_limit-empty p now checked (t ∷ ts) rl h = absurd (omega (arith, h))

at_limit-panics :
    (p : String) (now checked : ℕ) (ts : List ℕ) (rl : RateLimiter)
    → (at_limit p now checked ts rl).0 ≡ panics
    → length ts ≡ 0
unfolding at_limit
at_limit-panics p now checked [] rl h = refl
at_limit-panics p now checked (t ∷ ts) rl h = absurd (ground (arith, h))

from_panic :
    (p : String) (now checked : ℕ) (rl : RateLimiter)
    → (admit p now checked rl).0 ≡ panics
    → IsUnusable p now rl
unfolding admit
from_panic p now checked rl h = elim (Bool-cases (rl.provider_stopped p)) [
  | inl s ↦ absurd (ground (arith, h, s))
  | inr s ↦ elim (Bool-cases (rl.provider_waiting p)) [
    | inl w ↦ absurd (ground (arith, h, s, w))
    | inr w ↦
        elim (Bool-cases (exceeds (effective_limit p rl) (within now (rl.provider_requests p)))) [
          | inr f ↦
              let n =
                at_limit-panics p now checked (recent_requests now (rl.provider_requests p))
                  (prune p now rl)
                  (sym (
                      ap (λ (r : Admission × RateLimiter). r.0) (admit_full p now checked rl s w f))
                    ∙ h) in
              record {
                running = s;
                unwatched = w;
                no_limit = ap (exceeds (effective_limit p rl)) (sym n) ∙ f;
                no_requests = n;
              }
          | inl f ↦ absurd (ground (arith, h, s, w, f))
        ]
  ]
]

to_panic :
    (p : String) (now checked : ℕ) (rl : RateLimiter)
    → IsUnusable p now rl
    → (admit p now checked rl).0 ≡ panics
to_panic p now checked rl z =
    ap (λ (r : Admission × RateLimiter). r.0)
      (admit_full p now checked rl z.running z.unwatched
        (ap (exceeds (effective_limit p rl)) z.no_requests ∙ z.no_limit))
    ∙ at_limit-empty p now checked (recent_requests now (rl.provider_requests p)) (prune p now rl)
        z.no_requests

-- `WaitBeforeRequest` panics exactly when the provider's limit is 0 or negative, no request was made in
-- the last minute, and the provider is neither stopped nor waited for.
pub admit-panics :
    (p : String) (now checked : ℕ) (rl : RateLimiter)
    → ((admit p now checked rl).0 ≡ panics) ↔ IsUnusable p now rl
admit-panics p now checked rl = (from_panic p now checked rl, to_panic p now checked rl)
