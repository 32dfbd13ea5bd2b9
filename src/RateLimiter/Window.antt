-- ===== src/RateLimiter/Window.antt =====
-- How many requests internal/testsuite/ratelimiter.go lets through within a minute.
use maybe_dont.Prelude.{
  ℕ, ◌+◌, ◌≤◌, ◌≡◌, refl, sym, ◌∙◌, ap, String, true, false, List, [], ◌∷◌, ◌++◌, Option, none,
  some, inl, inr, ltb, length, Bool-cases, arith, eq_iff,
}
use maybe_dont.Prelude.Int.{ℤ, pos, negsuc, exceeds}
use maybe_dont.RateLimiter.{
  RateLimiter, Admission, waits_for, goes_after, admit, at_limit, prune, effective_limit,
  record_request, recent_requests, minute, at,
}

-- No more than a limit, which no number is if the limit is negative.
abbrev pub IsAtMost : ℤ → ℕ → Type 0
IsAtMost (pos l) n = n ≤ l
IsAtMost (negsuc l) n = ⊥

at_limit_fits : (l : ℤ) (n m : ℕ) → IsAtMost l n → m ≤ n → IsAtMost l m
at_limit_fits (pos l) n m h k = omega (arith, h, k)
at_limit_fits (negsuc l) n m h k = h

below_fits : (l : ℤ) (n m : ℕ) → exceeds l n ≡ true → m ≤ n + 1 → IsAtMost l m
below_fits (pos l) n m h k = ground (arith, h, k)
below_fits (negsuc l) n m h k = absurd (cc)

-- The requests of the minute before a time.
abbrev pub within : ℕ → List ℕ → ℕ
within now ts = length (recent_requests now ts)

-- The time before which an admitted request does not start.
abbrev pub earliest : Admission → ℕ → Option ℕ
earliest (waits_for w) checked = some (checked + w)
earliest (goes_after d) checked = some (checked + d)
earliest _ checked = none

within-length : (now : ℕ) (ts : List ℕ) → within now ts ≤ length ts
within-length now [] = omega arith
within-length now (t ∷ ts) = ground (arith, within-length now ts)

within-append_self : (now : ℕ) (ts : List ℕ) → within now (ts ++ now ∷ []) ≤ within now ts + 1
within-append_self now [] = ground arith
within-append_self now (t ∷ ts) = ground (arith, within-append_self now ts)

-- A list whose first request has left the window.
within-cons_old : (now t : ℕ) (ts : List ℕ) → t + minute ≤ now → within now (t ∷ ts) ≤ length ts
within-cons_old now t ts h = ground (arith, h, within-length now ts)

at_self : {A : Type 0} (p : String) (v : A) (m : String → A) → at p v m p ≡ v
at_self p v m = rw ((eq_iff p p).1 refl) refl

-- The requests after a request that starts at a time.
record_request-requests :
    (p : String) (now : ℕ) (rl : RateLimiter)
    → (record_request p now rl).provider_requests p ≡ rl.provider_requests p ++ now ∷ []
unfolding record_request
record_request-requests p now rl = at_self p _ rl.provider_requests

prune-requests :
    (p : String) (now : ℕ) (rl : RateLimiter)
    → (prune p now rl).provider_requests p ≡ recent_requests now (rl.provider_requests p)
unfolding prune
prune-requests p now rl = at_self p _ rl.provider_requests

at_limit-requests :
    (p : String) (now checked : ℕ) (ts : List ℕ) (rl : RateLimiter)
    → (at_limit p now checked ts rl).1.provider_requests ≡ rl.provider_requests
unfolding at_limit
at_limit-requests p now checked [] rl = refl
at_limit-requests p now checked (t ∷ ts) rl = ground arith

-- At the limit a request that is let through starts when the oldest one has left the window.
at_limit-within :
    (p : String) (now checked later e : ℕ) (ts : List ℕ) (rl : RateLimiter)
    → earliest (at_limit p now checked ts rl).0 checked ≡ some e
    → e ≤ later
    → within later ts + 1 ≤ length ts
unfolding at_limit
at_limit-within p now checked later e [] rl h l = absurd (ground (arith, h))
at_limit-within p now checked later e (t ∷ ts) rl h l =
    elim (Bool-cases (ltb checked (t + minute))) [
      | inl b ↦ ground (arith, h, l, b, within-cons_old later t ts)
      | inr b ↦ ground (arith, h, l, b, within-cons_old later t ts)
    ]

pub admit_full :
    (p : String) (now checked : ℕ) (rl : RateLimiter)
    → rl.provider_stopped p ≡ false
    → rl.provider_waiting p ≡ false
    → exceeds (effective_limit p rl) (within now (rl.provider_requests p)) ≡ false
    → admit p now checked rl
      ≡ at_limit p now checked (recent_requests now (rl.provider_requests p)) (prune p now rl)
unfolding admit
admit_full p now checked rl s w f = rw (s, w, f) refl

admit_below :
    (p : String) (now checked : ℕ) (rl : RateLimiter)
    → rl.provider_stopped p ≡ false
    → rl.provider_waiting p ≡ false
    → exceeds (effective_limit p rl) (within now (rl.provider_requests p)) ≡ true
    → (admit p now checked rl).1 ≡ prune p now rl
unfolding admit
admit_below p now checked rl s w f = rw (s, w, f) refl

-- Whoever is told to start has found neither flag set.
admit_flags :
    (p : String) (now checked e : ℕ) (rl : RateLimiter)
    → earliest (admit p now checked rl).0 checked ≡ some e
    → (rl.provider_stopped p ≡ false) × (rl.provider_waiting p ≡ false)
unfolding admit
admit_flags p now checked e rl h = elim (Bool-cases (rl.provider_stopped p)) [
  | inl s ↦ absurd (ground (arith, h, s))
  | inr s ↦ elim (Bool-cases (rl.provider_waiting p)) [
    | inl w ↦ absurd (ground (arith, h, s, w))
    | inr w ↦ (s, w)
  ]
]

admit-within :
    (p : String) (now checked later e : ℕ) (rl : RateLimiter)
    → IsAtMost (effective_limit p rl) (within now (rl.provider_requests p))
    → earliest (admit p now checked rl).0 checked ≡ some e
    → e ≤ later
    → IsAtMost
        (effective_limit p rl)
        (within later ((admit p now checked rl).1.provider_requests p) + 1)
admit-within p now checked later e rl h g l =
    let (s, w) = admit_flags p now checked e rl g in
    let ts = recent_requests now (rl.provider_requests p) in
    elim (Bool-cases (exceeds (effective_limit p rl) (length ts))) [
      | inr f ↦
          let q = admit_full p now checked rl s w f in
          let m : (admit p now checked rl).1.provider_requests p ≡ ts =
            ap (λ (r : Admission × RateLimiter). r.1.provider_requests p) q
            ∙ ap (λ (k : String → List ℕ). k p)
                (at_limit-requests p now checked ts (prune p now rl))
            ∙ prune-requests p now rl in
          let b : within later ts + 1 ≤ length ts =
            at_limit-within p now checked later e ts (prune p now rl)
              (sym (ap (λ (r : Admission × RateLimiter). earliest r.0 checked) q) ∙ g) l in
          rw m (at_limit_fits (effective_limit p rl) (length ts) _ h b)
      | inl f ↦
          let m : (admit p now checked rl).1.provider_requests p ≡ ts =
            ap (λ (r : RateLimiter). r.provider_requests p) (admit_below p now checked rl s w f)
            ∙ prune-requests p now rl in
          rw m (
            below_fits (effective_limit p rl) (length ts) _ f
              (omega (arith, within-length later ts)))
    ]

-- A caller that makes one request for each admission keeps the limit: if the last minute holds no
-- more requests than the limit, and `WaitBeforeRequest` lets a request start, then with that request
-- the minute before its start holds no more than the limit, whatever delay there was in between.
pub paced-within-limit :
    (p : String) (now checked later e : ℕ) (rl : RateLimiter)
    → IsAtMost (effective_limit p rl) (within now (rl.provider_requests p))
    → earliest (admit p now checked rl).0 checked ≡ some e
    → e ≤ later
    → IsAtMost
        (effective_limit p rl)
        (within later ((record_request p later (admit p now checked rl).1).provider_requests p))
paced-within-limit p now checked later e rl h g l =
    let ts = (admit p now checked rl).1.provider_requests p in
    rw (record_request-requests p later (admit p now checked rl).1) (
      at_limit_fits (effective_limit p rl) (within later ts + 1) _
        (admit-within p now checked later e rl h g l) (within-append_self later ts))
