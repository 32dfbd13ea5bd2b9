-- ===== src/Downstream/Startup.antt =====
-- How often and how long internal/gateway/client_manager.go waits for a downstream server to start.
use native.Mathlib.Nat.{mul-le-mul, mul-le-mul_right, pow-le-pow_right}
use maybe_dont.Prelude.{
  ℕ, zero, suc, ◌+◌, ◌*◌, ◌^◌, ◌≤◌, ◌<◌, min, ◌≡◌, sym, ap, subst, String, Bool, true, false, List,
  [], ◌∷◌, All, length, arith,
}
use maybe_dont.Prelude.Int.{ℤ, pos, negsuc}
use maybe_dont.Settings.Paths.{FilePaths}
use maybe_dont.Settings.Checks.{Settings, ClientSettings, validate_config}
use maybe_dont.Settings.Checks.Accepted.{IsUpTo}
use maybe_dont.Settings.Checks.Clients.{IsRunnable, IsTimed, validate_config-downstream}
use maybe_dont.Downstream.{
  Answer, answers, fails, Initialized, last_round, next_round, to_int64, at_most, backoff,
  initialize_from, initialize, natural,
}

int64_fits : (x : ℕ) → x < 2 ^ 63 → to_int64 x ≡ pos x
unfolding to_int64
int64_fits x h = ground arith

product_fits : (ms n : ℕ) → ms ≤ 10000 → n ≤ 10 → ms * 1000000 * 2 ^ n ≤ 10000 * 1000000 * 2 ^ 10
product_fits ms n h k = mul-le-mul (mul-le-mul_right 1000000 h) (pow-le-pow_right (omega arith) k)

-- Within the limits of an accepted configuration no delay overflows.
backoff_fits :
    (ms n : ℕ) → ms ≤ 10000 → n ≤ 10 → backoff ms n ≡ pos (min (ms * 1000000 * 2 ^ n) 2000000000)
unfolding backoff
backoff_fits ms n h k =
    ap (at_most 2000000000)
      (int64_fits (ms * 1000000 * 2 ^ n) (omega (arith, product_fits ms n h k)))

backoff_bounded : (ms n : ℕ) → ms ≤ 10000 → n ≤ 10 → IsUpTo 2000000000 (backoff ms n)
backoff_bounded ms n h k = subst (IsUpTo 2000000000) (sym (backoff_fits ms n h k)) (omega arith)

-- The calls and the waits of a start.
abbrev pub IsPatient : {T : Type 0} → ℕ → ℕ → Initialized T × (ℕ × List ℤ) → Type 0
IsPatient limit retries (o, (calls, waits)) =
    (1 ≤ calls) × (calls ≤ suc retries) × (length waits ≤ retries) × All (IsUpTo limit) waits

module _ {T : Type 0} (limit : ℕ) where
  last_round-IsPatient : (n : ℕ) (a : Answer T) → IsPatient limit 0 (last_round n a)
  last_round-IsPatient n (answers v) = (omega arith, omega arith, omega arith, tt)
  last_round-IsPatient n (fails e) = (omega arith, omega arith, omega arith, tt)

  next_round-IsPatient :
      (left : ℕ) (delay : ℤ) (rest : Initialized T × (ℕ × List ℤ)) (a : Answer T) (e w : Bool)
      → IsUpTo limit delay
      → IsPatient limit left rest
      → IsPatient limit (suc left) (next_round delay rest a e w)
  next_round-IsPatient left delay rest (answers v) e w h p =
      (omega arith, omega arith, omega arith, tt)
  next_round-IsPatient left delay rest (fails x) true w h p =
      (omega arith, omega arith, omega arith, tt)
  next_round-IsPatient left delay rest (fails x) false true h p =
      (omega arith, omega arith, omega arith, (h, tt))
  next_round-IsPatient left delay (o, (calls, waits)) (fails x) false false h (a, b, c, d) =
      (omega (arith, a), omega (arith, b), omega (arith, c), (h, d))

module _ {T : Type 0} (delay : ℕ → ℤ) (attempt : ℕ → Answer T) (expired expires_waiting : ℕ → Bool)
    (limit : ℕ) where
  initialize_from-IsPatient :
      (left n : ℕ)
      → ((i : ℕ) → i < n + left → IsUpTo limit (delay i))
      → IsPatient limit left (initialize_from delay attempt expired expires_waiting left n)
  unfolding initialize_from
  initialize_from-IsPatient zero n h = last_round-IsPatient limit n (attempt n)
  initialize_from-IsPatient (suc left) n h =
      next_round-IsPatient limit left (delay n) _ (attempt n) (expired n) (expires_waiting n)
        (h n (omega arith)) (initialize_from-IsPatient left (suc n) (λ i k. h i (omega (arith, k))))

in_range : (limit : ℕ) (v : ℤ) → IsUpTo limit v → natural v ≤ limit
in_range limit (pos n) h = h
in_range limit (negsuc n) h = absurd h

Calls : {T : Type 0} → (ℕ → Answer T) → (ℕ → Bool) → (ℕ → Bool) → ClientSettings → Type 0
Calls attempt expired expires_waiting c =
    IsPatient 2000000000 (natural c.initialization_retries)
      (initialize c attempt expired expires_waiting)

timed_start :
    {T : Type 0} (attempt : ℕ → Answer T) (expired expires_waiting : ℕ → Bool) (c : ClientSettings)
    → IsTimed c
    → Calls attempt expired expires_waiting c
unfolding Calls initialize
timed_start attempt expired expires_waiting c (_, r, d, _, _, _) =
    let base = natural c.retry_delay_ms in
    initialize_from-IsPatient (backoff base) attempt expired expires_waiting 2000000000
      (natural c.initialization_retries) 0
      (λ i k.
        backoff_bounded base i (in_range 10000 c.retry_delay_ms d)
          (omega (arith, k, in_range 10 c.initialization_retries r)))

All-map : {A : Type 0} (P Q : A → Type 0) (l : List A) → ((a : A) → P a → Q a) → All P l → All Q l
All-map P Q [] f h = tt
All-map P Q (a ∷ l) f (p, h) = (f a p, All-map P Q l f h)

-- Whatever it answers, a downstream server of an accepted configuration is called at least once and at
-- most once more than its retries, with at most as many waits, each between 0 and 2 seconds: no
-- delay overflows.
pub accepted_starts_patiently :
    {T : Type 0} (os : FilePaths) (parses : String → Bool) (load_errors : List String)
    (s : Settings) (attempt : String → ℕ → Answer T) (expired expires_waiting : String → ℕ → Bool)
    → validate_config os parses load_errors s ≡ []
    → All
        (λ (e : String × ClientSettings).
          IsPatient 2000000000
            (natural e.1.initialization_retries)
            (initialize e.1 (attempt e.0) (expired e.0) (expires_waiting e.0)))
        s.downstream
unfolding Calls
accepted_starts_patiently os parses load_errors s attempt expired expires_waiting h =
    All-map (λ e. IsRunnable e.1 × IsTimed e.1)
      (λ e. Calls (attempt e.0) (expired e.0) (expires_waiting e.0) e.1) s.downstream
      (λ e p. timed_start (attempt e.0) (expired e.0) (expires_waiting e.0) e.1 p.1)
      (validate_config-downstream os parses load_errors s h)
