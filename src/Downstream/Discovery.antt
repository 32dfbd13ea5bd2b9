-- ===== src/Downstream/Discovery.antt =====
-- Which tools internal/gateway/client_manager.go discovers, and when a server counts as started.
use maybe_dont.Prelude.{
  ℕ, zero, suc, ◌+◌, ◌≤◌, ◌≡◌, ◌↔◌, ◌⊎◌, refl, ◌∙◌, ap, inl, inr, String, Bool, true, false, ◌||◌,
  not, List, [], ◌∷◌, Option, none, some, eqb, arith,
}
use maybe_dont.Prelude.Int.{ℤ}
use maybe_dont.Downstream.{
  Answer, answers, fails, Initialized, ready, last_round, next_round, initialize_from, Discovered,
  found, failed, session_retry_from, discover_tools, none_of,
}

module _ {T : Type 0} (delay : ℕ → ℤ) (attempt : ℕ → Answer T)
    (expired expires_waiting : ℕ → Bool) where
  -- Attempt `n + k` gives `v`, and each one from `n` to it fails with time left.
  abbrev pub Reaches : ℕ → ℕ → T → Type 0
  Reaches zero n v = attempt n ≡ answers v
  Reaches (suc k) n v =
      ((e : String) × (attempt n ≡ fails e))
      × (expired n ≡ false)
      × (expires_waiting n ≡ false)
      × Reaches k (suc n) v

  reached_ready :
      (left k n : ℕ) (v : T)
      → k ≤ left
      → Reaches k n v
      → (initialize_from delay attempt expired expires_waiting left n).0 ≡ ready v
  unfolding initialize_from
  reached_ready zero zero n v h r = rw r refl
  reached_ready zero (suc k) n v h r = absurd (omega arith)
  reached_ready (suc left) zero n v h r = rw r refl
  reached_ready (suc left) (suc k) n v h ((e, f), x, w, r) =
      rw (f, x, w) (reached_ready left k (suc n) v (omega arith) r)

  -- One round that ends ready: the attempt answers, or the rest ends ready with time left.
  ready_round :
      (d : ℤ) (rest : Initialized T × (ℕ × List ℤ)) (a : Answer T) (x w : Bool) (v : T)
      → (next_round d rest a x w).0 ≡ ready v
      → (a ≡ answers v)
        ⊎ ((((e : String) × (a ≡ fails e)) × (x ≡ false) × (w ≡ false)) × (rest.0 ≡ ready v))
  ready_round d rest (answers u) x w v h = inl (cc)
  ready_round d rest (fails e) true w v h = absurd (cc)
  ready_round d rest (fails e) false true v h = absurd (cc)
  ready_round d (o, (calls, waits)) (fails e) false false v h = inr (((e, refl), refl, refl), h)

  ready_last : (n : ℕ) (a : Answer T) (v : T) → (last_round n a).0 ≡ ready v → a ≡ answers v
  ready_last n (answers u) v h = cc
  ready_last n (fails e) v h = absurd (cc)

  ready_reached :
      (left n : ℕ) (v : T)
      → (initialize_from delay attempt expired expires_waiting left n).0 ≡ ready v
      → (k : ℕ) × (k ≤ left) × Reaches k n v
  unfolding initialize_from
  ready_reached zero n v h = (0, omega arith, ready_last n (attempt n) v h)
  ready_reached (suc left) n v h =
      elim (ready_round (delay n)
        (initialize_from delay attempt expired expires_waiting left (suc n)) (attempt n) (expired n)
        (expires_waiting n) v h) [
          | inl a ↦ (0, omega arith, a)
          | inr ((f, x, w), r) ↦
              let (k, l, s) = ready_reached left (suc n) v r in
              (suc k, omega (arith, l), (f, x, w, s))
        ]

  -- A start ends ready with a value exactly when one of the attempts gives it, and each attempt before
  -- that fails with time left after it and after its wait.
  pub initialize_from-ready :
      (retries : ℕ) (v : T)
      → ((initialize_from delay attempt expired expires_waiting retries 0).0 ≡ ready v)
        ↔ ((k : ℕ) × (k ≤ retries) × Reaches k 0 v)
  initialize_from-ready retries v =
      (ready_reached retries 0 v, λ (k, l, r). reached_ready retries k 0 v l r)

module _ {A : Type 0} where
  -- The tools of an answer, if it has any.
  abbrev offered : Answer (List A) → Option (List A)
  offered (fails e) = none
  offered (answers []) = none
  offered (answers (t ∷ ts)) = some (t ∷ ts)

  abbrev or_later : Option (List A) → Option (List A) → Option (List A)
  or_later (some ts) rest = some ts
  or_later none rest = rest

  -- The first tools among the attempts from `n` to `n + left`.
  abbrev pub first_tools : (ℕ → Answer (List A)) → ℕ → ℕ → Option (List A)
  first_tools attempt zero n = offered (attempt n)
  first_tools attempt (suc left) n =
      or_later (offered (attempt n)) (first_tools attempt left (suc n))

  abbrev last_word : Answer (List A) → Discovered (List A)
  last_word (answers ts) = found ts
  last_word (fails e) = failed e

  abbrev pub first_or_last : Option (List A) → Answer (List A) → Discovered (List A)
  first_or_last (some ts) a = found ts
  first_or_last none a = last_word a

  abbrev accepts : ℕ → List A → ℕ → Bool
  accepts r ts n = not (none_of ts) || eqb n r

  module _ (attempt : ℕ → Answer (List A)) (is_cancelled : ℕ → Bool) (r : ℕ) where
    last_attempt :
        (n : ℕ) (last : Option String) (a : Answer (List A))
        → attempt n ≡ a
        → eqb n r ≡ true
        → session_retry_from attempt is_cancelled (accepts r) zero n last
          ≡ first_or_last (offered a) a
    unfolding session_retry_from
    last_attempt n last (fails e) h k = rw (h, session_retry_from) refl
    last_attempt n last (answers []) h k = rw (h, session_retry_from, k) refl
    last_attempt n last (answers (t ∷ ts)) h k = rw (h, session_retry_from) refl

    one_attempt :
        (left n : ℕ) (last : Option String) (a : Answer (List A))
        → attempt n ≡ a
        → eqb n r ≡ false
        → is_cancelled n ≡ false
        → ((e : Option String)
            → session_retry_from attempt is_cancelled (accepts r) left (suc n) e
              ≡ first_or_last (first_tools attempt left (suc n)) (attempt r))
        → session_retry_from attempt is_cancelled (accepts r) (suc left) n last
          ≡ first_or_last (or_later (offered a) (first_tools attempt left (suc n))) (attempt r)
    unfolding session_retry_from
    one_attempt left n last (fails e) h k c ih = rw (h, session_retry_from, c) (ih (some e))
    one_attempt left n last (answers []) h k c ih = rw (h, session_retry_from, k, c) (ih last)
    one_attempt left n last (answers (t ∷ ts)) h k c ih = rw (h, session_retry_from) refl

    retried_tools :
        (left n : ℕ) (last : Option String)
        → ((i : ℕ) → is_cancelled i ≡ false)
        → n + left ≡ r
        → session_retry_from attempt is_cancelled (accepts r) left n last
          ≡ first_or_last (first_tools attempt left n) (attempt r)
    retried_tools zero n last c h =
        let e : n ≡ r = omega (arith, h) in
        last_attempt n last (attempt n) refl (ground (arith, e))
        ∙ ap (λ k. first_or_last (offered (attempt n)) (attempt k)) e
    retried_tools (suc left) n last c h =
        one_attempt left n last (attempt n) refl (ground (arith, h)) (c n)
          (λ e. retried_tools left (suc n) e c (omega (arith, h)))

-- Unless the context is cancelled, the tools that are discovered are those of the first attempt that
-- finds any; if none does, what the last attempt says decides: an empty list, or its error.
pub discover_tools-first :
    {A : Type 0} (retries : ℕ) (attempt : ℕ → Answer (List A)) (is_cancelled : ℕ → Bool)
    → ((i : ℕ) → is_cancelled i ≡ false)
    → discover_tools retries attempt is_cancelled
      ≡ first_or_last (first_tools attempt retries 0) (attempt retries)
unfolding discover_tools
discover_tools-first retries attempt is_cancelled c =
    retried_tools attempt is_cancelled retries retries 0 none c (omega arith)
