-- ===== src/RateLimiter/Slot.antt =====
-- Sequential mode of internal/testsuite/ratelimiter.go: the requests to one provider that are under
-- way, by whether they took its slot when they entered or entered before the mode was on.
use maybe_dont.Prelude.{
  ℕ, suc, ◌+◌, ◌-◌, ◌≤◌, ◌<◌, ◌≡◌, refl, ◌∙◌, String, Bool, true, false, ◌==◌, Option, none, some,
  List, inl, inr, if◌then◌else◌, Bool-cases, arith, eq_iff,
}
use maybe_dont.RateLimiter.{
  RateLimiter, RateLimitInfo, admit, at_limit, prune, record_request, update_from_response,
  handle_429, woken_429, end_wait, stop_provider, acquire, release_sequential_slot, recent_requests,
  at,
}

-- What does not enter or leave: the other sections of the lock, for any provider.
pub data Operation : Type 0 where
  admits : String → ℕ → ℕ → Operation
  records : String → ℕ → Operation
  learns : Option RateLimitInfo → ℕ → Operation
  meets_429 wakes_429 : String → Option RateLimitInfo → ℕ → Operation
  ends_wait : String → Bool → Operation
  stops : String → Operation

abbrev pub operate : Operation → RateLimiter → RateLimiter
operate (admits q now checked) rl = (admit q now checked rl).1
operate (records q now) rl = record_request q now rl
operate (learns info now) rl = update_from_response info now rl
operate (meets_429 q info now) rl = (handle_429 q info now rl).1
operate (wakes_429 q info now) rl = (woken_429 q info now rl).1
operate (ends_wait q ended) rl = end_wait q ended rl
operate (stops q) rl = stop_provider q rl

pub record Traffic : Type 0 where
  pub limiter : RateLimiter
  pub holding : ℕ
  pub free : ℕ

-- The steps that concern one provider.
pub data Step (p : String) : Traffic → Traffic → Type 0 where
  enters_holding :
      (s : Traffic) (rl : RateLimiter)
      → s.limiter.provider_sequential p ≡ true
      → acquire p s.limiter ≡ some rl
      → Step p s (record s { limiter = rl; holding = suc s.holding })
  enters_free :
      (s : Traffic) (rl : RateLimiter)
      → s.limiter.provider_sequential p ≡ false
      → acquire p s.limiter ≡ some rl
      → Step p s (record s { limiter = rl; free = suc s.free })
  leaves_holding :
      (s : Traffic)
      → 0 < s.holding
      → Step p s
          (record s { limiter = release_sequential_slot p s.limiter; holding = s.holding - 1 })
  leaves_free :
      (s : Traffic)
      → 0 < s.free
      → Step p s (record s { limiter = release_sequential_slot p s.limiter; free = s.free - 1 })
  elsewhere_enters :
      (s : Traffic) (q : String) (rl : RateLimiter)
      → (p == q) ≡ false
      → acquire q s.limiter ≡ some rl
      → Step p s (record s { limiter = rl })
  elsewhere_leaves :
      (s : Traffic) (q : String)
      → (p == q) ≡ false
      → Step p s (record s { limiter = release_sequential_slot q s.limiter })
  operates : (s : Traffic) (o : Operation) → Step p s (record s { limiter = operate o s.limiter })

pub data Reach (p : String) (s : Traffic) : Traffic → Type 0 where
  here : Reach p s s
  further : {t u : Traffic} → Reach p s t → Step p t u → Reach p s u

-- The invariant: the provider is in sequential mode, no earlier request is under way, and no request
-- unless the slot is taken, and then at most one.
pub record IsSingle (p : String) (s : Traffic) : Type 0 where
  pub sequential : s.limiter.provider_sequential p ≡ true
  pub none_free : s.free ≡ 0
  pub counted : s.holding ≤ (if s.limiter.slot p then 1 else 0)

at_limit-slot :
    (q : String) (now checked : ℕ) (ts : List ℕ) (rl : RateLimiter)
    → ((at_limit q now checked ts rl).1.slot ≡ rl.slot)
      × ((at_limit q now checked ts rl).1.provider_sequential ≡ rl.provider_sequential)
unfolding at_limit
at_limit-slot q now checked List.[] rl = (refl, refl)
at_limit-slot q now checked (List.◌∷◌ t ts) rl = (ground arith, ground arith)

admit-slot :
    (q : String) (now checked : ℕ) (rl : RateLimiter)
    → ((admit q now checked rl).1.slot ≡ rl.slot)
      × ((admit q now checked rl).1.provider_sequential ≡ rl.provider_sequential)
unfolding admit prune
admit-slot q now checked rl =
    let l =
      at_limit-slot q now checked (recent_requests now (rl.provider_requests q)) (prune q now rl) in
    (ground (arith, l), ground (arith, l))

update-slot :
    (info : Option RateLimitInfo) (now : ℕ) (rl : RateLimiter)
    → ((update_from_response info now rl).slot ≡ rl.slot)
      × ((update_from_response info now rl).provider_sequential ≡ rl.provider_sequential)
unfolding update_from_response
update-slot none now rl = (refl, refl)
update-slot (some i) now rl = (refl, refl)

-- No such operation takes or frees a slot, or ends sequential mode.
operate-slot : (o : Operation) (rl : RateLimiter) → (operate o rl).slot ≡ rl.slot
unfolding handle_429 woken_429 end_wait stop_provider record_request
operate-slot (admits q now checked) rl = (admit-slot q now checked rl).0
operate-slot (records q now) rl = refl
operate-slot (learns info now) rl = (update-slot info now rl).0
operate-slot (meets_429 q info now) rl = ground arith
operate-slot (wakes_429 q info now) rl = ground arith
operate-slot (ends_wait q ended) rl = refl
operate-slot (stops q) rl = refl

operate-sequential :
    (p : String) (o : Operation) (rl : RateLimiter)
    → rl.provider_sequential p ≡ true
    → (operate o rl).provider_sequential p ≡ true
unfolding handle_429 woken_429 end_wait stop_provider record_request
operate-sequential p (admits q now checked) rl h = rw ((admit-slot q now checked rl).1) h
operate-sequential p (records q now) rl h = h
operate-sequential p (learns info now) rl h = rw ((update-slot info now rl).1) h
operate-sequential p (meets_429 q info now) rl h = ground (arith, h)
operate-sequential p (wakes_429 q info now) rl h = ground (arith, h)
operate-sequential p (ends_wait q ended) rl h = ground (arith, h)
operate-sequential p (stops q) rl h = h

acquired :
    (p : String) (rl rl' : RateLimiter)
    → rl.provider_sequential p ≡ true
    → acquire p rl ≡ some rl'
    → (rl.slot p ≡ false) × (rl'.slot p ≡ true) × (rl'.provider_sequential p ≡ true)
unfolding acquire
acquired p rl rl' m h =
    let r = (eq_iff p p).1 refl in
    elim (Bool-cases (rl.slot p)) [
      | inl t ↦ absurd (ground (arith, m, h, t))
      | inr f ↦ (f, ground (arith, m, h, f, r), ground (arith, m, h, f, r))
    ]

acquired_elsewhere :
    (p q : String) (rl rl' : RateLimiter)
    → (p == q) ≡ false
    → acquire q rl ≡ some rl'
    → (rl'.slot p ≡ rl.slot p) × (rl'.provider_sequential p ≡ rl.provider_sequential p)
unfolding acquire
acquired_elsewhere p q rl rl' n h = (ground (arith, n, h), ground (arith, n, h))

released :
    (p : String) (rl : RateLimiter)
    → rl.provider_sequential p ≡ true
    → ((release_sequential_slot p rl).slot p ≡ false)
      × ((release_sequential_slot p rl).provider_sequential p ≡ true)
unfolding release_sequential_slot
released p rl m = let r = (eq_iff p p).1 refl in (ground (arith, m, r), ground (arith, m))

released_elsewhere :
    (p q : String) (rl : RateLimiter)
    → (p == q) ≡ false
    → ((release_sequential_slot q rl).slot p ≡ rl.slot p)
      × ((release_sequential_slot q rl).provider_sequential p ≡ rl.provider_sequential p)
unfolding release_sequential_slot
released_elsewhere p q rl n = (ground (arith, n), ground (arith, n))

Step-IsSingle : (p : String) {s t : Traffic} → Step p s t → IsSingle p s → IsSingle p t
Step-IsSingle p (enters_holding s rl m h) i =
    let (f, t, q) = acquired p s.limiter rl m h in
    record { sequential = q; none_free = i.none_free; counted = ground (arith, i, f, t) }
Step-IsSingle p (enters_free s rl m h) i = absurd (ground (arith, m, i))
Step-IsSingle p (leaves_holding s l) i =
    let (f, q) = released p s.limiter i.sequential in
    record { sequential = q; none_free = i.none_free; counted = ground (arith, i, f, l) }
Step-IsSingle p (leaves_free s l) i = absurd (omega (arith, i.none_free, l))
Step-IsSingle p (elsewhere_enters s q rl n h) i =
    let (f, m) = acquired_elsewhere p q s.limiter rl n h in
    record { sequential = m ∙ i.sequential; none_free = i.none_free; counted = rw f (i.counted) }
Step-IsSingle p (elsewhere_leaves s q n) i =
    let (f, m) = released_elsewhere p q s.limiter n in
    record { sequential = m ∙ i.sequential; none_free = i.none_free; counted = rw f (i.counted) }
Step-IsSingle p (operates s o) i = record {
  sequential = operate-sequential p o s.limiter i.sequential;
  none_free = i.none_free;
  counted = rw (operate-slot o s.limiter) i.counted;
}

single_counts : (p : String) (s : Traffic) → IsSingle p s → s.holding + s.free ≤ 1
single_counts p s i = ground (arith, i)

Reach-IsSingle : (p : String) {s t : Traffic} → IsSingle p s → Reach p s t → IsSingle p t
Reach-IsSingle p i here = i
Reach-IsSingle p i (further r st) = Step-IsSingle p st (Reach-IsSingle p i r)

-- If a provider is in sequential mode at a time when no request to it is under way, then from there on
-- at most one request to it is under way, in every state that any interleaving of the limiter's
-- sections, for this provider and for others, reaches.
pub sequential_single :
    (p : String) {s t : Traffic}
    → s.limiter.provider_sequential p ≡ true
    → s.holding ≡ 0
    → s.free ≡ 0
    → Reach p s t
    → t.holding + t.free ≤ 1
sequential_single p {s} {t} m h f r =
    single_counts p t
      (Reach-IsSingle p (record { sequential = m; none_free = f; counted = omega (arith, h) }) r)

-- As long as a request that entered before sequential mode is under way, its end frees the slot that
-- another request holds: two steps lead to two requests that both hold the slot.
pub late_release_doubles :
    (p : String) (s : Traffic)
    → s.limiter.provider_sequential p ≡ true
    → s.limiter.slot p ≡ true
    → s.holding ≡ 1
    → 0 < s.free
    → (t : Traffic) × Reach p s t × (t.holding ≡ 2)
unfolding acquire
late_release_doubles p s m taken h f =
    let rl = release_sequential_slot p s.limiter in
    let (open_slot, m') = released p s.limiter m in
    let s' : Traffic = record s { limiter = rl; free = s.free - 1 } in
    let rl' : RateLimiter = record rl { slot = at p true rl.slot } in
    (
      record s' { limiter = rl'; holding = suc s'.holding },
      further (further here (leaves_free s f)) (enters_holding s' rl' m' (rw (m', open_slot) refl)),
      omega (arith, h),
    )
