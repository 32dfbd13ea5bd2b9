-- ===== src/Sessions/Ledger.antt =====
-- What becomes of the clients that a session of internal/gateway/session.go is given, however its
-- users interleave.
use mathlib.Core.Bool.{false≢true}
use maybe_dont.Prelude.{
  ℕ, suc, ◌+◌, String, ◌≡◌, refl, sym, ◌∙◌, subst, Bool, true, false, List, [], ◌∷◌, ◌++◌, eqb,
  Option, none, some, ap, ◌==◌, if◌then◌else◌, arith, inl, inr, Bool-cases,
}
use maybe_dont.Sessions.{
  Session, lookup, store, handles, live, listed, new_session, touch_activity, set_client_ip,
  set_session_user_agent, set_connected, set_client, with_client, close_session,
}

-- How often a handle stands in a list.
abbrev pub times : ℕ → List ℕ → ℕ
times h [] = 0
times h (c ∷ cs) = let n = times h cs in if eqb c h then suc n else n

times-append : (h : ℕ) (xs ys : List ℕ) → times h (xs ++ ys) ≡ times h xs + times h ys
times-append h [] ys = omega arith
times-append h (x ∷ xs) ys = ground (arith, times-append h xs ys)

live-append : (xs ys : List (Option ℕ)) → live (xs ++ ys) ≡ live xs ++ live ys
live-append [] ys = refl
live-append (none ∷ xs) ys = live-append xs ys
live-append (some c ∷ xs) ys = ap (λ l. c ∷ l) (live-append xs ys)

times-live_cons :
    (h : ℕ) (c : Option ℕ) (es : List (Option ℕ))
    → times h (live (c ∷ es)) ≡ times h (live (c ∷ [])) + times h (live es)
times-live_cons h none es = omega arith
times-live_cons h (some c) es = ground arith

-- Storing a client adds it and takes out the one that it replaces.
store-times :
    (h : ℕ) (k : String) (c : Option ℕ) (m : List (String × Option ℕ))
    → times h (live (handles (store k c m))) + times h (live (listed (lookup k m)))
      ≡ times h (live (c ∷ [])) + times h (live (handles m))
store-times h k c [] = omega arith
store-times h k c ((j, b) ∷ m) = elim (Bool-cases (j == k)) [
  | inl e ↦ rw e (omega (arith, times-live_cons h c (handles m), times-live_cons h b (handles m)))
  | inr e ↦ rw e (
      omega (
        arith,
        store-times h k c m,
        times-live_cons h b (handles (store k c m)),
        times-live_cons h b (handles m),
      ))
]

-- A step of some user of a session: a method that changes it.
pub data SessionStep : Session → Session → Type 0 where
  touches : {s : Session} (now : ℕ) → SessionStep s (touch_activity now s)
  sets_ip : {s : Session} (ip : String) → SessionStep s (set_client_ip ip s)
  sets_agent : {s : Session} (agent : String) → SessionStep s (set_session_user_agent agent s)
  connects : {s : Session} (b : Bool) → SessionStep s (set_connected b s)
  sets_client : {s : Session} (name : String) (c : Option ℕ) → SessionStep s (set_client name c s).1
  closes : {s : Session} (fails : ℕ → Bool) → SessionStep s (close_session fails s).1

pub data SessionRun : Session → Session → Type 0 where
  rests : {s : Session} → SessionRun s s
  steps : {s t u : Session} → SessionRun s t → SessionStep t u → SessionRun s u

-- Every accepted client is held, was replaced or was closed, once; a closing session holds none.
pub record IsSettled (s : Session) : Type 0 where
  pub accounted :
      (h : ℕ)
      → times h (live s.accepted)
        ≡ times h (live (handles s.clients)) + (times h (live s.replaced) + times h s.closed)
  pub emptied : s.closing ≡ true → s.clients ≡ []

set_client_refused :
    (name : String) (c : Option ℕ) (s : Session) → s.closing ≡ true → (set_client name c s).1 ≡ s
unfolding set_client
set_client_refused name c s e = ground (arith, e)

set_client_stored :
    (name : String) (c : Option ℕ) (s : Session)
    → s.closing ≡ false
    → (set_client name c s).1 ≡ with_client name c s
unfolding set_client
set_client_stored name c s e = ground (arith, e)

set_client-IsSettled :
    (name : String) (c : Option ℕ) (s : Session) → IsSettled s → IsSettled (set_client name c s).1
set_client-IsSettled name c s v = elim (Bool-cases s.closing) [
  | inl e ↦ subst IsSettled (sym (set_client_refused name c s e)) v
  | inr e ↦ subst IsSettled (sym (set_client_stored name c s e)) (record {
    accounted = λ h. ground (
      arith,
      v.accounted h,
      store-times h name c s.clients,
      times-live_cons h c s.accepted,
      ap (times h) (live-append (listed (lookup name s.clients)) s.replaced),
      times-append h (live (listed (lookup name s.clients))) (live s.replaced),
    );
    emptied = λ k. absurd (false≢true (sym e ∙ k));
  })
]

close_session-IsSettled :
    (fails : ℕ → Bool) (s : Session) → IsSettled s → IsSettled (close_session fails s).1
unfolding close_session
close_session-IsSettled fails s v = record {
  accounted =
      λ h. ground (arith, v.accounted h, times-append h (live (handles s.clients)) s.closed);
  emptied = λ k. refl;
}

step-IsSettled : {s t : Session} → SessionStep s t → IsSettled s → IsSettled t
unfolding touch_activity set_client_ip set_session_user_agent set_connected
step-IsSettled (touches now) v = record { accounted = v.accounted; emptied = v.emptied }
step-IsSettled (sets_ip ip) v = record { accounted = v.accounted; emptied = v.emptied }
step-IsSettled (sets_agent agent) v = record { accounted = v.accounted; emptied = v.emptied }
step-IsSettled (connects b) v = record { accounted = v.accounted; emptied = v.emptied }
step-IsSettled {s} (sets_client name c) v = set_client-IsSettled name c s v
step-IsSettled {s} (closes fails) v = close_session-IsSettled fails s v

new_session-IsSettled : (id : String) (now : ℕ) → IsSettled (new_session id now)
unfolding new_session
new_session-IsSettled id now = record { accounted = λ h. refl; emptied = λ k. refl }

run-IsSettled : {s t : Session} → SessionRun s t → IsSettled s → IsSettled t
run-IsSettled rests v = v
run-IsSettled (steps r st) v = step-IsSettled st (run-IsSettled r v)

-- A step of a closing session leaves it closing, and gives it no client.
step_closing :
    {s t : Session}
    → SessionStep s t
    → s.closing ≡ true
    → (t.closing ≡ true) × (t.accepted ≡ s.accepted)
unfolding touch_activity set_client_ip set_session_user_agent set_connected set_client close_session
step_closing (touches now) c = (c, refl)
step_closing (sets_ip ip) c = (c, refl)
step_closing (sets_agent agent) c = (c, refl)
step_closing (connects b) c = (c, refl)
step_closing (sets_client name k) c = (ground (arith, c), ground (arith, c))
step_closing (closes fails) c = (refl, refl)

run_closing :
    {s t : Session}
    → SessionRun s t
    → s.closing ≡ true
    → (t.closing ≡ true) × (t.accepted ≡ s.accepted)
run_closing rests c = (c, refl)
run_closing (steps r st) c =
    let (d, a) = run_closing r c in let (e, b) = step_closing st d in (e, b ∙ a)

-- However the users of a session interleave: once it is closing it stays so and takes no client any
-- more, it holds none, and every client that it ever accepted was closed or was replaced by another
-- of its name, once.
pub closing_session_settles :
    (id : String) (now : ℕ) (s t : Session)
    → SessionRun (new_session id now) s
    → s.closing ≡ true
    → SessionRun s t
    → (t.closing ≡ true)
      × (t.accepted ≡ s.accepted)
      × (t.clients ≡ [])
      × ((h : ℕ) → times h (live t.accepted) ≡ times h (live t.replaced) + times h t.closed)
closing_session_settles id now s t before c after =
    let (d, a) = run_closing after c in
    let v = run-IsSettled after (run-IsSettled before (new_session-IsSettled id now)) in
    (d, a, v.emptied d, λ h. ground (arith, v.accounted h, v.emptied d))
