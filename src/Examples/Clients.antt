-- ===== src/Examples/Clients.antt =====
-- Sessions at concrete inputs.
use maybe_dont.Prelude.{
  some, none, ℕ, ◌+◌, ◌≡◌, refl, Bool, true, false, not, [], ◌∷◌, select, All, String,
}
use maybe_dont.Sessions.{
  Session, Manager, handles, live, new_session, set_client, close_session, cleanup_expired_sessions,
}
use maybe_dont.Sessions.Ledger.{
  SessionRun, rests, steps, sets_client, closes, times, closing_session_settles,
}
use maybe_dont.Sessions.Cleanup.{idle, IsClosed, cleanup_expired_sessions-idle}

abbrev never : ℕ → Bool
never c = false

abbrev opened : Session
unfolding new_session
opened = new_session "s1" 5

-- Two clients of one name are stored, and the session is closed.
abbrev shut : Session
unfolding set_client close_session
shut =
    (close_session never
      (set_client "github" (some 8) (set_client "github" (some 7) (new_session "s1" 5)).1).1).1

-- An entry without a client is dropped, and nothing is closed for it.
nothing_to_close :
    (close_session never (set_client "github" none (new_session "s1" 5)).1).1.closed ≡ []
unfolding set_client close_session new_session
nothing_to_close = refl

shut_run : SessionRun (new_session "s1" 5) shut
unfolding shut
shut_run =
    steps (steps (steps rests (sets_client "github" (some 7))) (sets_client "github" (some 8)))
      (closes never)

-- A client that comes too late.
abbrev late : Session
unfolding shut set_client
late = (set_client "slack" (some 9) shut).1

late_run : SessionRun shut late
unfolding late
late_run = steps rests (sets_client "slack" (some 9))

closing_session_settles_example :
    (late.closing ≡ true)
    × (late.accepted ≡ shut.accepted)
    × (late.clients ≡ [])
    × ((h : ℕ) → times h (live late.accepted) ≡ times h (live late.replaced) + times h late.closed)
unfolding shut close_session
closing_session_settles_example = closing_session_settles "s1" 5 shut late shut_run refl late_run

abbrev manager : Manager
unfolding opened
manager = record {
  sessions = ("s1", 0) ∷ ("s2", 1) ∷ [];
  objects = λ p. opened;
  allocated = 2;
  session_timeout = 1800;
}

abbrev swept : Manager
swept = cleanup_expired_sessions never 9000 manager

cleanup_expired_sessions-idle_example :
    (swept.sessions ≡ select (λ e. not (idle 9000 manager e)) manager.sessions)
    × All {A = String × ℕ}
        (λ e. swept.objects e.1 ≡ manager.objects e.1)
        (select (λ e. not (idle 9000 manager e)) manager.sessions)
    × All
        (λ q. IsClosed (manager.objects q) (swept.objects q))
        (handles (select (idle 9000 manager) manager.sessions))
cleanup_expired_sessions-idle_example = cleanup_expired_sessions-idle never 9000 manager
