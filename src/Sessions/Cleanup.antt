-- ===== src/Sessions/Cleanup.antt =====
-- The clean-up of idle sessions (internal/gateway/session.go).
use mathlib.Core.Bool.{false≢true}
use maybe_dont.Prelude.{
  ℕ, String, ◌≡◌, refl, ap, ◌∙◌, subst, Bool, true, not, List, [], ◌∷◌, select, All, arith, inl,
  false, ltb, eqb, some_of, ◌+◌, ◌++◌, sym, inr, Bool-cases,
}
use maybe_dont.Sessions.{
  Session, Manager, handles, live, is_expired, close_session, at_object, close_all, expired_entries,
  cleanup_expired_sessions,
}

-- Whether the session of an entry saw its last activity more than the timeout ago.
abbrev pub idle : ℕ → Manager → String × ℕ → Bool
idle now m e = ltb ((m.objects e.1).last_activity + m.session_timeout) now

expired_idle :
    (now : ℕ) (m : Manager) (e : String × ℕ)
    → is_expired m.session_timeout now (m.objects e.1) ≡ idle now m e
unfolding is_expired
expired_idle now m e = ground arith

close_all-sessions :
    (fails : ℕ → Bool) (ps : List ℕ) (m : Manager) → (close_all fails ps m).1.sessions ≡ m.sessions
close_all-sessions fails [] m = refl
close_all-sessions fails (p ∷ ps) m =
    close_all-sessions fails ps (at_object p (λ t. (close_session fails (m.objects p)).1) m)

-- The session was closed: it takes no more clients, holds none, and those that it held are added to
-- the ones that were closed.
abbrev pub IsClosed : Session → Session → Type 0
IsClosed before after =
    (after.closing ≡ true)
    × (after.clients ≡ [])
    × (after.closed ≡ live (handles before.clients) ++ before.closed)

-- The object at an address after one at another is closed.
abbrev pub closing_at : (ℕ → Bool) → ℕ → Manager → Manager
closing_at fails p m = at_object p (λ t. (close_session fails (m.objects p)).1) m

closes_here :
    (fails : ℕ → Bool) (p : ℕ) (m : Manager)
    → IsClosed (m.objects p) ((closing_at fails p m).objects p)
unfolding close_session
closes_here fails p m = ground arith

IsClosed-again :
    (fails : ℕ → Bool) (p q : ℕ) (m : Manager) (before : Session)
    → IsClosed before (m.objects q)
    → IsClosed before ((closing_at fails p m).objects q)
unfolding close_session
IsClosed-again fails p q m before h = elim (Bool-cases (eqb q p)) [
  | inl e ↦
      let same : q ≡ p = ground (arith, e) in
      let (c, n, d) = subst (λ a. IsClosed before (m.objects a)) same h in rw (e, n) (refl, refl, d)
  | inr e ↦ rw e h
]

untouched :
    (fails : ℕ → Bool) (p q : ℕ) (m : Manager)
    → eqb q p ≡ false
    → (closing_at fails p m).objects q ≡ m.objects q
untouched fails p q m e = rw e refl

close_all-IsClosed_still :
    (fails : ℕ → Bool) (ps : List ℕ) (q : ℕ) (m : Manager) (before : Session)
    → IsClosed before (m.objects q)
    → IsClosed before ((close_all fails ps m).1.objects q)
close_all-IsClosed_still fails [] q m before h = h
close_all-IsClosed_still fails (p ∷ ps) q m before h =
    close_all-IsClosed_still fails ps q (closing_at fails p m) before
      (IsClosed-again fails p q m before h)

-- Whether an address is none of a list.
abbrev pub apart_from : List ℕ → ℕ → Bool
apart_from ps q = not (some_of (λ p. eqb q p) ps)

All-imp : {A : Type 0} (P Q : A → Type 0) (l : List A) → ((a : A) → P a → Q a) → All P l → All Q l
All-imp P Q [] f h = tt
All-imp P Q (a ∷ l) f (p, h) = (f a p, All-imp P Q l f h)

All-select :
    {A : Type 0} (P : A → Type 0) (t : A → Bool) (l : List A)
    → ((a : A) → t a ≡ true → P a)
    → All P (select t l)
All-select P t [] f = tt
All-select P t (a ∷ l) f = elim (Bool-cases (t a)) [
  | inl e ↦ rw e (f a e, All-select P t l f)
  | inr e ↦ rw e (All-select P t l f)
]

close_all-IsClosed :
    (fails : ℕ → Bool) (ps : List ℕ) (m : Manager)
    → All (λ q. IsClosed (m.objects q) ((close_all fails ps m).1.objects q)) ps
close_all-IsClosed fails [] m = tt
close_all-IsClosed fails (p ∷ ps) m =
    let m' = closing_at fails p m in
    let here = close_all-IsClosed_still fails ps p m' (m.objects p) (closes_here fails p m) in
    (
      here,
      All-imp (λ q. IsClosed (m'.objects q) ((close_all fails ps m').1.objects q))
          (λ q. IsClosed (m.objects q) ((close_all fails ps m').1.objects q)) ps
          (λ q h. elim (Bool-cases (eqb q p)) [
            | inl e ↦
                let same : q ≡ p = ground (arith, e) in
                subst (λ a. IsClosed (m.objects a) ((close_all fails ps m').1.objects a)) (sym same)
                  here
            | inr e ↦
                subst (λ b. IsClosed b ((close_all fails ps m').1.objects q))
                  (untouched fails p q m e) h
          ])
          (close_all-IsClosed fails ps m'),
    )

close_all-apart :
    (fails : ℕ → Bool) (ps : List ℕ) (q : ℕ) (m : Manager)
    → apart_from ps q ≡ true
    → (close_all fails ps m).1.objects q ≡ m.objects q
close_all-apart fails [] q m h = refl
close_all-apart fails (p ∷ ps) q m h =
    close_all-apart fails ps q (closing_at fails p m) (ground (arith, h))
    ∙ untouched fails p q m (ground (arith, h))

-- A session that is not idle is none of those that are closed, also if two ids share an address.
busy_apart :
    (now : ℕ) (m : Manager) (es : List (String × ℕ)) (e : String × ℕ)
    → idle now m e ≡ false
    → apart_from (handles (select (idle now m) es)) e.1 ≡ true
busy_apart now m [] e h = refl
busy_apart now m ((id, p) ∷ es) e h = elim (Bool-cases (idle now m (id, p))) [
  | inl i ↦ elim (Bool-cases (eqb e.1 p)) [
    | inl s ↦
        let same : e.1 ≡ p = ground (arith, s) in
        absurd (false≢true (sym h ∙ (ap (λ a. idle now m (id, a)) same ∙ i)))
    | inr n ↦ rw (i, n) (busy_apart now m es e h)
  ]
  | inr i ↦ rw i (busy_apart now m es e h)
]

expired_entries_split :
    (now : ℕ) (m : Manager) (es : List (String × ℕ))
    → ((expired_entries now m es).0 ≡ handles (select (idle now m) es))
      × ((expired_entries now m es).1 ≡ select (λ e. not (idle now m e)) es)
unfolding expired_entries
expired_entries_split now m [] = (refl, refl)
expired_entries_split now m ((id, p) ∷ es) =
    let (g, k) = expired_entries_split now m es in
    let x = expired_idle now m (id, p) in
    elim (Bool-cases (idle now m (id, p))) [
      | inl e ↦ rw (x, e) (ap (◌∷◌ p) g, k)
      | inr e ↦ rw (x, e) (g, ap (◌∷◌ (id, p)) k)
    ]

-- Clean-up takes the sessions whose last activity is longer ago than the timeout out of the map and
-- keeps all others, in their order and as they are. Each session that it takes out is closed: it
-- takes no more clients, holds none, and those that it held are closed.
pub cleanup_expired_sessions-idle :
    (fails : ℕ → Bool) (now : ℕ) (m : Manager)
    → let after = cleanup_expired_sessions fails now m in
      (after.sessions ≡ select (λ e. not (idle now m e)) m.sessions)
      × All (λ e. after.objects e.1 ≡ m.objects e.1) (select (λ e. not (idle now m e)) m.sessions)
      × All
          (λ q. IsClosed (m.objects q) (after.objects q))
          (handles (select (idle now m) m.sessions))
unfolding cleanup_expired_sessions
cleanup_expired_sessions-idle fails now m =
    let (gone, kept) = expired_entries now m m.sessions in
    let (g, k) = expired_entries_split now m m.sessions in
    let m' = record m { sessions = kept } in
    (
      close_all-sessions fails gone m' ∙ k,
      All-select (λ e. (close_all fails gone m').1.objects e.1 ≡ m.objects e.1)
          (λ e. not (idle now m e)) m.sessions
          (λ e h.
            close_all-apart fails gone e.1 m'
              (ap (λ l. apart_from l e.1) g ∙ busy_apart now m m.sessions e (ground (arith, h)))),
      subst (All (λ q. IsClosed (m.objects q) ((close_all fails gone m').1.objects q))) g
          (close_all-IsClosed fails gone m'),
    )
