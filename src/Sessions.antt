-- ===== src/Sessions.antt =====
-- internal/gateway/session.go: the sessions of upstream clients, each with its downstream clients.
-- A client is a handle, a number; an entry is `none` where its `Client` is nil.
-- A session is a shared object: the manager's map holds addresses,
-- and every method that takes the session's lock is one step on the object. Beside the source's
-- fields a session records what became of the clients that it was given.
pub mod Ledger
pub mod Cleanup
use maybe_dont.Prelude.{
  ℕ, suc, ◌-◌, ◌≡◌, refl, arith, eq_iff, String, Bool, true, false, ◌==◌, not, List, [], ◌∷◌, ◌++◌,
  Option, none, some, ltb, eqb, is_some, if◌then◌else◌,
}

-- A Go map from names, as an association list with the first entry of a name.
abbrev pub lookup {ℓ} : {A : Type ℓ} → String → List (String × A) → Option A
lookup k [] = none
lookup k ((j, a) ∷ m) = if j == k then some a else lookup k m

abbrev pub store {ℓ} : {A : Type ℓ} → String → A → List (String × A) → List (String × A)
store k a [] = (k, a) ∷ []
store k a ((j, b) ∷ m) = let rest = store k a m in if j == k then (j, a) ∷ m else (j, b) ∷ rest

pub lookup-store :
    {A : Type 0} (k j : String) (a : A) (m : List (String × A))
    → lookup j (store k a m) ≡ (if k == j then some a else lookup j m)
lookup-store k j a [] = refl
lookup-store k j a ((i, b) ∷ m) =
    ground (arith, eq_iff k j, eq_iff i k, eq_iff i j, lookup-store k j a m)

abbrev pub remove {ℓ} : {A : Type ℓ} → String → List (String × A) → List (String × A)
remove k [] = []
remove k ((j, b) ∷ m) = let rest = remove k m in if j == k then rest else (j, b) ∷ rest

abbrev pub handles {ℓ} : {A : Type ℓ} → List (String × A) → List A
handles [] = []
handles ((j, a) ∷ m) = a ∷ handles m

abbrev pub listed {ℓ} : {A : Type ℓ} → Option A → List A
listed none = []
listed (some a) = a ∷ []

-- The clients of entries.
abbrev pub live : List (Option ℕ) → List ℕ
live [] = []
live (none ∷ es) = live es
live (some c ∷ es) = c ∷ live es

-- The last three fields are the record of clients: those accepted, replaced by another of the same
-- name, and closed.
pub record Session : Type 0 where
  pub id : String
  pub created_at : ℕ
  pub client_ip : String
  pub user_agent : String
  pub last_activity : ℕ
  pub clients : List (String × Option ℕ)
  pub closing : Bool
  pub connected : Bool
  pub accepted : List (Option ℕ)
  pub replaced : List (Option ℕ)
  pub closed : List ℕ

unfoldable pub new_session : String → ℕ → Session
new_session id now = record {
  id = id;
  created_at = now;
  client_ip = "";
  user_agent = "";
  last_activity = now;
  clients = [];
  closing = false;
  connected = false;
  accepted = [];
  replaced = [];
  closed = [];
}

unfoldable pub touch_activity : ℕ → Session → Session
touch_activity now s = record s { last_activity = now }

unfoldable pub is_expired : ℕ → ℕ → Session → Bool
is_expired timeout now s = ltb timeout (now - s.last_activity)

unfoldable pub set_client_ip : String → Session → Session
set_client_ip ip s = record s { client_ip = ip }

unfoldable pub set_session_user_agent : String → Session → Session
set_session_user_agent agent s = record s { user_agent = agent }

unfoldable pub set_connected : Bool → Session → Session
set_connected connected s = record s { connected = connected }

unfoldable pub get_client : String → Session → Option (Option ℕ)
get_client name s = lookup name s.clients

-- Whether the client was stored; the map entry of its name is overwritten.
abbrev pub with_client : String → Option ℕ → Session → Session
with_client name client s = record s {
  clients = store name client s.clients;
  accepted = client ∷ s.accepted;
  replaced = listed (lookup name s.clients) ++ s.replaced;
}

unfoldable pub set_client : String → Option ℕ → Session → Bool × Session
set_client name client s = if s.closing then (false, s) else (true, with_client name client s)

-- `Close`; `fails` says which clients report an error when they are closed. The result says whether
-- one did.
unfoldable pub close_session : (ℕ → Bool) → Session → Bool × Session
close_session fails s = (
  any (live (handles s.clients)),
  record s { closing = true; clients = []; closed = live (handles s.clients) ++ s.closed },
)
  where
    any : List ℕ → Bool
    any [] = false
    any (c ∷ cs) = let rest = any cs in if fails c then true else rest

-- The manager: its map from ids to addresses, and the objects.
pub record Manager : Type 0 where
  pub sessions : List (String × ℕ)
  pub objects : ℕ → Session
  pub allocated : ℕ
  pub session_timeout : ℕ

-- A method on the object at an address.
abbrev pub at_object : ℕ → (Session → Session) → Manager → Manager
at_object p f m = record m { objects = λ q. if eqb q p then f (m.objects q) else m.objects q }

unfoldable pub create_session : String → ℕ → Manager → Option ℕ × Manager
unfolding new_session
create_session id now m = if is_some (lookup id m.sessions) then (none, m) else (
  some m.allocated,
  record (at_object m.allocated (λ s. new_session id now) m) {
    sessions = store id m.allocated m.sessions;
    allocated = suc m.allocated;
  },
)

unfoldable pub has_session : String → Manager → Bool
has_session id m = is_some (lookup id m.sessions)

unfoldable pub get_session : String → ℕ → Manager → Option ℕ × Manager
unfolding touch_activity
get_session id now m = elim (lookup id m.sessions) [
  | none ↦ (none, m)
  | some p ↦ (some p, at_object p (touch_activity now) m)
]

unfoldable pub get_session_client : String → String → ℕ → Manager → Option (Option ℕ) × Manager
unfolding touch_activity get_client
get_session_client id name now m = elim (lookup id m.sessions) [
  | none ↦ (none, m)
  | some p ↦ (get_client name (m.objects p), at_object p (touch_activity now) m)
]

unfoldable pub set_session_client : String → String → Option ℕ → Manager → Bool × Manager
unfolding set_client
set_session_client id name client m = elim (lookup id m.sessions) [
  | none ↦ (false, m)
  | some p ↦
      let (stored, s) = set_client name client (m.objects p) in (stored, at_object p (λ t. s) m)
]

-- The two critical sections of `DeleteSession`: the entry of the map, then the object.
unfoldable pub delete_session : (ℕ → Bool) → String → Manager → Bool × Manager
unfolding close_session
delete_session fails id m = elim (lookup id m.sessions) [
  | none ↦ (false, m)
  | some p ↦
      let (failed, s) = close_session fails (m.objects p) in
      (failed, at_object p (λ t. s) (record m { sessions = remove id m.sessions }))
]

abbrev pub close_all : (ℕ → Bool) → List ℕ → Manager → Bool × Manager
close_all fails [] m = (false, m)
close_all fails (p ∷ ps) m =
    let (failed, s) = close_session fails (m.objects p) in
    let (others, m') = close_all fails ps (at_object p (λ t. s) m) in
    (if failed then true else others, m')

unfoldable pub close_all_sessions : (ℕ → Bool) → Manager → Bool × Manager
unfolding close_session
close_all_sessions fails m = close_all fails (handles m.sessions) (record m { sessions = [] })

-- The sessions that have been idle for too long, and the others.
unfoldable pub expired_entries : ℕ → Manager → List (String × ℕ) → List ℕ × List (String × ℕ)
unfolding is_expired
expired_entries now m [] = ([], [])
expired_entries now m ((id, p) ∷ rest) =
    let (gone, kept) = expired_entries now m rest in
    if is_expired m.session_timeout now (m.objects p)
    then (p ∷ gone, kept)
    else (gone, (id, p) ∷ kept)

unfoldable pub cleanup_expired_sessions : (ℕ → Bool) → ℕ → Manager → Manager
unfolding close_session
cleanup_expired_sessions fails now m =
    let (gone, kept) = expired_entries now m m.sessions in
    (close_all fails gone (record m { sessions = kept })).1
