-- ===== src/Settings/Checks/Clients.antt =====
-- What internal/config/config.go guarantees of the downstream servers that it accepts.
use maybe_dont.Prelude.{
  ℕ, suc, ◌≡◌, ◌≢◌, ◌⊎◌, inl, inr, refl, String, Bool, true, false, ◌==◌, ◌||◌, List, [], ◌∷◌, All,
  Bool-cases, arith,
}
use maybe_dont.Prelude.Text.{apart}
use maybe_dont.Settings.Paths.{FilePaths}
use maybe_dont.Settings.Checks.{
  ConfigError, Settings, ClientSettings, CredentialMapping, check_mappings, check_client_kind,
  check_pass_through, check_client, check_clients, of_client, validate_config,
}
use maybe_dont.Settings.Checks.Accepted.{
  both_empty, when-none, IsUpTo, limit_checked, parts_checked,
}

-- A mapping that names both headers.
abbrev pub IsComplete : CredentialMapping → Type 0
IsComplete m = ((m.source_header == "") ≡ false) × ((m.target_header == "") ≡ false)

-- A process with its command and without credentials passed on, or a connection with its address,
-- which passes credentials on along complete mappings, at least one.
pub data IsRunnable (c : ClientSettings) : Type 0 where
  runs :
      (c.kind == "stdio") ≡ true → (c.command == "") ≡ false → c.pass_through ≡ false → IsRunnable c
  connects :
      (c.kind == "sse" || c.kind == "http") ≡ true
      → (c.downstream_url == "") ≡ false
      → c.pass_through ≡ false
      → IsRunnable c
  passes_on :
      (c.kind == "sse" || c.kind == "http") ≡ true
      → (c.downstream_url == "") ≡ false
      → (c.pass_through_headers ≢ [])
      → All IsComplete c.pass_through_headers
      → IsRunnable c

-- The limits of all waits and retries.
abbrev pub IsTimed : ClientSettings → Type 0
IsTimed c =
    IsUpTo 300000 c.startup_timeout_ms
    × IsUpTo 10 c.initialization_retries
    × IsUpTo 10000 c.retry_delay_ms
    × IsUpTo 60000 c.capability_discovery_delay_ms
    × IsUpTo 10 c.capability_discovery_retries
    × IsUpTo 30000 c.capability_retry_delay_ms

mappings_checked :
    (name : String) (i : ℕ) (ms : List CredentialMapping)
    → check_mappings name i ms ≡ []
    → All IsComplete ms
mappings_checked name i [] h = tt
mappings_checked name i (m ∷ ms) h =
    let (a, h1) = both_empty _ _ h in
    let (b, r) = both_empty _ _ h1 in
    ((when-none _ _ a, when-none _ _ b), mappings_checked name (suc i) ms r)

kind_checked :
    (name : String) (c : ClientSettings)
    → check_client_kind name c ≡ []
    → (((c.kind == "stdio") ≡ true) × ((c.command == "") ≡ false))
      ⊎ (((c.kind == "sse" || c.kind == "http") ≡ true) × ((c.downstream_url == "") ≡ false))
kind_checked name c h = elim (Bool-cases (c.kind == "stdio")) [
  | inl s ↦ elim (Bool-cases (c.command == "")) [
    | inl e ↦ absurd (ground (arith, h, s, e))
    | inr e ↦ inl (s, e)
  ]
  | inr s ↦ elim (Bool-cases (c.kind == "sse" || c.kind == "http")) [
    | inl k ↦ elim (Bool-cases (c.downstream_url == "")) [
      | inl e ↦ absurd (ground (arith, h, s, k, e))
      | inr e ↦ inr (k, e)
    ]
    | inr k ↦ absurd (ground (arith, h, s, k))
  ]
]

not_connected : (k : String) → (k == "stdio") ≡ true → (k == "http" || k == "sse") ≡ false
not_connected k s = rw (apart k "stdio" "http" refl s, apart k "stdio" "sse" refl s) refl

process_passes_nothing :
    (name : String) (c : ClientSettings)
    → (c.kind == "http" || c.kind == "sse") ≡ false
    → check_pass_through name c ≡ []
    → c.pass_through ≡ false
process_passes_nothing name c n h = elim (Bool-cases c.pass_through) [
  | inl p ↦ absurd (ground (arith, h, p, n))
  | inr p ↦ p
]

headers_checked :
    (name : String) (hs : List CredentialMapping)
    → (elim hs [
      | [] ↦ ConfigError.required (of_client name "auth.pass_through.headers") ∷ []
      | m ∷ ms ↦ check_mappings name 0 (m ∷ ms)
    ])
      ≡ []
    → (hs ≢ []) × All IsComplete hs
headers_checked name [] h = absurd (cc)
headers_checked name (m ∷ ms) h = (λ e. cc, mappings_checked name 0 (m ∷ ms) h)

or_swap : (a b : Bool) → (a || b) ≡ true → (b || a) ≡ true
or_swap a b h = ground (arith, h)

connection_passes :
    (name : String) (c : ClientSettings)
    → c.pass_through ≡ true
    → (c.kind == "http" || c.kind == "sse") ≡ true
    → check_pass_through name c ≡ []
    → (c.pass_through_headers ≢ []) × All IsComplete c.pass_through_headers
connection_passes name c p k h = headers_checked name c.pass_through_headers (rw (p, k) at h)

runnable :
    (name : String) (c : ClientSettings)
    → check_client_kind name c ≡ []
    → check_pass_through name c ≡ []
    → IsRunnable c
runnable name c h g = elim (kind_checked name c h) [
  | inl (s, e) ↦ runs s e (process_passes_nothing name c (not_connected c.kind s) g)
  | inr (k, e) ↦ elim (Bool-cases c.pass_through) [
    | inl p ↦
        let (a, b) =
          connection_passes name c p (or_swap (c.kind == "sse") (c.kind == "http") k) g in
        passes_on k e a b
    | inr p ↦ connects k e p
  ]
]

client_checked :
    (name : String) (c : ClientSettings) → check_client name c ≡ [] → IsRunnable c × IsTimed c
unfolding check_client
client_checked name c h =
    let (k, h1) = both_empty _ _ h in
    let (a, h2) = both_empty _ _ h1 in
    let (b, h3) = both_empty _ _ h2 in
    let (d, h4) = both_empty _ _ h3 in
    let (e, h5) = both_empty _ _ h4 in
    let (f, h6) = both_empty _ _ h5 in
    let (g, p) = both_empty _ _ h6 in
    (
      runnable name c k p,
      (
        limit_checked _ _ 300000 a,
        limit_checked _ _ 10 b,
        limit_checked _ _ 10000 d,
        limit_checked _ _ 60000 e,
        limit_checked _ _ 10 f,
        limit_checked _ _ 30000 g,
      ),
    )

clients_checked :
    (cs : List (String × ClientSettings))
    → check_clients cs ≡ []
    → All (λ e. IsRunnable e.1 × IsTimed e.1) cs
unfolding check_clients
clients_checked [] h = tt
clients_checked ((name, c) ∷ cs) h =
    let (a, b) = both_empty _ _ h in (client_checked name c a, clients_checked cs b)

-- In an accepted configuration each downstream server is either a process with its command, which is
-- passed no credentials, or a connection with its address, which is passed none or is passed them
-- along at least one mapping, each naming both headers; and each wait and each number of retries lies between 0
-- and its limit.
pub validate_config-downstream :
    (os : FilePaths) (parses : String → Bool) (load_errors : List String) (s : Settings)
    → validate_config os parses load_errors s ≡ []
    → All (λ e. IsRunnable e.1 × IsTimed e.1) s.downstream
validate_config-downstream os parses load_errors s h =
    let (_, _, _, _, c, _, _, _, _) = parts_checked os parses load_errors s h in
    clients_checked s.downstream c
