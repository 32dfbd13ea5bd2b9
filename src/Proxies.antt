-- ===== src/Proxies.antt =====
-- internal/gateway/trusted_proxy.go: the client's address behind proxies. Parsing of addresses and
-- networks, and trimming of white space, are the parameter `Net`.
pub mod Spoofing
use Prim.Native.Char.{Char, code}
use Prim.Native.String.{[] as no_text, ◌∷◌ as ◌+∷◌}
use maybe_dont.Prelude.{
  String, Bool, true, false, ◌==◌, ◌&&◌, not, List, [], ◌∷◌, ◌++◌, Option, none, some, contains,
  eqb, select, if◌then◌else◌,
}

-- `strings.TrimSpace`; `net.ParseIP` to the canonical text of the address; `net.ParseCIDR` to the
-- test of what the network contains.
pub record Net : Type 0 where
  pub trim_space : String → String
  pub parse_ip : String → Option String
  pub parse_cidr : String → Option (String → Bool)

pub record TrustedProxyChecker : Type 0 where
  pub nets : List (String → Bool)
  pub ips : List String
  pub trust_all : Bool

-- One entry of the configuration; an invalid one is ignored.
unfoldable pub add_entry : Net → TrustedProxyChecker → String → TrustedProxyChecker
add_entry net c entry =
    let e = net.trim_space entry in
    if e == "" then c else elim (net.parse_cidr e) [
      | some n ↦ record c { nets = c.nets ++ n ∷ [] }
      | none ↦ elim (net.parse_ip e) [ some ip ↦ record c { ips = ip ∷ c.ips } | none ↦ c ]
    ]

abbrev add_entries : Net → TrustedProxyChecker → List String → TrustedProxyChecker
add_entries net c [] = c
add_entries net c (e ∷ es) = add_entries net (add_entry net c e) es

unfoldable pub new_trusted_proxy_checker : Net → List String → TrustedProxyChecker
unfolding add_entry
new_trusted_proxy_checker net [] = record { nets = []; ips = []; trust_all = true }
new_trusted_proxy_checker net (e ∷ es) =
    add_entries net (record { nets = []; ips = []; trust_all = false }) (e ∷ es)

abbrev in_some : List (String → Bool) → String → Bool
in_some [] ip = false
in_some (n ∷ ns) ip = let rest = in_some ns ip in if n ip then true else rest

unfoldable pub is_trusted : Net → TrustedProxyChecker → String → Bool
is_trusted net c text = if c.trust_all then true else elim (net.parse_ip (net.trim_space text)) [
  | none ↦ false
  | some ip ↦ if contains ip c.ips then true else in_some c.nets ip
]

-- A character before the pieces of the rest.
abbrev pub split_step : Char → List String → List String
split_step c [] = (c +∷ "") ∷ []
split_step c (w ∷ ws) = if eqb (code c) 44 then "" ∷ w ∷ ws else (c +∷ w) ∷ ws

-- `strings.Split(s, ",")`.
unfoldable pub split_commas : String → List String
split_commas no_text = "" ∷ []
split_commas (c +∷ s) = split_step c (split_commas s)

abbrev pub trimmed : Net → List String → List String
trimmed net [] = []
trimmed net (w ∷ ws) = net.trim_space w ∷ trimmed net ws

-- The entries of the header, trimmed, without the empty ones.
unfoldable pub clean_ips : Net → String → List String
unfolding split_commas
clean_ips net xff = select (λ w. not (w == "")) (trimmed net (split_commas xff))

-- From right to left, the first entry that is not trusted.
unfoldable pub last_untrusted : Net → TrustedProxyChecker → List String → Option String
unfolding is_trusted
last_untrusted net c [] = none
last_untrusted net c (ip ∷ ips) = elim (last_untrusted net c ips) [
  | some found ↦ some found
  | none ↦ if is_trusted net c ip then none else some ip
]

abbrev fallback : Net → String → String → String
fallback net x_real_ip direct = if x_real_ip == "" then direct else net.trim_space x_real_ip

abbrev pub choose_ip : Net → TrustedProxyChecker → String → List String → String
choose_ip net c otherwise [] = otherwise
choose_ip net c otherwise (first ∷ rest) =
    if c.trust_all
    then first
    else elim (last_untrusted net c (first ∷ rest)) [ some ip ↦ ip | none ↦ first ]

-- `direct` is the address that `parseRemoteAddr` takes from the connection.
unfoldable pub extract_client_ip : Net → TrustedProxyChecker → String → String → String → String
unfolding clean_ips last_untrusted
extract_client_ip net c xff x_real_ip direct =
    if xff == ""
    then fallback net x_real_ip direct
    else choose_ip net c (fallback net x_real_ip direct) (clean_ips net xff)
