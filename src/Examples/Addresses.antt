-- ===== src/Examples/Addresses.antt =====
-- Client addresses at concrete inputs.
use maybe_dont.Prelude.{◌≡◌, refl, [], ◌∷◌, none, some}
use maybe_dont.Proxies.{
  Net, TrustedProxyChecker, new_trusted_proxy_checker, extract_client_ip, clean_ips, last_untrusted,
}
use maybe_dont.Proxies.Spoofing.{extract_client_ip_ignores_prefix}

-- A network in which every text is an address and none has spaces.
abbrev net : Net
net = record { trim_space = λ s. s; parse_ip = λ s. some s; parse_cidr = λ s. none }

abbrev checker : TrustedProxyChecker
unfolding new_trusted_proxy_checker
checker = new_trusted_proxy_checker net ("10.0.0.1" ∷ [])

extract_client_ip_ignores_prefix_example :
    (extract_client_ip net checker "6.6.6.6,203.0.113.9,10.0.0.1" "" "10.0.0.1" ≡ "203.0.113.9")
    × (extract_client_ip net checker "203.0.113.9,10.0.0.1" "" "10.0.0.1" ≡ "203.0.113.9")
unfolding checker clean_ips last_untrusted
extract_client_ip_ignores_prefix_example =
    extract_client_ip_ignores_prefix net checker "6.6.6.6" "203.0.113.9,10.0.0.1" "" "10.0.0.1"
      "203.0.113.9" refl refl refl
