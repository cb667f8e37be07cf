-- ===== src/Policy/Tests.antt =====
-- The allowlist's theorems at small lists of rules, with an address package of one address
-- (cmd/net-policy-proxy/main.go, pkg/worker/net_allowlist.go).
use nano_cloud.Base.{
  ℕ, String, true, false, Option, none, some, List, [], ◌∷◌, ◌≡◌, ◌≢◌, ◌↔◌, refl, ◌==◌, nat_eq,
  if◌then◌else◌,
}
use nano_cloud.Base.Int.{ℤ, pos, int_eq}
use nano_cloud.Policy.Proxy.ByName.{tunnel_by_name}
use nano_cloud.Base.HostPort.{split_host_port, join_host_port}
use nano_cloud.Base.Scan.{port_number, is_digit_first, scan_digits}
use nano_cloud.Base.Text.{apart, to_lower, trim_space, has_prefix, trim_prefix}
use nano_cloud.Base.Result.{ok}
use nano_cloud.Policy.Match.{allowed_ip, cidr_matches, allowed, port_allowed}
use nano_cloud.Policy.Agreement.{forget, load-validate}
use nano_cloud.Policy.Decision.{Permits, allowed_iff}
use nano_cloud.Policy.Proxy.{handle_connect, parse_port, ProxyRequest, Network, tunnel, taken}
use nano_cloud.Policy.Rules.{
  add_prefix, add_cidr, add_host, cidr_rule, host_rule, rule_ports, is_tcp, check_ports, add_rule,
  add_rules, validate_network_allowlist, is_port, Allowlist, NetIp, load_allowlist, Rule,
}

abbrev one_net : NetIp
one_net = record {
  Addr = ℕ;
  Prefix = ℕ;
  parse_addr = λ s. if s == "10.0.0.1" then some 1 else none;
  parse_prefix = λ s. if s == "10.0.0.0/8" then some 1 else none;
  prefix_addr = λ p. p;
  is4 = λ a. true;
  contains = nat_eq;
}

abbrev resolves_all : String → Option (List (Option ℕ))
resolves_all h = some (some 1 ∷ [])

abbrev api_rules : List Rule
api_rules =
    record { host = "*.Example.com"; cidr = ""; protocol = ""; ports = [] }
    ∷ record { host = ""; cidr = "10.0.0.0/8"; protocol = "TCP"; ports = pos 8080 ∷ [] }
    ∷ []

abbrev api_list : Allowlist one_net
api_list = record {
  host_rules =
      record { exact_host = ""; wildcard_base = "example.com"; prefix = none; ports = pos 443 ∷ [] }
      ∷ [];
  cidr_rules =
      record { exact_host = ""; wildcard_base = ""; prefix = some 1; ports = pos 8080 ∷ [] } ∷ [];
}

api_list_loads : load_allowlist one_net api_rules ≡ ok api_list
unfolding load_allowlist add_rules add_rule check_ports is_port is_tcp rule_ports to_lower
    trim_space host_rule add_host add_cidr add_prefix has_prefix trim_prefix cidr_rule
api_list_loads = refl

allowed_iff_example : (allowed one_net resolves_all api_list "api.example.com" (pos 443) ≡ true) ↔ (
    (to_lower (trim_space "api.example.com") ≢ "")
    × (is_port (pos 443) ≡ true)
    × Permits one_net resolves_all api_rules (to_lower (trim_space "api.example.com")) (pos 443))
allowed_iff_example =
    allowed_iff one_net resolves_all api_rules api_list "api.example.com" (pos 443) api_list_loads

load-validate_example :
    forget (load_allowlist one_net api_rules) ≡ validate_network_allowlist one_net api_rules
load-validate_example = load-validate one_net api_rules

abbrev connect_api : ProxyRequest
connect_api = record {
  method = "CONNECT";
  host = "api.example.com:443";
  is_abs = false;
  url_scheme = "";
  url_host = "";
}

abbrev all_well : Network
all_well = record { dials = true; hijack = taken; answers = none }

-- no service has a name
abbrev no_services : String → Option ℤ
no_services s = none

abbrev no_reading : String → String → Option (String × ℤ)
no_reading scheme url_host = none

-- The text 443x is 443 for the proxy, and a service for net.Dial.
port_443x : (parse_port "443x" ≡ some (pos 443)) × (port_number "443x" ≡ none)
unfolding parse_port port_number is_digit_first scan_digits is_port
port_443x = (refl, refl)

-- a name with one address inside the prefix and one outside
abbrev resolves_both : String → Option (List (Option ℕ))
resolves_both h = some (some 7 ∷ some 1 ∷ [])

abbrev connect_other : ProxyRequest
connect_other = record connect_api { host = "other.net:8080" }

tunnel_by_name_example :
    (handle_connect one_net resolves_both api_list all_well connect_other).1
    ≡ some (tunnel "other.net:8080")
unfolding split_host_port parse_port is_port allowed_ip join_host_port to_lower trim_space
    is_digit_first scan_digits port_allowed int_eq cidr_matches
tunnel_by_name_example =
    tunnel_by_name one_net resolves_both api_list all_well connect_other "other.net" "8080"
      (pos 8080) (some 7 ∷ []) [] 1 refl refl refl (apart "other.net" "" refl) refl refl refl refl
