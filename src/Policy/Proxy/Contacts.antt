-- ===== src/Policy/Proxy/Contacts.antt =====
-- What the proxy reaches out to (cmd/net-policy-proxy/main.go).
use nano_cloud.Base.{◌⊎◌, String, true, Option, some, List, ◌≡◌}
use nano_cloud.Base.HostPort.{split_host_port, join_host_port}
use nano_cloud.Base.Int.{ℤ}
use nano_cloud.Policy.Proxy.Dials.{Dials, IsService, IsUnusual}
use nano_cloud.Policy.Rules.{NetIp, Allowlist}
use nano_cloud.Policy.Match.{allowed}
use nano_cloud.Policy.Proxy.{Contact, tunnel, forward, parse_port, split_host_port_default}

-- The host and the port of a contact that the proxy checks.
data Names : Contact → String → ℤ → Type 0 where
  tunnel_names :
      (host port_str : String) (port : ℤ)
      → split_host_port (join_host_port host port_str) ≡ some (host, port_str)
      → parse_port port_str ≡ some port
      → Names (tunnel (join_host_port host port_str)) host port
  forward_names :
      (scheme url_host : String)
      → Names
          (forward scheme url_host)
          (split_host_port_default url_host scheme).0
          (split_host_port_default url_host scheme).1

module _ (ip : NetIp) (resolve : String → Option (List (Option ip.Addr))) (al : Allowlist ip) where
  -- the contact is to a host and a port that are allowed
  abbrev IsAllowed : Contact → Type 0
  IsAllowed c =
      (host : String) × (port : ℤ) × Names c host port × (allowed ip resolve al host port ≡ true)

-- what a contact reaches is what the proxy has checked, but for the two exceptions
abbrev Agrees : (String → Option ℤ) → Contact → String → String → ℤ → ℤ → Type 0
Agrees services c named host checked port =
    ((named ≡ host) × ((port ≡ checked) ⊎ IsService services c port)) ⊎ IsUnusual c
