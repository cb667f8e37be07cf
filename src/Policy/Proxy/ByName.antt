-- ===== src/Policy/Proxy/ByName.antt =====
-- A name that resolves to several addresses (cmd/net-policy-proxy/main.go: allowed, handleConnect).
use nano_cloud.Base.{
  String, true, Option, none, some, List, [], ◌∷◌, ◌++◌, ◌≡◌, ◌≢◌, refl, arith, eq_iff,
}
use nano_cloud.Base.HostPort.{split_host_port, join_host_port}
use nano_cloud.Base.Int.{ℤ}
use nano_cloud.Base.Text.{trim_space, to_lower}
use nano_cloud.Policy.Rules.{NetIp, Allowlist, AllowRule, is_port}
use nano_cloud.Policy.Match.{allowed_ip, allowed_any, allowed_resolved, allowed_name, allowed}
use nano_cloud.Policy.Proxy.{
  ProxyRequest, Network, tunnel, parse_port, connect_to, connect_parts, handle_connect,
}

module _ (ip : NetIp) where
  open ip use {Addr, parse_addr, is4}

  allowed_any-one :
      (rs : List (AllowRule ip)) (xs ys : List (Option Addr)) (a : Addr) (port : ℤ)
      → is4 a ≡ true
      → allowed_ip ip rs a port ≡ true
      → allowed_any ip rs (xs ++ some a ∷ ys) port ≡ true
  unfolding allowed_any
  allowed_any-one rs [] ys a port four good = ground (arith, four, good)
  allowed_any-one rs (none ∷ xs) ys a port four good = allowed_any-one rs xs ys a port four good
  allowed_any-one rs (some b ∷ xs) ys a port four good =
      ground (arith, allowed_any-one rs xs ys a port four good)

  resolved-one :
      (resolve : String → Option (List (Option Addr))) (al : Allowlist ip) (h : String)
      (xs ys : List (Option Addr)) (a : Addr) (port : ℤ)
      → resolve h ≡ some (xs ++ some a ∷ ys)
      → is4 a ≡ true
      → allowed_ip ip al.cidr_rules a port ≡ true
      → allowed_resolved ip al.cidr_rules (resolve h) port ≡ true
  resolved-one resolve al h xs ys a port found four good =
      rw found (unfold allowed_resolved in allowed_any-one al.cidr_rules xs ys a port four good)

  allowed-one :
      (resolve : String → Option (List (Option Addr))) (al : Allowlist ip) (host : String)
      (xs ys : List (Option Addr)) (a : Addr) (port : ℤ)
      → to_lower (trim_space host) ≢ ""
      → is_port port ≡ true
      → parse_addr (to_lower (trim_space host)) ≡ none
      → resolve (to_lower (trim_space host)) ≡ some (xs ++ some a ∷ ys)
      → is4 a ≡ true
      → allowed_ip ip al.cidr_rules a port ≡ true
      → allowed ip resolve al host port ≡ true
  unfolding allowed allowed_name
  allowed-one resolve al host xs ys a port some_host valid name found four good =
      let h = to_lower (trim_space host) in
      let resolved = resolved-one resolve al h xs ys a port found four good in
      rw (name, resolved) (ground (arith, valid, eq_iff h "", some_host))

-- A tunnel to a name is dialled by the name as soon as one of the addresses that the proxy has resolved
-- it to is permitted by a prefix, whatever the other addresses are.
pub tunnel_by_name :
    (ip : NetIp) (resolve : String → Option (List (Option ip.Addr))) (al : Allowlist ip)
    (net : Network) (r : ProxyRequest) (host port_str : String) (port : ℤ)
    (xs ys : List (Option ip.Addr)) (a : ip.Addr)
    → split_host_port r.host ≡ some (host, port_str)
    → parse_port port_str ≡ some port
    → is_port port ≡ true
    → to_lower (trim_space host) ≢ ""
    → ip.parse_addr (to_lower (trim_space host)) ≡ none
    → resolve (to_lower (trim_space host)) ≡ some (xs ++ some a ∷ ys)
    → ip.is4 a ≡ true
    → allowed_ip ip al.cidr_rules a port ≡ true
    → (handle_connect ip resolve al net r).1 ≡ some (tunnel (join_host_port host port_str))
unfolding handle_connect connect_parts connect_to
tunnel_by_name ip resolve al net r host port_str port xs ys a parts parsed valid some_host name
      found four good =
    let allows = allowed-one ip resolve al host xs ys a port some_host valid name found four good in
    rw (parts, parsed, allows) refl
