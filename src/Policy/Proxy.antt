-- ===== src/Policy/Proxy.antt =====
-- The handlers of the proxy (ServeHTTP, handleConnect, handleHTTP, splitHostPortDefault and parsePort of
-- cmd/net-policy-proxy/main.go). Whether a dial, a round trip or a takeover of the connection succeeds is
-- an argument.
pub mod Contacts
pub mod ByName
pub mod Ports
pub mod Dials
use Prim.Native.String
use nano_cloud.Base.{ℕ, String, Bool, true, false, Option, none, some, List, ◌==◌, if◌then◌else◌}
use nano_cloud.Base.HostPort.{lacks, split_host_port, join_host_port}
use nano_cloud.Base.Int.{ℤ, pos, negsuc}
use nano_cloud.Base.Scan.{scan_spaced}
use nano_cloud.Policy.Rules.{NetIp, Allowlist, is_port}
use nano_cloud.Policy.Match.{allowed}

-- `r.Method`, `r.Host`, and of `r.URL` whether it is absolute, its scheme and its host
pub record ProxyRequest : Type 0 where
  pub method : String
  pub host : String
  pub is_abs : Bool
  pub url_scheme : String
  pub url_host : String

-- the takeover of the client's connection
pub data Hijack : Type 0 where
  unsupported failed taken : Hijack

pub record Network : Type 0 where
  pub dials : Bool
  pub hijack : Hijack
  pub answers : Option ℕ

pub data ProxyReply : Type 0 where
  bad_connect_host bad_connect_port blocked dial_failed hijack_unsupported : ProxyReply
  dropped tunnelled upstream_error : ProxyReply
  relayed : ℕ → ProxyReply

-- what the proxy reaches out to: the address of a tunnel, or the URL of a forwarded request
pub data Contact : Type 0 where
  tunnel : String → Contact
  forward : String → String → Contact

unfoldable pub valid_port : Option ℤ → Option ℤ
unfolding is_port
valid_port none = none
valid_port (some p) = if is_port p then some p else none

unfoldable pub parse_port : String → Option ℤ
unfolding valid_port scan_spaced
parse_port s = valid_port (scan_spaced s)

unfoldable pub port_or_zero : Option ℤ → ℤ
port_or_zero none = pos 0
port_or_zero (some p) = p

-- the port of a scheme
unfoldable pub scheme_port : String → ℤ
scheme_port scheme = if scheme == "https" then pos 443 else pos 80

unfoldable pub split_or_default : String → String → Option (String × String) → String × ℤ
unfolding scheme_port port_or_zero parse_port
split_or_default hostport scheme none = (hostport, scheme_port scheme)
split_or_default hostport scheme (some (host, port)) = (host, port_or_zero (parse_port port))

unfoldable pub split_host_port_default : String → String → String × ℤ
unfolding split_or_default scheme_port split_host_port lacks
split_host_port_default hostport scheme =
    if lacks 58 hostport
    then (hostport, scheme_port scheme)
    else split_or_default hostport scheme (split_host_port hostport)

unfoldable pub target_scheme : ProxyRequest → String
target_scheme r = if r.is_abs then r.url_scheme else "http"

unfoldable pub target_host : ProxyRequest → String
target_host r = if r.is_abs then r.url_host else r.host

-- the end of handleConnect, after the dial
unfoldable pub tunnel_reply : Network → ProxyReply
tunnel_reply net =
    if net.dials
    then elim net.hijack [ unsupported ↦ hijack_unsupported | failed ↦ dropped | taken ↦ tunnelled ]
    else dial_failed

unfoldable pub forward_reply : Option ℕ → ProxyReply
forward_reply none = upstream_error
forward_reply (some status) = relayed status

module _ (ip : NetIp) (resolve : String → Option (List (Option ip.Addr))) (al : Allowlist ip) where
  -- the rest of handleConnect at a host, the text of its port and the port
  unfoldable pub connect_to : Network → String → String → Option ℤ → ProxyReply × Option Contact
  unfolding allowed tunnel_reply join_host_port
  connect_to net host port_str none = (bad_connect_port, none)
  connect_to net host port_str (some port) =
      if allowed ip resolve al host port
      then (tunnel_reply net, some (tunnel (join_host_port host port_str)))
      else (blocked, none)

  unfoldable pub connect_parts : Network → Option (String × String) → ProxyReply × Option Contact
  unfolding connect_to parse_port
  connect_parts net none = (bad_connect_host, none)
  connect_parts net (some (host, port_str)) = connect_to net host port_str (parse_port port_str)

  unfoldable pub handle_connect : Network → ProxyRequest → ProxyReply × Option Contact
  unfolding connect_parts split_host_port
  handle_connect net r = connect_parts net (split_host_port r.host)

  unfoldable pub handle_http : Network → ProxyRequest → ProxyReply × Option Contact
  unfolding allowed split_host_port_default target_scheme target_host forward_reply
  handle_http net r =
      let (host, port) = split_host_port_default (target_host r) (target_scheme r) in
      if allowed ip resolve al host port
      then (forward_reply net.answers, some (forward (target_scheme r) (target_host r)))
      else (blocked, none)

  unfoldable pub serve_http : Network → ProxyRequest → ProxyReply × Option Contact
  unfolding handle_connect handle_http
  serve_http net r = if r.method == "CONNECT" then handle_connect net r else handle_http net r
