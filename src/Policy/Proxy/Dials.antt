-- ===== src/Policy/Proxy/Dials.antt =====
-- What net.Dial and http.Transport make of a contact of the proxy (cmd/net-policy-proxy/main.go:
-- handleConnect, handleHTTP).
use nano_cloud.Base.{
  String, Bool, true, false, not, ◌&&◌, Option, none, some, ◌≡◌, ◌==◌, if◌then◌else◌,
}
use nano_cloud.Base.HostPort.{lacks, split_host_port, join_host_port}
use nano_cloud.Base.Int.{ℤ}
use nano_cloud.Base.Scan.{all_digits, port_number}
use nano_cloud.Policy.Proxy.{Contact, tunnel, forward, scheme_port}

-- The host of a URL that is a name without a port, or a host with a decimal port.
unfoldable pub is_simple : String → Bool
unfolding lacks split_host_port all_digits
is_simple url_host =
    if lacks 58 url_host then lacks 91 url_host else elim (split_host_port url_host) [
      | none ↦ false
      | some (host, text) ↦ not (text == "") && all_digits text
    ]

-- The host and the port that a contact reaches. The address of a tunnel is what net.Dial makes of it: the
-- text of the port is a number, or else a service that `services` looks up. Of a URL they are what
-- http.Transport makes of its host: the name and the port of the scheme, or the host and its decimal
-- port; `transport` is how it reads any other text.
pub data Dials (services : String → Option ℤ) (transport : String → String → Option (String × ℤ))
    : Contact → String → ℤ → Type 0 where
  dials_number :
      {address : String} (host text : String) (port : ℤ)
      → split_host_port address ≡ some (host, text)
      → port_number text ≡ some port
      → Dials services transport (tunnel address) host port
  dials_service :
      {address : String} (host text : String) (port : ℤ)
      → split_host_port address ≡ some (host, text)
      → port_number text ≡ none
      → services text ≡ some port
      → Dials services transport (tunnel address) host port
  requests_name :
      (scheme url_host : String)
      → is_simple url_host ≡ true
      → lacks 58 url_host ≡ true
      → Dials services transport (forward scheme url_host) url_host (scheme_port scheme)
  requests_port :
      (scheme url_host host text : String) (port : ℤ)
      → is_simple url_host ≡ true
      → lacks 58 url_host ≡ false
      → split_host_port url_host ≡ some (host, text)
      → port_number text ≡ some port
      → Dials services transport (forward scheme url_host) host port
  requests_other :
      (scheme url_host host : String) (port : ℤ)
      → is_simple url_host ≡ false
      → transport scheme url_host ≡ some (host, port)
      → Dials services transport (forward scheme url_host) host port

-- a tunnel to a port that is not a number but a service
abbrev pub IsService : (String → Option ℤ) → Contact → ℤ → Type 0
IsService services c port =
    (host : String) × (text : String) × (c ≡ tunnel (join_host_port host text))
    × (port_number text ≡ none)
    × (services text ≡ some port)

-- a request to a URL whose host is neither a name nor a host with a decimal port
abbrev pub IsUnusual : Contact → Type 0
IsUnusual c =
    (scheme : String) × (url_host : String) × (c ≡ forward scheme url_host)
    × (is_simple url_host ≡ false)
