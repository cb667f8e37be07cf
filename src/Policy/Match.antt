-- ===== src/Policy/Match.antt =====
-- Requests against the compiled allowlist (`allowed`, `allowedIP` and `portAllowed` of
-- cmd/net-policy-proxy/main.go). The resolver is the argument `resolve`: `none` when the lookup fails,
-- and for each answer the address, or `none` where AddrFromSlice refuses it.
use nano_cloud.Base.{
  String, Bool, false, not, ◌&&◌, ◌||◌, Option, none, some, List, [], ◌∷◌, ◌==◌, if◌then◌else◌,
}
use Prim.Native.String
use nano_cloud.Base.Int.{ℤ, int_eq}
use nano_cloud.Base.Text.{trim_space, to_lower, has_suffix}
use nano_cloud.Policy.Rules.{NetIp, AllowRule, Allowlist, is_port}

unfoldable pub port_allowed : List ℤ → ℤ → Bool
port_allowed [] port = false
port_allowed (p ∷ ps) port = int_eq p port || port_allowed ps port

module _ (ip : NetIp) where
  open ip use {Addr, Prefix, parse_addr, is4, contains}

  unfoldable pub cidr_matches : Option Prefix → Addr → Bool
  cidr_matches none a = false
  cidr_matches (some p) a = contains p a

  unfoldable pub allowed_ip : List (AllowRule ip) → Addr → ℤ → Bool
  unfolding cidr_matches
  allowed_ip [] a port = false
  allowed_ip (r ∷ rs) a port =
      port_allowed r.ports port && cidr_matches r.prefix a || allowed_ip rs a port

  unfoldable pub host_matches : AllowRule ip → String → Bool
  host_matches r h =
      not (r.exact_host == "") && h == r.exact_host
      || not (r.wildcard_base == "")
        && (h == r.wildcard_base || has_suffix (String.◌++◌ "." r.wildcard_base) h)

  unfoldable pub allowed_host : List (AllowRule ip) → String → ℤ → Bool
  unfolding host_matches
  allowed_host [] h port = false
  allowed_host (r ∷ rs) h port =
      port_allowed r.ports port && host_matches r h || allowed_host rs h port

  -- the loop over the addresses that the resolver gave
  unfoldable pub allowed_any : List (AllowRule ip) → List (Option Addr) → ℤ → Bool
  allowed_any rs [] port = false
  allowed_any rs (none ∷ rest) port = allowed_any rs rest port
  allowed_any rs (some a ∷ rest) port = is4 a && allowed_ip rs a port || allowed_any rs rest port

  unfoldable pub allowed_resolved : List (AllowRule ip) → Option (List (Option Addr)) → ℤ → Bool
  allowed_resolved rs none port = false
  allowed_resolved rs (some found) port = allowed_any rs found port

  -- a literal IPv4 address is decided by the prefixes alone, and any other name by the host rules and
  -- then by the addresses that it resolves to
  unfoldable pub allowed_name :
      (String → Option (List (Option Addr))) → Allowlist ip → String → ℤ → Option Addr → Bool
  allowed_name resolve al h port none =
      allowed_host al.host_rules h port || allowed_resolved al.cidr_rules (resolve h) port
  allowed_name resolve al h port (some a) =
      if is4 a
      then allowed_ip al.cidr_rules a port
      else allowed_host al.host_rules h port || allowed_resolved al.cidr_rules (resolve h) port

  unfoldable pub allowed : (String → Option (List (Option Addr))) → Allowlist ip → String → ℤ → Bool
  unfolding is_port
  allowed resolve al host port =
      let h = to_lower (trim_space host) in
      if h == "" || not (is_port port) then false else allowed_name resolve al h port (parse_addr h)
