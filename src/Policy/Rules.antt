-- ===== src/Policy/Rules.antt =====
-- The rules of the network allowlist: their compilation in the proxy (`loadAllowlist` of
-- cmd/net-policy-proxy/main.go, past the reading and decoding of the file) and their check in the
-- worker (pkg/worker/net_allowlist.go). Package net/netip is the parameter `NetIp`.
use nano_cloud.Base.{
  String, Bool, false, not, ◌&&◌, ◌||◌, Option, none, some, List, [], ◌∷◌, ◌++◌, ◌==◌, leb, ltb,
  if◌then◌else◌,
}
use nano_cloud.Base.Int.{ℤ, pos, negsuc}
use nano_cloud.Base.Text.{trim_space, to_lower, has_prefix, trim_prefix}
use nano_cloud.Base.Result.{Result, ok, err, ◌>>=◌, ◌>>◌, ensure}

-- What the code uses of net/netip. `prefix_addr` is `Prefix.Addr`, `is4` is `Addr.Is4`.
pub record NetIp : Type 1 where
  pub Addr : Type 0
  pub Prefix : Type 0
  pub parse_addr : String → Option Addr
  pub parse_prefix : String → Option Prefix
  pub prefix_addr : Prefix → Addr
  pub is4 : Addr → Bool
  pub contains : Prefix → Addr → Bool

-- `rule` of the proxy and `NetworkAllowRule` of the worker
pub record Rule : Type 0 where
  pub host : String
  pub cidr : String
  pub protocol : String
  pub ports : List ℤ

pub data RuleError : Type 0 where
  invalid_protocol : String → RuleError
  invalid_port : ℤ → RuleError
  no_target : RuleError
  both_targets : RuleError
  invalid_cidr : String → RuleError

-- !(p <= 0 || p > 65535)
unfoldable pub is_port : ℤ → Bool
is_port (pos n) = ltb 0 n && leb n 65535
is_port (negsuc n) = false

-- the default and the test of the protocol
unfoldable pub is_tcp : String → Bool
is_tcp protocol =
    let proto = to_lower (trim_space protocol) in (if proto == "" then "tcp" else proto) == "tcp"

-- no ports means port 443
unfoldable pub rule_ports : Rule → List ℤ
rule_ports r = elim r.ports [ [] ↦ pos 443 ∷ [] | p ∷ ps ↦ p ∷ ps ]

unfoldable pub check_ports : List ℤ → Result RuleError (Unit {0})
check_ports [] = ok tt
check_ports (p ∷ ps) = ensure (is_port p) (invalid_port p) >> check_ports ps

module _ (ip : NetIp) where
  open ip use {Prefix, parse_prefix, prefix_addr, is4}

  -- `allowRule`. A rule for hosts has no prefix, and `hasPrefix` is `prefix` being there. The set of
  -- ports is a list.
  pub record AllowRule : Type 0 where
    pub exact_host : String
    pub wildcard_base : String
    pub prefix : Option Prefix
    pub ports : List ℤ

  pub record Allowlist : Type 0 where
    pub host_rules : List AllowRule
    pub cidr_rules : List AllowRule

  -- the rule for a host: `*.base` or an exact name
  unfoldable pub host_rule : String → List ℤ → AllowRule
  host_rule host ports =
      if has_prefix "*." host
      then record {
        exact_host = "";
        wildcard_base = trim_prefix "*." host;
        prefix = none;
        ports = ports;
      }
      else record { exact_host = host; wildcard_base = ""; prefix = none; ports = ports }

  unfoldable pub cidr_rule : Prefix → List ℤ → AllowRule
  cidr_rule p ports = record { exact_host = ""; wildcard_base = ""; prefix = some p; ports = ports }

  unfoldable pub add_host : AllowRule → Allowlist → Allowlist
  add_host r al = record al { host_rules = al.host_rules ++ r ∷ [] }

  unfoldable pub add_cidr : AllowRule → Allowlist → Allowlist
  add_cidr r al = record al { cidr_rules = al.cidr_rules ++ r ∷ [] }

  -- the last part of a round: a prefix that is not IPv4 adds no rule
  unfoldable pub add_prefix :
      Option Prefix → String → List ℤ → Allowlist → Result RuleError Allowlist
  add_prefix none cidr ports al = err (invalid_cidr cidr)
  add_prefix (some p) cidr ports al =
      ok (if is4 (prefix_addr p) then add_cidr (cidr_rule p ports) al else al)

  -- one round of the loop of `loadAllowlist`
  unfoldable pub add_rule : Rule → Allowlist → Result RuleError Allowlist
  add_rule r al = do
    ensure (is_tcp r.protocol) (invalid_protocol r.protocol)
    check_ports (rule_ports r)
    let host = to_lower (trim_space r.host)
    let cidr = trim_space r.cidr
    ensure (not (host == "" && cidr == "")) no_target
    ensure (host == "" || cidr == "") both_targets
    if host == ""
        then add_prefix (parse_prefix cidr) cidr (rule_ports r) al
        else ok (add_host (host_rule host (rule_ports r)) al)

  unfoldable pub add_rules : List Rule → Allowlist → Result RuleError Allowlist
  add_rules [] al = ok al
  add_rules (r ∷ rs) al = add_rule r al >>= add_rules rs

  abbrev pub empty_allowlist : Allowlist
  empty_allowlist = record { host_rules = []; cidr_rules = [] }

  unfoldable pub load_allowlist : List Rule → Result RuleError Allowlist
  unfolding add_rules
  load_allowlist rules = add_rules rules empty_allowlist

  -- the check of a prefix in the worker
  unfoldable pub check_cidr : Option Prefix → String → Result RuleError (Unit {0})
  check_cidr none cidr = err (invalid_cidr cidr)
  check_cidr (some p) cidr = ok tt

  -- one round of `ValidateNetworkAllowlist`
  unfoldable pub validate_rule : Rule → Result RuleError (Unit {0})
  validate_rule r = do
    ensure (is_tcp r.protocol) (invalid_protocol r.protocol)
    check_ports (rule_ports r)
    let host = trim_space r.host
    let cidr = trim_space r.cidr
    ensure (not (host == "" && cidr == "")) no_target
    ensure (host == "" || cidr == "") both_targets
    if cidr == "" then ok tt else check_cidr (parse_prefix cidr) cidr

  unfoldable pub validate_network_allowlist : List Rule → Result RuleError (Unit {0})
  validate_network_allowlist [] = ok tt
  validate_network_allowlist (r ∷ rs) = validate_rule r >> validate_network_allowlist rs
