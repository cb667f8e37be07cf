-- ===== src/Policy/Compiled.antt =====
-- What `loadAllowlist` compiles a list of rules to (cmd/net-policy-proxy/main.go).
use nano_cloud.Base.{
  String, Option, none, some, List, [], ◌∷◌, ◌++◌, ◌==◌, ◌≡◌, ◌∙◌, arith, if◌then◌else◌,
}
use mathlib.Core.List.{append_assoc, append-nil}
use nano_cloud.Base.Int.{ℤ}
use nano_cloud.Base.Text.{trim_space, to_lower}
use nano_cloud.Base.Result.{ok, >>=-eq-ok}
use nano_cloud.Policy.Rules.{
  NetIp, Rule, AllowRule, Allowlist, add_prefix, add_host, add_cidr, host_rule, cidr_rule, add_rule,
  add_rules, load_allowlist, empty_allowlist, rule_ports,
}

abbrev pub rule_host : Rule → String
rule_host r = to_lower (trim_space r.host)

module _ (ip : NetIp) where
  open ip use {Prefix, parse_prefix, prefix_addr, is4}

  -- the host rule of a rule, where it names a host
  unfoldable pub host_part : Rule → List (AllowRule ip)
  host_part r = if rule_host r == "" then [] else host_rule ip (rule_host r) (rule_ports r) ∷ []

  unfoldable pub prefix_part : Option Prefix → List ℤ → List (AllowRule ip)
  prefix_part none ports = []
  prefix_part (some p) ports = if is4 (prefix_addr p) then cidr_rule ip p ports ∷ [] else []

  -- the prefix rule of a rule, where it names no host and its prefix is IPv4
  unfoldable pub cidr_part : Rule → List (AllowRule ip)
  unfolding prefix_part
  cidr_part r =
      if rule_host r == ""
      then prefix_part (parse_prefix (trim_space r.cidr)) (rule_ports r)
      else []

  unfoldable pub hosts_of : List Rule → List (AllowRule ip)
  hosts_of [] = []
  hosts_of (r ∷ rs) = host_part r ++ hosts_of rs

  unfoldable pub cidrs_of : List Rule → List (AllowRule ip)
  cidrs_of [] = []
  cidrs_of (r ∷ rs) = cidr_part r ++ cidrs_of rs

  abbrev pub extended : Allowlist ip → List (AllowRule ip) → List (AllowRule ip) → Allowlist ip
  extended al hs cs = record { host_rules = al.host_rules ++ hs; cidr_rules = al.cidr_rules ++ cs }

  add_rule-eq-ok :
      (r : Rule) (al al' : Allowlist ip)
      → add_rule ip r al ≡ ok al'
      → al' ≡ extended al (host_part r) (cidr_part r)
  unfolding add_rule host_part cidr_part add_host add_cidr add_prefix
  add_rule-eq-ok r al al' done = ground (arith, append-nil al.host_rules, append-nil al.cidr_rules)

  add_rules-eq-ok :
      (rs : List Rule) (al al' : Allowlist ip)
      → add_rules ip rs al ≡ ok al'
      → al' ≡ extended al (hosts_of rs) (cidrs_of rs)
  unfolding add_rules hosts_of cidrs_of
  add_rules-eq-ok [] al al' done =
      ground (arith, append-nil al.host_rules, append-nil al.cidr_rules)
  add_rules-eq-ok (r ∷ rs) al al' done =
      let (mid, first, later) = >>=-eq-ok (add_rule ip r al) (add_rules ip rs) done in
      add_rules-eq-ok rs mid al' later
      ∙ rw (add_rule-eq-ok r al mid first) (
          ground (
            arith,
            append_assoc al.host_rules (host_part r) (hosts_of rs),
            append_assoc al.cidr_rules (cidr_part r) (cidrs_of rs),
          ))

  -- A list that compiles gives a rule for each rule with a host, and one for each IPv4 prefix, in
  -- order.
  pub load_allowlist-eq-ok :
      (rules : List Rule) (al : Allowlist ip)
      → load_allowlist ip rules ≡ ok al
      → al ≡ record { host_rules = hosts_of rules; cidr_rules = cidrs_of rules }
  unfolding load_allowlist
  load_allowlist-eq-ok rules al done = add_rules-eq-ok rules (empty_allowlist ip) al done
