-- ===== src/Policy/Grants.antt =====
-- What a rule of the allowlist grants, independently of its compilation, and that the compiled rule
-- grants just that (cmd/net-policy-proxy/main.go).
use nano_cloud.Base.{
  inr, inl, Bool-cases, Any, String, true, not, ◌&&◌, ◌||◌, Option, none, some, List, [], ◌∷◌, ◌++◌,
  ◌==◌, ◌≡◌, ◌≢◌, ◌↔◌, refl, arith, eq_iff,
}
use nano_cloud.Base.Int.{int_eq_iff, int_eq, ℤ}
use nano_cloud.Base.Text.{trim_space}
use nano_cloud.Policy.Rules.{NetIp, Rule, AllowRule, rule_ports, host_rule, cidr_rule}
use nano_cloud.Policy.Match.{port_allowed, cidr_matches, allowed_ip, host_matches, allowed_host}
use nano_cloud.Policy.Compiled.{rule_host, host_part, cidr_part, prefix_part}
use nano_cloud.Policy.Names.{Names, host_matches_sound, host_matches_complete}

-- a port is allowed if it is one of the list
port_allowed_iff :
    (ports : List ℤ) (port : ℤ) → (port_allowed ports port ≡ true) ↔ Any (λ p. p ≡ port) ports
unfolding port_allowed
port_allowed_iff [] port = (λ m. cc, λ no_port. absurd no_port)
port_allowed_iff (p ∷ ps) port =
    let (to, from) = port_allowed_iff ps port in
    (
      λ m. elim (Bool-cases (int_eq p port)) [
        | inl same ↦ inl ((int_eq_iff p port).0 same)
        | inr other ↦ inr (to (ground (arith, other)))
      ],
      λ listed. elim listed [
        | inl same ↦ ground (arith, int_eq_iff p port)
        | inr later ↦ ground (arith, from later)
      ],
    )

module _ (ip : NetIp) where
  open ip use {Addr, Prefix, parse_addr, parse_prefix, prefix_addr, is4, contains}

  -- the rule names the host and lists the port
  abbrev pub GrantsHost : String → ℤ → Rule → Type 0
  GrantsHost h port r =
      Any (λ p. p ≡ port) (rule_ports r) × (rule_host r ≢ "") × Names (rule_host r) h

  -- the rule has an IPv4 prefix, no host and the port, and the prefix contains the address
  abbrev pub GrantsAddr : Addr → ℤ → Rule → Type 0
  GrantsAddr a port r =
      Any (λ p. p ≡ port) (rule_ports r)
      × (rule_host r ≡ "")
      × ((p : Prefix) × (parse_prefix (trim_space r.cidr) ≡ some p)
          × (is4 (prefix_addr p) ≡ true)
          × (contains p a ≡ true))

  host_rule-ports : (pattern : String) (ports : List ℤ) → (host_rule ip pattern ports).ports ≡ ports
  unfolding host_rule
  host_rule-ports pattern ports = ground arith

  pub allowed_host-append :
      (xs ys : List (AllowRule ip)) (h : String) (port : ℤ)
      → allowed_host ip (xs ++ ys) h port ≡ (allowed_host ip xs h port || allowed_host ip ys h port)
  unfolding allowed_host
  allowed_host-append [] ys h port = refl
  allowed_host-append (x ∷ xs) ys h port = ground (arith, allowed_host-append xs ys h port)

  pub allowed_ip-append :
      (xs ys : List (AllowRule ip)) (a : Addr) (port : ℤ)
      → allowed_ip ip (xs ++ ys) a port ≡ (allowed_ip ip xs a port || allowed_ip ip ys a port)
  unfolding allowed_ip
  allowed_ip-append [] ys a port = refl
  allowed_ip-append (x ∷ xs) ys a port = ground (arith, allowed_ip-append xs ys a port)

  host_part-cases :
      (h : String) (port : ℤ) (r : Rule)
      → allowed_host ip (host_part ip r) h port ≡ (
          not (rule_host r == "")
          && (port_allowed (rule_ports r) port
              && host_matches ip (host_rule ip (rule_host r) (rule_ports r)) h))
  unfolding host_part allowed_host
  host_part-cases h port r = ground (arith, host_rule-ports (rule_host r) (rule_ports r))

  pub host_part_iff :
      (h : String) (port : ℤ) (r : Rule)
      → (allowed_host ip (host_part ip r) h port ≡ true) ↔ GrantsHost h port r
  host_part_iff h port r =
      let cases = host_part-cases h port r in
      let (lists_port, listed) = port_allowed_iff (rule_ports r) port in
      (
        λ m. (
          lists_port (ground arith),
          ground (arith, eq_iff (rule_host r) ""),
          host_matches_sound ip (rule_host r) h (rule_ports r) (ground arith),
        ),
        λ (lists, there, names). ground (
          arith,
          eq_iff (rule_host r) "",
          listed lists,
          host_matches_complete ip (rule_host r) h (rule_ports r) there names,
        ),
      )

  cidr_part-cases :
      (a : Addr) (port : ℤ) (r : Rule)
      → allowed_ip ip (cidr_part ip r) a port ≡ (
          rule_host r == ""
          && allowed_ip ip
              (prefix_part ip (parse_prefix (trim_space r.cidr)) (rule_ports r))
              a
              port)
  unfolding cidr_part allowed_ip
  cidr_part-cases a port r = ground arith

  prefix_part_iff :
      (o : Option Prefix) (ports : List ℤ) (a : Addr) (port : ℤ)
      → (allowed_ip ip (prefix_part ip o ports) a port ≡ true) ↔ (
          (port_allowed ports port ≡ true)
          × ((p : Prefix) × (o ≡ some p) × (is4 (prefix_addr p) ≡ true) × (contains p a ≡ true)))
  unfolding prefix_part allowed_ip cidr_rule cidr_matches
  prefix_part_iff none ports a port = (λ m. cc, λ (lists, (p, same, four, inside)). cc)
  prefix_part_iff (some p) ports a port = (
    λ m. (ground arith, (p, refl, ground arith, ground arith)),
    λ (lists, (q, same, four, inside)). ground arith,
  )

  pub cidr_part_iff :
      (a : Addr) (port : ℤ) (r : Rule)
      → (allowed_ip ip (cidr_part ip r) a port ≡ true) ↔ GrantsAddr a port r
  cidr_part_iff a port r =
      let cases = cidr_part-cases a port r in
      let (lists_port, listed) = port_allowed_iff (rule_ports r) port in
      let (to, from) = prefix_part_iff (parse_prefix (trim_space r.cidr)) (rule_ports r) a port in
      (
        λ m.
            let (lists, there) = to (ground arith) in
            (lists_port lists, ground (arith, eq_iff (rule_host r) ""), there),
        λ (lists, bare, there). ground (arith, eq_iff (rule_host r) "", from (listed lists, there)),
      )
