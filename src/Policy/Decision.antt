-- ===== src/Policy/Decision.antt =====
-- The proxy's `allowed` decides what the rules permit (cmd/net-policy-proxy/main.go).
use nano_cloud.Base.{
  String, Bool, true, false, ◌&&◌, ◌||◌, Option, none, some, List, [], ◌∷◌, ◌≡◌, ◌≢◌, ◌∙◌, ◌⊎◌, ◌↔◌,
  refl, sym, arith, eq_iff, Option-cases, Bool-cases, inl, inr, Any,
}
use nano_cloud.Base.Int.{ℤ}
use nano_cloud.Base.Text.{trim_space, to_lower}
use nano_cloud.Base.Result.{ok}
use nano_cloud.Policy.Rules.{NetIp, Rule, Allowlist, is_port, load_allowlist}
use nano_cloud.Policy.Match.{
  allowed_ip, allowed_host, allowed_any, allowed_resolved, allowed_name, allowed,
}
use nano_cloud.Policy.Compiled.{host_part, cidr_part, hosts_of, cidrs_of, load_allowlist-eq-ok}
use nano_cloud.Policy.Grants.{
  GrantsHost, GrantsAddr, allowed_host-append, allowed_ip-append, host_part_iff, cidr_part_iff,
}

or_true : (a b : Bool) → (a || b) ≡ true → (a ≡ true) ⊎ (b ≡ true)
or_true true b h = inl refl
or_true false b h = inr h

true_or_left : {a : Bool} → (b : Bool) → a ≡ true → (a || b) ≡ true
true_or_left b h = rw h refl

true_or_right : (a : Bool) → {b : Bool} → b ≡ true → (a || b) ≡ true
true_or_right true h = refl
true_or_right false h = h

module _ (ip : NetIp) where
  open ip use {Addr, parse_addr, is4}

  allowed_host-nil : (h : String) (port : ℤ) → allowed_host ip [] h port ≡ true → ⊥
  unfolding allowed_host
  allowed_host-nil h port m = cc

  allowed_ip-nil : (a : Addr) (port : ℤ) → allowed_ip ip [] a port ≡ true → ⊥
  unfolding allowed_ip
  allowed_ip-nil a port m = cc

  hosts_of_iff :
      (h : String) (port : ℤ) (rules : List Rule)
      → (allowed_host ip (hosts_of ip rules) h port ≡ true) ↔ Any (GrantsHost ip h port) rules
  unfolding hosts_of
  hosts_of_iff h port [] = (λ m. allowed_host-nil h port m, λ none_grants. absurd none_grants)
  hosts_of_iff h port (r ∷ rs) =
      let split = allowed_host-append ip (host_part ip r) (hosts_of ip rs) h port in
      let (here, from_here) = host_part_iff ip h port r in
      let (later, from_later) = hosts_of_iff h port rs in
      (
        λ m. elim (or_true _ _ (sym split ∙ m)) [
          | inl now ↦ inl (here now)
          | inr rest ↦ inr (later rest)
        ],
        λ any. split ∙ elim any [
          | inl now ↦ true_or_left _ (from_here now)
          | inr rest ↦ true_or_right _ (from_later rest)
        ],
      )

  cidrs_of_iff :
      (a : Addr) (port : ℤ) (rules : List Rule)
      → (allowed_ip ip (cidrs_of ip rules) a port ≡ true) ↔ Any (GrantsAddr ip a port) rules
  unfolding cidrs_of
  cidrs_of_iff a port [] = (λ m. allowed_ip-nil a port m, λ none_grants. absurd none_grants)
  cidrs_of_iff a port (r ∷ rs) =
      let split = allowed_ip-append ip (cidr_part ip r) (cidrs_of ip rs) a port in
      let (here, from_here) = cidr_part_iff ip a port r in
      let (later, from_later) = cidrs_of_iff a port rs in
      (
        λ m. elim (or_true _ _ (sym split ∙ m)) [
          | inl now ↦ inl (here now)
          | inr rest ↦ inr (later rest)
        ],
        λ any. split ∙ elim any [
          | inl now ↦ true_or_left _ (from_here now)
          | inr rest ↦ true_or_right _ (from_later rest)
        ],
      )

  -- a name is permitted by a rule for it, or by a rule for an IPv4 address that it resolves to
  abbrev pub PermitsName : (String → Option (List (Option Addr))) → List Rule → String → ℤ → Type 0
  PermitsName resolve rules h port =
      Any (GrantsHost ip h port) rules
      ⊎ ((found : List (Option Addr)) × (resolve h ≡ some found)
          × Any (λ o. (a : Addr) × (o ≡ some a) × (is4 a ≡ true) × Any (GrantsAddr ip a port) rules)
              found)

  -- what the rules permit: a literal IPv4 address needs a rule for it
  abbrev pub Permits : (String → Option (List (Option Addr))) → List Rule → String → ℤ → Type 0
  Permits resolve rules h port =
      ((a : Addr) × (parse_addr h ≡ some a) × (is4 a ≡ true) × Any (GrantsAddr ip a port) rules)
      ⊎ (((a : Addr) → parse_addr h ≡ some a → is4 a ≡ false) × PermitsName resolve rules h port)

  allowed_any_iff :
      (rules : List Rule) (port : ℤ) (found : List (Option Addr))
      → (allowed_any ip (cidrs_of ip rules) found port ≡ true)
        ↔ Any
            (λ o. (a : Addr) × (o ≡ some a) × (is4 a ≡ true) × Any (GrantsAddr ip a port) rules)
            found
  unfolding allowed_any
  allowed_any_iff rules port [] = (λ m. cc, λ no. absurd no)
  allowed_any_iff rules port (none ∷ rest) =
      let (to, from) = allowed_any_iff rules port rest in
      (λ m. inr (to m), λ any. elim any [ inl (a, same, four, by) ↦ cc | inr later ↦ from later ])
  allowed_any_iff rules port (some a ∷ rest) =
      let (to, from) = allowed_any_iff rules port rest in
      let (grants, granted) = cidrs_of_iff a port rules in
      (
        λ m. elim (or_true (is4 a && allowed_ip ip (cidrs_of ip rules) a port) _ m) [
          | inl now ↦ inl (a, refl, ground arith, grants (ground arith))
          | inr rest_ok ↦ inr (to rest_ok)
        ],
        λ any. elim any [
          | inl (b, same, four, by) ↦
              let one : a ≡ b = cc in
              true_or_left {a = is4 a && allowed_ip ip (cidrs_of ip rules) a port} _
                (ground (arith, granted (rw one by), one, four))
          | inr later ↦ true_or_right _ (from later)
        ],
      )

  allowed_resolved_iff :
      (resolve : String → Option (List (Option Addr))) (rules : List Rule) (h : String) (port : ℤ)
      → (allowed_resolved ip (cidrs_of ip rules) (resolve h) port ≡ true) ↔ (
          (found : List (Option Addr)) × (resolve h ≡ some found)
          × Any
              (λ o. (a : Addr) × (o ≡ some a) × (is4 a ≡ true) × Any (GrantsAddr ip a port) rules)
              found)
  unfolding allowed_resolved
  allowed_resolved_iff resolve rules h port = elim (Option-cases (resolve h)) [
    | inl gone ↦ (λ m. cc, λ (found, same, any). cc)
    | inr (found, here) ↦
        let (to, from) = allowed_any_iff rules port found in
        (
          λ m. (found, here, to (rw here at m)),
          λ (answers, same, any). let one : found ≡ answers = cc in rw here (from (rw one any)),
        )
  ]

  by_name_iff :
      (resolve : String → Option (List (Option Addr))) (rules : List Rule) (h : String) (port : ℤ)
      → ((allowed_host ip (hosts_of ip rules) h port
            || allowed_resolved ip (cidrs_of ip rules) (resolve h) port)
          ≡ true)
        ↔ PermitsName resolve rules h port
  by_name_iff resolve rules h port =
      let (by_host, host_in) = hosts_of_iff h port rules in
      let (by_addr, addr_in) = allowed_resolved_iff resolve rules h port in
      (
        λ m. elim (or_true _ _ m) [ inl now ↦ inl (by_host now) | inr later ↦ inr (by_addr later) ],
        λ any. elim any [
          | inl now ↦ true_or_left _ (host_in now)
          | inr later ↦ true_or_right _ (addr_in later)
        ],
      )

  compiled : List Rule → Allowlist ip
  compiled rules = record { host_rules = hosts_of ip rules; cidr_rules = cidrs_of ip rules }

  allowed_name_iff :
      (resolve : String → Option (List (Option Addr))) (rules : List Rule) (h : String) (port : ℤ)
      → (allowed_name ip resolve (compiled rules) h port (parse_addr h) ≡ true)
        ↔ Permits resolve rules h port
  unfolding allowed_name compiled
  allowed_name_iff resolve rules h port =
      let (by_name, name_in) = by_name_iff resolve rules h port in
      elim (Option-cases (parse_addr h)) [
        | inl gone ↦ (
          λ m. inr (λ a same. cc, by_name (rw gone at m)),
          λ any. elim any [
            | inl (a, same, four, by) ↦ cc
            | inr (other, named) ↦ rw gone (name_in named)
          ],
        )
        | inr (a, literal) ↦
            let (grants, granted) = cidrs_of_iff a port rules in
            elim (Bool-cases (is4 a)) [
              | inl four ↦ (
                λ m. inl (a, literal, four, grants (rw (literal, four) at m)),
                λ any. elim any [
                  | inl (b, same, four_b, by) ↦
                      let one : a ≡ b = cc in rw (literal, four) (granted (rw one by))
                  | inr (other, named) ↦ absurd (ground (arith, other a literal))
                ],
              )
              | inr six ↦ (
                λ m. inr (
                  λ b same. let one : a ≡ b = cc in rw (← one) six,
                  by_name (rw (literal, six) at m),
                ),
                λ any. elim any [
                  | inl (b, same, four_b, by) ↦ let one : a ≡ b = cc in cc
                  | inr (other, named) ↦ rw (literal, six) (name_in named)
                ],
              )
            ]
      ]

  guarded_iff :
      (resolve : String → Option (List (Option Addr))) (rules : List Rule) (host : String)
      (port : ℤ)
      → (allowed ip resolve (compiled rules) host port ≡ true) ↔ (
          (to_lower (trim_space host) ≢ "")
          × (is_port port ≡ true)
          × Permits resolve rules (to_lower (trim_space host)) port)
  unfolding allowed
  guarded_iff resolve rules host port =
      let h = to_lower (trim_space host) in
      let (to, from) = allowed_name_iff resolve rules h port in
      (
        λ m. (ground (arith, eq_iff h ""), ground arith, to (ground arith)),
        λ (there, valid, permits). ground (arith, eq_iff h "", from permits),
      )

  -- With an allowlist that loads, the proxy allows a host and a port exactly if the trimmed and
  -- lowered host is not empty, the port is between 1 and 65535, and either the host is a literal IPv4
  -- address and some rule grants the address and the port by its prefix, or it is not one and some
  -- rule grants the name and the port, or some rule grants an IPv4 address that the name resolves to.
  pub allowed_iff :
      (resolve : String → Option (List (Option Addr))) (rules : List Rule) (al : Allowlist ip)
      (host : String) (port : ℤ)
      → load_allowlist ip rules ≡ ok al
      → (allowed ip resolve al host port ≡ true) ↔ (
          (to_lower (trim_space host) ≢ "")
          × (is_port port ≡ true)
          × Permits resolve rules (to_lower (trim_space host)) port)
  unfolding compiled
  allowed_iff resolve rules al host port done =
      rw (load_allowlist-eq-ok ip rules al done) (guarded_iff resolve rules host port)
