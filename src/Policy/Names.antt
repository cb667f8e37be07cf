-- ===== src/Policy/Names.antt =====
-- The hosts that a pattern of the allowlist names, and that a compiled host rule matches just these
-- (cmd/net-policy-proxy/main.go).
use Prim.Native.String
use nano_cloud.Base.{
  String, true, false, none, List, ◌==◌, ◌≡◌, ◌≢◌, ◌⊎◌, refl, sym, arith, eq_iff, Bool-cases, inl,
  inr,
}
use nano_cloud.Base.Int.{ℤ}
use nano_cloud.Base.Text.{has_prefix, trim_prefix}
use nano_cloud.Base.Text.Affix.{
  has_prefix-append, trim_prefix-append, append-trim_prefix, has_suffix-append, has_suffix-eq-true,
}
use nano_cloud.Policy.Rules.{NetIp, AllowRule, host_rule}
use nano_cloud.Policy.Match.{host_matches}

-- A pattern `*.base` names the host `base` and every host below it; any other names itself.
abbrev pub Names : String → String → Type 0
Names pattern h =
    ((has_prefix "*." pattern ≡ false) × (h ≡ pattern))
    ⊎ ((base : String) × (pattern ≡ String.◌++◌ "*." base)
        × (base ≢ "")
        × ((h ≡ base) ⊎ ((sub : String) × (h ≡ String.◌++◌ sub (String.◌++◌ "." base)))))

module _ (ip : NetIp) where
  open ip use {Addr, Prefix, parse_addr, parse_prefix, prefix_addr, is4, contains}

  wildcard_host : String → List ℤ → AllowRule ip
  wildcard_host base ports = record {
    exact_host = "";
    wildcard_base = base;
    prefix = none;
    ports = ports;
  }

  wildcard_sound :
      (base h : String) (ports : List ℤ)
      → host_matches ip (wildcard_host base ports) h ≡ true
      → (base ≢ "") × ((h ≡ base) ⊎ ((sub : String) × (h ≡ String.◌++◌ sub (String.◌++◌ "." base))))
  unfolding host_matches wildcard_host
  wildcard_sound base h ports m = (
    ground (arith, eq_iff base ""),
    elim (Bool-cases (h == base)) [
      | inl same ↦ inl ((eq_iff h base).0 same)
      | inr other ↦ inr (has_suffix-eq-true (String.◌++◌ "." base) h (ground arith))
    ],
  )

  wildcard_complete :
      (base h : String) (ports : List ℤ)
      → base ≢ ""
      → (h ≡ base) ⊎ ((sub : String) × (h ≡ String.◌++◌ sub (String.◌++◌ "." base)))
      → host_matches ip (wildcard_host base ports) h ≡ true
  unfolding host_matches wildcard_host
  wildcard_complete base h ports named (inl same) = ground (arith, eq_iff base "", eq_iff h base)
  wildcard_complete base h ports named (inr (sub, below)) =
      ground (arith, eq_iff base "", below, has_suffix-append sub (String.◌++◌ "." base))

  host_rule-wildcard :
      (base : String) (ports : List ℤ)
      → host_rule ip (String.◌++◌ "*." base) ports ≡ wildcard_host base ports
  unfolding host_rule wildcard_host
  host_rule-wildcard base ports =
      rw (has_prefix-append "*." base) (rw (trim_prefix-append "*." base) refl)

  exact_rule : String → List ℤ → AllowRule ip
  exact_rule pattern ports = record {
    exact_host = pattern;
    wildcard_base = "";
    prefix = none;
    ports = ports;
  }

  exact_rule_sound :
      (pattern h : String) (ports : List ℤ)
      → host_matches ip (exact_rule pattern ports) h ≡ true
      → h ≡ pattern
  unfolding host_matches exact_rule
  exact_rule_sound pattern h ports m = ground (arith, eq_iff h pattern)

  exact_sound :
      (pattern h : String) (ports : List ℤ)
      → has_prefix "*." pattern ≡ false
      → host_matches ip (host_rule ip pattern ports) h ≡ true
      → h ≡ pattern
  unfolding host_rule exact_rule
  exact_sound pattern h ports exact m =
      let alone : host_rule ip pattern ports ≡ exact_rule pattern ports = rw exact refl in
      exact_rule_sound pattern h ports (rw alone at m)

  pub host_matches_sound :
      (pattern h : String) (ports : List ℤ)
      → host_matches ip (host_rule ip pattern ports) h ≡ true
      → Names pattern h
  host_matches_sound pattern h ports m = elim (Bool-cases (has_prefix "*." pattern)) [
    | inl wild ↦
        let base = trim_prefix "*." pattern in
        let whole = append-trim_prefix "*." pattern wild in
        let (named, names) =
          wildcard_sound base h ports (rw (← host_rule-wildcard base ports) (rw whole m)) in
        inr (base, sym whole, named, names)
    | inr exact ↦ inl (exact, exact_sound pattern h ports exact m)
  ]

  pub host_matches_complete :
      (pattern h : String) (ports : List ℤ)
      → pattern ≢ ""
      → Names pattern h
      → host_matches ip (host_rule ip pattern ports) h ≡ true
  host_matches_complete pattern h ports there (inl (exact, same)) =
      unfold host_matches host_rule in ground (arith, exact, eq_iff pattern "", eq_iff h pattern)
  host_matches_complete pattern h ports there (inr (base, wild, named, names)) =
      rw (wild, host_rule-wildcard base ports) (wildcard_complete base h ports named names)
