-- ===== src/Policy/Agreement.antt =====
-- The worker's check and the proxy's compilation of an allowlist accept the same lists
-- (pkg/worker/net_allowlist.go, cmd/net-policy-proxy/main.go).
use nano_cloud.Base.Int.{ℤ}
use nano_cloud.Base.{◌∙◌}
use nano_cloud.Base.Text.{to_lower-empty}
use nano_cloud.Base.{String, Option, none, some, List, [], ◌∷◌, ◌≡◌, refl, arith}
use nano_cloud.Base.Text.{to_lower-empty, trim_space}
use nano_cloud.Base.Result.{Result, ok, err, ◌>>=◌, ◌>>◌}
use nano_cloud.Policy.Rules.{
  NetIp, Rule, RuleError, Allowlist, add_prefix, add_rule, add_rules, load_allowlist,
  empty_allowlist, validate_rule, check_cidr, rule_ports, validate_network_allowlist,
}

-- the outcome of a compilation, without its result
abbrev pub forget {ℓ} : {A : Type ℓ} → Result RuleError A → Result RuleError (Unit {0})
forget (ok a) = ok tt
forget (err e) = err e

forget-bind {ℓ} :
    {A : Type ℓ} (m : Result RuleError A) (k : A → Result RuleError A)
    (rest : Result RuleError (Unit {0}))
    → ((a : A) → forget (k a) ≡ rest)
    → forget (m >>= k) ≡ (forget m >> rest)
forget-bind (ok a) k rest same = same a
forget-bind (err e) k rest same = refl

module _ (ip : NetIp) where
  add_prefix-check_cidr :
      (o : Option ip.Prefix) (cidr : String) (ports : List ℤ) (al : Allowlist ip)
      → forget (add_prefix ip o cidr ports al) ≡ check_cidr ip o cidr
  unfolding add_prefix check_cidr
  add_prefix-check_cidr none cidr ports al = refl
  add_prefix-check_cidr (some p) cidr ports al = refl

  add_rule-validate_rule :
      (r : Rule) (al : Allowlist ip) → forget (add_rule ip r al) ≡ validate_rule ip r
  unfolding add_rule validate_rule
  add_rule-validate_rule r al = ground (
    arith,
    to_lower-empty (trim_space r.host),
    add_prefix-check_cidr (ip.parse_prefix (trim_space r.cidr)) (trim_space r.cidr) (rule_ports r)
        al,
  )

  add_rules-validate :
      (rs : List Rule) (al : Allowlist ip)
      → forget (add_rules ip rs al) ≡ validate_network_allowlist ip rs
  unfolding add_rules validate_network_allowlist
  add_rules-validate [] al = refl
  add_rules-validate (r ∷ rs) al =
      forget-bind (add_rule ip r al) (add_rules ip rs) (validate_network_allowlist ip rs)
        (add_rules-validate rs)
      ∙ rw (add_rule-validate_rule r al) refl

  -- The worker accepts a list of rules exactly when the proxy compiles it, and both refuse it with the
  -- same error: the first one in the order of the rules.
  pub load-validate :
      (rules : List Rule) → forget (load_allowlist ip rules) ≡ validate_network_allowlist ip rules
  unfolding load_allowlist
  load-validate rules = add_rules-validate rules (empty_allowlist ip)
