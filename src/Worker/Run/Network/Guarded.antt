-- ===== src/Worker/Run/Network/Guarded.antt =====
-- The stages of a run behind an allowlist, and the network that they owe (pkg/worker/worker.go).
use Prim.Native.String
use Prim.Native.Char.{Char}
use text.Mathlib.TextLemmas.{cons-append, cons≢nil}
use nano_cloud.Base.{
  ◌&&◌, eq_iff, String, Bool, true, false, Option, List, [], ◌∷◌, ◌≡◌, refl, ◌==◌, if◌then◌else◌,
  Bool-cases, inl, inr,
}
use nano_cloud.Base.Result.{Result, ok, err}
use nano_cloud.Base.Text.{trim_space, trim_left, trim_right, is_space}
use nano_cloud.Gateway.Messages.{Policy}
use nano_cloud.Policy.Rules.{NetIp, Rule, RuleError}
use nano_cloud.Worker.Adapter.{DockerRunSpec}
use nano_cloud.Worker.Config.{Config}
use nano_cloud.Worker.Run.Program.{Program, unregister}
use nano_cloud.Worker.Run.Container.{
  validated, follow, check_allowlist, create_network, save_allowlist, start_proxy, drop_proxy,
  connect_proxy, guarded_start, guarded_wait, guarded_run, guarded_spec,
}
use nano_cloud.Worker.Run.Network.{
  Pays, give_up-Pays, complete-Pays, on_error-Pays, on_result-Pays, unless_interrupted-Pays,
  docker_remove-Pays, docker_network_remove-Pays, docker_network_create-Pays,
  docker_network_connect-Pays, docker_run-Pays, docker_wait-Pays,
}

-- the network of a container
abbrev pub network_of : String → String
network_of container = String.◌++◌ container "-allow"

not_empty : (c : Char) (r : String) → (String.◌∷◌ c r == "") ≡ false
not_empty c r = elim (Bool-cases (String.◌∷◌ c r == "")) [
  | inl same ↦ absurd (cons≢nil ((eq_iff (String.◌∷◌ c r) "").0 same))
  | inr other ↦ other
]

kept :
    (b : Bool) (c : Char) (r : String) → ((if b && false then "" else String.◌∷◌ c r) == "") ≡ false
kept true c r = not_empty c r
kept false c r = not_empty c r

filled_step :
    (c : Char) (s : String)
    → (trim_space s == "") ≡ false
    → (trim_space (String.◌∷◌ c s) == "") ≡ false
unfolding trim_space trim_left trim_right
filled_step c s filled = elim (Bool-cases (is_space c)) [
  | inl blank ↦ rw blank filled
  | inr solid ↦ rw (solid, solid) (kept (trim_right s == "") c (trim_right s))
]

network_of-filled : (container : String) → (trim_space (network_of container) == "") ≡ false
network_of-filled String.[] = unfold trim_space in refl
network_of-filled (String.◌∷◌ c rest) =
    rw cons-append (filled_step c (network_of rest) (network_of-filled rest))

module _ (container : String) (k : Unit {0} → Program) where
  drop_proxy-Pays :
      (o : Bool)
      → Pays (network_of container) false false (k tt)
      → Pays (network_of container) false o (drop_proxy container k)
  unfolding drop_proxy
  drop_proxy-Pays o rest = docker_remove-Pays (network_of container) o _ _ (λ r.
      docker_network_remove-Pays (network_of container) o _ (network_of-filled container)
        (λ r'. rest))

  start_proxy-Pays :
      (cfg : Config) (dir : String)
      → Pays (network_of container) false true (k tt)
      → Pays (network_of container) false false (start_proxy cfg container dir k)
  unfolding start_proxy
  start_proxy-Pays cfg dir rest = docker_run-Pays (network_of container) false _ _ λ r calm.
      on_result-Pays (network_of container) true r _ _ calm
        (λ f cancel. (
          (λ st. (refl, refl)),
          docker_network_remove-Pays (network_of container) true _ (network_of-filled container)
              (λ r'. give_up-Pays (network_of container) "DOCKER_NET_POLICY_FAILED" f.text 3 k),
        ))
        (λ p. ((λ st. (refl, refl)), rest))

  validated-Pays :
      (rule_text : RuleError → String) (v : Result RuleError (Unit {0}))
      → Pays (network_of container) false false (k tt)
      → Pays (network_of container) false false (validated rule_text v k)
  unfolding validated
  validated-Pays rule_text (ok done) rest = rest
  validated-Pays rule_text (err e) rest =
      give_up-Pays (network_of container) "NETWORK_ALLOWLIST_INVALID" (rule_text e) 2 k

  check_allowlist-Pays :
      (ip : NetIp) (rule_text : RuleError → String) (rules : List Rule)
      → Pays (network_of container) false false (k tt)
      → Pays (network_of container) false false (check_allowlist ip rule_text rules k)
  unfolding check_allowlist
  check_allowlist-Pays ip rule_text [] rest =
      give_up-Pays (network_of container) "NETWORK_ALLOWLIST_EMPTY" _ 2 k
  check_allowlist-Pays ip rule_text (r ∷ rs) rest = validated-Pays rule_text _ rest

  create_network-Pays :
      Pays (network_of container) false false (k tt)
      → Pays (network_of container) false false (create_network (network_of container) k)
  unfolding create_network
  create_network-Pays rest = docker_network_create-Pays (network_of container) false _ λ r calm.
      on_error-Pays (network_of container) false r _ _ calm
        (λ f cancel. give_up-Pays (network_of container) "DOCKER_NETWORK_CREATE_FAILED" f.text 3 k)
        ((λ st. (refl, refl)), rest)

  save_allowlist-Pays :
      (cfg : Config) (dir : String)
      → Pays (network_of container) false false (k tt)
      → Pays (network_of container) false false (save_allowlist cfg dir k)
  unfolding save_allowlist
  save_allowlist-Pays cfg dir rest r calm =
      on_error-Pays (network_of container) false r _ _ calm
        (λ f cancel. give_up-Pays (network_of container) "NETWORK_ALLOWLIST_INVALID" f.text 2 k)
        (λ w also.
          on_error-Pays (network_of container) false w _ (k tt) also
            (λ f cancel. give_up-Pays (network_of container) "WORKSPACE_WRITE_FAILED" f.text 1 k)
            rest)

  follow-Pays :
      (name : String)
      → Pays (network_of container) false true (k tt)
      → Pays (network_of container) false true (follow name k)
  unfolding follow
  follow-Pays name rest r calm =
      on_error-Pays (network_of container) true r _ _ calm
        (λ f cancel. ((λ st. (refl, refl)), rest)) ((λ st. (refl, refl)), rest)

connect_proxy-Pays :
    (container : String) (k : Unit {0} → Program)
    → Pays (network_of container) false true (k tt)
    → Pays (network_of container) false true (connect_proxy container k)
unfolding connect_proxy
connect_proxy-Pays container k rest =
    docker_network_connect-Pays (network_of container) true "bridge" _ _ λ r calm.
      on_error-Pays (network_of container) true r _ (k tt) calm
        (λ f cancel.
          drop_proxy-Pays container _ true
            (give_up-Pays (network_of container) "DOCKER_NET_POLICY_FAILED" f.text 3 k))
        rest

guarded_start-Pays :
    (quote : String → String) (cfg : Config) (spec : DockerRunSpec) (k : Unit {0} → Program)
    → Pays (network_of spec.name) false true (k tt)
    → Pays (network_of spec.name) false true (guarded_start quote cfg spec k)
unfolding guarded_start
guarded_start-Pays quote cfg spec k rest =
    docker_run-Pays (network_of spec.name) true spec _ λ r calm.
      on_result-Pays (network_of spec.name) true r _ _ calm
        (λ f cancel. (
          (λ st. (refl, refl)),
          unless_interrupted-Pays (network_of spec.name) true f.canceled _ cancel (
              drop_proxy-Pays spec.name _ true
                (give_up-Pays (network_of spec.name) "DOCKER_RUN_FAILED" _ 3 k)),
        ))
        (λ p. ((λ st. (refl, refl)), rest))

guarded_wait-Pays : (name : String) → Pays (network_of name) false true (guarded_wait name)
unfolding guarded_wait
guarded_wait-Pays name = docker_wait-Pays (network_of name) true name _ λ r calm.
    on_result-Pays (network_of name) true r _ _ calm
      (λ f cancel. unless_interrupted-Pays (network_of name) true f.canceled _ cancel (
        drop_proxy-Pays name _ true
          (give_up-Pays (network_of name) "DOCKER_WAIT_FAILED" f.text 4 (λ _. unregister))))
      (λ code.
        docker_remove-Pays (network_of name) true name _
          (λ r'. drop_proxy-Pays name _ true (complete-Pays (network_of name) code)))

-- a run behind an allowlist starts no container whose network it does not remove
pub guarded_run-Pays :
    (ip : NetIp) (rule_text : RuleError → String) (quote : String → String) (cfg : Config)
    (spec : DockerRunSpec) (pol : Option Policy) (dir : String)
    → Pays (network_of spec.name) false false (guarded_run ip rule_text quote cfg spec pol dir)
unfolding guarded_run guarded_spec
guarded_run-Pays ip rule_text quote cfg spec pol dir =
    let name = spec.name in
    check_allowlist-Pays name _ ip rule_text cfg.network_allowlist (
      create_network-Pays name _ (
        save_allowlist-Pays name _ cfg dir (
          start_proxy-Pays name _ cfg dir (
            connect_proxy-Pays name _ (
              guarded_start-Pays quote cfg (guarded_spec cfg spec pol) _
                (follow-Pays name _ name (guarded_wait-Pays name)))))))
