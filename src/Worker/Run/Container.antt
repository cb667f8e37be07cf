-- ===== src/Worker/Run/Container.antt =====
-- The docker runner of handleRunRequest, and the handler as a whole (pkg/worker/worker.go): a container
-- of its own, or behind the proxy of a network allowlist.
use Prim.Native.String
use nano_cloud.Base.{
  String, Bool, true, false, not, ◌||◌, Option, none, some, List, [], ◌∷◌, ◌++◌, ◌==◌,
  if◌then◌else◌,
}
use nano_cloud.Base.Map.{Map, insert}
use nano_cloud.Base.Result.{Result, ok, err}
use nano_cloud.Base.Text.{trim_space, to_lower}
use nano_cloud.Base.FilePath.{path_of, join, join_with, rel}
use nano_cloud.Gateway.Messages.{network_allowlist, Policy, RunRequest}
use nano_cloud.Policy.Rules.{NetIp, Rule, RuleError, validate_network_allowlist}
use nano_cloud.Worker.Adapter.{DockerRunSpec, SpecError}
use nano_cloud.Worker.Config.{Config}
use nano_cloud.Worker.Docker.{docker_extra_args_from_policy, docker_runtime_args}
use nano_cloud.Worker.Runtimes.{RuntimeConfig, runtime_key}
use nano_cloud.Worker.Run.Program.{
  Program, marshal_allowlist, write_allowlist, follow_logs, M, on_error, on_result, set, ask_host,
  send_status, unregister,
}
use nano_cloud.Worker.Run.Commands.{
  docker_network_create_internal, docker_network_remove, docker_network_connect, docker_remove,
  docker_run, docker_wait, contains,
}
use nano_cloud.Worker.Run.Handler.{
  give_up, complete, unless_interrupted, make_dirs, make_logs, choose_runtime, build, exec_run,
}

-- `%q` is the argument `quote`
unfoldable pub container_runtime_error_hint : (String → String) → String → String → String
container_runtime_error_hint quote msg container_runtime =
    let rt = trim_space container_runtime in
    if rt == "" || not (contains "runtime" (to_lower msg))
    then msg
    else String.◌++◌ msg (
        String.◌++◌ " (hint: worker container_runtime=" (
          String.◌++◌ (quote rt)
            " is configured; make sure this OCI runtime is installed and registered with docker, e.g. runsc for gVisor — check the Runtimes section of `docker info`)"))

unfoldable pub follow : String → M (Unit {0})
follow name k = ask_host (follow_logs name) λ failed.
    on_error failed (λ f. set (λ st. record st { logs = false }) k)
      (set (λ st. record st { logs = true }) k)

-- the container without an allowlist
unfoldable pub plain_start : (String → String) → Config → DockerRunSpec → M (Unit {0})
plain_start quote cfg spec k = docker_run spec λ result.
    on_result result
      (λ f.
        set (λ st. record st { proc = none })
          λ _. unless_interrupted f.canceled λ _.
            give_up "DOCKER_RUN_FAILED"
              (container_runtime_error_hint quote f.text cfg.container_runtime) 3 k)
      (λ p. set (λ st. record st { proc = some p }) k)

unfoldable pub plain_wait : String → Program
plain_wait name = docker_wait name λ result.
    on_result result
      (λ f.
        unless_interrupted f.canceled
          λ _. give_up {A = Unit {0}} "DOCKER_WAIT_FAILED" f.text 4 (λ _. unregister))
      (λ code. docker_remove name λ _. complete code)

abbrev pub with_extra_args : DockerRunSpec → List String → DockerRunSpec
with_extra_args spec args = record spec { extra_args = args }

unfoldable pub plain_run : (String → String) → Config → DockerRunSpec → Option Policy → Program
plain_run quote cfg spec pol =
    let args = docker_runtime_args cfg.container_runtime ++ docker_extra_args_from_policy pol in
    plain_start quote cfg (with_extra_args spec args)
      λ _. send_status "running" spec.name λ _. follow spec.name λ _. plain_wait spec.name

unfoldable pub validated : (RuleError → String) → Result RuleError (Unit {0}) → M (Unit {0})
validated rule_text (ok done) k = k tt
validated rule_text (err e) k = give_up "NETWORK_ALLOWLIST_INVALID" (rule_text e) 2 k

-- the checks of the allowlist
unfoldable pub check_allowlist : (ip : NetIp) → (RuleError → String) → List Rule → M (Unit {0})
check_allowlist ip rule_text [] k =
    give_up "NETWORK_ALLOWLIST_EMPTY" "no allowlist rules configured" 2 k
check_allowlist ip rule_text (r ∷ rs) k =
    validated rule_text (validate_network_allowlist ip (r ∷ rs)) k

unfoldable pub create_network : String → M (Unit {0})
create_network name k = docker_network_create_internal name λ failed.
    on_error failed (λ f. give_up "DOCKER_NETWORK_CREATE_FAILED" f.text 3 k)
      (set (λ st. record st { net_name = name }) k)

unfoldable pub save_allowlist : Config → String → M (Unit {0})
save_allowlist cfg dir k = ask_host (marshal_allowlist cfg.network_allowlist) λ bad.
    on_error bad (λ f. give_up "NETWORK_ALLOWLIST_INVALID" f.text 2 k)
      (ask_host (write_allowlist (join dir ".nano-allowlist.json"))
        λ failed. on_error failed (λ f. give_up "WORKSPACE_WRITE_FAILED" f.text 1 k) (k tt))

-- the path of the allowlist as docker sees it
unfoldable pub allowlist_mount : Config → String → String
allowlist_mount cfg dir =
    if cfg.host_workspace_root == ""
    then join dir ".nano-allowlist.json"
    else elim (rel (path_of cfg.workspace_root) (path_of dir)) [
      | none ↦ join dir ".nano-allowlist.json"
      | some parts ↦
          join (join cfg.host_workspace_root (join_with "/" parts)) ".nano-allowlist.json"
    ]

unfoldable pub proxy_spec : Config → String → String → DockerRunSpec
proxy_spec cfg name dir = record {
  image =
      let image = trim_space cfg.network_policy_image in
      if image == "" then "nano-net-policy-runtime:local" else image;
  name = String.◌++◌ name "-proxy";
  workdir = "";
  mounts = insert (allowlist_mount cfg dir) "/etc/nano/allowlist.json" [];
  env = [];
  command = "-listen" ∷ ":3128" ∷ "-allowlist" ∷ "/etc/nano/allowlist.json" ∷ [];
  detach = true;
  remove = false;
  extra_args = "--network" ∷ String.◌++◌ name "-allow" ∷ "--network-alias" ∷ "proxy" ∷ [];
}

unfoldable pub start_proxy : Config → String → String → M (Unit {0})
start_proxy cfg name dir k = docker_run (proxy_spec cfg name dir) λ result.
    on_result result
      (λ f.
        set (λ st. record st { net_proc = none })
          λ _.
            docker_network_remove (String.◌++◌ name "-allow")
              λ _. give_up "DOCKER_NET_POLICY_FAILED" f.text 3 k)
      (λ p. set (λ st. record st { net_proc = some p }) k)

-- the proxy and the network are removed
unfoldable pub drop_proxy : String → M (Unit {0})
drop_proxy name k =
    docker_remove (String.◌++◌ name "-proxy")
      λ _. docker_network_remove (String.◌++◌ name "-allow") λ _. k tt

unfoldable pub connect_proxy : String → M (Unit {0})
connect_proxy name k = docker_network_connect "bridge" (String.◌++◌ name "-proxy") λ failed.
    on_error failed (λ f. drop_proxy name λ _. give_up "DOCKER_NET_POLICY_FAILED" f.text 3 k) (k tt)

unfoldable pub proxy_env : Map String → Map String
proxy_env env = insert "no_proxy" "localhost,127.0.0.1" (
    insert "NO_PROXY" "localhost,127.0.0.1" (
      insert "https_proxy" "http://proxy:3128" (
        insert "http_proxy" "http://proxy:3128" (
          insert "HTTPS_PROXY" "http://proxy:3128" (insert "HTTP_PROXY" "http://proxy:3128" env)))))

unfoldable pub guarded_start : (String → String) → Config → DockerRunSpec → M (Unit {0})
guarded_start quote cfg spec k = docker_run spec λ result.
    on_result result
      (λ f.
        set (λ st. record st { proc = none })
          λ _. unless_interrupted f.canceled λ _. drop_proxy spec.name λ _.
            give_up "DOCKER_RUN_FAILED"
              (container_runtime_error_hint quote f.text cfg.container_runtime) 3 k)
      (λ p. set (λ st. record st { proc = some p }) k)

unfoldable pub guarded_wait : String → Program
guarded_wait name = docker_wait name λ result.
    on_result result
      (λ f. unless_interrupted f.canceled λ _.
        drop_proxy name λ _. give_up {A = Unit {0}} "DOCKER_WAIT_FAILED" f.text 4 (λ _. unregister))
      (λ code. docker_remove name λ _. drop_proxy name λ _. complete code)

unfoldable pub guarded_spec : Config → DockerRunSpec → Option Policy → DockerRunSpec
guarded_spec cfg spec pol = record spec {
  env = proxy_env spec.env;
  extra_args =
      docker_runtime_args cfg.container_runtime
      ++ docker_extra_args_from_policy pol
      ++ "--network" ∷ String.◌++◌ spec.name "-allow" ∷ [];
}

unfoldable pub guarded_run :
    (ip : NetIp)
    → (RuleError → String)
    → (String → String)
    → Config
    → DockerRunSpec
    → Option Policy
    → String
    → Program
guarded_run ip rule_text quote cfg spec pol dir =
    check_allowlist ip rule_text cfg.network_allowlist λ _.
      create_network (String.◌++◌ spec.name "-allow") λ _. save_allowlist cfg dir λ _.
        start_proxy cfg spec.name dir λ _. connect_proxy spec.name λ _.
          guarded_start quote cfg (guarded_spec cfg spec pol)
            λ _. send_status "running" spec.name λ _. follow spec.name λ _. guarded_wait spec.name

abbrev pub wants_allowlist : Option Policy → Bool
wants_allowlist none = false
wants_allowlist (some pol) = elim pol.network [ network_allowlist ↦ true | _ ↦ false ]

unfoldable pub container_run :
    (ip : NetIp)
    → (RuleError → String)
    → (String → String)
    → Config
    → RuntimeConfig
    → String
    → DockerRunSpec
    → Option Policy
    → String
    → Program
container_run ip rule_text quote cfg rc key spec pol dir =
    if rc.image == ""
    then give_up {A = Unit {0}} "RUNTIME_IMAGE_EMPTY" (String.◌++◌ "runtime=" key) 2
        (λ _. unregister)
    else if wants_allowlist pol
    then guarded_run ip rule_text quote cfg spec pol dir
    else plain_run quote cfg spec pol

-- handleRunRequest. `rule_text` and `spec_text` are the texts of errors.
unfoldable pub handle_run_request :
    (ip : NetIp)
    → (RuleError → String)
    → (SpecError → String)
    → (String → String)
    → (String → String)
    → Config
    → String
    → RunRequest
    → Program
handle_run_request ip rule_text spec_text quote getenv cfg stream_id req =
    set (λ st. record st { registered = true })
      λ _. unless_interrupted false λ _. send_status "starting" "" λ _.
        make_dirs cfg stream_id req λ dir. make_logs cfg stream_id λ _. choose_runtime cfg req λ rc.
          build getenv spec_text cfg stream_id req rc dir λ spec.
            if to_lower (trim_space rc.runner) == "exec"
            then exec_run (runtime_key req.runtime) spec dir
            else container_run ip rule_text quote cfg rc (runtime_key req.runtime) spec req.policy
                dir
