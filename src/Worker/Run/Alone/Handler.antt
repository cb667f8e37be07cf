-- ===== src/Worker/Run/Alone/Handler.antt =====
-- handleRunRequest completes a run that nobody cancels (pkg/worker/worker.go).
use nano_cloud.Worker.Paths.{log_dir}
use nano_cloud.Base.{String, true, false, Option, none, some, List, [], ◌∷◌, refl, arith, ◌==◌}
use nano_cloud.Base.Result.{Result, ok, err}
use nano_cloud.Base.Text.{trim_space, to_lower}
use nano_cloud.Gateway.Messages.{is_completed, RunRequest, Policy}
use nano_cloud.Policy.Rules.{NetIp, Rule, RuleError}
use nano_cloud.Worker.Adapter.{DockerRunSpec, SpecError}
use nano_cloud.Worker.Adapter.NanoAgent.{no_file, EnvFile}
use nano_cloud.Worker.Config.{Config}
use nano_cloud.Worker.Runtimes.{runtime_key, RuntimeConfig}
use nano_cloud.Worker.Run.Program.{
  make_log_dir, stdout_pipe, stderr_pipe, Program, host, read_env_file, HostCall, unregister,
}
use nano_cloud.Worker.Run.Handler.{
  built, configured, exec_code, exec_command, make_dirs, make_logs, choose_runtime, build, exec_run,
  env_file_of, pipe_or_give_up, start_or_give_up,
}
use nano_cloud.Worker.Run.Container.{
  validated, handle_run_request, follow, plain_start, plain_wait, plain_run, check_allowlist,
  create_network, save_allowlist, start_proxy, drop_proxy, connect_proxy, guarded_start,
  guarded_wait, guarded_run, container_run, wants_allowlist,
}
use nano_cloud.Worker.Run.Alone.{
  Completes, branches, give_up-Completes, complete-Completes, on_error-Completes,
  on_result-Completes, unless_interrupted-Completes, docker_remove-Completes,
  docker_network_remove-Completes, docker_network_create-Completes,
  docker_network_connect-Completes, docker_run-Completes, docker_wait-Completes,
}

module _ (k : Unit {0} → Program) (rest : (u : Unit {0}) → Completes (k u)) where
  make_logs-Completes : (cfg : Config) (stream_id : String) → Completes (make_logs cfg stream_id k)
  unfolding make_logs
  make_logs-Completes cfg stream_id =
      branches (log_dir cfg.log_root stream_id true == "") (k tt)
        (host (make_log_dir (log_dir cfg.log_root stream_id true)) (λ _. k tt)) (rest tt)
        (λ r calm. rest tt)

  pipe-Completes : (call : HostCall) (code : String) → Completes (pipe_or_give_up call code k)
  unfolding pipe_or_give_up
  pipe-Completes call code r calm =
      on_error-Completes r _ (k tt) calm (λ f cancel. give_up-Completes code f.text 3 k) (rest tt)

  start-Completes :
      (command : List String) (dir : String) → Completes (start_or_give_up command dir k)
  unfolding start_or_give_up
  start-Completes command dir r calm =
      on_error-Completes r _ (k tt) calm
        (λ f cancel.
          unless_interrupted-Completes f.canceled _ cancel
            (give_up-Completes "EXEC_START_FAILED" f.text 3 k))
        (rest tt)

  follow-Completes : (name : String) → Completes (follow name k)
  unfolding follow
  follow-Completes name r calm =
      on_error-Completes r _ _ calm (λ f cancel. ((λ st. (refl, refl)), rest tt))
        ((λ st. (refl, refl)), rest tt)

  plain_start-Completes :
      (quote : String → String) (cfg : Config) (spec : DockerRunSpec)
      → Completes (plain_start quote cfg spec k)
  unfolding plain_start
  plain_start-Completes quote cfg spec = docker_run-Completes spec _ λ r calm.
      on_result-Completes r _ _ calm
        (λ f cancel. (
          (λ st. (refl, refl)),
          unless_interrupted-Completes f.canceled _ cancel
              (give_up-Completes "DOCKER_RUN_FAILED" _ 3 k),
        ))
        (λ p. ((λ st. (refl, refl)), rest tt))

  validated-Completes :
      (rule_text : RuleError → String) (v : Result RuleError (Unit {0}))
      → Completes (validated rule_text v k)
  unfolding validated
  validated-Completes rule_text (ok done) = (rest tt)
  validated-Completes rule_text (err e) =
      give_up-Completes "NETWORK_ALLOWLIST_INVALID" (rule_text e) 2 k

  check_allowlist-Completes :
      (ip : NetIp) (rule_text : RuleError → String) (rules : List Rule)
      → Completes (check_allowlist ip rule_text rules k)
  unfolding check_allowlist
  check_allowlist-Completes ip rule_text [] = give_up-Completes "NETWORK_ALLOWLIST_EMPTY" _ 2 k
  check_allowlist-Completes ip rule_text (r ∷ rs) = validated-Completes rule_text _

  create_network-Completes : (name : String) → Completes (create_network name k)
  unfolding create_network
  create_network-Completes name = docker_network_create-Completes name _ λ r calm.
      on_error-Completes r _ _ calm
        (λ f cancel. give_up-Completes "DOCKER_NETWORK_CREATE_FAILED" f.text 3 k)
        ((λ st. (refl, refl)), rest tt)

  save_allowlist-Completes : (cfg : Config) (dir : String) → Completes (save_allowlist cfg dir k)
  unfolding save_allowlist
  save_allowlist-Completes cfg dir r calm =
      on_error-Completes r _ _ calm
        (λ f cancel. give_up-Completes "NETWORK_ALLOWLIST_INVALID" f.text 2 k)
        (λ w also.
          on_error-Completes w _ (k tt) also
            (λ f cancel. give_up-Completes "WORKSPACE_WRITE_FAILED" f.text 1 k) (rest tt))

  drop_proxy-Completes : (name : String) → Completes (drop_proxy name k)
  unfolding drop_proxy
  drop_proxy-Completes name =
      docker_remove-Completes _ _ (λ r. docker_network_remove-Completes _ _ (λ r'. rest tt))

  start_proxy-Completes :
      (cfg : Config) (name dir : String) → Completes (start_proxy cfg name dir k)
  unfolding start_proxy
  start_proxy-Completes cfg name dir = docker_run-Completes _ _ λ r calm.
      on_result-Completes r _ _ calm
        (λ f cancel. (
          (λ st. (refl, refl)),
          docker_network_remove-Completes _ _
              (λ r'. give_up-Completes "DOCKER_NET_POLICY_FAILED" f.text 3 k),
        ))
        (λ p. ((λ st. (refl, refl)), rest tt))

connect_proxy-Completes :
    (name : String) (k : Unit {0} → Program)
    → ((u : Unit {0}) → Completes (k u))
    → Completes (connect_proxy name k)
unfolding connect_proxy
connect_proxy-Completes name k rest = docker_network_connect-Completes "bridge" _ _ λ r calm.
    on_error-Completes r _ (k tt) calm
      (λ f cancel.
        drop_proxy-Completes _ (λ _. give_up-Completes "DOCKER_NET_POLICY_FAILED" f.text 3 k) name)
      (rest tt)

guarded_start-Completes :
    (quote : String → String) (cfg : Config) (spec : DockerRunSpec) (k : Unit {0} → Program)
    → ((u : Unit {0}) → Completes (k u))
    → Completes (guarded_start quote cfg spec k)
unfolding guarded_start
guarded_start-Completes quote cfg spec k rest = docker_run-Completes spec _ λ r calm.
    on_result-Completes r _ _ calm
      (λ f cancel. (
        (λ st. (refl, refl)),
        unless_interrupted-Completes f.canceled _ cancel
            (drop_proxy-Completes _ (λ _. give_up-Completes "DOCKER_RUN_FAILED" _ 3 k) spec.name),
      ))
      (λ p. ((λ st. (refl, refl)), rest tt))

guarded_wait-Completes : (name : String) → Completes (guarded_wait name)
unfolding guarded_wait
guarded_wait-Completes name = docker_wait-Completes name _ λ r calm.
    on_result-Completes r _ _ calm
      (λ f cancel. unless_interrupted-Completes f.canceled _ cancel (
        drop_proxy-Completes _
          (λ _. give_up-Completes "DOCKER_WAIT_FAILED" f.text 4 (λ _. unregister)) name))
      (λ code.
        docker_remove-Completes name _
          (λ r'. drop_proxy-Completes _ (λ _. complete-Completes code) name))

plain_wait-Completes : (name : String) → Completes (plain_wait name)
unfolding plain_wait
plain_wait-Completes name = docker_wait-Completes name _ λ r calm.
    on_result-Completes r _ _ calm
      (λ f cancel.
        unless_interrupted-Completes f.canceled _ cancel
          (give_up-Completes "DOCKER_WAIT_FAILED" f.text 4 (λ _. unregister)))
      (λ code. docker_remove-Completes name _ (λ r'. complete-Completes code))

plain_run-Completes :
    (quote : String → String) (cfg : Config) (spec : DockerRunSpec) (pol : Option Policy)
    → Completes (plain_run quote cfg spec pol)
unfolding plain_run is_completed
plain_run-Completes quote cfg spec pol =
    plain_start-Completes _
      (λ _. (omega arith, follow-Completes _ (λ _. plain_wait-Completes spec.name) spec.name)) quote
      cfg _

guarded_run-Completes :
    (ip : NetIp) (rule_text : RuleError → String) (quote : String → String) (cfg : Config)
    (spec : DockerRunSpec) (pol : Option Policy) (dir : String)
    → Completes (guarded_run ip rule_text quote cfg spec pol dir)
unfolding guarded_run is_completed
guarded_run-Completes ip rule_text quote cfg spec pol dir =
    check_allowlist-Completes _
      (λ _.
        create_network-Completes _
          (λ _.
            save_allowlist-Completes _
              (λ _.
                start_proxy-Completes _
                  (λ _. connect_proxy-Completes spec.name _ (λ _.
                    guarded_start-Completes quote cfg _ _ (λ _. (
                      omega arith,
                      follow-Completes _ (λ _. guarded_wait-Completes spec.name) spec.name,
                    ))))
                  cfg spec.name dir)
              cfg dir)
          _)
      ip rule_text cfg.network_allowlist

container_run-Completes :
    (ip : NetIp) (rule_text : RuleError → String) (quote : String → String) (cfg : Config)
    (rc : RuntimeConfig) (key : String) (spec : DockerRunSpec) (pol : Option Policy) (dir : String)
    → Completes (container_run ip rule_text quote cfg rc key spec pol dir)
unfolding container_run
container_run-Completes ip rule_text quote cfg rc key spec pol dir =
    branches (rc.image == "") _ _ (give_up-Completes "RUNTIME_IMAGE_EMPTY" _ 2 (λ _. unregister)) (
      branches (wants_allowlist pol) _ _ (guarded_run-Completes ip rule_text quote cfg spec pol dir)
        (plain_run-Completes quote cfg spec pol))

exec_command-Completes :
    (key : String) (command : List String) (dir : String) → Completes (exec_command key command dir)
unfolding exec_command is_completed
exec_command-Completes key [] dir = give_up-Completes "EXEC_COMMAND_EMPTY" _ 3 (λ _. unregister)
exec_command-Completes key (name ∷ args) dir = unless_interrupted-Completes false _ refl (
    pipe-Completes _
      (λ _.
        pipe-Completes _
          (λ _.
            start-Completes _
              (λ _. (
                (λ st. (refl, refl)),
                (omega arith, λ ended. complete-Completes (exec_code ended)),
              ))
              (name ∷ args) dir)
          stderr_pipe "EXEC_STDERR_PIPE_FAILED")
      stdout_pipe "EXEC_STDOUT_PIPE_FAILED")

env_file_of-Completes :
    (key : String) (rc : RuntimeConfig) (k : EnvFile → Program)
    → ((file : EnvFile) → Completes (k file))
    → Completes (env_file_of key rc k)
unfolding env_file_of
env_file_of-Completes key rc k rest =
    branches (key == "nano_agent") _ _
      (branches (rc.env_file == "") (k no_file) (read_env_file rc.env_file k) (rest no_file) rest)
      (rest no_file)

configured-Completes :
    (key : String) (o : Option RuntimeConfig) (k : RuntimeConfig → Program)
    → ((rc : RuntimeConfig) → Completes (k rc))
    → Completes (configured key o k)
unfolding configured
configured-Completes key (some rc) k rest = rest rc
configured-Completes key none k rest = give_up-Completes "RUNTIME_NOT_CONFIGURED" _ 2 k

built-Completes :
    (spec_text : SpecError → String) (r : Result SpecError DockerRunSpec)
    (k : DockerRunSpec → Program)
    → ((spec : DockerRunSpec) → Completes (k spec))
    → Completes (built spec_text r k)
unfolding built
built-Completes spec_text (ok spec) k rest = rest spec
built-Completes spec_text (err e) k rest = give_up-Completes "RUNTIME_SPEC_BUILD_FAILED" _ 2 k

make_dirs-Completes :
    (cfg : Config) (stream_id : String) (req : RunRequest) (k : String → Program)
    → ((dir : String) → Completes (k dir))
    → Completes (make_dirs cfg stream_id req k)
unfolding make_dirs is_completed
make_dirs-Completes cfg stream_id req k rest r calm =
    on_error-Completes r _ (k _) calm
      (λ f cancel. (omega arith, (omega arith, ((λ st. (refl, refl)), refl)))) (rest _)

-- A run completes.
pub handle_run_request-Completes :
    (ip : NetIp) (rule_text : RuleError → String) (spec_text : SpecError → String)
    (quote getenv : String → String) (cfg : Config) (stream_id : String) (req : RunRequest)
    → Completes (handle_run_request ip rule_text spec_text quote getenv cfg stream_id req)
unfolding handle_run_request choose_runtime build exec_run is_completed
handle_run_request-Completes ip rule_text spec_text quote getenv cfg stream_id req = (
  (λ st. (refl, refl)),
  unless_interrupted-Completes false _ refl (
    omega arith,
    make_dirs-Completes cfg stream_id req _ λ dir.
        make_logs-Completes _
          (λ _. configured-Completes _ _ _ λ rc. env_file_of-Completes _ rc _ λ file.
            built-Completes spec_text _ _ λ spec.
              branches (to_lower (trim_space rc.runner) == "exec")
                (exec_command (runtime_key req.runtime) spec.command dir)
                (container_run ip rule_text quote cfg rc (runtime_key req.runtime) spec req.policy
                  dir)
                (exec_command-Completes (runtime_key req.runtime) spec.command dir)
                (container_run-Completes ip rule_text quote cfg rc (runtime_key req.runtime) spec
                  req.policy dir))
          cfg stream_id,
  ),
)
