-- ===== src/Worker/Run/Budget/Handler.antt =====
-- The completions that handleRunRequest may send (pkg/worker/worker.go).
use nano_cloud.Worker.Paths.{log_dir}
use nano_cloud.Base.{
  sym, ◌∙◌, false≢true, String, Bool, true, false, Option, none, some, List, [], ◌∷◌, ◌≡◌, refl,
  arith, ◌==◌,
}
use nano_cloud.Base.Result.{Result, ok, err}
use nano_cloud.Base.Text.{trim_space, to_lower}
use nano_cloud.Gateway.Messages.{is_completed, RunRequest, Policy}
use nano_cloud.Policy.Rules.{NetIp, Rule, RuleError}
use nano_cloud.Worker.Adapter.{DockerRunSpec, SpecError}
use nano_cloud.Worker.Adapter.NanoAgent.{no_file, EnvFile}
use nano_cloud.Worker.Config.{Config}
use nano_cloud.Worker.Runtimes.{runtime_key, RuntimeConfig}
use nano_cloud.Worker.Run.Program.{
  make_log_dir, stdout_pipe, stderr_pipe, Program, host, read_env_file, Failure, HostCall, on_error,
  unregister, make_workspace,
}
use nano_cloud.Worker.Run.Handler.{
  built, configured, exec_code, exec_command, make_dirs, make_logs, choose_runtime, build, exec_run,
  env_file_of, pipe_or_give_up, start_or_give_up,
}
use nano_cloud.Worker.Run.Container.{
  validated, handle_run_request, follow, plain_start, plain_wait, plain_run, check_allowlist,
  create_network, save_allowlist, start_proxy, drop_proxy, connect_proxy, guarded_start,
  guarded_wait, guarded_run, container_run, wants_allowlist,
}
use nano_cloud.Worker.Run.Budget.{
  Allowed, branches, give_up-Allowed, complete-Allowed, on_error-Allowed, on_result-Allowed,
  unless_interrupted-Allowed, docker_remove-Allowed, docker_network_remove-Allowed,
  docker_network_create-Allowed, docker_network_connect-Allowed, docker_run-Allowed,
  docker_wait-Allowed,
}

module _ (answers : HostCall → Option Failure → Bool) where
  module _ (k : Unit {0} → Program) (rest : (u : Unit {0}) → Allowed answers 0 (k u)) where
    make_logs-Allowed :
        (cfg : Config) (stream_id : String) → Allowed answers 0 (make_logs cfg stream_id k)
    unfolding make_logs
    make_logs-Allowed cfg stream_id =
        branches answers 0 (log_dir cfg.log_root stream_id true == "") (k tt)
          (host (make_log_dir (log_dir cfg.log_root stream_id true)) (λ _. k tt)) (rest tt)
          (λ r given. rest tt)

    pipe-Allowed :
        (call : HostCall) (code : String) → Allowed answers 0 (pipe_or_give_up call code k)
    unfolding pipe_or_give_up
    pipe-Allowed call code r given =
        on_error-Allowed answers 0 r _ (k tt) (λ f. give_up-Allowed answers code f.text 3 k)
          (rest tt)

    start-Allowed :
        (command : List String) (dir : String) → Allowed answers 0 (start_or_give_up command dir k)
    unfolding start_or_give_up
    start-Allowed command dir r given =
        on_error-Allowed answers 0 r _ (k tt)
          (λ f.
            unless_interrupted-Allowed answers 0 f.canceled _
              (give_up-Allowed answers "EXEC_START_FAILED" f.text 3 k))
          (rest tt)

    follow-Allowed : (name : String) → Allowed answers 0 (follow name k)
    unfolding follow
    follow-Allowed name r given =
        on_error-Allowed answers 0 r _ _ (λ f. ((λ st. refl), rest tt)) ((λ st. refl), rest tt)

    plain_start-Allowed :
        (quote : String → String) (cfg : Config) (spec : DockerRunSpec)
        → Allowed answers 0 (plain_start quote cfg spec k)
    unfolding plain_start
    plain_start-Allowed quote cfg spec = docker_run-Allowed answers 0 spec _ λ r.
        on_result-Allowed answers 0 r _ _
          (λ f. (
            (λ st. refl),
            unless_interrupted-Allowed answers 0 f.canceled _
                (give_up-Allowed answers "DOCKER_RUN_FAILED" _ 3 k),
          ))
          (λ p. ((λ st. refl), rest tt))

    validated-Allowed :
        (rule_text : RuleError → String) (v : Result RuleError (Unit {0}))
        → Allowed answers 0 (validated rule_text v k)
    unfolding validated
    validated-Allowed rule_text (ok done) = (rest tt)
    validated-Allowed rule_text (err e) =
        give_up-Allowed answers "NETWORK_ALLOWLIST_INVALID" (rule_text e) 2 k

    check_allowlist-Allowed :
        (ip : NetIp) (rule_text : RuleError → String) (rules : List Rule)
        → Allowed answers 0 (check_allowlist ip rule_text rules k)
    unfolding check_allowlist
    check_allowlist-Allowed ip rule_text [] =
        give_up-Allowed answers "NETWORK_ALLOWLIST_EMPTY" _ 2 k
    check_allowlist-Allowed ip rule_text (r ∷ rs) = validated-Allowed rule_text _

    create_network-Allowed : (name : String) → Allowed answers 0 (create_network name k)
    unfolding create_network
    create_network-Allowed name = docker_network_create-Allowed answers 0 name _ λ r.
        on_error-Allowed answers 0 r _ _
          (λ f. give_up-Allowed answers "DOCKER_NETWORK_CREATE_FAILED" f.text 3 k)
          ((λ st. refl), rest tt)

    save_allowlist-Allowed :
        (cfg : Config) (dir : String) → Allowed answers 0 (save_allowlist cfg dir k)
    unfolding save_allowlist
    save_allowlist-Allowed cfg dir r given =
        on_error-Allowed answers 0 r _ _
          (λ f. give_up-Allowed answers "NETWORK_ALLOWLIST_INVALID" f.text 2 k)
          (λ w also.
            on_error-Allowed answers 0 w _ (k tt)
              (λ f. give_up-Allowed answers "WORKSPACE_WRITE_FAILED" f.text 1 k) (rest tt))

    drop_proxy-Allowed : (name : String) → Allowed answers 0 (drop_proxy name k)
    unfolding drop_proxy
    drop_proxy-Allowed name =
        docker_remove-Allowed answers 0 _ _
          (λ r. docker_network_remove-Allowed answers 0 _ _ (λ r'. rest tt))

    start_proxy-Allowed :
        (cfg : Config) (name dir : String) → Allowed answers 0 (start_proxy cfg name dir k)
    unfolding start_proxy
    start_proxy-Allowed cfg name dir = docker_run-Allowed answers 0 _ _ λ r.
        on_result-Allowed answers 0 r _ _
          (λ f. (
            (λ st. refl),
            docker_network_remove-Allowed answers 0 _ _
                (λ r'. give_up-Allowed answers "DOCKER_NET_POLICY_FAILED" f.text 3 k),
          ))
          (λ p. ((λ st. refl), rest tt))

  connect_proxy-Allowed :
      (name : String) (k : Unit {0} → Program)
      → ((u : Unit {0}) → Allowed answers 0 (k u))
      → Allowed answers 0 (connect_proxy name k)
  unfolding connect_proxy
  connect_proxy-Allowed name k rest = docker_network_connect-Allowed answers 0 "bridge" _ _ λ r.
      on_error-Allowed answers 0 r _ (k tt)
        (λ f.
          drop_proxy-Allowed _ (λ _. give_up-Allowed answers "DOCKER_NET_POLICY_FAILED" f.text 3 k)
            name)
        (rest tt)

  guarded_start-Allowed :
      (quote : String → String) (cfg : Config) (spec : DockerRunSpec) (k : Unit {0} → Program)
      → ((u : Unit {0}) → Allowed answers 0 (k u))
      → Allowed answers 0 (guarded_start quote cfg spec k)
  unfolding guarded_start
  guarded_start-Allowed quote cfg spec k rest = docker_run-Allowed answers 0 spec _ λ r.
      on_result-Allowed answers 0 r _ _
        (λ f. (
          (λ st. refl),
          unless_interrupted-Allowed answers 0 f.canceled _ (
              drop_proxy-Allowed _ (λ _. give_up-Allowed answers "DOCKER_RUN_FAILED" _ 3 k)
                spec.name),
        ))
        (λ p. ((λ st. refl), rest tt))

  guarded_wait-Allowed : (name : String) → Allowed answers 0 (guarded_wait name)
  unfolding guarded_wait
  guarded_wait-Allowed name = docker_wait-Allowed answers 0 name _ λ r.
      on_result-Allowed answers 0 r _ _
        (λ f. unless_interrupted-Allowed answers 0 f.canceled _ (
          drop_proxy-Allowed _
            (λ _. give_up-Allowed answers "DOCKER_WAIT_FAILED" f.text 4 (λ _. unregister)) name))
        (λ code.
          docker_remove-Allowed answers 0 name _
            (λ r'. drop_proxy-Allowed _ (λ _. complete-Allowed answers code) name))

  plain_wait-Allowed : (name : String) → Allowed answers 0 (plain_wait name)
  unfolding plain_wait
  plain_wait-Allowed name = docker_wait-Allowed answers 0 name _ λ r.
      on_result-Allowed answers 0 r _ _
        (λ f.
          unless_interrupted-Allowed answers 0 f.canceled _
            (give_up-Allowed answers "DOCKER_WAIT_FAILED" f.text 4 (λ _. unregister)))
        (λ code. docker_remove-Allowed answers 0 name _ (λ r'. complete-Allowed answers code))

  plain_run-Allowed :
      (quote : String → String) (cfg : Config) (spec : DockerRunSpec) (pol : Option Policy)
      → Allowed answers 0 (plain_run quote cfg spec pol)
  unfolding plain_run is_completed
  plain_run-Allowed quote cfg spec pol =
      plain_start-Allowed _
        (λ _. (omega arith, follow-Allowed _ (λ _. plain_wait-Allowed spec.name) spec.name)) quote
        cfg _

  guarded_run-Allowed :
      (ip : NetIp) (rule_text : RuleError → String) (quote : String → String) (cfg : Config)
      (spec : DockerRunSpec) (pol : Option Policy) (dir : String)
      → Allowed answers 0 (guarded_run ip rule_text quote cfg spec pol dir)
  unfolding guarded_run is_completed
  guarded_run-Allowed ip rule_text quote cfg spec pol dir =
      check_allowlist-Allowed _
        (λ _.
          create_network-Allowed _
            (λ _.
              save_allowlist-Allowed _
                (λ _.
                  start_proxy-Allowed _
                    (λ _. connect_proxy-Allowed spec.name _ (λ _.
                      guarded_start-Allowed quote cfg _ _ (λ _. (
                        omega arith,
                        follow-Allowed _ (λ _. guarded_wait-Allowed spec.name) spec.name,
                      ))))
                    cfg spec.name dir)
                cfg dir)
            _)
        ip rule_text cfg.network_allowlist

  container_run-Allowed :
      (ip : NetIp) (rule_text : RuleError → String) (quote : String → String) (cfg : Config)
      (rc : RuntimeConfig) (key : String) (spec : DockerRunSpec) (pol : Option Policy)
      (dir : String)
      → Allowed answers 0 (container_run ip rule_text quote cfg rc key spec pol dir)
  unfolding container_run
  container_run-Allowed ip rule_text quote cfg rc key spec pol dir =
      branches answers 0 (rc.image == "") _ _
        (give_up-Allowed answers "RUNTIME_IMAGE_EMPTY" _ 2 (λ _. unregister))
        (branches answers 0 (wants_allowlist pol) _ _
          (guarded_run-Allowed ip rule_text quote cfg spec pol dir)
          (plain_run-Allowed quote cfg spec pol))

  exec_command-Allowed :
      (key : String) (command : List String) (dir : String)
      → Allowed answers 0 (exec_command key command dir)
  unfolding exec_command is_completed
  exec_command-Allowed key [] dir =
      give_up-Allowed answers "EXEC_COMMAND_EMPTY" _ 3 (λ _. unregister)
  exec_command-Allowed key (name ∷ args) dir = unless_interrupted-Allowed answers 0 false _ (
      pipe-Allowed _
        (λ _.
          pipe-Allowed _
            (λ _.
              start-Allowed _
                (λ _. (
                  (λ st. refl),
                  (omega arith, λ ended. complete-Allowed answers (exec_code ended)),
                ))
                (name ∷ args) dir)
            stderr_pipe "EXEC_STDERR_PIPE_FAILED")
        stdout_pipe "EXEC_STDOUT_PIPE_FAILED")

  env_file_of-Allowed :
      (key : String) (rc : RuntimeConfig) (k : EnvFile → Program)
      → ((file : EnvFile) → Allowed answers 0 (k file))
      → Allowed answers 0 (env_file_of key rc k)
  unfolding env_file_of
  env_file_of-Allowed key rc k rest =
      branches answers 0 (key == "nano_agent") _ _
        (branches answers 0 (rc.env_file == "") (k no_file) (read_env_file rc.env_file k)
          (rest no_file) rest)
        (rest no_file)

  configured-Allowed :
      (key : String) (o : Option RuntimeConfig) (k : RuntimeConfig → Program)
      → ((rc : RuntimeConfig) → Allowed answers 0 (k rc))
      → Allowed answers 0 (configured key o k)
  unfolding configured
  configured-Allowed key (some rc) k rest = rest rc
  configured-Allowed key none k rest = give_up-Allowed answers "RUNTIME_NOT_CONFIGURED" _ 2 k

  built-Allowed :
      (spec_text : SpecError → String) (r : Result SpecError DockerRunSpec)
      (k : DockerRunSpec → Program)
      → ((spec : DockerRunSpec) → Allowed answers 0 (k spec))
      → Allowed answers 0 (built spec_text r k)
  unfolding built
  built-Allowed spec_text (ok spec) k rest = rest spec
  built-Allowed spec_text (err e) k rest = give_up-Allowed answers "RUNTIME_SPEC_BUILD_FAILED" _ 2 k

  -- the directory of the workspace can be made
  abbrev pub Makes : Type 0
  Makes = (dir : String) (f : Failure) → answers (make_workspace dir) (some f) ≡ false

  made-Allowed :
      (dir : String) (r : Option Failure) (failed : Failure → Program) (k : Program)
      → Makes
      → answers (make_workspace dir) r ≡ true
      → Allowed answers 0 k
      → Allowed answers 0 (on_error r failed k)
  unfolding on_error
  made-Allowed dir none failed k makes given rest = rest
  made-Allowed dir (some f) failed k makes given rest =
      absurd (false≢true (sym (makes dir f) ∙ given))

  make_dirs-Allowed :
      (cfg : Config) (stream_id : String) (req : RunRequest) (k : String → Program)
      → Makes
      → ((dir : String) → Allowed answers 0 (k dir))
      → Allowed answers 0 (make_dirs cfg stream_id req k)
  unfolding make_dirs
  make_dirs-Allowed cfg stream_id req k makes rest r given =
      made-Allowed _ r _ (k _) makes given (rest _)

  -- A run sends a completion only after it has set `done`, as long as the directory of its workspace can
  -- be made.
  pub handle_run_request-Allowed :
      (ip : NetIp) (rule_text : RuleError → String) (spec_text : SpecError → String)
      (quote getenv : String → String) (cfg : Config) (stream_id : String) (req : RunRequest)
      → Makes
      → Allowed answers 0 (handle_run_request ip rule_text spec_text quote getenv cfg stream_id req)
  unfolding handle_run_request choose_runtime build exec_run is_completed
  handle_run_request-Allowed ip rule_text spec_text quote getenv cfg stream_id req makes = (
    (λ st. refl),
    unless_interrupted-Allowed answers 0 false _ (
      omega arith,
      make_dirs-Allowed cfg stream_id req _ makes λ dir.
          make_logs-Allowed _
            (λ _. configured-Allowed _ _ _ λ rc. env_file_of-Allowed _ rc _ λ file.
              built-Allowed spec_text _ _ λ spec.
                branches answers 0 (to_lower (trim_space rc.runner) == "exec")
                  (exec_command (runtime_key req.runtime) spec.command dir)
                  (container_run ip rule_text quote cfg rc (runtime_key req.runtime) spec req.policy
                    dir)
                  (exec_command-Allowed (runtime_key req.runtime) spec.command dir)
                  (container_run-Allowed ip rule_text quote cfg rc (runtime_key req.runtime) spec
                    req.policy dir))
            cfg stream_id,
    ),
  )
