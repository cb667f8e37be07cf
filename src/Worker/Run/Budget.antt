-- ===== src/Worker/Run/Budget.antt =====
-- How many completions a goroutine may send: one for each time that it sets `done`
-- (pkg/worker/worker.go, handleCancel and what it shares with handleRunRequest).
pub mod Handler
use Prim.Native.String
use nano_cloud.Base.{
  ℕ, ◌+◌, ◌-◌, ◌≤◌, String, Bool, true, false, ◌&&◌, ◌||◌, Option, none, some, List, [], ◌∷◌, ◌≡◌,
  refl, arith, ◌==◌, if◌then◌else◌, Bool-cases, Option-cases, inl, inr,
}
use nano_cloud.Base.Int.{ℤ}
use nano_cloud.Base.Result.{Result, ok, err}
use nano_cloud.Base.Text.{trim_space, to_lower}
use nano_cloud.Gateway.Messages.{RunEvent, is_completed, RunRequest, Policy}
use nano_cloud.Policy.Rules.{NetIp, Rule, RuleError, validate_network_allowlist}
use nano_cloud.Worker.Adapter.{DockerRunSpec, SpecError}
use nano_cloud.Worker.Adapter.NanoAgent.{EnvFile, nano_build_spec}
use nano_cloud.Worker.Config.{Config}
use nano_cloud.Worker.Runtimes.{RuntimeConfig, runtime_config}
use nano_cloud.Worker.Run.Program.{
  Program, stop, send, look, put, claim, docker, host, read_env_file, wait_command, Failure,
  HostCall, M, DockerProcess, on_error, on_result, unregister, make_workspace,
}
use nano_cloud.Worker.Run.Commands.{
  docker_network_create_internal, docker_network_remove, docker_network_connect, docker_remove,
  docker_run, docker_wait, run_again, is_conflict, stop_process, started, tolerate, removed,
  wait_code,
}
use nano_cloud.Worker.Run.Handler.{
  give_up, complete, unless_interrupted, make_dirs, make_logs, choose_runtime, build, exec_run,
  env_file_of, pipe_or_give_up, start_or_give_up,
}
use nano_cloud.Worker.Run.Container.{
  handle_run_request, follow, plain_start, plain_wait, plain_run, check_allowlist, create_network,
  save_allowlist, start_proxy, drop_proxy, connect_proxy, guarded_start, guarded_wait, guarded_run,
  container_run, wants_allowlist,
}
use nano_cloud.Worker.Run.Cancel.{
  drop_process, drop_network, release, stop_output, stop_command, finish_cancel, cancelled_run,
  handle_cancel,
}

-- 1 for a completion
abbrev pub cost : RunEvent → ℕ
cost e = if is_completed e.kind then 1 else 0

module _ (answers : HostCall → Option Failure → Bool) where
  -- the program sends at most `n` completions, and one more each time that it sets `done`, which it does
  -- by nothing but `claim`
  abbrev pub Allowed : ℕ → Program → Type 0
  Allowed n stop = Unit
  Allowed n (send e k) = (cost e ≤ n) × Allowed (n - cost e) k
  Allowed n (look k) = (st : _) → Allowed n (k st)
  Allowed n (put f k) = ((st : _) → (f st).done ≡ st.done) × Allowed n k
  Allowed n (claim k) = Allowed (n + 1) (k true) × Allowed n (k false)
  Allowed n (docker args k) = (r : _) → Allowed n (k r)
  Allowed n (host call k) = (r : _) → answers call r ≡ true → Allowed n (k r)
  Allowed n (read_env_file path k) = (r : _) → Allowed n (k r)
  Allowed n (wait_command k) = (r : _) → Allowed n (k r)

  -- both branches of a test
  pub branches :
      (n : ℕ) (b : Bool) (p q : Program)
      → Allowed n p
      → Allowed n q
      → Allowed n (if b then p else q)
  branches n true p q left right = left
  branches n false p q left right = right

  pub give_up-Allowed :
      {A : Type 0} (code message : String) (exit_code : ℕ) (k : A → Program)
      → Allowed 0 (give_up code message exit_code k)
  unfolding give_up is_completed
  give_up-Allowed code message exit_code k =
      (omega arith, ((omega arith, ((λ st. refl), tt)), ((λ st. refl), tt)))

  pub complete-Allowed : (code : ℤ) → Allowed 0 (complete code)
  unfolding complete is_completed
  complete-Allowed code = ((omega arith, ((λ st. refl), tt)), ((λ st. refl), tt))

  module _ (n : ℕ) where
    pub on_error-Allowed :
        (r : Option Failure) (failed : Failure → Program) (k : Program)
        → ((f : Failure) → Allowed n (failed f))
        → Allowed n k
        → Allowed n (on_error r failed k)
    unfolding on_error
    on_error-Allowed none failed k bad rest = rest
    on_error-Allowed (some f) failed k bad rest = bad f

    pub on_result-Allowed :
        {A : Type 0} (r : Result Failure A) (failed : Failure → Program) (k : A → Program)
        → ((f : Failure) → Allowed n (failed f))
        → ((a : A) → Allowed n (k a))
        → Allowed n (on_result r failed k)
    unfolding on_result
    on_result-Allowed (ok a) failed k bad rest = rest a
    on_result-Allowed (err f) failed k bad rest = bad f

    pub unless_interrupted-Allowed :
        (canceled : Bool) (k : Unit {0} → Program)
        → Allowed n (k tt)
        → Allowed n (unless_interrupted canceled k)
    unfolding unless_interrupted
    unless_interrupted-Allowed canceled k rest st =
        branches n (st.cancelled || st.done || canceled) unregister (k tt) ((λ st'. refl), tt) rest

    pub docker_remove-Allowed :
        (name : String) (k : Option Failure → Program)
        → ((r : Option Failure) → Allowed n (k r))
        → Allowed n (docker_remove name k)
    unfolding docker_remove
    docker_remove-Allowed name k rest =
        branches n (trim_space name == "") _ _ (rest none) (λ r. rest _)

    pub docker_network_remove-Allowed :
        (name : String) (k : Option Failure → Program)
        → ((r : Option Failure) → Allowed n (k r))
        → Allowed n (docker_network_remove name k)
    unfolding docker_network_remove
    docker_network_remove-Allowed name k rest =
        branches n (trim_space name == "") _ _ (rest none) (λ r. rest _)

    pub docker_network_create-Allowed :
        (name : String) (k : Option Failure → Program)
        → ((r : Option Failure) → Allowed n (k r))
        → Allowed n (docker_network_create_internal name k)
    unfolding docker_network_create_internal
    docker_network_create-Allowed name k rest =
        branches n (trim_space name == "") _ _ (rest none) (λ r. rest _)

    pub docker_network_connect-Allowed :
        (network container : String) (k : Option Failure → Program)
        → ((r : Option Failure) → Allowed n (k r))
        → Allowed n (docker_network_connect network container k)
    unfolding docker_network_connect
    docker_network_connect-Allowed network container k rest =
        branches n (trim_space network == "" || trim_space container == "") _ _ (rest none)
          (λ r. rest _)

    pub docker_run-Allowed :
        (spec : DockerRunSpec) (k : Result Failure DockerProcess → Program)
        → ((r : Result Failure DockerProcess) → Allowed n (k r))
        → Allowed n (docker_run spec k)
    unfolding docker_run run_again
    docker_run-Allowed spec k rest reply =
        branches n (is_conflict spec.name reply) _ _
          (docker_remove-Allowed spec.name _ (λ r again. rest (started spec.name again)))
          (rest (started spec.name reply))

    pub docker_wait-Allowed :
        (name : String) (k : Result Failure ℤ → Program)
        → ((r : Result Failure ℤ) → Allowed n (k r))
        → Allowed n (docker_wait name k)
    unfolding docker_wait
    docker_wait-Allowed name k rest r = rest (wait_code r)

    pub stop_process-Allowed :
        (p : DockerProcess) (k : Unit {0} → Program)
        → Allowed n (k tt)
        → Allowed n (stop_process p k)
    unfolding stop_process
    stop_process-Allowed p k rest =
        branches n (p.container_id == "" && p.container == "") _ _ rest (λ r. rest)

    pub drop_process-Allowed :
        (p : Option DockerProcess) (k : Unit {0} → Program)
        → Allowed n (k tt)
        → Allowed n (drop_process p k)
    unfolding drop_process
    drop_process-Allowed none k rest = rest
    drop_process-Allowed (some p) k rest =
        stop_process-Allowed p _ (docker_remove-Allowed _ _ (λ r. rest))

    pub release-Allowed : (k : Unit {0} → Program) → Allowed n (k tt) → Allowed n (release k)
    unfolding release
    release-Allowed k rest st1 = drop_process-Allowed st1.proc _ λ st2.
        drop_process-Allowed st2.net_proc _ λ st3.
          branches n (st3.net_name == "") _ _ rest
            (docker_network_remove-Allowed st3.net_name _ (λ r. rest))

    pub stop_output-Allowed :
        (k : Unit {0} → Program) → Allowed n (k tt) → Allowed n (stop_output k)
    unfolding stop_output
    stop_output-Allowed k rest st = branches n st.logs _ _ (λ r given. rest) rest

    pub stop_command-Allowed :
        (k : Unit {0} → Program) → Allowed n (k tt) → Allowed n (stop_command k)
    unfolding stop_command
    stop_command-Allowed k rest st = branches n st.cmd _ _ (λ r given. rest) rest

  finish_cancel-Allowed : (reason : String) → Allowed 1 (finish_cancel reason)
  unfolding finish_cancel is_completed
  finish_cancel-Allowed reason = (omega arith, (omega arith, tt))

  -- A cancellation sends a completion only after it has set `done`.
  pub handle_cancel-Allowed : (reason : String) → Allowed 0 (handle_cancel reason)
  unfolding handle_cancel cancelled_run
  handle_cancel-Allowed reason st =
      branches 0 st.registered _ _
        (
          (
            (λ st'. refl),
            stop_output-Allowed 1 _
                (release-Allowed 1 _ (stop_command-Allowed 1 _ (finish_cancel-Allowed reason))),
          ),
          tt,
        )
        tt
