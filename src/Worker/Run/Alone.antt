-- ===== src/Worker/Run/Alone.antt =====
-- A run that nobody cancels, whose connection holds, and that gets no error for a cancelled context: the
-- handler from its start to its end (pkg/worker/worker.go, handleRunRequest).
pub mod Handler
pub mod Finished
use Prim.Native.String
use nano_cloud.Worker.Paths.{log_dir}
use nano_cloud.Base.{
  suc, not, sym, ◌∙◌, false≢true, ℕ, ◌+◌, ◌-◌, ◌≤◌, String, Bool, true, false, ◌&&◌, ◌||◌, Option,
  none, some, List, [], ◌∷◌, ◌≡◌, refl, arith, ◌==◌, if◌then◌else◌, Bool-cases, Option-cases, inl,
  inr,
}
use nano_cloud.Base.Int.{ℤ}
use nano_cloud.Base.Result.{Result, ok, err}
use nano_cloud.Base.Text.{trim_space, to_lower}
use nano_cloud.Gateway.Messages.{status, event_status, RunEvent, is_completed, RunRequest, Policy}
use nano_cloud.Policy.Rules.{NetIp, Rule, RuleError, validate_network_allowlist}
use nano_cloud.Worker.Adapter.{DockerRunSpec, SpecError}
use nano_cloud.Worker.Adapter.NanoAgent.{no_file, EnvFile, nano_build_spec}
use nano_cloud.Worker.Config.{Config}
use nano_cloud.Worker.Runtimes.{runtime_key, RuntimeConfig, runtime_config}
use nano_cloud.Worker.Run.Program.{
  CliReply, success, failure, Ending, on_error, on_result, event, make_log_dir, stdout_pipe,
  stderr_pipe, send_status, Program, stop, send, look, put, claim, docker, host, read_env_file,
  wait_command, Failure, HostCall, M, DockerProcess, on_error, on_result, unregister,
  make_workspace,
}
use nano_cloud.Worker.Run.System.{Shared, send_run_event, with_state, heard}
use nano_cloud.Base.Scan.{scan_int}
use nano_cloud.Worker.Run.Commands.{
  contains, scanned, docker_network_create_internal, docker_network_remove, docker_network_connect,
  docker_remove, docker_run, docker_wait, run_again, is_conflict, stop_process, started, tolerate,
  removed, wait_code,
}
use nano_cloud.Worker.Run.Handler.{
  built, configured, exec_code, exec_command, give_up, complete, unless_interrupted, make_dirs,
  make_logs, choose_runtime, build, exec_run, env_file_of, pipe_or_give_up, start_or_give_up,
}
use nano_cloud.Worker.Run.Container.{
  validated, handle_run_request, follow, plain_start, plain_wait, plain_run, check_allowlist,
  create_network, save_allowlist, start_proxy, drop_proxy, connect_proxy, guarded_start,
  guarded_wait, guarded_run, container_run, wants_allowlist,
}
use nano_cloud.Worker.Run.Cancel.{
  drop_process, drop_network, release, stop_output, stop_command, finish_cancel, cancelled_run,
  handle_cancel,
}
use nano_cloud.Worker.Run.Budget.{cost}

-- what docker and the host answer at the n-th call
pub record Answers : Type 0 where
  pub cli : ℕ → List String → CliReply
  pub os : ℕ → HostCall → Option Failure
  pub file : String → EnvFile
  pub ending : Ending

-- a goroutine alone, from a program to its end
unfoldable pub run_alone : Answers → String → String → ℕ → Shared → Program → Shared
run_alone a worker_id stream_id n m stop = m
run_alone a worker_id stream_id n m (send e k) =
    run_alone a worker_id stream_id n (send_run_event worker_id stream_id e m) k
run_alone a worker_id stream_id n m (look k) = run_alone a worker_id stream_id n m (k m.state)
run_alone a worker_id stream_id n m (put f k) =
    run_alone a worker_id stream_id n (with_state m (f m.state)) k
run_alone a worker_id stream_id n m (claim k) =
    run_alone a worker_id stream_id n (with_state m (record m.state { done = true }))
      (k (not m.state.done))
run_alone a worker_id stream_id n m (docker args k) =
    run_alone a worker_id stream_id (suc n) (heard args (a.cli n args) m) (k (a.cli n args))
run_alone a worker_id stream_id n m (host call k) =
    run_alone a worker_id stream_id (suc n) m (k (a.os n call))
run_alone a worker_id stream_id n m (read_env_file path k) =
    run_alone a worker_id stream_id n m (k (a.file path))
run_alone a worker_id stream_id n m (wait_command k) =
    run_alone a worker_id stream_id n m (k a.ending)

-- no error is that of a cancelled context
abbrev pub IsCalm : Option Failure → Type 0
IsCalm none = Unit
IsCalm (some f) = f.canceled ≡ false

abbrev pub IsCalmReply : CliReply → Type 0
IsCalmReply (success out) = Unit
IsCalmReply (failure f out) = f.canceled ≡ false

abbrev pub IsCalmResult : {A : Type 0} → Result Failure A → Type 0
IsCalmResult (ok a) = Unit
IsCalmResult (err f) = f.canceled ≡ false

-- Where the run is not cancelled and `done` is as given, the program sends just `n` completions.
abbrev pub Sends : Bool → ℕ → Program → Type 0
Sends d n stop = n ≡ 0
Sends d n (send e k) = (cost e ≤ n) × Sends d (n - cost e) k
Sends d n (look k) = (st : _) → st.cancelled ≡ false → st.done ≡ d → Sends d n (k st)
Sends d n (put f k) =
    ((st : _) → ((f st).done ≡ st.done) × ((f st).cancelled ≡ st.cancelled)) × Sends d n k
Sends d n (claim k) = Sends true n (k (not d))
Sends d n (docker args k) = (r : _) → IsCalmReply r → Sends d n (k r)
Sends d n (host call k) = (r : _) → IsCalm r → Sends d n (k r)
Sends d n (read_env_file path k) = (r : _) → Sends d n (k r)
Sends d n (wait_command k) = (r : _) → Sends d n (k r)

-- the run has not completed, and will
abbrev pub Completes : Program → Type 0
Completes p = Sends false 1 p

-- both branches of a test
pub branches :
    (b : Bool) (p q : Program) → Completes p → Completes q → Completes (if b then p else q)
branches true p q left right = left
branches false p q left right = right

pub give_up-Completes :
    {A : Type 0} (code message : String) (exit_code : ℕ) (k : A → Program)
    → Completes (give_up code message exit_code k)
unfolding give_up is_completed
give_up-Completes code message exit_code k =
    (omega arith, (omega arith, ((λ st. (refl, refl)), refl)))

pub complete-Completes : (code : ℤ) → Completes (complete code)
unfolding complete is_completed
complete-Completes code = (omega arith, ((λ st. (refl, refl)), refl))

pub on_error-Completes :
    (r : Option Failure) (failed : Failure → Program) (k : Program)
    → IsCalm r
    → ((f : Failure) → f.canceled ≡ false → Completes (failed f))
    → Completes k
    → Completes (on_error r failed k)
unfolding on_error
on_error-Completes none failed k calm bad rest = rest
on_error-Completes (some f) failed k calm bad rest = bad f calm

pub on_result-Completes :
    {A : Type 0} (r : Result Failure A) (failed : Failure → Program) (k : A → Program)
    → IsCalmResult r
    → ((f : Failure) → f.canceled ≡ false → Completes (failed f))
    → ((a : A) → Completes (k a))
    → Completes (on_result r failed k)
unfolding on_result
on_result-Completes (ok a) failed k calm bad rest = rest a
on_result-Completes (err f) failed k calm bad rest = bad f calm

pub unless_interrupted-Completes :
    (canceled : Bool) (k : Unit {0} → Program)
    → canceled ≡ false
    → Completes (k tt)
    → Completes (unless_interrupted canceled k)
unfolding unless_interrupted
unless_interrupted-Completes canceled k calm rest st running open_yet =
    rw (running, open_yet, calm) rest

pub tolerate-IsCalm :
    (what one other : String) (r : CliReply) → IsCalmReply r → IsCalm (tolerate what one other r)
unfolding tolerate
tolerate-IsCalm what one other (success out) calm = tt
tolerate-IsCalm what one other (failure f out) calm =
    elim (Bool-cases (contains one (trim_space out) || contains other (trim_space out))) [
      | inl needless ↦ rw needless tt
      | inr serious ↦ rw serious calm
    ]

pub docker_remove-Completes :
    (name : String) (k : Option Failure → Program)
    → ((r : Option Failure) → Completes (k r))
    → Completes (docker_remove name k)
unfolding docker_remove
docker_remove-Completes name k rest =
    branches (trim_space name == "") _ _ (rest none) (λ r calm. rest _)

pub docker_network_remove-Completes :
    (name : String) (k : Option Failure → Program)
    → ((r : Option Failure) → Completes (k r))
    → Completes (docker_network_remove name k)
unfolding docker_network_remove
docker_network_remove-Completes name k rest =
    branches (trim_space name == "") _ _ (rest none) (λ r calm. rest _)

pub docker_network_create-Completes :
    (name : String) (k : Option Failure → Program)
    → ((r : Option Failure) → IsCalm r → Completes (k r))
    → Completes (docker_network_create_internal name k)
unfolding docker_network_create_internal
docker_network_create-Completes name k rest =
    branches (trim_space name == "") _ _ (rest none tt) (λ r calm.
      rest _ (tolerate-IsCalm "docker network create" "already exists" "already exists" r calm))

pub docker_network_connect-Completes :
    (network container : String) (k : Option Failure → Program)
    → ((r : Option Failure) → IsCalm r → Completes (k r))
    → Completes (docker_network_connect network container k)
unfolding docker_network_connect
docker_network_connect-Completes network container k rest =
    branches (trim_space network == "" || trim_space container == "") _ _ (rest none tt) (λ r calm.
      rest _ (tolerate-IsCalm "docker network connect" "already exists" "already connected" r calm))

pub started-IsCalm : (name : String) (r : CliReply) → IsCalmReply r → IsCalmResult (started name r)
unfolding started
started-IsCalm name (success out) calm = tt
started-IsCalm name (failure f out) calm = calm

pub docker_run-Completes :
    (spec : DockerRunSpec) (k : Result Failure DockerProcess → Program)
    → ((r : Result Failure DockerProcess) → IsCalmResult r → Completes (k r))
    → Completes (docker_run spec k)
unfolding docker_run run_again
docker_run-Completes spec k rest reply calm =
    branches (is_conflict spec.name reply) _ _
      (docker_remove-Completes spec.name _
        (λ r again still. rest (started spec.name again) (started-IsCalm spec.name again still)))
      (rest (started spec.name reply) (started-IsCalm spec.name reply calm))

scanned-IsCalm : (s : String) (o : Option ℤ) → IsCalmResult (scanned s o)
unfolding scanned
scanned-IsCalm s (some code) = tt
scanned-IsCalm s none = refl

pub wait_code-IsCalm : (r : CliReply) → IsCalmReply r → IsCalmResult (wait_code r)
unfolding wait_code
wait_code-IsCalm (failure f out) calm = calm
wait_code-IsCalm (success out) calm = elim (Bool-cases (trim_space out == "")) [
  | inl empty ↦ rw empty tt
  | inr filled ↦ rw filled (scanned-IsCalm (trim_space out) (scan_int (trim_space out)))
]

pub docker_wait-Completes :
    (name : String) (k : Result Failure ℤ → Program)
    → ((r : Result Failure ℤ) → IsCalmResult r → Completes (k r))
    → Completes (docker_wait name k)
unfolding docker_wait
docker_wait-Completes name k rest r calm = rest (wait_code r) (wait_code-IsCalm r calm)
