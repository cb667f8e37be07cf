-- ===== src/Worker/Run/Handler.antt =====
-- handleRunRequest (pkg/worker/worker.go), stage by stage: the directories, the runtime and its
-- specification, and the runner. The three kinds of container are in Worker.Run.Container.
use Prim.Native.String
use nano_cloud.Base.{
  ℕ, ◌-◌, ◌%◌, ◌^◌, String, Bool, true, false, ◌&&◌, ◌||◌, Option, none, some, List, [], ◌∷◌, ◌==◌,
  ltb, if◌then◌else◌,
}
use nano_cloud.Base.Int.{ℤ, pos, negsuc, int_eq}
use nano_cloud.Base.Map.{Map, insert}
use nano_cloud.Base.Result.{Result, ok, err}
use nano_cloud.Gateway.Messages.{RunRequest, WorkspaceSpec}
use nano_cloud.Worker.Adapter.{DockerRunSpec, BaseAdapter, ContextInfo, SpecError}
use nano_cloud.Worker.Adapter.NanoAgent.{EnvFile, no_file, nano_build_spec}
use nano_cloud.Worker.Config.{Config}
use nano_cloud.Worker.Paths.{workspace_id, workspace_dir, log_dir, resolve_host_bind_path}
use nano_cloud.Worker.Runtimes.{RuntimeConfig, runtime_key, runtime_config}
use nano_cloud.Worker.Run.Program.{
  Program, HostCall, make_workspace, make_log_dir, stdout_pipe, stderr_pipe, start_command, Ending,
  M, on_error, set, compare_and_swap, ask_host, send_status, send_completed, send_error, look,
  read_env_file, wait_command, unregister,
}

-- int32(code)
unfoldable pub to_int32 : ℤ → ℤ
to_int32 (pos n) = let m = n % 2 ^ 32 in if ltb m (2 ^ 31) then pos m else negsuc (2 ^ 32 - 1 - m)
to_int32 (negsuc n) =
    let m = n % 2 ^ 32 in if ltb m (2 ^ 31) then negsuc m else pos (2 ^ 32 - 1 - m)

-- an exit with an error: the completion is sent by whoever sets `done`
unfoldable pub give_up : {A : Type 0} → String → String → ℕ → M A
give_up code message exit_code k = send_error code message λ _.
    compare_and_swap
      λ won. if won then send_completed false (pos exit_code) "" (λ _. unregister) else unregister

unfoldable pub complete : ℤ → Program
complete code = compare_and_swap λ won.
    if won
    then send_completed (int_eq code (pos 0)) (to_int32 code) "" (λ _. unregister)
    else unregister

-- the return where the run was cancelled or is done, or where an error comes from that
unfoldable pub unless_interrupted : Bool → M (Unit {0})
unless_interrupted canceled k =
    look λ st. if st.cancelled || st.done || canceled then unregister else k tt

unfoldable pub named_workspace : Option WorkspaceSpec → String
named_workspace none = ""
named_workspace (some w) = w.workspace_id

unfoldable pub make_dirs : Config → String → RunRequest → M String
make_dirs cfg stream_id req k =
    let dir =
      workspace_dir cfg.workspace_root (workspace_id (named_workspace req.workspace) stream_id) in
    ask_host (make_workspace dir) λ made.
      on_error made
        (λ f.
          send_error "WORKSPACE_CREATE_FAILED" f.text
            λ _. send_completed false (pos 1) "" λ _. unregister)
        (k dir)

-- whether the run has a log directory changes where its output is written, and nothing else
unfoldable pub make_logs : Config → String → M (Unit {0})
make_logs cfg stream_id k =
    let dir = log_dir cfg.log_root stream_id true in
    if dir == "" then k tt else ask_host (make_log_dir dir) λ _. k tt

unfoldable pub configured : String → Option RuntimeConfig → M RuntimeConfig
configured key (some rc) k = k rc
configured key none k = give_up "RUNTIME_NOT_CONFIGURED" (String.◌++◌ "runtime=" key) 2 k

unfoldable pub choose_runtime : Config → RunRequest → M RuntimeConfig
choose_runtime cfg req k =
    configured (runtime_key req.runtime) (runtime_config req.runtime cfg.runtimes) k

-- the variables of the worker that are passed through
unfoldable pub pass_through : (String → String) → List String → Map String → Map String
pass_through getenv [] env = env
pass_through getenv (key ∷ keys) env =
    pass_through getenv keys (if getenv key == "" then env else insert key (getenv key) env)

-- a host path that cannot be resolved falls back
abbrev pub resolved_or : {E : Type 0} → String → Result E String → String
resolved_or other (ok path) = path
resolved_or other (err e) = other

unfoldable pub context_info : Config → RuntimeConfig → String → String → ContextInfo
context_info cfg rc stream_id dir = record {
  stream_id = stream_id;
  workspace_dir = dir;
  host_workspace_path =
      if cfg.host_workspace_root == ""
      then ""
      else resolved_or "" (resolve_host_bind_path cfg.host_workspace_root cfg.workspace_root dir);
  agent_config_path =
      if cfg.host_state_root == "" || cfg.state_dir == "" || cfg.agent_config_path == ""
      then cfg.agent_config_path
      else resolved_or cfg.agent_config_path
          (resolve_host_bind_path cfg.host_state_root cfg.state_dir cfg.agent_config_path);
  agent_config_dest = rc.agent_config_dest;
  worker_id = cfg.worker_id;
}

unfoldable pub env_file_of : String → RuntimeConfig → M EnvFile
env_file_of key rc k =
    if key == "nano_agent"
    then (if rc.env_file == "" then k no_file else read_env_file rc.env_file k)
    else k no_file

unfoldable pub built : (SpecError → String) → Result SpecError DockerRunSpec → M DockerRunSpec
built spec_text (ok spec) k = k spec
built spec_text (err e) k = give_up "RUNTIME_SPEC_BUILD_FAILED" (spec_text e) 2 k

unfoldable pub build :
    (String → String)
    → (SpecError → String)
    → Config
    → String
    → RunRequest
    → RuntimeConfig
    → String
    → M DockerRunSpec
build getenv spec_text cfg stream_id req rc dir k = env_file_of (runtime_key req.runtime) rc λ file.
    let adapter : BaseAdapter = record {
      image = rc.image;
      command = rc.command;
      env = pass_through getenv cfg.env_passthrough rc.env;
    } in
    built spec_text (nano_build_spec adapter file req (context_info cfg rc stream_id dir)) k

-- a command that ended with an error and exit code 0 counts as 1
unfoldable pub exec_code : Ending → ℤ
exec_code e =
    let code : ℤ = elim e.exit_code [ none ↦ pos 0 | some c ↦ c ] in
    if e.failed && int_eq code (pos 0) then pos 1 else code

-- a pipe or a start that fails
unfoldable pub pipe_or_give_up : HostCall → String → M (Unit {0})
pipe_or_give_up call code k =
    ask_host call λ opened. on_error opened (λ f. give_up code f.text 3 k) (k tt)

unfoldable pub start_or_give_up : List String → String → M (Unit {0})
start_or_give_up command dir k = ask_host (start_command command dir) λ begun.
    on_error begun (λ f. unless_interrupted f.canceled λ _. give_up "EXEC_START_FAILED" f.text 3 k)
      (k tt)

-- the runner `exec`: the command is run on the worker itself
unfoldable pub exec_command : String → List String → String → Program
exec_command key [] dir =
    give_up {A = Unit {0}} "EXEC_COMMAND_EMPTY" (String.◌++◌ "runtime=" key) 3 (λ _. unregister)
exec_command key (name ∷ args) dir = unless_interrupted false λ _.
    pipe_or_give_up stdout_pipe "EXEC_STDOUT_PIPE_FAILED" λ _.
      pipe_or_give_up stderr_pipe "EXEC_STDERR_PIPE_FAILED" λ _.
        start_or_give_up (name ∷ args) dir λ _.
          set (λ st. record st { cmd = true })
            λ _. send_status "running" "exec" λ _. wait_command λ ended. complete (exec_code ended)

unfoldable pub exec_run : String → DockerRunSpec → String → Program
exec_run key spec dir = exec_command key spec.command dir
