-- ===== src/Worker/Run/Program.antt =====
-- The goroutines of a run as programs: what they do to the run's shared state, what they send, and what
-- they ask of docker and of the host, with a continuation for each answer.
use nano_cloud.Base.{String, Bool, false, Option, none, some, List}
use nano_cloud.Base.Int.{ℤ}
use nano_cloud.Base.Result.{Result, ok, err}
use nano_cloud.Gateway.Messages.{
  EventKind, event_status, event_assistant_delta, event_completed, event_error, Payload, status,
  assistant_delta, completed, error, RunEvent,
}
use nano_cloud.Worker.Adapter.NanoAgent.{EnvFile}
use nano_cloud.Policy.Rules.{Rule}

-- a container that `docker run` has started
pub record DockerProcess : Type 0 where
  pub container_id : String
  pub container : String

-- `runState`. `cancelled` is ctx.Err() != nil, `registered` that Worker.runs holds the run, `logs` and
-- `cmd` that the stream or the command is there.
pub record RunState : Type 0 where
  pub registered : Bool
  pub cancelled : Bool
  pub done : Bool
  pub proc : Option DockerProcess
  pub net_proc : Option DockerProcess
  pub net_name : String
  pub logs : Bool
  pub cmd : Bool

-- an error of Go: whether errors.Is(err, context.Canceled), and its text
pub record Failure : Type 0 where
  pub canceled : Bool
  pub text : String

-- the combined output of a docker command, and its error
pub data CliReply : Type 0 where
  success : String → CliReply
  failure : Failure → String → CliReply

-- what is asked of the host with an error as its only answer
pub data HostCall : Type 0 where
  make_workspace : String → HostCall
  make_log_dir : String → HostCall
  marshal_allowlist : List Rule → HostCall
  write_allowlist : String → HostCall
  stdout_pipe stderr_pipe : HostCall
  start_command : List String → String → HostCall
  follow_logs : String → HostCall
  stop_logs kill_command : HostCall

-- how a local command ended: whether Wait gave an error, and the exit code of its ProcessState
pub record Ending : Type 0 where
  pub failed : Bool
  pub exit_code : Option ℤ

pub data Program : Type 0 where
  stop : Program
  send : RunEvent → Program → Program
  look : (RunState → Program) → Program
  put : (RunState → RunState) → Program → Program
  claim : (Bool → Program) → Program
  docker : List String → (CliReply → Program) → Program
  host : HostCall → (Option Failure → Program) → Program
  read_env_file : String → (EnvFile → Program) → Program
  wait_command : (Ending → Program) → Program

-- a step that hands its result on
abbrev pub M : Type 0 → Type 0
M A = (A → Program) → Program

abbrev pub set : (RunState → RunState) → M (Unit {0})
set f k = put f (k tt)

-- rs.done.CompareAndSwap(false, true)
abbrev pub compare_and_swap : M Bool
compare_and_swap k = claim k

abbrev pub ask_docker : List String → M CliReply
ask_docker args k = docker args k

abbrev pub ask_host : HostCall → M (Option Failure)
ask_host call k = host call k

abbrev pub event : EventKind → Payload → RunEvent
event kind payload = record { kind = kind; payload = payload }

-- what follows a call: the first program after an error, the second without one
unfoldable pub on_error : Option Failure → (Failure → Program) → Program → Program
on_error none failed k = k
on_error (some f) failed k = failed f

unfoldable pub on_result :
    {A : Type 0} → Result Failure A → (Failure → Program) → (A → Program) → Program
on_result (ok a) failed k = k a
on_result (err f) failed k = failed f

-- the deferred delete of the run from Worker.runs
abbrev pub unregister : Program
unregister = put (λ st. record st { registered = false }) stop

abbrev pub send_status : String → String → M (Unit {0})
send_status name detail k = send (event event_status (status name detail)) (k tt)

abbrev pub send_assistant_delta : String → M (Unit {0})
send_assistant_delta text k = send (event event_assistant_delta (assistant_delta text)) (k tt)

abbrev pub send_completed : Bool → ℤ → String → M (Unit {0})
send_completed good exit_code stats k =
    send (event event_completed (completed good exit_code stats)) (k tt)

-- sendError at any code but STDERR, which it only logs
abbrev pub send_error : String → String → M (Unit {0})
send_error code message k = send (event event_error (error code message)) (k tt)
