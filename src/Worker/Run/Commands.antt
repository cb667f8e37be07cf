-- ===== src/Worker/Run/Commands.antt =====
-- The docker commands of a run (pkg/worker/docker_runner.go), with their retries. What docker answers is
-- open.
use Prim.Native.String
use Prim.Native.Char.{code}
use nano_cloud.Base.{
  String, Bool, false, ◌&&◌, ◌||◌, Option, none, some, [], ◌∷◌, ◌==◌, if◌then◌else◌,
}
use nano_cloud.Base.Int.{ℤ, pos}
use nano_cloud.Base.Scan.{scan_int}
use nano_cloud.Base.Result.{Result, ok, err}
use nano_cloud.Base.Text.{trim_space, has_prefix}
use nano_cloud.Worker.Adapter.{DockerRunSpec}
use nano_cloud.Worker.Docker.{docker_run_args}
use nano_cloud.Worker.Run.Program.{
  DockerProcess, Failure, CliReply, success, failure, M, ask_docker,
}

-- strings.Contains, with the text that is looked for first
unfoldable pub contains : String → String → Bool
contains sub String.[] = sub == ""
contains sub (String.◌∷◌ c s) = has_prefix sub (String.◌∷◌ c s) || contains sub s

-- fmt.Errorf("<what> failed: %w (%s)", err, msg)
abbrev pub wrap : String → Failure → String → Failure
wrap what f msg = record f {
  text =
      String.◌++◌ what
        (String.◌++◌ " failed: " (String.◌++◌ f.text (String.◌++◌ " (" (String.◌++◌ msg ")"))));
}

-- the error of a command, none where its output has one of two texts that say it was not needed
unfoldable pub tolerate : String → String → String → CliReply → Option Failure
tolerate what one other (success out) = none
tolerate what one other (failure f out) =
    let msg = trim_space out in
    if contains one msg || contains other msg then none else some (wrap what f msg)

unfoldable pub docker_network_create_internal : String → M (Option Failure)
docker_network_create_internal name k =
    if trim_space name == ""
    then k none
    else ask_docker ("network" ∷ "create" ∷ "--internal" ∷ name ∷ [])
        λ reply. k (tolerate "docker network create" "already exists" "already exists" reply)

unfoldable pub docker_network_remove : String → M (Option Failure)
docker_network_remove name k =
    if trim_space name == ""
    then k none
    else ask_docker ("network" ∷ "rm" ∷ name ∷ [])
        λ reply. k (tolerate "docker network rm" "No such network" "not found" reply)

unfoldable pub docker_network_connect : String → String → M (Option Failure)
docker_network_connect network container k =
    if trim_space network == "" || trim_space container == ""
    then k none
    else ask_docker ("network" ∷ "connect" ∷ network ∷ container ∷ [])
        λ reply. k (tolerate "docker network connect" "already exists" "already connected" reply)

unfoldable pub removed : CliReply → Option Failure
removed (success out) = none
removed (failure f out) = some (wrap "docker rm" f (trim_space out))

unfoldable pub docker_remove : String → M (Option Failure)
docker_remove container k =
    if trim_space container == ""
    then k none
    else ask_docker ("rm" ∷ "-f" ∷ container ∷ []) λ reply. k (removed reply)

abbrev pub process : String → String → DockerProcess
process out container = record { container_id = trim_space out; container = container }

unfoldable pub started : String → CliReply → Result Failure DockerProcess
started name (success out) = ok (process out name)
started name (failure f out) = err (wrap "docker run" f (trim_space out))

-- the name of the container is taken
unfoldable pub is_conflict : String → CliReply → Bool
is_conflict name (success out) = false
is_conflict name (failure f out) =
    if name == "" then false else contains "Conflict. The container name" (trim_space out)

-- the container of that name is removed, and the command is run again
unfoldable pub run_again : DockerRunSpec → M (Result Failure DockerProcess)
run_again spec k =
    docker_remove spec.name
      λ _. ask_docker (docker_run_args spec) λ reply. k (started spec.name reply)

-- DockerRun
unfoldable pub docker_run : DockerRunSpec → M (Result Failure DockerProcess)
docker_run spec k =
    ask_docker (docker_run_args spec)
      λ reply. if is_conflict spec.name reply then run_again spec k else k (started spec.name reply)

unfoldable pub scanned : String → Option ℤ → Result Failure ℤ
scanned s (some code) = ok code
scanned s none =
    err (record { canceled = false; text = String.◌++◌ "docker wait invalid output: " s })

unfoldable pub wait_code : CliReply → Result Failure ℤ
wait_code (failure f out) = err (wrap "docker wait" f (trim_space out))
wait_code (success out) =
    let s = trim_space out in if s == "" then ok (pos 0) else scanned s (scan_int s)

unfoldable pub docker_wait : String → M (Result Failure ℤ)
docker_wait container k = ask_docker ("wait" ∷ container ∷ []) λ reply. k (wait_code reply)

-- DockerProcess.Stop, whose error the code ignores
unfoldable pub stop_process : DockerProcess → M (Unit {0})
stop_process p k =
    if p.container_id == "" && p.container == ""
    then k tt
    else ask_docker
        ("stop" ∷ "-t" ∷ "1" ∷ (if p.container_id == "" then p.container else p.container_id) ∷ [])
        λ _. k tt
