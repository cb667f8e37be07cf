-- ===== src/Worker/Run/Tests.antt =====
-- The theorems about runs at small values (pkg/worker/worker.go).
use nano_cloud.Base.{String, Bool, true, false, Option, none, some, [], ◌∷◌, ◌≤◌, ◌≡◌, refl}
use nano_cloud.Base.Int.{pos}
use nano_cloud.Gateway.Messages.{RunRequest, custom}
use nano_cloud.Policy.Rules.{NetIp, RuleError}
use nano_cloud.Worker.Adapter.{DockerRunSpec, SpecError}
use nano_cloud.Worker.Adapter.NanoAgent.{absent}
use nano_cloud.Worker.Config.{Config}
use nano_cloud.Worker.Docker.{docker_run_args}
use nano_cloud.Worker.Runtimes.{RuntimeConfig}
use nano_cloud.Worker.Run.Program.{Failure, success, failure, HostCall, make_workspace, stop}
use nano_cloud.Worker.Run.Handler.{unless_interrupted}
use nano_cloud.Worker.Run.Container.{handle_run_request, plain_run, guarded_run}
use nano_cloud.Worker.Run.Cancel.{
  handle_cancel, cancelled_run, stop_output, release, drop_process, stop_command, finish_cancel,
}
use nano_cloud.Worker.Run.System.{send_run_event, Move, first, System, Reachable, here, next, Step}
use nano_cloud.Worker.Run.Once.{completions, completes_once}
use nano_cloud.Worker.Run.Alone.{Answers, run_alone}
use nano_cloud.Worker.Run.Alone.Finished.{AllCalm, run_completes}
use nano_cloud.Worker.Run.Twice.{fresh, at_start, may_complete_twice}
use nano_cloud.Worker.Run.Network.{owed}
use nano_cloud.Worker.Run.Network.Released.{guarded_run-released}
use nano_cloud.Worker.Run.Leak.{plain_spec, cancel_may_leak}

abbrev no_net : NetIp
no_net = record {
  Addr = String;
  Prefix = String;
  parse_addr = λ s. none;
  parse_prefix = λ s. none;
  prefix_addr = λ p. p;
  is4 = λ a. true;
  contains = λ p a. false;
}

abbrev echo_runtime : RuntimeConfig
echo_runtime = record {
  runner = "";
  image = "echo:local";
  command = "hi" ∷ [];
  env = [];
  env_file = "";
  agent_config_dest = "";
}

abbrev config_one : Config
config_one = record {
  relay_url = "ws://localhost:8081";
  enroll_token = "";
  token = "t";
  worker_id = "w1";
  name = "worker";
  version = "1.0";
  labels = [];
  workspace_root = "/tmp/ws";
  host_workspace_root = "";
  host_state_root = "";
  state_dir = "";
  log_root = "";
  env_passthrough = [];
  agent_config_path = "";
  runtimes = ("custom", echo_runtime) ∷ [];
  container_runtime = "";
  network_policy_image = "";
  network_allowlist = [];
}

abbrev request_one : RunRequest
request_one = record {
  session_id = "s";
  runtime = custom;
  workspace = none;
  input = none;
  policy = none;
}

abbrev rule_text : RuleError → String
rule_text e = "rule"

abbrev spec_text : SpecError → String
spec_text e = "spec"

abbrev quoted : String → String
quoted s = s

abbrev no_variable : String → String
no_variable key = ""

-- no directory fails to be made
abbrev makes_all : HostCall → Option Failure → Bool
makes_all (make_workspace dir) (some f) = false
makes_all _ _ = true

abbrev any_answer : HostCall → Option Failure → Bool
any_answer call r = true

abbrev lost : Failure
lost = record { canceled = true; text = "context canceled" }

abbrev start_one : System makes_all "w1" "run-1"
start_one = record {
  shared = at_start 7;
  threads =
      handle_run_request no_net rule_text spec_text quoted no_variable config_one "run-1"
        request_one
      ∷ [];
}

-- the run has started, and a cancellation has completed it
cancelled_early : (s : System makes_all "w1" "run-1") × Reachable makes_all "w1" "run-1" start_one s
unfolding handle_run_request unless_interrupted handle_cancel cancelled_run stop_output release
    drop_process stop_command finish_cancel send_run_event
cancelled_early =
    let r1 = next here (Step.moves (first Move.puts)) in
    let r2 = next r1 (Step.moves (first Move.looks)) in
    let r3 = next r2 (Step.moves (first Move.sends)) in
    let r4 = next r3 (Step.cancel_request "stop") in
    let r5 = next r4 (Step.moves (first Move.looks)) in
    let r6 = next r5 (Step.moves (first (Move.wins refl))) in
    let r7 = next r6 (Step.moves (first Move.puts)) in
    let r8 = next r7 (Step.moves (first Move.looks)) in
    let r9 = next r8 (Step.moves (first Move.looks)) in
    let r10 = next r9 (Step.moves (first Move.looks)) in
    let r11 = next r10 (Step.moves (first Move.looks)) in
    let r12 = next r11 (Step.moves (first Move.looks)) in
    let r13 = next r12 (Step.moves (first Move.sends)) in
    (_, next r13 (Step.moves (first Move.sends)))

completes_once_example : completions (cancelled_early.0).shared.sent ≤ 1
completes_once_example =
    completes_once makes_all no_net rule_text spec_text quoted no_variable config_one "run-1"
      request_one (at_start 7) (cancelled_early.0) (λ dir f. refl) refl refl cancelled_early.1

abbrev all_fine : Answers
all_fine = record {
  cli = λ n args. success "0";
  os = λ n call. none;
  file = λ path. absent;
  ending = record { failed = false; exit_code = some (pos 0) };
}

all_fine_calm : AllCalm all_fine
all_fine_calm = record { cli_calm = λ n args. tt; os_calm = λ n call. tt }

run_completes_example :
    completions
      (run_alone all_fine "w1" "run-1" 0 (at_start 7) (
        handle_run_request no_net rule_text spec_text quoted no_variable config_one "run-1"
          request_one)).sent
    ≡ 1
run_completes_example =
    run_completes all_fine no_net rule_text spec_text quoted no_variable config_one "run-1"
      request_one (at_start 7) all_fine_calm refl refl

may_complete_twice_example :
    (s : System any_answer "w1" "run-1") × Reachable any_answer "w1" "run-1"
      (record {
        shared = at_start 7;
        threads =
            handle_run_request no_net rule_text spec_text quoted no_variable config_one "run-1"
              request_one
            ∷ [];
      })
      s
    × (completions s.shared.sent ≡ 2)
may_complete_twice_example =
    may_complete_twice any_answer no_net rule_text spec_text quoted no_variable config_one "run-1"
      request_one lost 7 refl

abbrev spec_one : DockerRunSpec
spec_one = record {
  image = "echo:local";
  name = "w1-run-1";
  workdir = "/workspace";
  mounts = [];
  env = [];
  command = "hi" ∷ [];
  detach = true;
  remove = false;
  extra_args = [];
}

cancel_may_leak_example :
    (s : System any_answer "w1" "run-1") × Reachable any_answer "w1" "run-1"
      (record {
        shared = record {
          state = record fresh { registered = true };
          seq = 7;
          sent = [];
          asked = [];
        };
        threads = plain_run quoted config_one spec_one none ∷ [];
      })
      s
    × (s.threads ≡ stop ∷ stop ∷ [])
    × (completions s.shared.sent ≡ 1)
    × (s.shared.asked
        ≡ ("wait" ∷ "w1-run-1" ∷ [], failure lost "")
          ∷ (docker_run_args (plain_spec config_one spec_one none), success "4f")
          ∷ [])
cancel_may_leak_example =
    cancel_may_leak any_answer "w1" "run-1" quoted config_one spec_one none "stop" "4f"
      "context canceled" "" lost 7 refl

abbrev config_allow : Config
config_allow = record config_one {
  network_allowlist = record { host = "example.com"; cidr = ""; protocol = ""; ports = [] } ∷ [];
}

guarded_run-released_example :
    owed "w1-run-1-allow"
      (run_alone all_fine "w1" "run-1" 0
        (at_start 7)
        (guarded_run no_net rule_text quoted config_allow spec_one none "/tmp/ws/run-1")).asked
    ≡ false
unfolding owed
guarded_run-released_example =
    guarded_run-released all_fine no_net rule_text quoted config_allow spec_one none "/tmp/ws/run-1"
      "run-1" (at_start 7) all_fine_calm refl refl refl
