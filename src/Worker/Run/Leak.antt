-- ===== src/Worker/Run/Leak.antt =====
-- A cancellation between the start of a container and its registration in the run's state
-- (pkg/worker/worker.go, handleRunRequest and handleCancel).
use nano_cloud.Base.{ℕ, ◌++◌, String, Bool, true, Option, some, [], ◌∷◌, ◌≡◌, refl}
use nano_cloud.Gateway.Messages.{Policy, completes, get_run_event, is_completed}
use nano_cloud.Worker.Adapter.{DockerRunSpec}
use nano_cloud.Worker.Config.{Config}
use nano_cloud.Worker.Docker.{docker_run_args, docker_runtime_args, docker_extra_args_from_policy}
use nano_cloud.Worker.Run.Program.{
  Failure, success, failure, HostCall, follow_logs, stop, on_error, on_result,
}
use nano_cloud.Worker.Run.Commands.{docker_run, started, is_conflict, docker_wait, wait_code}
use nano_cloud.Worker.Run.Handler.{unless_interrupted}
use nano_cloud.Worker.Run.Container.{plain_run, plain_start, follow, plain_wait, with_extra_args}
use nano_cloud.Worker.Run.Cancel.{
  handle_cancel, cancelled_run, stop_output, release, drop_process, stop_command, finish_cancel,
}
use nano_cloud.Worker.Run.System.{
  send_run_event, Move, first, later, System, Step, Reachable, here, next,
}
use nano_cloud.Worker.Run.Once.{completions}
use nano_cloud.Worker.Run.Twice.{fresh}

-- the specification of the container with its extra arguments
abbrev pub plain_spec : Config → DockerRunSpec → Option Policy → DockerRunSpec
plain_spec cfg spec pol =
    with_extra_args spec
      (docker_runtime_args cfg.container_runtime ++ docker_extra_args_from_policy pol)

-- A run that is cancelled just after docker has started its container, and whose logs then cannot
-- be followed, may leave the container behind: the cancellation completes the run, both goroutines
-- end, and of docker nothing was asked but to run the container and to wait for it.
pub cancel_may_leak :
    (answers : HostCall → Option Failure → Bool) (worker_id stream_id : String)
    (quote : String → String) (cfg : Config) (spec : DockerRunSpec) (pol : Option Policy)
    (reason out text rest : String) (f : Failure) (seq : ℕ)
    → answers (follow_logs spec.name) (some f) ≡ true
    → (s : System answers worker_id stream_id) × Reachable answers worker_id stream_id
        (record {
          shared = record {
            state = record fresh { registered = true };
            seq = seq;
            sent = [];
            asked = [];
          };
          threads = plain_run quote cfg spec pol ∷ [];
        })
        s
      × (s.threads ≡ stop ∷ stop ∷ [])
      × (completions s.shared.sent ≡ 1)
      × (s.shared.asked
          ≡ ("wait" ∷ spec.name ∷ [], failure (record { canceled = true; text = text }) rest)
            ∷ (docker_run_args (plain_spec cfg spec pol), success out)
            ∷ [])
unfolding plain_run plain_start follow plain_wait docker_run started is_conflict docker_wait
    wait_code unless_interrupted on_error on_result handle_cancel cancelled_run stop_output release
    drop_process stop_command finish_cancel send_run_event completes get_run_event is_completed
cancel_may_leak answers worker_id stream_id quote cfg spec pol reason out text rest f seq fails =
    let r1 = next here (Step.moves (first (Move.hears (success out)))) in
    let r2 = next r1 (Step.cancel_request reason) in
    let r3 = next r2 (Step.moves (first Move.looks)) in
    let r4 = next r3 (Step.moves (first (Move.wins refl))) in
    let r5 = next r4 (Step.moves (first Move.puts)) in
    let r6 = next r5 (Step.moves (first Move.looks)) in
    let r7 = next r6 (Step.moves (first Move.looks)) in
    let r8 = next r7 (Step.moves (first Move.looks)) in
    let r9 = next r8 (Step.moves (first Move.looks)) in
    let r10 = next r9 (Step.moves (first Move.looks)) in
    let r11 = next r10 (Step.moves (first Move.sends)) in
    let r12 = next r11 (Step.moves (first Move.sends)) in
    let r13 = next r12 (Step.moves (later (first Move.puts))) in
    let r14 = next r13 (Step.moves (later (first Move.sends))) in
    let r15 = next r14 (Step.moves (later (first (Move.answered (some f) fails)))) in
    let r16 = next r15 (Step.moves (later (first Move.puts))) in
    let r17 = next r16 (
      Step.moves
        (later (first (Move.hears (failure (record { canceled = true; text = text }) rest))))) in
    let r18 = next r17 (Step.moves (later (first Move.looks))) in
    let r19 = next r18 (Step.moves (later (first Move.puts))) in (_, r19, refl, refl, refl)
