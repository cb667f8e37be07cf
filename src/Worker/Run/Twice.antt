-- ===== src/Worker/Run/Twice.antt =====
-- The completion that handleRunRequest sends without setting `done` (pkg/worker/worker.go, the exit
-- WORKSPACE_CREATE_FAILED).
use nano_cloud.Base.{ℕ, String, Bool, true, false, Option, none, some, [], ◌∷◌, ◌≡◌, refl}
use nano_cloud.Gateway.Messages.{RunRequest, completes, get_run_event, is_completed}
use nano_cloud.Policy.Rules.{NetIp, RuleError}
use nano_cloud.Worker.Adapter.{SpecError}
use nano_cloud.Worker.Config.{Config}
use nano_cloud.Worker.Paths.{workspace_dir, workspace_id}
use nano_cloud.Worker.Run.Program.{Failure, HostCall, make_workspace, RunState, on_error}
use nano_cloud.Worker.Run.Handler.{unless_interrupted, make_dirs, named_workspace}
use nano_cloud.Worker.Run.Container.{handle_run_request}
use nano_cloud.Worker.Run.Cancel.{
  handle_cancel, cancelled_run, stop_output, release, drop_process, stop_command, finish_cancel,
}
use nano_cloud.Worker.Run.System.{
  Shared, send_run_event, Move, first, later, System, Step, Reachable, here, next,
}
use nano_cloud.Worker.Run.Once.{completions}

-- `runState` as handleRunRequest makes it, before it is registered
abbrev pub fresh : RunState
fresh = record {
  registered = false;
  cancelled = false;
  done = false;
  proc = none;
  net_proc = none;
  net_name = "";
  logs = false;
  cmd = false;
}

abbrev pub at_start : ℕ → Shared
at_start seq = record { state = fresh; seq = seq; sent = []; asked = [] }

-- the directory that the handler makes
abbrev pub run_dir : Config → String → RunRequest → String
run_dir cfg stream_id req =
    workspace_dir cfg.workspace_root (workspace_id (named_workspace req.workspace) stream_id)

-- Where the directory of the workspace cannot be made, a cancellation at that moment makes the worker send
-- two completions of the run.
pub may_complete_twice :
    (answers : HostCall → Option Failure → Bool) (ip : NetIp) (rule_text : RuleError → String)
    (spec_text : SpecError → String) (quote getenv : String → String) (cfg : Config)
    (stream_id : String) (req : RunRequest) (f : Failure) (seq : ℕ)
    → answers (make_workspace (run_dir cfg stream_id req)) (some f) ≡ true
    → (s : System answers cfg.worker_id stream_id) × Reachable answers cfg.worker_id stream_id
        (record {
          shared = at_start seq;
          threads = handle_run_request ip rule_text spec_text quote getenv cfg stream_id req ∷ [];
        })
        s
      × (completions s.shared.sent ≡ 2)
unfolding handle_run_request unless_interrupted make_dirs on_error handle_cancel cancelled_run
    stop_output release drop_process stop_command finish_cancel send_run_event completes
    get_run_event is_completed
may_complete_twice answers ip rule_text spec_text quote getenv cfg stream_id req f seq fails =
    let r1 = next here (Step.moves (first Move.puts)) in
    let r2 = next r1 (Step.moves (first Move.looks)) in
    let r3 = next r2 (Step.moves (first Move.sends)) in
    let r4 = next r3 (Step.moves (first (Move.answered (some f) fails))) in
    let r5 = next r4 (Step.moves (first Move.sends)) in
    let r6 = next r5 (Step.cancel_request "stop") in
    let r7 = next r6 (Step.moves (first Move.looks)) in
    let r8 = next r7 (Step.moves (first (Move.wins refl))) in
    let r9 = next r8 (Step.moves (first Move.puts)) in
    let r10 = next r9 (Step.moves (first Move.looks)) in
    let r11 = next r10 (Step.moves (first Move.looks)) in
    let r12 = next r11 (Step.moves (first Move.looks)) in
    let r13 = next r12 (Step.moves (first Move.looks)) in
    let r14 = next r13 (Step.moves (first Move.looks)) in
    let r15 = next r14 (Step.moves (first Move.sends)) in
    let r16 = next r15 (Step.moves (first Move.sends)) in
    let r17 = next r16 (Step.moves (later (first Move.sends))) in (_, r17, refl)
