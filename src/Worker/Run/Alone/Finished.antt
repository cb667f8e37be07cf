-- ===== src/Worker/Run/Alone/Finished.antt =====
-- What a run sends that nobody cancels (pkg/worker/worker.go, handleRunRequest).
use nano_cloud.Base.{
  ℕ, suc, ◌+◌, ◌-◌, ◌≤◌, String, Bool, true, false, not, List, ◌≡◌, refl, ◌∙◌, arith,
}
use nano_cloud.Gateway.Messages.{RunEvent, RunRequest, completes, get_run_event}
use nano_cloud.Policy.Rules.{NetIp, RuleError}
use nano_cloud.Worker.Adapter.{SpecError}
use nano_cloud.Worker.Config.{Config}
use nano_cloud.Worker.Run.Program.{
  Program, stop, send, look, put, claim, docker, host, read_env_file, wait_command, HostCall,
}
use nano_cloud.Worker.Run.Container.{handle_run_request}
use nano_cloud.Worker.Run.System.{Shared, send_run_event}
use nano_cloud.Worker.Run.Budget.{cost}
use nano_cloud.Worker.Run.Once.{completions}
use nano_cloud.Worker.Run.Alone.{Answers, run_alone, IsCalm, IsCalmReply, Sends}
use nano_cloud.Worker.Run.Alone.Handler.{handle_run_request-Completes}

-- no answer is an error for a cancelled context
pub record AllCalm (a : Answers) : Type 0 where
  pub cli_calm : (n : ℕ) (args : List String) → IsCalmReply (a.cli n args)
  pub os_calm : (n : ℕ) (call : HostCall) → IsCalm (a.os n call)

module _ (a : Answers) (calm : AllCalm a) (worker_id stream_id : String) where
  sent-after :
      (e : RunEvent) (m : Shared) (n after : ℕ)
      → cost e ≤ n
      → after ≡ completions (send_run_event worker_id stream_id e m).sent + (n - cost e)
      → after ≡ completions m.sent + n
  unfolding send_run_event completes get_run_event
  sent-after e m n after paid sent = omega (arith, paid, sent)

  completions-run_alone :
      (p : Program) (d : Bool) (n k : ℕ) (m : Shared)
      → Sends d n p
      → m.state.cancelled ≡ false
      → m.state.done ≡ d
      → completions (run_alone a worker_id stream_id k m p).sent ≡ completions m.sent + n
  unfolding run_alone
  completions-run_alone stop d n k m sends running done = omega (arith, sends)
  completions-run_alone (send e p) d n k m (paid, sends) running done = sent-after e m n _ paid (
      completions-run_alone p d (n - cost e) k (send_run_event worker_id stream_id e m) sends
        (unfold send_run_event in running) (unfold send_run_event in done))
  completions-run_alone (look p) d n k m sends running done =
      completions-run_alone (p m.state) d n k m (sends m.state running done) running done
  completions-run_alone (put f p) d n k m (keeps, sends) running done =
      completions-run_alone p d n k _ sends ((keeps m.state).1 ∙ running) ((keeps m.state).0 ∙ done)
  completions-run_alone (claim p) d n k m sends running done =
      completions-run_alone (p (not m.state.done)) true n k _ (rw done sends) running refl
  completions-run_alone (docker args p) d n k m sends running done =
      completions-run_alone (p (a.cli k args)) d n (suc k) _ (sends _ (calm.cli_calm k args))
        running done
  completions-run_alone (host call p) d n k m sends running done =
      completions-run_alone (p (a.os k call)) d n (suc k) m (sends _ (calm.os_calm k call)) running
        done
  completions-run_alone (read_env_file path p) d n k m sends running done =
      completions-run_alone (p (a.file path)) d n k m (sends _) running done
  completions-run_alone (wait_command p) d n k m sends running done =
      completions-run_alone (p a.ending) d n k m (sends _) running done

-- A run that nobody cancels, whose connection holds and whose commands are not cut off sends just one
-- completion, whatever docker and the host answer: the handler ends on every path, and none is silent.
pub run_completes :
    (a : Answers) (ip : NetIp) (rule_text : RuleError → String) (spec_text : SpecError → String)
    (quote getenv : String → String) (cfg : Config) (stream_id : String) (req : RunRequest)
    (m : Shared)
    → AllCalm a
    → m.state.cancelled ≡ false
    → m.state.done ≡ false
    → completions
        (run_alone a cfg.worker_id stream_id 0 m
          (handle_run_request ip rule_text spec_text quote getenv cfg stream_id req)).sent
      ≡ completions m.sent + 1
run_completes a ip rule_text spec_text quote getenv cfg stream_id req m calm running fresh =
    completions-run_alone a calm cfg.worker_id stream_id _ false 1 0 m
      (handle_run_request-Completes ip rule_text spec_text quote getenv cfg stream_id req) running
      fresh
