-- ===== src/Worker/Run/Network/Released.antt =====
-- The network of a run behind an allowlist, once its handler has ended (pkg/worker/worker.go).
use nano_cloud.Base.{Option, ℕ, suc, String, Bool, true, false, not, ◌≡◌, refl, ◌∙◌}
use nano_cloud.Gateway.Messages.{Policy}
use nano_cloud.Policy.Rules.{NetIp, RuleError}
use nano_cloud.Worker.Adapter.{DockerRunSpec}
use nano_cloud.Worker.Config.{Config}
use nano_cloud.Worker.Run.Program.{
  Program, stop, send, look, put, claim, docker, host, read_env_file, wait_command,
}
use nano_cloud.Worker.Run.Container.{guarded_run}
use nano_cloud.Worker.Run.System.{Shared, send_run_event}
use nano_cloud.Worker.Run.Alone.{Answers, run_alone}
use nano_cloud.Worker.Run.Alone.Finished.{AllCalm}
use nano_cloud.Worker.Run.Network.{owed, Pays}
use nano_cloud.Worker.Run.Network.Guarded.{network_of, guarded_run-Pays}

module _ (a : Answers) (calm : AllCalm a) (worker_id stream_id name : String) where
  owed-run_alone :
      (p : Program) (d : Bool) (k : ℕ) (m : Shared)
      → Pays name d (owed name m.asked) p
      → m.state.cancelled ≡ false
      → m.state.done ≡ d
      → owed name (run_alone a worker_id stream_id k m p).asked ≡ false
  unfolding run_alone owed send_run_event
  owed-run_alone stop d k m pays running done = pays
  owed-run_alone (send e p) d k m pays running done =
      owed-run_alone p d k (send_run_event worker_id stream_id e m) pays running done
  owed-run_alone (look p) d k m pays running done =
      owed-run_alone (p m.state) d k m (pays m.state running done) running done
  owed-run_alone (put f p) d k m (keeps, pays) running done =
      owed-run_alone p d k _ pays ((keeps m.state).1 ∙ running) ((keeps m.state).0 ∙ done)
  owed-run_alone (claim p) d k m pays running done =
      owed-run_alone (p (not m.state.done)) true k _ (rw done pays) running refl
  owed-run_alone (docker args p) d k m pays running done =
      owed-run_alone (p (a.cli k args)) d (suc k) _ (pays _ (calm.cli_calm k args)) running done
  owed-run_alone (host call p) d k m pays running done =
      owed-run_alone (p (a.os k call)) d (suc k) m (pays _ (calm.os_calm k call)) running done
  owed-run_alone (read_env_file path p) d k m pays running done =
      owed-run_alone (p (a.file path)) d k m (pays _) running done
  owed-run_alone (wait_command p) d k m pays running done =
      owed-run_alone (p a.ending) d k m (pays _) running done

-- A run behind an allowlist that nobody cancels, whose connection holds and whose commands are not cut
-- off starts no container without removing the network: whatever docker and the host answer, after the
-- last container that it has asked docker to run it asks docker to remove the network.
pub guarded_run-released :
    (a : Answers) (ip : NetIp) (rule_text : RuleError → String) (quote : String → String)
    (cfg : Config) (spec : DockerRunSpec) (pol : Option Policy) (dir stream_id : String)
    (m : Shared)
    → AllCalm a
    → m.state.cancelled ≡ false
    → m.state.done ≡ false
    → owed (network_of spec.name) m.asked ≡ false
    → owed
        (network_of spec.name)
        (run_alone a cfg.worker_id stream_id 0 m
          (guarded_run ip rule_text quote cfg spec pol dir)).asked
      ≡ false
guarded_run-released a ip rule_text quote cfg spec pol dir stream_id m calm running fresh paid =
    owed-run_alone a calm cfg.worker_id stream_id (network_of spec.name)
      (guarded_run ip rule_text quote cfg spec pol dir) false 0 m
      (rw paid (guarded_run-Pays ip rule_text quote cfg spec pol dir)) running fresh
