-- ===== src/Gateway/Tests.antt =====
-- The gateway's theorems at small states (pkg/server/server.go, admin_handlers.go).
use nano_cloud.Base.{List, ℕ, true, false, none, some, [], ◌∷◌, ◌++◌, ◌≡◌, inl, inr, refl, arith}
use nano_cloud.Base.Int.{pos}
use nano_cloud.Base.Map.{lookup}
use nano_cloud.Gateway.Queue.Poll.{worker_poll_lem}
use nano_cloud.Gateway.Queue.Flush.{flush_worker_queue-partitions}
use nano_cloud.Gateway.Streams.Sweep.{view, gone}
use nano_cloud.Gateway.Streams.Cleanup.{IsOver, cleanup-over, cleanup-running}
use nano_cloud.Gateway.Reach.{new_gateway, starts, steps, polls, posts, Reachable-IsBounded}
use nano_cloud.Gateway.Bounds.{IsBounded}
use nano_cloud.Gateway.Queue.{worker_poll, flush_worker_queue, clamp_max}
use nano_cloud.Gateway.Auth.{Environment, HttpRequest}
use nano_cloud.Gateway.Streams.{cleanup, worker_events, has_subs}
use nano_cloud.Gateway.State.{queue_of, Gateway, slice, WorkerSession}
use nano_cloud.Gateway.Runs.{console_run_request, CreateRunRequest}
use nano_cloud.Gateway.Messages.{
  status, run_event, event_status, nano_agent, Envelope, WorkerHello, EventKind,
}

abbrev event_in : EventKind → ℕ → Envelope
event_in kind n = record {
  worker_id = "w1";
  stream_id = "run-1";
  seq = n;
  message = run_event (record { kind = kind; payload = status "s" "" });
}

abbrev hello_one : WorkerHello
hello_one = record {
  name = "box";
  version = "1";
  labels = [];
  supported_runtimes = nano_agent ∷ [];
}

abbrev session_one : WorkerSession
session_one = record { conn = 1; hello = some hello_one; last_heartbeat = 5 }

-- a gateway with a connected worker, a stream of a run, and a console session
abbrev busy : Gateway
busy = record {
  workers = ("w1", session_one) ∷ [];
  worker_queue =
      ("w2", event_in event_status 1 ∷ event_in event_status 2 ∷ event_in event_status 3 ∷ []) ∷ [];
  stream_events = ("run-1", event_in event_status 1 ∷ []) ∷ [];
  stream_event_times = ("run-1", 10 ∷ []) ∷ [];
  stream_last_at = ("run-1", 10) ∷ [];
  stream_done_at = [];
  stream_subs = [];
  runs = ("run-1", "w1") ∷ [];
  seq_counter = 3;
  token = "secret";
  console_sessions = ("sid", 50) ∷ [];
}

abbrev anonymous : HttpRequest
anonymous = record {
  authorization = "";
  x_gateway_token = "";
  x_worker_token = "old";
  query_token = "";
  cookie = none;
}

abbrev bearer : HttpRequest
bearer = record {
  authorization = "Bearer secret";
  x_gateway_token = "";
  x_worker_token = "";
  query_token = "";
  cookie = some "sid";
}

abbrev no_environment : Environment
no_environment = record {
  allow_token_query_var = "";
  dev_mode_var = "";
  console_session_ttl_minutes_var = "";
}

abbrev run_form : CreateRunRequest
run_form = console_run_request "nano" "hi" ""

Reachable-IsBounded_example :
    IsBounded
      (worker_events
        (some (event_in event_status 1) ∷ [])
        7
        (worker_poll "w1" 0 (pos 5) (new_gateway "secret")).1).1
Reachable-IsBounded_example =
    Reachable-IsBounded "secret"
      (steps (steps starts (polls "w1" 0 (pos 5))) (posts (some (event_in event_status 1) ∷ []) 7))

worker_poll_example :
    ((worker_poll "w2" 1 (pos 1) busy).0 ≡ event_in event_status 2 ∷ [])
    × (queue_of (worker_poll "w2" 1 (pos 1) busy).1 "w2" ≡ event_in event_status 3 ∷ [])
unfolding clamp_max slice lookup
worker_poll_example = worker_poll_lem "w2" 1 (pos 1) busy

flush_worker_queue-partitions_example :
    (flush_worker_queue "w2" (true ∷ false ∷ []) busy).0
      ++ queue_of (flush_worker_queue "w2" (true ∷ false ∷ []) busy).1 "w2"
    ≡ queue_of busy "w2"
unfolding slice lookup
flush_worker_queue-partitions_example =
    flush_worker_queue-partitions "w2" (true ∷ false ∷ []) busy (omega arith)

abbrev two_events : List (Envelope × ℕ)
two_events = (event_in event_status 2, 20) ∷ (event_in event_status 3, 25) ∷ []

cleanup-over_example : view "run-1" (cleanup 610 busy) ≡ gone
unfolding has_subs slice lookup
cleanup-over_example = cleanup-over 610 "run-1" busy (refl, (10, inr (refl, refl), omega arith))

busy-running : IsOver 609 busy "run-1" → ⊥
unfolding has_subs slice lookup
busy-running (alone, (t, inl here, old)) = cc
busy-running (alone, (t, inr (running, here), old)) = let same : 10 ≡ t = cc in omega arith

cleanup-running_example : view "run-1" (cleanup 609 busy) ≡ view "run-1" busy
cleanup-running_example = cleanup-running 609 "run-1" busy busy-running
