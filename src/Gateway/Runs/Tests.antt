-- ===== src/Gateway/Runs/Tests.antt =====
-- The theorems on runs at small states (pkg/server/server.go).
use nano_cloud.Base.{inr, String, true, false, none, some, [], ◌∷◌, ◌≡◌, inl, refl}
use nano_cloud.Base.Map.{Map, lookup}
use nano_cloud.Base.Text.{apart, trim_space, to_lower}
use nano_cloud.Base.Result.{ok}
use nano_cloud.Gateway.Runs.{
  create_run_during, approval_or_auto, parse_network_policy, network_or_all, runtime_eq, cancel_run,
  choose_worker, is_specified, offers, session_offers, parse_runtime, run_request_of, Gateway,
  CreateRunRequest, pick_worker_for_runtime, create_run, WorkerSession, prepare,
}
use nano_cloud.Gateway.State.{queue_of, slice}
use nano_cloud.Gateway.Messages.{
  event_status, approval_auto, other_payload, network_none, get_run_event, event_completed,
  run_event, nano_agent, is_completed, Envelope, RunRequest, completes,
}
use nano_cloud.Gateway.Queue.{push_capped}
use nano_cloud.Gateway.Runs.Outcome.{create_run_during-completed, create_run-queues, run_envelope}
use nano_cloud.Gateway.Streams.{append_stream_event}
use nano_cloud.Gateway.Runs.Life.{cancel_run-create_run, no_steps, then_step, completed}
use nano_cloud.Gateway.Reach.{receives, disconnects}
use nano_cloud.Gateway.Connect.{receive, disconnect}

abbrev done_event : Envelope
done_event = record {
  worker_id = "w1";
  stream_id = "run-9";
  seq = 2;
  message = run_event (record { kind = event_completed; payload = other_payload });
}

abbrev session_one : WorkerSession
session_one = record {
  conn = 1;
  hello =
      some
        (record { name = "box"; version = "1"; labels = []; supported_runtimes = nano_agent ∷ [] });
  last_heartbeat = 5;
}

abbrev with_workers : Map WorkerSession → Gateway
with_workers workers = record {
  workers = workers;
  worker_queue = [];
  stream_events = [];
  stream_event_times = [];
  stream_last_at = [];
  stream_done_at = [];
  stream_subs = [];
  runs = [];
  seq_counter = 3;
  token = "secret";
  console_sessions = [];
}

abbrev one_worker : Gateway
one_worker = with_workers (("w1", session_one) ∷ [])

abbrev form_for : String → String → CreateRunRequest
form_for prompt worker_id = record {
  runtime = " Nano ";
  prompt = prompt;
  session_id = "";
  worker_id = worker_id;
  workspace_id = "ws";
  timeout_seconds = 0;
  resources = none;
  network = "deny";
  approval = "";
}

abbrev run_of : String → String → RunRequest
run_of prompt worker_id =
    run_request_of (form_for prompt worker_id) nano_agent network_none approval_auto

prepared_one : prepare (form_for "hi" "") one_worker ≡ ok ("w1", run_of "hi" "")
unfolding prepare parse_runtime is_specified choose_worker pick_worker_for_runtime session_offers
    offers runtime_eq network_or_all parse_network_policy approval_or_auto to_lower trim_space
prepared_one = refl

prepared_absent : prepare (form_for "hi" "w7") one_worker ≡ ok ("w7", run_of "hi" "w7")
unfolding prepare parse_runtime is_specified choose_worker network_or_all parse_network_policy
    approval_or_auto to_lower trim_space
prepared_absent = refl

create_run-queues_example :
    ((create_run (form_for "hi" "w7") true "run-9" 8 one_worker).0 ≡ ok ("w7", []))
    × (queue_of (create_run (form_for "hi" "w7") true "run-9" 8 one_worker).1 "w7"
        ≡ run_envelope "w7" "run-9" (run_of "hi" "w7") one_worker ∷ [])
unfolding lookup slice push_capped
create_run-queues_example =
    create_run-queues (form_for "hi" "w7") "run-9" "w7" (run_of "hi" "w7") 8 one_worker
      prepared_absent true (inl refl)

abbrev step_event : Envelope
step_event = record done_event {
  message = run_event (record { kind = event_status; payload = other_payload });
}

abbrev after_creation : Gateway
after_creation = (create_run (form_for "hi" "") true "run-9" 8 one_worker).1

abbrev while_running : Gateway
while_running = receive "w1" 1 step_event 9 after_creation

abbrev after_end : Gateway
after_end = disconnect "w1" (append_stream_event "run-9" done_event 10 while_running)

cancel_run-create_run_example :
    ((cancel_run true "run-9" while_running).0 ≡ true)
    × ((cancel_run true "run-9" after_end).0 ≡ false)
unfolding completes is_completed get_run_event
cancel_run-create_run_example =
    cancel_run-create_run (form_for "hi" "") "run-9" "w1" (run_of "hi" "") 8 true true one_worker
      while_running (append_stream_event "run-9" done_event 10 while_running) after_end prepared_one
      (apart "w1" "" refl) (then_step no_steps (receives "w1" 1 step_event 9) (inr refl))
      (completed done_event 10 refl) (then_step no_steps (disconnects "w1") tt)

create_run_during-completed_example :
    let raced =
      (create_run_during
        (append_stream_event "run-9" done_event 9)
        (form_for "hi" "")
        true
        "run-9"
        8
        one_worker).1 in
    let ordered =
      append_stream_event "run-9" done_event 9
        (create_run (form_for "hi" "") true "run-9" 8 one_worker).1 in
    (lookup "run-9" raced.stream_done_at ≡ some 9)
    × ((cancel_run true "run-9" raced).0 ≡ true)
    × (lookup "run-9" ordered.stream_done_at ≡ some 9)
    × ((cancel_run true "run-9" ordered).0 ≡ false)
unfolding completes is_completed get_run_event
create_run_during-completed_example =
    create_run_during-completed (form_for "hi" "") "run-9" "w1" (run_of "hi" "") 8 one_worker
      prepared_one done_event 9 true true (apart "w1" "" refl) refl
