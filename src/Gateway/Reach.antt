-- ===== src/Gateway/Reach.antt =====
-- The states that the gateway can come into from its start, by any sequence of its operations
-- (pkg/server/server.go), and what holds in all of them.
use nano_cloud.Base.{ℕ, String, Bool, Option, List, [], refl, arith}
use nano_cloud.Base.Int.{ℤ}
use nano_cloud.Base.Map.{lookup}
use nano_cloud.Gateway.Messages.{Envelope, WorkerHello}
use nano_cloud.Gateway.State.{Gateway, WorkerSession, slice}
use nano_cloud.Gateway.Queue.{worker_poll, next_seq, enqueue_control, take_queue}
use nano_cloud.Gateway.Streams.{worker_events, subscribe, unsubscribe, cleanup}
use nano_cloud.Gateway.Runs.{CreateRunRequest, create_run, cancel_run, register_run}
use nano_cloud.Gateway.Auth.{HttpRequest, console_session_valid, console_login, console_logout}
use nano_cloud.Gateway.Connect.{open_session, receive, disconnect, register_session}
use nano_cloud.Gateway.Bounds.Handlers.{
  open_session-IsBounded, receive-IsBounded, worker_events-IsBounded, create_run-IsBounded,
  cancel_run-IsBounded, unsubscribe-IsBounded, console_login-IsBounded, console_logout-IsBounded,
  console_session_valid-IsBounded,
}
use nano_cloud.Gateway.Bounds.{
  IsBounded, IsBounded-same, enqueue_control-IsBounded, take_queue-IsBounded, worker_poll-IsBounded,
  cleanup-IsBounded,
}

-- NewGatewayServer
unfoldable pub new_gateway : String → Gateway
new_gateway token = record {
  workers = [];
  worker_queue = [];
  stream_events = [];
  stream_event_times = [];
  stream_last_at = [];
  stream_done_at = [];
  stream_subs = [];
  runs = [];
  seq_counter = 0;
  token = token;
  console_sessions = [];
}

-- One operation of a handler or of the cleanup loop. Requests interleave in any order. createRun,
-- handleCancelRun and the opening of a session release the lock in between: each is a step, for when
-- nothing comes in between, and what it does under one hold of the lock is a step of its own, for when
-- something does.
pub data Step : Gateway → Gateway → Type 0 where
  opens :
      {g : Gateway} (id : String) (conn : ℕ) (hello : WorkerHello) (now : ℕ) (writes : List Bool)
      → Step g (open_session id conn hello now writes g).1
  receives :
      {g : Gateway} (id : String) (conn : ℕ) (env : Envelope) (now : ℕ)
      → Step g (receive id conn env now g)
  disconnects : {g : Gateway} (id : String) → Step g (disconnect id g)
  polls :
      {g : Gateway} (id : String) (last_seq : ℕ) (max_messages : ℤ)
      → Step g (worker_poll id last_seq max_messages g).1
  posts :
      {g : Gateway} (messages : List (Option Envelope)) (now : ℕ)
      → Step g (worker_events messages now g).1
  creates :
      {g : Gateway} (req : CreateRunRequest) (wrote : Bool) (run_id : String) (now : ℕ)
      → Step g (create_run req wrote run_id now g).1
  cancels : {g : Gateway} (wrote : Bool) (run_id : String) → Step g (cancel_run wrote run_id g).1
  subscribes : {g : Gateway} (id : String) (chan : ℕ) → Step g (subscribe id chan g).1
  unsubscribes : {g : Gateway} (id : String) (chan : ℕ) → Step g (unsubscribe id chan g)
  cleans : {g : Gateway} (now : ℕ) → Step g (cleanup now g)
  logs_in :
      {g : Gateway} (form : Option (String × String)) (fresh : Option String) (ttl now : ℕ)
      → Step g (console_login form fresh ttl now g).1
  logs_out : {g : Gateway} (r : HttpRequest) → Step g (console_logout r g)
  checks_session :
      {g : Gateway} (r : HttpRequest) (now : ℕ) → Step g (console_session_valid r now g).1
  counts : {g : Gateway} → Step g (next_seq g).1
  enqueues : {g : Gateway} (id : String) (env : Envelope) → Step g (enqueue_control id env g)
  takes : {g : Gateway} (id : String) → Step g (take_queue id g)
  registers_session :
      {g : Gateway} (id : String) (worker : WorkerSession) → Step g (register_session id worker g)
  registers_run :
      {g : Gateway} (run_id worker_id : String) (now : ℕ)
      → Step g (register_run run_id worker_id now g)

pub data Reachable (token : String) : Gateway → Type 0 where
  starts : Reachable token (new_gateway token)
  steps : {g h : Gateway} → Reachable token g → Step g h → Reachable token h

Step-IsBounded : {g h : Gateway} → Step g h → IsBounded g → IsBounded h
unfolding disconnect subscribe next_seq register_session register_run
Step-IsBounded (opens id conn hello now writes) bounded =
    open_session-IsBounded id conn hello now writes _ bounded
Step-IsBounded (receives id conn env now) bounded = receive-IsBounded id conn env now _ bounded
Step-IsBounded (disconnects id) bounded = IsBounded-same _ _ bounded refl refl refl
Step-IsBounded (polls id last_seq max_messages) bounded =
    worker_poll-IsBounded id last_seq max_messages _ bounded
Step-IsBounded (posts messages now) bounded = worker_events-IsBounded messages now _ bounded
Step-IsBounded (creates req wrote run_id now) bounded =
    create_run-IsBounded req wrote run_id now _ bounded
Step-IsBounded (cancels wrote run_id) bounded = cancel_run-IsBounded wrote run_id _ bounded
Step-IsBounded (subscribes id chan) bounded = IsBounded-same _ _ bounded refl refl refl
Step-IsBounded (unsubscribes id chan) bounded = unsubscribe-IsBounded id chan _ bounded
Step-IsBounded (cleans now) bounded = cleanup-IsBounded now _ bounded
Step-IsBounded (logs_in form fresh ttl now) bounded =
    console_login-IsBounded form fresh ttl now _ bounded
Step-IsBounded (logs_out r) bounded = console_logout-IsBounded r _ bounded
Step-IsBounded (checks_session r now) bounded = console_session_valid-IsBounded r now _ bounded
Step-IsBounded counts bounded = IsBounded-same _ _ bounded refl refl refl
Step-IsBounded (enqueues id env) bounded = enqueue_control-IsBounded id env _ bounded
Step-IsBounded (takes id) bounded = take_queue-IsBounded id _ bounded
Step-IsBounded (registers_session id worker) bounded = IsBounded-same _ _ bounded refl refl refl
Step-IsBounded (registers_run run_id worker_id now) bounded =
    IsBounded-same _ _ bounded refl refl refl

new_gateway-IsBounded : (token : String) → IsBounded (new_gateway token)
unfolding new_gateway slice lookup
new_gateway-IsBounded token = record {
  queues = λ id. omega arith;
  streams = λ id. omega arith;
  timed = λ id. refl;
}

-- Whatever the gateway's operations and their order, no worker's queue exceeds 1000 messages, no stream
-- keeps more than 2000 events, and a stream has just as many times as events.
pub Reachable-IsBounded : (token : String) {g : Gateway} → Reachable token g → IsBounded g
Reachable-IsBounded token starts = new_gateway-IsBounded token
Reachable-IsBounded token (steps before step) =
    Step-IsBounded step (Reachable-IsBounded token before)
