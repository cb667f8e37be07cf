-- ===== src/Gateway/Connect.antt =====
-- The connection of a worker (pkg/server/server.go: handleWorkerConnect): the check of its token, the
-- handshake, the messages of the session, and its end.
pub mod Binding
pub mod Ending
use nano_cloud.Base.{
  ℕ, String, Bool, true, false, not, ◌&&◌, ◌||◌, Option, none, some, List, [], ◌∷◌, ◌==◌, nat_eq,
  if◌then◌else◌,
}
use nano_cloud.Base.Map.{Map, lookup, insert, delete}
use nano_cloud.Base.Result.{Result, ok, err}
use nano_cloud.Store.Disk.{Error, Disk}
use nano_cloud.Store.Workers.{validate_worker_token}
use nano_cloud.Gateway.Messages.{
  Message, worker_heartbeat, WorkerHello, Envelope, get_worker_hello, get_run_event,
}
use nano_cloud.Gateway.State.{WorkerSession, Gateway}
use nano_cloud.Gateway.Queue.{flush_worker_queue}
use nano_cloud.Gateway.Streams.{append_stream_event}
use nano_cloud.Gateway.Auth.{HttpRequest, Environment, check_token, parse_bearer_token}

-- 401, a connection that is closed without a session, or the session of a worker id
pub data Handshake : Type 0 where
  refused closed : Handshake
  session : String → Handshake

-- the worker token of a request without the gateway token
unfoldable pub worker_token_of : HttpRequest → String
worker_token_of r = let tok = parse_bearer_token r in if tok == "" then r.x_worker_token else tok

unfoldable pub valid_id : Result Error String → Option String
valid_id (err e) = none
valid_id (ok id) = some id

-- the id that the token is bound to, "" for the gateway token, none for 401
unfoldable pub expected_worker_id :
    (String → String) → Environment → HttpRequest → Gateway → Disk → Option String
unfolding worker_token_of valid_id
expected_worker_id hash e r g d =
    if check_token e r g
    then some ""
    else if worker_token_of r == ""
    then none
    else valid_id (validate_worker_token hash (worker_token_of r) d)

-- The id of the session: a bound token needs the hello to name its worker. `fresh` is
-- worker-<nanoseconds>.
unfoldable pub session_id : String → String → String → Option String
session_id expected named fresh =
    if named == ""
    then (if expected == "" then some fresh else none)
    else if not (expected == "") && not (named == expected)
    then none
    else some named

unfoldable pub register_session : String → WorkerSession → Gateway → Gateway
register_session id worker g = record g { workers = insert id worker g.workers }

-- The registration after the hello, and the flush of the queue. What was written comes first.
unfoldable pub open_session :
    String → ℕ → WorkerHello → ℕ → List Bool → Gateway → List Envelope × Gateway
unfolding register_session flush_worker_queue
open_session id conn hello now writes g =
    flush_worker_queue id writes
      (register_session id (record { conn = conn; hello = some hello; last_heartbeat = now }) g)

unfoldable pub greet :
    String → String → ℕ → Envelope → ℕ → List Bool → Gateway → Handshake × Gateway
unfolding session_id open_session get_worker_hello
greet expected fresh conn env now writes g = elim (get_worker_hello env.message) [
  | none ↦ (closed, g)
  | some hello ↦ elim (session_id expected env.worker_id fresh) [
    | none ↦ (closed, g)
    | some id ↦ (session id, (open_session id conn hello now writes g).1)
  ]
]

-- The handler up to its loop. `first` is the first envelope, none where the upgrade or the read
-- fails.
unfoldable pub connect :
    (String → String)
    → Environment
    → HttpRequest
    → String
    → ℕ
    → Option Envelope
    → ℕ
    → List Bool
    → Gateway
    → Disk
    → Handshake × Gateway
unfolding expected_worker_id greet
connect hash e r fresh conn first now writes g d = elim (expected_worker_id hash e r g d) [
  | none ↦ (refused, g)
  | some expected ↦ elim first [
    | none ↦ (closed, g)
    | some env ↦ greet expected fresh conn env now writes g
  ]
]

-- A heartbeat writes to the session of its connection, which the map holds unless another
-- connection of the same id has replaced it.
unfoldable pub beat : String → ℕ → ℕ → Gateway → Gateway
beat id conn now g = elim (lookup id g.workers) [
  | none ↦ g
  | some s ↦
      if nat_eq s.conn conn
      then record g { workers = insert id (record s { last_heartbeat = now }) g.workers }
      else g
]

unfoldable pub is_heartbeat : Message → Bool
is_heartbeat worker_heartbeat = true
is_heartbeat _ = false

-- one round of the loop over the session's messages
unfoldable pub receive : String → ℕ → Envelope → ℕ → Gateway → Gateway
unfolding beat is_heartbeat get_run_event append_stream_event
receive id conn env now g =
    if is_heartbeat env.message then beat id conn now g else elim (get_run_event env.message) [
      | none ↦ g
      | some e ↦ if env.stream_id == "" then g else append_stream_event env.stream_id env now g
    ]

-- the end of the handler, whichever session the map holds
unfoldable pub disconnect : String → Gateway → Gateway
disconnect id g = record g { workers = delete id g.workers }
