-- ===== src/Gateway/State.antt =====
-- The state of the gateway (pkg/server/server.go, `GatewayServer` and `WorkerSession`). Each
-- operation of the modules below is what the code does under one hold of `mu`, or a sequence of such.
use nano_cloud.Base.{ℕ, ◌-◌, String, Option, none, some, List, [], drop, length}
use nano_cloud.Base.Map.{Map, lookup}
use nano_cloud.Gateway.Messages.{WorkerHello, Envelope}

abbrev pub max_worker_queue_per_worker : ℕ
max_worker_queue_per_worker = 1000

abbrev pub max_stream_events_per_stream : ℕ
max_stream_events_per_stream = 2000

-- streamRetention, in seconds
abbrev pub stream_retention : ℕ
stream_retention = 600

-- the capacity of a subscriber's channel (`handleRunEvents`)
abbrev pub channel_capacity : ℕ
channel_capacity = 64

-- `conn` tells the connections apart; the session is shared with the goroutine of its connection.
pub record WorkerSession : Type 0 where
  pub conn : ℕ
  pub hello : Option WorkerHello
  pub last_heartbeat : ℕ

-- a subscriber's channel and what waits in its buffer
pub record Subscriber : Type 0 where
  pub chan : ℕ
  pub buffer : List Envelope

pub record Gateway : Type 0 where
  pub workers : Map WorkerSession
  pub worker_queue : Map (List Envelope)
  pub stream_events : Map (List Envelope)
  pub stream_event_times : Map (List ℕ)
  pub stream_last_at : Map ℕ
  pub stream_done_at : Map ℕ
  pub stream_subs : Map (List Subscriber)
  pub runs : Map String
  pub seq_counter : ℕ
  pub token : String
  pub console_sessions : Map ℕ

-- a map of slices read at a key: nil, the empty slice, where there is none
unfoldable pub slice {ℓ} : {A : Type ℓ} → Option (List A) → List A
slice none = []
slice (some xs) = xs

abbrev pub queue_of : Gateway → String → List Envelope
queue_of g id = slice (lookup id g.worker_queue)

abbrev pub events_of : Gateway → String → List Envelope
events_of g id = slice (lookup id g.stream_events)

abbrev pub times_of : Gateway → String → List ℕ
times_of g id = slice (lookup id g.stream_event_times)

abbrev pub subs_of : Gateway → String → List Subscriber
subs_of g id = slice (lookup id g.stream_subs)

-- xs[len(xs)-n:], where the code has checked that there are more than n elements
unfoldable pub last_n {ℓ} : {A : Type ℓ} → ℕ → List A → List A
last_n n xs = drop (length xs - n) xs
