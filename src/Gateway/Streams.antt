-- ===== src/Gateway/Streams.antt =====
-- The event streams of the runs (pkg/server/server.go: appendStreamEvent, the loop of
-- handleWorkerEvents, the subscription of handleRunEvents, cleanupLoop). Times are seconds.
pub mod Append
pub mod Handover
pub mod Sweep
pub mod Cleanup
use nano_cloud.Base.{
  ℕ, ◌+◌, ◌-◌, String, Bool, true, false, not, ◌&&◌, ◌||◌, Option, none, some, List, [], ◌∷◌, ◌++◌,
  ◌==◌, length, ltb, leb, nat_eq, keep_if, if◌then◌else◌, map,
}
use nano_cloud.Base.Map.{Map, lookup, insert, delete, keep}
use nano_cloud.Gateway.Messages.{Envelope, get_run_event, completes}
use nano_cloud.Gateway.State.{
  max_stream_events_per_stream, stream_retention, channel_capacity, Subscriber, Gateway, events_of,
  times_of, subs_of, last_n,
}

-- The cut of both slices, the times only where the events are too many as well.
unfoldable pub cut_events : List Envelope → List Envelope
cut_events events =
    if ltb max_stream_events_per_stream (length events)
    then last_n max_stream_events_per_stream events
    else events

unfoldable pub cut_times : List Envelope → List ℕ → List ℕ
cut_times events times =
    if ltb max_stream_events_per_stream (length events)
      && ltb max_stream_events_per_stream (length times)
    then last_n max_stream_events_per_stream times
    else times

-- a send that does not wait: a full buffer loses the event
unfoldable pub offer : Envelope → Subscriber → Subscriber
offer env s =
    if ltb (length s.buffer) channel_capacity then record s { buffer = s.buffer ++ env ∷ [] } else s

unfoldable pub offer_all : Envelope → List Subscriber → List Subscriber
unfolding offer
offer_all env [] = []
offer_all env (s ∷ subs) = offer env s ∷ offer_all env subs

unfoldable pub record_event : String → Envelope → ℕ → Gateway → Gateway
unfolding cut_events cut_times
record_event id env now g =
    let events = events_of g id ++ env ∷ [] in
    let times = times_of g id ++ now ∷ [] in
    record g {
      stream_events = insert id (cut_events events) g.stream_events;
      stream_event_times = insert id (cut_times events times) g.stream_event_times;
      stream_last_at = insert id now g.stream_last_at;
    }

unfoldable pub mark_done : String → ℕ → Gateway → Gateway
mark_done id now g = record g {
  stream_done_at = insert id now g.stream_done_at;
  runs = delete id g.runs;
}

unfoldable pub publish : String → Envelope → Gateway → Gateway
unfolding offer_all
publish id env g = elim (lookup id g.stream_subs) [
  | none ↦ g
  | some subs ↦ record g { stream_subs = insert id (offer_all env subs) g.stream_subs }
]

unfoldable pub append_stream_event : String → Envelope → ℕ → Gateway → Gateway
unfolding record_event mark_done publish completes
append_stream_event id env now g =
    let g1 = record_event id env now g in
    publish id env (if completes env then mark_done id now g1 else g1)

-- The loop of handleWorkerEvents over the messages, `none` for one that does not decode, within one
-- second; the number of accepted ones comes first.
unfoldable pub accept : Option Envelope → Bool
accept none = false
accept (some env) =
    not (env.stream_id == "") && elim (get_run_event env.message) [ none ↦ false | some e ↦ true ]

unfoldable pub append_accepted : Option Envelope → ℕ → Gateway → Gateway
append_accepted none now g = g
append_accepted (some env) now g =
    if accept (some env) then append_stream_event env.stream_id env now g else g

unfoldable pub worker_events : List (Option Envelope) → ℕ → Gateway → ℕ × Gateway
worker_events [] now g = (0, g)
worker_events (m ∷ rest) now g =
    let (n, g1) = worker_events rest now (append_accepted m now g) in
    (if accept m then n + 1 else n, g1)

-- the subscription, and the copy of the history that is made under the same lock
unfoldable pub subscribe : String → ℕ → Gateway → List Envelope × Gateway
subscribe id chan g = (
  events_of g id,
  record g {
    stream_subs = insert id (record { chan = chan; buffer = [] } ∷ subs_of g id) g.stream_subs;
  },
)

unfoldable pub without_chan : ℕ → List Subscriber → List Subscriber
without_chan chan = keep_if (λ s. not (nat_eq s.chan chan))

-- the deferred function: the set of an id is deleted with its last member
unfoldable pub put_subs : String → List Subscriber → Gateway → Gateway
put_subs id [] g = record g { stream_subs = delete id g.stream_subs }
put_subs id (s ∷ subs) g = record g { stream_subs = insert id (s ∷ subs) g.stream_subs }

unfoldable pub unsubscribe : String → ℕ → Gateway → Gateway
unfolding put_subs without_chan
unsubscribe id chan g = elim (lookup id g.stream_subs) [
  | none ↦ g
  | some subs ↦ put_subs id (without_chan chan subs) g
]

-- exp.After(now)
unfoldable pub is_after : ℕ → ℕ → Bool
is_after t now = ltb now t

unfoldable pub has_subs : Gateway → String → Bool
has_subs g id = elim (subs_of g id) [ [] ↦ false | s ∷ subs ↦ true ]

unfoldable pub purge_idle : String → Gateway → Gateway
purge_idle id g = record g {
  stream_events = delete id g.stream_events;
  stream_event_times = delete id g.stream_event_times;
  stream_last_at = delete id g.stream_last_at;
  stream_subs = delete id g.stream_subs;
  runs = delete id g.runs;
}

unfoldable pub purge_done : String → Gateway → Gateway
unfolding purge_idle
purge_done id g =
    let g1 = purge_idle id g in record g1 { stream_done_at = delete id g1.stream_done_at }

-- doneAt or lastAt after the cutoff, now - streamRetention
unfoldable pub is_recent : ℕ → ℕ → Bool
is_recent now t = is_after (t + stream_retention) now

unfoldable pub done_step : ℕ → String → Gateway → Gateway
done_step now id g = elim (lookup id g.stream_done_at) [
  | none ↦ g
  | some t ↦ if is_recent now t || has_subs g id then g else purge_done id g
]

unfoldable pub idle_step : ℕ → String → Gateway → Gateway
idle_step now id g = elim (lookup id g.stream_last_at) [
  | none ↦ g
  | some t ↦ elim (lookup id g.stream_done_at) [
    | some done ↦ g
    | none ↦ if is_recent now t || has_subs g id then g else purge_idle id g
  ]
]

-- A loop over the keys of a map, as they were at its start; a key that is gone is not visited.
unfoldable pub each : (String → Gateway → Gateway) → List String → Gateway → Gateway
each f [] g = g
each f (id ∷ ids) g = each f ids (f id g)

abbrev pub keys {ℓ} : {V : Type ℓ} → Map V → List String
keys [] = []
keys ((k, v) ∷ m) = k ∷ keys m

unfoldable pub expire_sessions : ℕ → Gateway → Gateway
expire_sessions now g = record g {
  console_sessions = keep (λ sid exp. is_after exp now) g.console_sessions;
}

-- one tick of cleanupLoop
unfoldable pub cleanup : ℕ → Gateway → Gateway
unfolding each
cleanup now g =
    let g1 = each (done_step now) (keys g.stream_done_at) g in
    let g2 = each (idle_step now) (keys g1.stream_last_at) g1 in expire_sessions now g2
