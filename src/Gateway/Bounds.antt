-- ===== src/Gateway/Bounds.antt =====
-- The bounds on queues and streams, kept by the operations on them (pkg/server/server.go).
pub mod Handlers
use nano_cloud.Base.{
  ℕ, zero, suc, ◌+◌, ◌-◌, ◌≤◌, ◌<◌, String, Bool, true, false, Option, none, some, List, [], ◌∷◌,
  ◌++◌, ◌≡◌, ◌∙◌, refl, sym, ap, arith, length, length-append, length-drop, take, drop,
  take-append-drop, if◌then◌else◌, Bool-cases, Option-cases, inl, inr, ◌⊎◌, ◌==◌, eq_iff, eq_refl,
}
use nano_cloud.Base.Int.{ℤ}
use nano_cloud.Base.Map.{Map, lookup, insert, delete, lookup-insert, lookup-delete}
use nano_cloud.Gateway.Messages.{Envelope, Message}
use nano_cloud.Gateway.State.{
  Gateway, WorkerSession, queue_of, events_of, times_of, slice, max_worker_queue_per_worker,
  max_stream_events_per_stream,
}
use nano_cloud.Gateway.Queue
use nano_cloud.Gateway.Queue.Capped.{length-push_capped, queue_of-enqueue_control}
use nano_cloud.Gateway.Queue.Poll.{unseen, queue_of-worker_poll}
use nano_cloud.Gateway.Streams.Sweep.{view, done_stale, idle_stale, done_step_lem, idle_step_lem}
use nano_cloud.Gateway.Streams
use nano_cloud.Gateway.Streams.Append.{
  append-worker_queue, length-cut_events, length-cut_times, events_of-append, times_of-append,
  append-worker_queue,
}
use nano_cloud.Gateway.Streams.{
  keys, expire_sessions, each, cleanup, idle_step, purge_done, purge_idle, done_step,
  append_stream_event,
}
use nano_cloud.Gateway.Queue.{
  next_seq, clamp_max, send_or_queue, dispatch, write_all, take_queue, enqueue_control, enqueue_all,
  worker_poll, flush_worker_queue,
}

-- No queue has more than 1000 messages, no stream more than 2000 events, and each event has its time.
pub record IsBounded (g : Gateway) : Type 0 where
  pub queues : (id : String) → length (queue_of g id) ≤ max_worker_queue_per_worker
  pub streams : (id : String) → length (events_of g id) ≤ max_stream_events_per_stream
  pub timed : (id : String) → length (events_of g id) ≡ length (times_of g id)

-- only the queues, the events and the times matter
pub IsBounded-same :
    (g h : Gateway)
    → IsBounded g
    → h.worker_queue ≡ g.worker_queue
    → h.stream_events ≡ g.stream_events
    → h.stream_event_times ≡ g.stream_event_times
    → IsBounded h
IsBounded-same g h bounded queue events times = record {
  queues = λ id. rw queue (bounded.queues id);
  streams = λ id. rw events (bounded.streams id);
  timed = λ id. rw (events, times) (bounded.timed id);
}

pub enqueue_control-IsBounded :
    (id : String) (env : Envelope) (g : Gateway)
    → IsBounded g
    → IsBounded (enqueue_control id env g)
unfolding enqueue_control
enqueue_control-IsBounded id env g bounded = record {
  queues = λ j. rw (queue_of-enqueue_control id j env g) (elim (Bool-cases (id == j)) [
    | inl same ↦ rw same (length-push_capped max_worker_queue_per_worker (queue_of g id) env)
    | inr other ↦ rw other (bounded.queues j)
  ]);
  streams = bounded.streams;
  timed = bounded.timed;
}

enqueue_all-IsBounded :
    (id : String) (envs : List Envelope) (g : Gateway)
    → IsBounded g
    → IsBounded (enqueue_all id envs g)
unfolding enqueue_all
enqueue_all-IsBounded id [] g bounded = bounded
enqueue_all-IsBounded id (env ∷ envs) g bounded =
    enqueue_all-IsBounded id envs (enqueue_control id env g)
      (enqueue_control-IsBounded id env g bounded)

write_all-IsBounded :
    (id : String) (writes : List Bool) (envs : List Envelope) (g : Gateway)
    → IsBounded g
    → IsBounded (write_all id writes envs g).1
unfolding write_all
write_all-IsBounded id writes [] g bounded = bounded
write_all-IsBounded id [] (env ∷ rest) g bounded = write_all-IsBounded id [] rest g bounded
write_all-IsBounded id (true ∷ writes) (env ∷ rest) g bounded =
    write_all-IsBounded id writes rest g bounded
write_all-IsBounded id (false ∷ writes) (env ∷ rest) g bounded =
    enqueue_all-IsBounded id (env ∷ rest) g bounded

pub take_queue-IsBounded : (id : String) (g : Gateway) → IsBounded g → IsBounded (take_queue id g)
unfolding take_queue slice
take_queue-IsBounded id g bounded = record {
  queues = λ j. rw (lookup-delete id j g.worker_queue) (elim (Bool-cases (id == j)) [
    | inl same ↦ rw same (omega arith)
    | inr other ↦ rw other (bounded.queues j)
  ]);
  streams = bounded.streams;
  timed = bounded.timed;
}

pub flush_worker_queue-IsBounded :
    (id : String) (writes : List Bool) (g : Gateway)
    → IsBounded g
    → IsBounded (flush_worker_queue id writes g).1
unfolding flush_worker_queue
flush_worker_queue-IsBounded id writes g bounded =
    write_all-IsBounded id writes (queue_of g id) (take_queue id g)
      (take_queue-IsBounded id g bounded)

pub append_stream_event-IsBounded :
    (id : String) (env : Envelope) (now : ℕ) (g : Gateway)
    → IsBounded g
    → IsBounded (append_stream_event id env now g)
append_stream_event-IsBounded id env now g bounded = record {
  queues = λ j. rw (append-worker_queue id env now g) (bounded.queues j);
  streams = λ j. rw (events_of-append id j env now g) (elim (Bool-cases (id == j)) [
    | inl same ↦ rw same (length-cut_events (events_of g id ++ env ∷ []))
    | inr other ↦ rw other (bounded.streams j)
  ]);
  timed = λ j.
      rw (events_of-append id j env now g, times_of-append id j env now g)
        (elim (Bool-cases (id == j)) [
          | inl same ↦ rw same (
              length-cut_times (events_of g id ++ env ∷ []) (times_of g id ++ now ∷ []) (
                omega (
                  arith,
                  length-append (events_of g id) (env ∷ []),
                  length-append (times_of g id) (now ∷ []),
                  bounded.timed id,
                )))
          | inr other ↦ rw other (bounded.timed j)
        ]);
}

length-unseen : (last_seq : ℕ) (envs : List Envelope) → length (unseen last_seq envs) ≤ length envs
length-unseen last_seq [] = omega arith
length-unseen last_seq (env ∷ envs) = ground (arith, length-unseen last_seq envs)

pub worker_poll-IsBounded :
    (id : String) (last_seq : ℕ) (max_messages : ℤ) (g : Gateway)
    → IsBounded g
    → IsBounded (worker_poll id last_seq max_messages g).1
unfolding worker_poll
worker_poll-IsBounded id last_seq max_messages g bounded = record {
  queues = λ j.
      rw (queue_of-worker_poll id j last_seq max_messages g) (elim (Bool-cases (id == j)) [
        | inl same ↦ rw same (
            omega (
              arith,
              length-drop (clamp_max max_messages) (unseen last_seq (queue_of g id)),
              length-unseen last_seq (queue_of g id),
              bounded.queues id,
            ))
        | inr other ↦ rw other (bounded.queues j)
      ]);
  streams = bounded.streams;
  timed = bounded.timed;
}

purge_idle-IsBounded : (id : String) (g : Gateway) → IsBounded g → IsBounded (purge_idle id g)
unfolding purge_idle slice
purge_idle-IsBounded id g bounded = record {
  queues = bounded.queues;
  streams = λ j. rw (lookup-delete id j g.stream_events) (elim (Bool-cases (id == j)) [
    | inl same ↦ rw same (omega arith)
    | inr other ↦ rw other (bounded.streams j)
  ]);
  timed = λ j.
      rw (lookup-delete id j g.stream_events, lookup-delete id j g.stream_event_times)
        (elim (Bool-cases (id == j)) [
          | inl same ↦ rw same refl
          | inr other ↦ rw other (bounded.timed j)
        ]);
}

done_step-IsBounded :
    (now : ℕ) (id : String) (g : Gateway) → IsBounded g → IsBounded (done_step now id g)
unfolding purge_done
done_step-IsBounded now id g bounded =
    let purged = purge_idle-IsBounded id g bounded in
    rw done_step_lem (elim (Bool-cases (done_stale now (view id g))) [
      | inl old ↦ rw old (IsBounded-same (purge_idle id g) (purge_done id g) purged refl refl refl)
      | inr new ↦ rw new bounded
    ])

idle_step-IsBounded :
    (now : ℕ) (id : String) (g : Gateway) → IsBounded g → IsBounded (idle_step now id g)
idle_step-IsBounded now id g bounded =
    rw idle_step_lem (elim (Bool-cases (idle_stale now (view id g))) [
      | inl old ↦ rw old (purge_idle-IsBounded id g bounded)
      | inr new ↦ rw new bounded
    ])

each-IsBounded :
    (step : String → Gateway → Gateway)
    → ((id : String) (g : Gateway) → IsBounded g → IsBounded (step id g))
    → (ids : List String) (g : Gateway) → IsBounded g
    → IsBounded (each step ids g)
unfolding each
each-IsBounded step keeps [] g bounded = bounded
each-IsBounded step keeps (id ∷ ids) g bounded =
    each-IsBounded step keeps ids (step id g) (keeps id g bounded)

pub cleanup-IsBounded : (now : ℕ) (g : Gateway) → IsBounded g → IsBounded (cleanup now g)
unfolding cleanup expire_sessions
cleanup-IsBounded now g bounded =
    let g1 = each (done_step now) (keys g.stream_done_at) g in
    let g2 = each (idle_step now) (keys g1.stream_last_at) g1 in
    let bounded1 =
      each-IsBounded (done_step now) (done_step-IsBounded now) (keys g.stream_done_at) g bounded in
    let bounded2 =
      each-IsBounded (idle_step now) (idle_step-IsBounded now) (keys g1.stream_last_at) g1
        bounded1 in
    IsBounded-same g2 (expire_sessions now g2) bounded2 refl refl refl

send_or_queue-IsBounded :
    (o : Option WorkerSession) (wrote : Bool) (id : String) (env : Envelope) (g : Gateway)
    → IsBounded g
    → IsBounded (send_or_queue o wrote id env g).1
unfolding send_or_queue
send_or_queue-IsBounded none wrote id env g bounded = enqueue_control-IsBounded id env g bounded
send_or_queue-IsBounded (some w) true id env g bounded = bounded
send_or_queue-IsBounded (some w) false id env g bounded = enqueue_control-IsBounded id env g bounded

pub dispatch-IsBounded :
    (message : Message) (wrote : Bool) (id stream_id : String) (g : Gateway)
    → IsBounded g
    → IsBounded (dispatch message wrote id stream_id g).1
unfolding dispatch next_seq
dispatch-IsBounded message wrote id stream_id g bounded =
    send_or_queue-IsBounded (lookup id g.workers) wrote id _ _
      (IsBounded-same g (next_seq g).1 bounded refl refl refl)
