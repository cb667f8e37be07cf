-- ===== src/Gateway/Connect/Ending.antt =====
-- The end of a connection while another one of the same worker is open (pkg/server/server.go,
-- handleWorkerConnect).
use nano_cloud.Base.{
  ◌^◌, ◌%◌, ◌+◌, ℕ, String, Bool, true, false, none, some, List, [], ◌∷◌, ◌≡◌, refl, arith,
}
use nano_cloud.Base.Map.{lookup, lookup-insert_self, lookup-delete_self}
use nano_cloud.Gateway.Messages.{WorkerHello, Message, Envelope}
use nano_cloud.Gateway.State.{Gateway}
use nano_cloud.Gateway.Queue.{
  next_seq, enqueue_control, enqueue_all, write_all, take_queue, flush_worker_queue, dispatch,
  send_or_queue,
}
use nano_cloud.Gateway.Connect.{register_session, WorkerSession, open_session, disconnect, beat}

enqueue_all-workers :
    (id : String) (envs : List Envelope) (g : Gateway) → (enqueue_all id envs g).workers ≡ g.workers
unfolding enqueue_all enqueue_control
enqueue_all-workers id [] g = refl
enqueue_all-workers id (env ∷ envs) g = enqueue_all-workers id envs (enqueue_control id env g)

write_all-workers :
    (id : String) (writes : List Bool) (envs : List Envelope) (g : Gateway)
    → (write_all id writes envs g).1.workers ≡ g.workers
unfolding write_all
write_all-workers id writes [] g = refl
write_all-workers id [] (env ∷ rest) g = write_all-workers id [] rest g
write_all-workers id (true ∷ writes) (env ∷ rest) g = write_all-workers id writes rest g
write_all-workers id (false ∷ writes) (env ∷ rest) g = enqueue_all-workers id (env ∷ rest) g

-- A worker that connects is connected, whatever becomes of the flush of its queue.
pub open_session-workers :
    (id : String) (conn : ℕ) (hello : WorkerHello) (now : ℕ) (writes : List Bool) (g : Gateway)
    → lookup id (open_session id conn hello now writes g).1.workers
      ≡ some (record { conn = conn; hello = some hello; last_heartbeat = now })
unfolding open_session register_session flush_worker_queue take_queue
open_session-workers id conn hello now writes g =
    rw write_all-workers (lookup-insert_self id _ g.workers)

beat-absent :
    (id : String) (conn now : ℕ) (g : Gateway) → lookup id g.workers ≡ none → beat id conn now g ≡ g
unfolding beat
beat-absent id conn now g absent = ground (arith, absent)

dispatch-absent :
    (id stream_id : String) (message : Message) (wrote : Bool) (g : Gateway)
    → lookup id g.workers ≡ none
    → (dispatch message wrote id stream_id g).0.1 ≡ []
unfolding dispatch send_or_queue next_seq
dispatch-absent id stream_id message wrote g absent = ground (arith, absent)

-- the message that the gateway sends next
abbrev pub next_envelope : String → String → Message → Gateway → Envelope
next_envelope id stream_id message g = record {
  worker_id = id;
  stream_id = stream_id;
  seq = (g.seq_counter + 1) % 2 ^ 64;
  message = message;
}

dispatch-present :
    (id stream_id : String) (message : Message) (w : WorkerSession) (g : Gateway)
    → lookup id g.workers ≡ some w
    → (dispatch message true id stream_id g).0.1 ≡ next_envelope id stream_id message g ∷ []
unfolding dispatch send_or_queue next_seq
dispatch-present id stream_id message w g here = ground (arith, here)

module _ (id stream_id : String) (old new : ℕ) (hello1 hello2 : WorkerHello) (now1 now2 now3 : ℕ)
    (writes1 writes2 : List Bool) (message : Message) (g : Gateway) where
  -- A worker connects, connects again, and then its first connection ends. Before that end the
  -- gateway holds the second connection and writes a message for the worker to it. After the end the
  -- gateway holds none, no heartbeat of the second connection brings it back, and a message for the
  -- worker is not written.
  pub disconnect-open_session :
      let first = (open_session id old hello1 now1 writes1 g).1 in
      let second = (open_session id new hello2 now2 writes2 first).1 in
      let ended = beat id new now3 (disconnect id second) in
      (lookup id second.workers
        ≡ some (record { conn = new; hello = some hello2; last_heartbeat = now2 }))
      × ((dispatch message true id stream_id second).0.1
          ≡ next_envelope id stream_id message second ∷ [])
      × (lookup id ended.workers ≡ none)
      × ((dispatch message true id stream_id ended).0.1 ≡ [])
  unfolding disconnect
  disconnect-open_session =
      let first = (open_session id old hello1 now1 writes1 g).1 in
      let second = (open_session id new hello2 now2 writes2 first).1 in
      let held = open_session-workers id new hello2 now2 writes2 first in
      let absent : lookup id (disconnect id second).workers ≡ none =
        lookup-delete_self id second.workers in
      let same = beat-absent id new now3 (disconnect id second) absent in
      (
        held,
        dispatch-present id stream_id message _ second held,
        rw same absent,
        rw same (dispatch-absent id stream_id message true _ absent),
      )
