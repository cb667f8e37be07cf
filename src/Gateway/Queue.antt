-- ===== src/Gateway/Queue.antt =====
-- Control messages to the workers (pkg/server/server.go: nextSeq, enqueueControl, DispatchRun,
-- DispatchCancel, flushWorkerQueue, handleWorkerPoll). Whether a write to a websocket succeeds is an
-- argument.
pub mod Poll
pub mod Capped
pub mod Flush
use nano_cloud.Base.{
  ℕ, ◌+◌, ◌%◌, ◌^◌, String, Bool, true, false, Option, none, some, List, [], ◌∷◌, ◌++◌, length, ltb,
  leb, if◌then◌else◌,
}
use nano_cloud.Base.Int.{ℤ, pos, negsuc}
use nano_cloud.Base.Map.{Map, lookup, insert, delete}
use nano_cloud.Gateway.Messages.{RunRequest, Message, run_request, cancel_request, Envelope}
use nano_cloud.Gateway.State.{max_worker_queue_per_worker, Gateway, WorkerSession, queue_of, last_n}

-- a uint64 counter
unfoldable pub next_seq : Gateway → ℕ × Gateway
next_seq g = let n = (g.seq_counter + 1) % 2 ^ 64 in (n, record g { seq_counter = n })

-- the append and the cut to the newest messages
unfoldable pub push_capped : ℕ → List Envelope → Envelope → List Envelope
push_capped cap queue env =
    let longer = queue ++ env ∷ [] in if ltb cap (length longer) then last_n cap longer else longer

unfoldable pub enqueue_control : String → Envelope → Gateway → Gateway
enqueue_control worker_id env g = record g {
  worker_queue =
      insert worker_id (push_capped max_worker_queue_per_worker (queue_of g worker_id) env)
        g.worker_queue;
}

-- The rest of DispatchRun and DispatchCancel: a message for an absent worker is queued without an
-- error, and one whose write failed is queued with an error. The result says whether there was no
-- error, and what was written.
unfoldable pub send_or_queue :
    Option WorkerSession → Bool → String → Envelope → Gateway → (Bool × List Envelope) × Gateway
send_or_queue none wrote worker_id env g = ((true, []), enqueue_control worker_id env g)
send_or_queue (some s) true worker_id env g = ((true, env ∷ []), g)
send_or_queue (some s) false worker_id env g = ((false, []), enqueue_control worker_id env g)

unfoldable pub dispatch :
    Message → Bool → String → String → Gateway → (Bool × List Envelope) × Gateway
dispatch message wrote worker_id stream_id g =
    let (n, g1) = next_seq g in
    let env : Envelope = record {
      worker_id = worker_id;
      stream_id = stream_id;
      seq = n;
      message = message;
    } in
    send_or_queue (lookup worker_id g1.workers) wrote worker_id env g1

unfoldable pub dispatch_run :
    RunRequest → Bool → String → String → Gateway → (Bool × List Envelope) × Gateway
dispatch_run req wrote worker_id stream_id g =
    dispatch (run_request req) wrote worker_id stream_id g

unfoldable pub dispatch_cancel :
    String → Bool → String → String → Gateway → (Bool × List Envelope) × Gateway
dispatch_cancel reason wrote worker_id stream_id g =
    dispatch (cancel_request reason) wrote worker_id stream_id g

unfoldable pub enqueue_all : String → List Envelope → Gateway → Gateway
enqueue_all worker_id [] g = g
enqueue_all worker_id (env ∷ rest) g = enqueue_all worker_id rest (enqueue_control worker_id env g)

-- The loop of flushWorkerQueue: `writes` says which of the writes succeed, all where it ends. What
-- was written comes first.
unfoldable pub write_all : String → List Bool → List Envelope → Gateway → List Envelope × Gateway
write_all worker_id writes [] g = ([], g)
write_all worker_id [] (env ∷ rest) g =
    let (written, g1) = write_all worker_id [] rest g in (env ∷ written, g1)
write_all worker_id (true ∷ writes) (env ∷ rest) g =
    let (written, g1) = write_all worker_id writes rest g in (env ∷ written, g1)
write_all worker_id (false ∷ writes) (env ∷ rest) g = ([], enqueue_all worker_id (env ∷ rest) g)

unfoldable pub take_queue : String → Gateway → Gateway
take_queue worker_id g = record g { worker_queue = delete worker_id g.worker_queue }

unfoldable pub flush_worker_queue : String → List Bool → Gateway → List Envelope × Gateway
flush_worker_queue worker_id writes g =
    write_all worker_id writes (queue_of g worker_id) (take_queue worker_id g)

-- max_messages: 100 unless positive, and 1000 at most
unfoldable pub clamp_max : ℤ → ℕ
clamp_max (negsuc n) = 100
clamp_max (pos n) = if ltb 0 n then (if ltb 1000 n then 1000 else n) else 100

-- one round of the loop of handleWorkerPoll: what is delivered and what remains
unfoldable pub poll_step :
    ℕ → ℕ → Envelope → List Envelope → List Envelope → List Envelope × List Envelope
poll_step max last_seq env out remaining =
    if leb env.seq last_seq
    then (out, remaining)
    else if ltb (length out) max
    then (out ++ env ∷ [], remaining)
    else (out, remaining ++ env ∷ [])

unfoldable pub poll_loop :
    ℕ → ℕ → List Envelope → List Envelope → List Envelope → List Envelope × List Envelope
unfolding poll_step
poll_loop max last_seq out remaining [] = (out, remaining)
poll_loop max last_seq out remaining (env ∷ queue) =
    let (out1, remaining1) = poll_step max last_seq env out remaining in
    poll_loop max last_seq out1 remaining1 queue

-- handleWorkerPoll after the checks of token and body
unfoldable pub worker_poll : String → ℕ → ℤ → Gateway → List Envelope × Gateway
worker_poll worker_id last_seq max_messages g =
    let (out, remaining) =
      poll_loop (clamp_max max_messages) last_seq [] [] (queue_of g worker_id) in
    (out, record g { worker_queue = insert worker_id remaining g.worker_queue })
