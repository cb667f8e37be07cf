-- ===== src/Gateway/Runs/Outcome.antt =====
-- What the creation of a run leaves behind, and its cancellation (pkg/server/server.go, createRun,
-- handleCancelRun).
use nano_cloud.Base.{
  ℕ, ◌+◌, ◌%◌, ◌^◌, String, Bool, true, false, Option, none, some, [], ◌∷◌, ◌≡◌, ◌≢◌, ◌∙◌, refl, ap,
  arith, inl, inr, ◌⊎◌, eq_iff, eq_refl,
}
use nano_cloud.Base.Map.{lookup, insert, delete, lookup-insert_self, lookup-delete_self}
use nano_cloud.Base.Result.{Result, ok, err}
use nano_cloud.Gateway.Messages.{RunRequest, run_request, Envelope, completes}
use nano_cloud.Gateway.State.{WorkerSession, Gateway, queue_of, slice, max_worker_queue_per_worker}
use nano_cloud.Gateway.Queue.{
  next_seq, push_capped, enqueue_control, send_or_queue, dispatch, dispatch_run,
}
use nano_cloud.Gateway.Queue.Capped.{queue_of-enqueue_control}
use nano_cloud.Gateway.Streams.{append_stream_event}
use nano_cloud.Gateway.Streams.Append.{append_stream_event-completes}
use nano_cloud.Gateway.Runs.{
  finish_create, CreateRunRequest, CreateError, prepare, register_run, start_run, create_run,
  create_run_during, cancel_run,
}

finish_create-eq-err :
    (meanwhile : Gateway → Gateway) (wrote : Bool) (run_id : String) (now : ℕ) (g : Gateway)
    (o : Result CreateError (String × RunRequest)) (e : CreateError)
    → (finish_create meanwhile wrote run_id now g o).0 ≡ err e
    → (finish_create meanwhile wrote run_id now g o).1 ≡ g
unfolding finish_create
finish_create-eq-err meanwhile wrote run_id now g (err e0) e refused = refl
finish_create-eq-err meanwhile wrote run_id now g (ok p) e refused = cc

-- A request that createRun refuses changes nothing: no message is sent or queued, no number is used
-- up and no run is registered.
pub create_run-eq-err :
    (req : CreateRunRequest) (wrote : Bool) (run_id : String) (now : ℕ) (g : Gateway)
    (e : CreateError)
    → (create_run req wrote run_id now g).0 ≡ err e
    → (create_run req wrote run_id now g).1 ≡ g
unfolding create_run
create_run-eq-err req wrote run_id now g e refused =
    finish_create-eq-err (λ h. h) wrote run_id now g (prepare req g) e refused

-- the message of a run
abbrev pub run_envelope : String → String → RunRequest → Gateway → Envelope
run_envelope worker_id run_id run_req g = record {
  worker_id = worker_id;
  stream_id = run_id;
  seq = (g.seq_counter + 1) % 2 ^ 64;
  message = run_request run_req;
}

send_or_queue-queues :
    (o : Option WorkerSession) (wrote : Bool) (id : String) (env : Envelope) (g : Gateway)
    → (o ≡ none) ⊎ (wrote ≡ false)
    → ((send_or_queue o wrote id env g).0.1 ≡ [])
      × ((send_or_queue o wrote id env g).1 ≡ enqueue_control id env g)
unfolding send_or_queue
send_or_queue-queues none wrote id env g why = (refl, refl)
send_or_queue-queues (some w) false id env g why = (refl, refl)
send_or_queue-queues (some w) true id env g (inl absent) = cc
send_or_queue-queues (some w) true id env g (inr failed) = cc

pub cancel_run_found :
    (wrote : Bool) (run_id worker_id : String) (g : Gateway)
    → lookup run_id g.runs ≡ some worker_id
    → worker_id ≢ ""
    → (cancel_run wrote run_id g).0 ≡ true
unfolding cancel_run
cancel_run_found wrote run_id worker_id g here named = ground (arith, here, eq_iff worker_id "")

pub cancel_run_missing :
    (wrote : Bool) (run_id : String) (g : Gateway)
    → lookup run_id g.runs ≡ none
    → (cancel_run wrote run_id g).0 ≡ false
unfolding cancel_run
cancel_run_missing wrote run_id g absent = ground (arith, absent)

pub completed_run :
    (run_id : String) (env : Envelope) (now : ℕ) (g : Gateway)
    → completes env ≡ true
    → lookup run_id (append_stream_event run_id env now g).runs ≡ none
completed_run run_id env now g done =
    let gone : (append_stream_event run_id env now g).runs ≡ delete run_id g.runs =
      (append_stream_event-completes run_id env now g).0 ∙ rw done refl in
    rw gone (lookup-delete_self run_id g.runs)

completed_at :
    (run_id : String) (env : Envelope) (now : ℕ) (g : Gateway)
    → completes env ≡ true
    → lookup run_id (append_stream_event run_id env now g).stream_done_at ≡ some now
completed_at run_id env now g done =
    let marked : (append_stream_event run_id env now g).stream_done_at
        ≡ insert run_id now g.stream_done_at =
      (append_stream_event-completes run_id env now g).1 ∙ rw done refl in
    rw marked (lookup-insert_self run_id now g.stream_done_at)

module _ (req : CreateRunRequest) (run_id worker_id : String) (run_req : RunRequest) (now : ℕ)
    (g : Gateway) (prepared : prepare req g ≡ ok (worker_id, run_req)) where
  create_run_during-ok :
      (meanwhile : Gateway → Gateway) (wrote : Bool)
      → create_run_during meanwhile req wrote run_id now g
        ≡ finish_create meanwhile wrote run_id now g (ok (worker_id, run_req))
  unfolding create_run_during
  create_run_during-ok meanwhile wrote = ap (finish_create meanwhile wrote run_id now g) prepared

  create_run-ok :
      (wrote : Bool)
      → create_run req wrote run_id now g
        ≡ finish_create (λ h. h) wrote run_id now g (ok (worker_id, run_req))
  unfolding create_run
  create_run-ok wrote = create_run_during-ok (λ h. h) wrote

  -- A run whose worker is connected is written to it at once, with the next sequence number, and the
  -- queue of the worker stays as it was.
  pub create_run-sends :
      (w : WorkerSession)
      → lookup worker_id g.workers ≡ some w
      → ((create_run req true run_id now g).0
          ≡ ok (worker_id, run_envelope worker_id run_id run_req g ∷ []))
        × (queue_of (create_run req true run_id now g).1 worker_id ≡ queue_of g worker_id)
  unfolding finish_create start_run register_run dispatch_run dispatch send_or_queue next_seq slice
  create_run-sends w here = rw (create_run-ok true) (ground (arith, here), ground (arith, here))

  -- A run whose worker is not connected, or whose write fails, is queued for the worker, and the caller
  -- gets the same answer with nothing written.
  pub create_run-queues :
      (wrote : Bool)
      → (lookup worker_id g.workers ≡ none) ⊎ (wrote ≡ false)
      → ((create_run req wrote run_id now g).0 ≡ ok (worker_id, []))
        × (queue_of (create_run req wrote run_id now g).1 worker_id
            ≡ push_capped max_worker_queue_per_worker
                (queue_of g worker_id)
                (run_envelope worker_id run_id run_req g))
  unfolding finish_create start_run register_run dispatch_run dispatch send_or_queue next_seq slice
  create_run-queues wrote why =
      let queued =
        queue_of-enqueue_control worker_id worker_id (run_envelope worker_id run_id run_req g)
          (next_seq g).1 in
      let (silent, state) =
        send_or_queue-queues (lookup worker_id g.workers) wrote worker_id
          (run_envelope worker_id run_id run_req g) (next_seq g).1 why in
      rw (create_run-ok wrote, silent, state) (refl, rw eq_refl at queued)

  pub created_run :
      (wrote : Bool) → lookup run_id (create_run req wrote run_id now g).1.runs ≡ some worker_id
  unfolding finish_create start_run register_run
  created_run wrote = rw (create_run-ok wrote, lookup-insert_self) refl

  -- createRun registers the run after it has dispatched it, under another hold of the lock. Where the
  -- worker's completion comes between the two, the run is registered all the same: its end is marked,
  -- and a cancellation of it is accepted. Where the completion comes after both, it is not.
  pub create_run_during-completed :
      (env : Envelope) (later : ℕ) (wrote wrote_cancel : Bool)
      → worker_id ≢ ""
      → completes env ≡ true
      → let raced =
          (create_run_during (append_stream_event run_id env later) req wrote run_id now g).1 in
        let ordered = append_stream_event run_id env later (create_run req wrote run_id now g).1 in
        (lookup run_id raced.stream_done_at ≡ some later)
        × ((cancel_run wrote_cancel run_id raced).0 ≡ true)
        × (lookup run_id ordered.stream_done_at ≡ some later)
        × ((cancel_run wrote_cancel run_id ordered).0 ≡ false)
  unfolding finish_create start_run register_run
  create_run_during-completed env later wrote wrote_cancel named done =
      let created = (create_run req wrote run_id now g).1 in
      let sent = (dispatch_run run_req wrote worker_id run_id g).1 in
      let ended = append_stream_event run_id env later sent in
      let raced = register_run run_id worker_id now ended in
      let same : (create_run_during (append_stream_event run_id env later) req wrote run_id now g).1
          ≡ raced =
        rw create_run_during-ok refl in
      rw same (
        completed_at run_id env later sent done,
        cancel_run_found wrote_cancel run_id worker_id raced
            (lookup-insert_self run_id worker_id ended.runs) named,
        completed_at run_id env later created done,
        cancel_run_missing wrote_cancel run_id _ (completed_run run_id env later created done),
      )
