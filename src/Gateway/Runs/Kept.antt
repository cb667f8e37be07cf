-- ===== src/Gateway/Runs/Kept.antt =====
-- The operations of the gateway that leave the registration of a run as it is, or leave none (pkg/server/server.go).
use nano_cloud.Base.{
  ℕ, String, Bool, true, false, Option, none, some, List, [], ◌∷◌, ◌≡◌, ◌≢◌, ◌∙◌, refl, ap, arith,
  Bool-cases, Option-cases, inl, inr, ◌⊎◌, eq_iff, All,
}
use nano_cloud.Base.Map.{lookup, lookup-insert, lookup-delete}
use nano_cloud.Base.Result.{Result, ok, err}
use nano_cloud.Gateway.Messages.{Message, Envelope, WorkerHello, RunRequest, completes}
use nano_cloud.Gateway.State.{Subscriber, WorkerSession, Gateway}
use nano_cloud.Gateway.Queue.{
  next_seq, enqueue_control, enqueue_all, write_all, take_queue, flush_worker_queue, send_or_queue,
  dispatch, dispatch_run, dispatch_cancel,
}
use nano_cloud.Gateway.Streams.{
  append_stream_event, accept, append_accepted, worker_events, unsubscribe, put_subs, without_chan,
  cleanup,
}
use nano_cloud.Gateway.Streams.Append.{append_stream_event-completes}
use nano_cloud.Gateway.Streams.Sweep.{view}
use nano_cloud.Gateway.Streams.Cleanup.{IsOver, cleanup-running}
use nano_cloud.Gateway.Runs.{CreateError, register_run, start_run, finish_create, cancel_run}
use nano_cloud.Gateway.Connect.{open_session, register_session, beat, receive}
use nano_cloud.Gateway.Bounds.Handlers.{receive-cases, cancel_run-cases}

enqueue_all-runs :
    (id : String) (envs : List Envelope) (g : Gateway) → (enqueue_all id envs g).runs ≡ g.runs
unfolding enqueue_all enqueue_control
enqueue_all-runs id [] g = refl
enqueue_all-runs id (env ∷ envs) g = enqueue_all-runs id envs (enqueue_control id env g)

write_all-runs :
    (id : String) (writes : List Bool) (envs : List Envelope) (g : Gateway)
    → (write_all id writes envs g).1.runs ≡ g.runs
unfolding write_all
write_all-runs id writes [] g = refl
write_all-runs id [] (env ∷ rest) g = write_all-runs id [] rest g
write_all-runs id (true ∷ writes) (env ∷ rest) g = write_all-runs id writes rest g
write_all-runs id (false ∷ writes) (env ∷ rest) g = enqueue_all-runs id (env ∷ rest) g

pub open_session-runs :
    (id : String) (conn : ℕ) (hello : WorkerHello) (now : ℕ) (writes : List Bool) (g : Gateway)
    → (open_session id conn hello now writes g).1.runs ≡ g.runs
unfolding open_session register_session flush_worker_queue take_queue
open_session-runs id conn hello now writes g = write_all-runs id writes _ _

send_or_queue-runs :
    (o : Option WorkerSession) (wrote : Bool) (id : String) (env : Envelope) (g : Gateway)
    → (send_or_queue o wrote id env g).1.runs ≡ g.runs
unfolding send_or_queue enqueue_control
send_or_queue-runs none wrote id env g = refl
send_or_queue-runs (some w) true id env g = refl
send_or_queue-runs (some w) false id env g = refl

pub dispatch-runs :
    (message : Message) (wrote : Bool) (id stream_id : String) (g : Gateway)
    → (dispatch message wrote id stream_id g).1.runs ≡ g.runs
unfolding dispatch next_seq
dispatch-runs message wrote id stream_id g = send_or_queue-runs (lookup id g.workers) wrote id _ _

pub beat-runs : (id : String) (conn now : ℕ) (g : Gateway) → (beat id conn now g).runs ≡ g.runs
unfolding beat
beat-runs id conn now g = ground arith

-- an event that does not end the run `k`
abbrev pub GoesOn : String → Envelope → Type 0
GoesOn k env = (env.stream_id ≢ k) ⊎ (completes env ≡ false)

abbrev pub GoesOnIfSome : String → Option Envelope → Type 0
GoesOnIfSome k none = Unit
GoesOnIfSome k (some env) = GoesOn k env

pub append-run :
    (k : String) (env : Envelope) (now : ℕ) (g : Gateway)
    → GoesOn k env
    → lookup k (append_stream_event env.stream_id env now g).runs ≡ lookup k g.runs
append-run k env now g goes_on =
    let after = (append_stream_event-completes env.stream_id env now g).0 in
    elim (Bool-cases (completes env)) [
      | inl done ↦
          rw (after, done, lookup-delete)
            (elim goes_on [
              | inl other ↦ ground (arith, eq_iff env.stream_id k)
              | inr more ↦ absurd (ground (arith, done, more))
            ])
      | inr more ↦ rw (after, more) refl
    ]

pub receive-run :
    (k id : String) (conn : ℕ) (env : Envelope) (now : ℕ) (g : Gateway)
    → GoesOn k env
    → lookup k (receive id conn env now g).runs ≡ lookup k g.runs
receive-run k id conn env now g goes_on = elim (receive-cases id conn env now g) [
  | inl pulse ↦ rw (pulse, beat-runs) refl
  | inr (inl nothing) ↦ rw nothing refl
  | inr (inr event) ↦ rw event (append-run k env now g goes_on)
]

pub append_accepted-run :
    (k : String) (m : Option Envelope) (now : ℕ) (g : Gateway)
    → GoesOnIfSome k m
    → lookup k (append_accepted m now g).runs ≡ lookup k g.runs
unfolding append_accepted
append_accepted-run k none now g goes_on = refl
append_accepted-run k (some env) now g goes_on = elim (Bool-cases (accept (some env))) [
  | inl taken ↦ rw taken (append-run k env now g goes_on)
  | inr dropped ↦ rw dropped refl
]

pub worker_events-run :
    (k : String) (messages : List (Option Envelope)) (now : ℕ) (g : Gateway)
    → All (GoesOnIfSome k) messages
    → lookup k (worker_events messages now g).1.runs ≡ lookup k g.runs
unfolding worker_events
worker_events-run k [] now g go_on = refl
worker_events-run k (m ∷ rest) now g (goes_on, go_on) =
    worker_events-run k rest now (append_accepted m now g) go_on
    ∙ append_accepted-run k m now g goes_on

pub finish_create-run :
    (k : String) (wrote : Bool) (run_id : String) (now : ℕ) (g : Gateway)
    (o : Result CreateError (String × RunRequest))
    → run_id ≢ k
    → lookup k (finish_create (λ h. h) wrote run_id now g o).1.runs ≡ lookup k g.runs
unfolding finish_create start_run register_run dispatch_run
finish_create-run k wrote run_id now g (err e) other = refl
finish_create-run k wrote run_id now g (ok (worker_id, run_req)) other =
    rw (lookup-insert, dispatch-runs) (ground (arith, eq_iff run_id k))

pub cancel_run-run :
    (k : String) (wrote : Bool) (run_id : String) (g : Gateway)
    → lookup k (cancel_run wrote run_id g).1.runs ≡ lookup k g.runs
unfolding dispatch_cancel
cancel_run-run k wrote run_id g = elim (cancel_run-cases wrote run_id g) [
  | inl nothing ↦ rw nothing refl
  | inr (worker_id, sent) ↦ rw (sent, dispatch-runs) refl
]

put_subs-runs :
    (id : String) (subs : List Subscriber) (g : Gateway) → (put_subs id subs g).runs ≡ g.runs
unfolding put_subs
put_subs-runs id [] g = refl
put_subs-runs id (s ∷ subs) g = refl

pub unsubscribe-runs :
    (id : String) (chan : ℕ) (g : Gateway) → (unsubscribe id chan g).runs ≡ g.runs
unfolding unsubscribe
unsubscribe-runs id chan g = elim (Option-cases (lookup id g.stream_subs)) [
  | inl absent ↦ rw (unsubscribe, absent) refl
  | inr (subs, here) ↦ rw (unsubscribe, here) (put_subs-runs id (without_chan chan subs) g)
]

pub cleanup-run :
    (k : String) (now : ℕ) (g : Gateway)
    → (IsOver now g k → ⊥)
    → lookup k (cleanup now g).runs ≡ lookup k g.runs
unfolding view
cleanup-run k now g running = ap (λ v. v.run) (cleanup-running now k g running)

append-none :
    (k id : String) (env : Envelope) (now : ℕ) (g : Gateway)
    → lookup k g.runs ≡ none
    → lookup k (append_stream_event id env now g).runs ≡ none
append-none k id env now g absent =
    let after = (append_stream_event-completes id env now g).0 in
    elim (Bool-cases (completes env)) [
      | inl done ↦ rw (after, done, lookup-delete) (ground (arith, absent))
      | inr more ↦ rw (after, more) absent
    ]

pub worker_events-none :
    (k : String) (messages : List (Option Envelope)) (now : ℕ) (g : Gateway)
    → lookup k g.runs ≡ none
    → lookup k (worker_events messages now g).1.runs ≡ none
unfolding worker_events append_accepted
worker_events-none k [] now g absent = absent
worker_events-none k (none ∷ rest) now g absent = worker_events-none k rest now g absent
worker_events-none k (some env ∷ rest) now g absent = elim (Bool-cases (accept (some env))) [
  | inl taken ↦ rw taken (
      worker_events-none k rest now (append_stream_event env.stream_id env now g)
        (append-none k env.stream_id env now g absent))
  | inr dropped ↦ rw dropped (worker_events-none k rest now g absent)
]

pub receive-none :
    (k id : String) (conn : ℕ) (env : Envelope) (now : ℕ) (g : Gateway)
    → lookup k g.runs ≡ none
    → lookup k (receive id conn env now g).runs ≡ none
receive-none k id conn env now g absent = elim (receive-cases id conn env now g) [
  | inl pulse ↦ rw (pulse, beat-runs) absent
  | inr (inl nothing) ↦ rw nothing absent
  | inr (inr event) ↦ rw event (append-none k env.stream_id env now g absent)
]
