-- ===== src/Gateway/Bounds/Handlers.antt =====
-- The handlers keep the bounds on queues and streams (pkg/server/server.go).
use nano_cloud.Base.{
  ℕ, String, Bool, Option, none, some, List, [], ◌∷◌, ◌≡◌, refl, arith, Bool-cases, Option-cases,
  inl, inr, ◌⊎◌, ◌==◌,
}
use nano_cloud.Base.Map.{lookup}
use nano_cloud.Base.Result.{Result, ok, err}
use nano_cloud.Gateway.Messages.{
  Envelope, WorkerHello, RunRequest, get_run_event, run_request, cancel_request,
}
use nano_cloud.Gateway.State.{Subscriber, Gateway}
use nano_cloud.Gateway.Queue.{dispatch_run, dispatch_cancel}
use nano_cloud.Gateway.Streams.{
  accept, append_stream_event, append_accepted, worker_events, unsubscribe, without_chan, put_subs,
}
use nano_cloud.Gateway.Runs.{
  create_run_during, CreateRunRequest, CreateError, prepare, register_run, start_run, finish_create,
  create_run, cancel_run,
}
use nano_cloud.Gateway.Auth.{
  HttpRequest, console_session_valid, console_login, console_logout, session_of,
  clear_console_session, create_console_session,
}
use nano_cloud.Gateway.Connect.{register_session, open_session, beat, is_heartbeat, receive}
use nano_cloud.Gateway.Bounds.{
  IsBounded, IsBounded-same, flush_worker_queue-IsBounded, append_stream_event-IsBounded,
  dispatch-IsBounded,
}

beat-IsBounded :
    (id : String) (conn now : ℕ) (g : Gateway) → IsBounded g → IsBounded (beat id conn now g)
unfolding beat
beat-IsBounded id conn now g bounded =
    IsBounded-same g (beat id conn now g) bounded (ground arith) (ground arith) (ground arith)

pub receive-cases :
    (id : String) (conn : ℕ) (env : Envelope) (now : ℕ) (g : Gateway)
    → (receive id conn env now g ≡ beat id conn now g)
      ⊎ ((receive id conn env now g ≡ g)
          ⊎ (receive id conn env now g ≡ append_stream_event env.stream_id env now g))
unfolding receive
receive-cases id conn env now g = elim (Bool-cases (is_heartbeat env.message)) [
  | inl pulse ↦ inl (ground (arith, pulse))
  | inr other ↦ inr (elim (Option-cases (get_run_event env.message)) [
    | inl absent ↦ inl (ground (arith, other, absent))
    | inr (e, event) ↦ elim (Bool-cases (env.stream_id == "")) [
      | inl nameless ↦ inl (ground (arith, other, event, nameless))
      | inr named ↦ inr (ground (arith, other, event, named))
    ]
  ])
]

pub receive-IsBounded :
    (id : String) (conn : ℕ) (env : Envelope) (now : ℕ) (g : Gateway)
    → IsBounded g
    → IsBounded (receive id conn env now g)
receive-IsBounded id conn env now g bounded = elim (receive-cases id conn env now g) [
  | inl pulse ↦ rw pulse (beat-IsBounded id conn now g bounded)
  | inr (inl nothing) ↦ rw nothing bounded
  | inr (inr event) ↦ rw event (append_stream_event-IsBounded env.stream_id env now g bounded)
]

append_accepted-IsBounded :
    (m : Option Envelope) (now : ℕ) (g : Gateway)
    → IsBounded g
    → IsBounded (append_accepted m now g)
unfolding append_accepted
append_accepted-IsBounded none now g bounded = bounded
append_accepted-IsBounded (some env) now g bounded = elim (Bool-cases (accept (some env))) [
  | inl taken ↦ rw taken (append_stream_event-IsBounded env.stream_id env now g bounded)
  | inr dropped ↦ rw dropped bounded
]

pub worker_events-IsBounded :
    (messages : List (Option Envelope)) (now : ℕ) (g : Gateway)
    → IsBounded g
    → IsBounded (worker_events messages now g).1
unfolding worker_events
worker_events-IsBounded [] now g bounded = bounded
worker_events-IsBounded (m ∷ rest) now g bounded =
    worker_events-IsBounded rest now (append_accepted m now g)
      (append_accepted-IsBounded m now g bounded)

finish_create-IsBounded :
    (wrote : Bool) (run_id : String) (now : ℕ) (g : Gateway)
    (o : Result CreateError (String × RunRequest))
    → IsBounded g
    → IsBounded (finish_create (λ h. h) wrote run_id now g o).1
unfolding finish_create start_run register_run dispatch_run
finish_create-IsBounded wrote run_id now g (err e) bounded = bounded
finish_create-IsBounded wrote run_id now g (ok (worker_id, run_req)) bounded =
    IsBounded-same _ _ (dispatch-IsBounded (run_request run_req) wrote worker_id run_id g bounded)
      refl refl refl

pub cancel_run-cases :
    (wrote : Bool) (run_id : String) (g : Gateway)
    → ((cancel_run wrote run_id g).1 ≡ g)
      ⊎ ((worker_id : String) × ((cancel_run wrote run_id g).1
            ≡ (dispatch_cancel "cancel requested by client" wrote worker_id run_id g).1))
unfolding cancel_run
cancel_run-cases wrote run_id g = elim (Option-cases (lookup run_id g.runs)) [
  | inl absent ↦ inl (ground (arith, absent))
  | inr (worker_id, here) ↦ elim (Bool-cases (worker_id == "")) [
    | inl nameless ↦ inl (ground (arith, here, nameless))
    | inr named ↦ inr (worker_id, ground (arith, here, named))
  ]
]

pub cancel_run-IsBounded :
    (wrote : Bool) (run_id : String) (g : Gateway)
    → IsBounded g
    → IsBounded (cancel_run wrote run_id g).1
unfolding dispatch_cancel
cancel_run-IsBounded wrote run_id g bounded = elim (cancel_run-cases wrote run_id g) [
  | inl nothing ↦ rw nothing bounded
  | inr (worker_id, sent) ↦ rw sent (
      dispatch-IsBounded (cancel_request "cancel requested by client") wrote worker_id run_id g
        bounded)
]

put_subs-IsBounded :
    (id : String) (subs : List Subscriber) (g : Gateway)
    → IsBounded g
    → IsBounded (put_subs id subs g)
unfolding put_subs
put_subs-IsBounded id [] g bounded = IsBounded-same g (put_subs id [] g) bounded refl refl refl
put_subs-IsBounded id (s ∷ subs) g bounded =
    IsBounded-same g (put_subs id (s ∷ subs) g) bounded refl refl refl

pub unsubscribe-IsBounded :
    (id : String) (chan : ℕ) (g : Gateway) → IsBounded g → IsBounded (unsubscribe id chan g)
unfolding unsubscribe
unsubscribe-IsBounded id chan g bounded = elim (Option-cases (lookup id g.stream_subs)) [
  | inl absent ↦ rw (unsubscribe, absent) bounded
  | inr (subs, here) ↦
      rw (unsubscribe, here) (put_subs-IsBounded id (without_chan chan subs) g bounded)
]

pub open_session-IsBounded :
    (id : String) (conn : ℕ) (hello : WorkerHello) (now : ℕ) (writes : List Bool) (g : Gateway)
    → IsBounded g
    → IsBounded (open_session id conn hello now writes g).1
unfolding open_session register_session
open_session-IsBounded id conn hello now writes g bounded =
    flush_worker_queue-IsBounded id writes _ (IsBounded-same g _ bounded refl refl refl)

pub create_run-IsBounded :
    (req : CreateRunRequest) (wrote : Bool) (run_id : String) (now : ℕ) (g : Gateway)
    → IsBounded g
    → IsBounded (create_run req wrote run_id now g).1
unfolding create_run create_run_during
create_run-IsBounded req wrote run_id now g bounded =
    finish_create-IsBounded wrote run_id now g (prepare req g) bounded

-- A handler of the console keeps queues, events and times.
pub console_login-IsBounded :
    (form : Option (String × String)) (fresh : Option String) (ttl now : ℕ) (g : Gateway)
    → IsBounded g
    → IsBounded (console_login form fresh ttl now g).1
unfolding console_login create_console_session
console_login-IsBounded none fresh ttl now g bounded = bounded
console_login-IsBounded (some (token_field, password)) fresh ttl now g bounded =
    IsBounded-same g (console_login (some (token_field, password)) fresh ttl now g).1 bounded
      (ground arith) (ground arith) (ground arith)

pub console_logout-IsBounded :
    (r : HttpRequest) (g : Gateway) → IsBounded g → IsBounded (console_logout r g)
unfolding console_logout clear_console_session
console_logout-IsBounded r g bounded =
    IsBounded-same g (console_logout r g) bounded (ground arith) (ground arith) (ground arith)

pub console_session_valid-IsBounded :
    (r : HttpRequest) (now : ℕ) (g : Gateway)
    → IsBounded g
    → IsBounded (console_session_valid r now g).1
unfolding console_session_valid session_of
console_session_valid-IsBounded r now g bounded =
    IsBounded-same g (console_session_valid r now g).1 bounded (ground arith) (ground arith)
      (ground arith)
