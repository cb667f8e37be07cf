-- ===== src/Gateway/Runs/Life.antt =====
-- The life of a run at the gateway, from its creation to its end (pkg/server/server.go: createRun,
-- handleCancelRun, appendStreamEvent, cleanupLoop).
use nano_cloud.Base.{
  ℕ, String, Bool, true, false, none, ◌≡◌, ◌≢◌, ◌∙◌, refl, ap, arith, inl, inr, eq_iff, All,
}
use nano_cloud.Base.Map.{lookup, lookup-insert}
use nano_cloud.Base.Result.{ok}
use nano_cloud.Gateway.Messages.{Envelope, RunRequest, completes}
use nano_cloud.Gateway.State.{Gateway}
use nano_cloud.Gateway.Queue.{next_seq, enqueue_control, take_queue, worker_poll}
use nano_cloud.Gateway.Streams.{append_stream_event, subscribe, cleanup}
use nano_cloud.Gateway.Streams.Sweep.{view}
use nano_cloud.Gateway.Streams.Cleanup.{IsOver, IsOver-cases, cleanup-over}
use nano_cloud.Gateway.Runs.{
  CreateRunRequest, prepare, register_run, create_run, create_run_during, cancel_run,
}
use nano_cloud.Gateway.Runs.Outcome.{
  cancel_run_found, cancel_run_missing, completed_run, created_run,
}
use nano_cloud.Gateway.Runs.Kept.{
  GoesOn, GoesOnIfSome, open_session-runs, receive-run, worker_events-run, finish_create-run,
  receive-none, worker_events-none, cancel_run-run, unsubscribe-runs, cleanup-run,
}
use nano_cloud.Gateway.Auth.{
  console_session_valid, console_login, console_logout, session_of, clear_console_session,
  create_console_session,
}
use nano_cloud.Gateway.Connect.{register_session, disconnect}
use nano_cloud.Gateway.Reach.{
  Step, opens, receives, disconnects, polls, posts, creates, cancels, subscribes, unsubscribes,
  cleans, logs_in, logs_out, checks_session, counts, enqueues, takes, registers_session,
  registers_run,
}

-- a step that does not register a run under the id `k`
abbrev pub IsOther : (k : String) → {g h : Gateway} → Step g h → Type 0
IsOther k (creates req wrote run_id now) = run_id ≢ k
IsOther k (registers_run run_id worker_id now) = run_id ≢ k
IsOther k _ = Unit

-- such a step that does not end the run `k` either: no event completes it, and no tick of the cleanup
-- finds its stream over
abbrev pub IsSparing : (k : String) → {g h : Gateway} → Step g h → Type 0
IsSparing k (receives id conn env now) = GoesOn k env
IsSparing k (posts messages now) = All (GoesOnIfSome k) messages
IsSparing k (cleans {g} now) = IsOver now g k → ⊥
IsSparing k (creates req wrote run_id now) = run_id ≢ k
IsSparing k (registers_run run_id worker_id now) = run_id ≢ k
IsSparing k _ = Unit

-- any number of steps with a property
pub data Chain (P : (g h : Gateway) → Step g h → Type 0) : Gateway → Gateway → Type 0 where
  no_steps : {g : Gateway} → Chain P g g
  then_step : {g h i : Gateway} → Chain P g h → (s : Step h i) → P h i s → Chain P g i

-- what ends the run `k`
pub data Ends (k : String) : Gateway → Gateway → Type 0 where
  completed :
      {g : Gateway} (env : Envelope) (now : ℕ)
      → completes env ≡ true
      → Ends k g (append_stream_event k env now g)
  swept : {g : Gateway} (now : ℕ) → IsOver now g k → Ends k g (cleanup now g)

Step-run :
    (k : String) {g h : Gateway} (s : Step g h) → IsSparing k s → lookup k h.runs ≡ lookup k g.runs
unfolding disconnect worker_poll subscribe create_run create_run_during console_login
    create_console_session console_logout clear_console_session console_session_valid session_of
    next_seq enqueue_control take_queue register_session register_run
Step-run k (opens id conn hello now writes) spares = rw open_session-runs refl
Step-run k (receives id conn env now) spares = receive-run k id conn env now _ spares
Step-run k (disconnects id) spares = refl
Step-run k (polls id last_seq max_messages) spares = refl
Step-run k (posts messages now) spares = worker_events-run k messages now _ spares
Step-run k (creates {g} req wrote run_id now) spares =
    finish_create-run k wrote run_id now g (prepare req g) spares
Step-run k (cancels wrote run_id) spares = cancel_run-run k wrote run_id _
Step-run k (subscribes id chan) spares = refl
Step-run k (unsubscribes id chan) spares = rw unsubscribe-runs refl
Step-run k (cleans now) spares = cleanup-run k now _ spares
Step-run k (logs_in form fresh ttl now) spares = ground arith
Step-run k (logs_out r) spares = ground arith
Step-run k (checks_session r now) spares = ground arith
Step-run k counts spares = refl
Step-run k (enqueues id env) spares = refl
Step-run k (takes id) spares = refl
Step-run k (registers_session id worker) spares = refl
Step-run k (registers_run run_id worker_id now) spares =
    rw lookup-insert (ground (arith, eq_iff run_id k))

swept_run :
    (k : String) (now : ℕ) (g : Gateway) → IsOver now g k → lookup k (cleanup now g).runs ≡ none
unfolding view
swept_run k now g over = ap (λ v. v.run) (cleanup-over now k g over)

cleanup-none :
    (k : String) (now : ℕ) (g : Gateway)
    → lookup k g.runs ≡ none
    → lookup k (cleanup now g).runs ≡ none
cleanup-none k now g absent = elim (IsOver-cases now k g) [
  | inl over ↦ swept_run k now g over
  | inr running ↦ cleanup-run k now g running ∙ absent
]

Step-none :
    (k : String) {g h : Gateway} (s : Step g h)
    → IsOther k s
    → lookup k g.runs ≡ none
    → lookup k h.runs ≡ none
Step-none k (receives id conn env now) other absent = receive-none k id conn env now _ absent
Step-none k (posts messages now) other absent = worker_events-none k messages now _ absent
Step-none k (cleans now) other absent = cleanup-none k now _ absent
Step-none k (opens id conn hello now writes) other absent =
    Step-run k (opens id conn hello now writes) tt ∙ absent
Step-none k (disconnects id) other absent = Step-run k (disconnects id) tt ∙ absent
Step-none k (polls id last_seq max_messages) other absent =
    Step-run k (polls id last_seq max_messages) tt ∙ absent
Step-none k (creates req wrote run_id now) other absent =
    Step-run k (creates req wrote run_id now) other ∙ absent
Step-none k (cancels wrote run_id) other absent = Step-run k (cancels wrote run_id) tt ∙ absent
Step-none k (subscribes id chan) other absent = Step-run k (subscribes id chan) tt ∙ absent
Step-none k (unsubscribes id chan) other absent = Step-run k (unsubscribes id chan) tt ∙ absent
Step-none k (logs_in form fresh ttl now) other absent =
    Step-run k (logs_in form fresh ttl now) tt ∙ absent
Step-none k (logs_out r) other absent = Step-run k (logs_out r) tt ∙ absent
Step-none k (checks_session r now) other absent = Step-run k (checks_session r now) tt ∙ absent
Step-none k counts other absent = Step-run k counts tt ∙ absent
Step-none k (enqueues id env) other absent = Step-run k (enqueues id env) tt ∙ absent
Step-none k (takes id) other absent = Step-run k (takes id) tt ∙ absent
Step-none k (registers_session id worker) other absent =
    Step-run k (registers_session id worker) tt ∙ absent
Step-none k (registers_run run_id worker_id now) other absent =
    Step-run k (registers_run run_id worker_id now) other ∙ absent

Chain-run :
    (k : String) {g h : Gateway}
    → Chain (λ h i s. IsSparing k s) g h
    → lookup k h.runs ≡ lookup k g.runs
Chain-run k no_steps = refl
Chain-run k (then_step before s spares) = Step-run k s spares ∙ Chain-run k before

Chain-none :
    (k : String) {g h : Gateway}
    → Chain (λ h i s. IsOther k s) g h
    → lookup k g.runs ≡ none
    → lookup k h.runs ≡ none
Chain-none k no_steps absent = absent
Chain-none k (then_step before s other) absent = Step-none k s other (Chain-none k before absent)

Ends-none : (k : String) {g h : Gateway} → Ends k g h → lookup k h.runs ≡ none
Ends-none k (completed env now done) = completed_run k env now _ done
Ends-none k (swept now over) = swept_run k now _ over

-- A run that was created for a worker can be cancelled through any operations of the gateway that
-- neither end it nor register its id again. It is ended by an event that completes it and by a tick of
-- the cleanup that finds its stream over. From then on its cancellation is refused, through any
-- operations that do not register its id again.
pub cancel_run-create_run :
    (req : CreateRunRequest) (run_id worker_id : String) (run_req : RunRequest) (now : ℕ)
    (wrote wrote_cancel : Bool) (g running ended last : Gateway)
    → prepare req g ≡ ok (worker_id, run_req)
    → worker_id ≢ ""
    → Chain (λ h i s. IsSparing run_id s) (create_run req wrote run_id now g).1 running
    → Ends run_id running ended
    → Chain (λ h i s. IsOther run_id s) ended last
    → ((cancel_run wrote_cancel run_id running).0 ≡ true)
      × ((cancel_run wrote_cancel run_id last).0 ≡ false)
cancel_run-create_run req run_id worker_id run_req now wrote wrote_cancel g running ended last
      prepared named runs ends after =
    (
      cancel_run_found wrote_cancel run_id worker_id running
          (Chain-run run_id runs ∙ created_run req run_id worker_id run_req now g prepared wrote)
          named,
      cancel_run_missing wrote_cancel run_id last (Chain-none run_id after (Ends-none run_id ends)),
    )
