-- ===== src/Worker/Run/System.antt =====
-- The goroutines of a run over its shared state, in any interleaving. Each access to the shared state,
-- each message and each command is a step; what docker and the host answer is open, as far as `answers`
-- admits it.
use nano_cloud.Base.{ℕ, ◌+◌, ◌%◌, ◌^◌, String, Bool, true, false, Option, List, ◌∷◌, ◌≡◌}
use nano_cloud.Gateway.Messages.{
  RunEvent, run_event, Envelope, event_assistant_delta, assistant_delta,
}
use nano_cloud.Worker.Adapter.NanoAgent.{EnvFile}
use nano_cloud.Worker.Run.Program.{
  RunState, Failure, CliReply, HostCall, Ending, Program, send, look, put, claim, docker, host,
  read_env_file, wait_command, event,
}
use nano_cloud.Worker.Run.Cancel.{handle_cancel}

-- `sent` and `asked` have the newest first. A message gets the next number of the worker.
pub record Shared : Type 0 where
  pub state : RunState
  pub seq : ℕ
  pub sent : List Envelope
  pub asked : List (List String × CliReply)

-- sendRunEvent
unfoldable pub send_run_event : String → String → RunEvent → Shared → Shared
send_run_event worker_id stream_id e m = record m {
  seq = (m.seq + 1) % 2 ^ 64;
  sent =
      record {
        worker_id = worker_id;
        stream_id = stream_id;
        seq = (m.seq + 1) % 2 ^ 64;
        message = run_event e;
      }
      ∷ m.sent;
}

abbrev pub with_state : Shared → RunState → Shared
with_state m st = record m { state = st }

abbrev pub heard : List String → CliReply → Shared → Shared
heard args r m = record m { asked = (args, r) ∷ m.asked }

module _ (answers : HostCall → Option Failure → Bool) (worker_id stream_id : String) where
  -- one step of one goroutine
  pub data Move (m : Shared) : Program → Shared → Program → Type 0 where
    sends :
        {e : RunEvent} {k : Program} → Move m (send e k) (send_run_event worker_id stream_id e m) k
    looks : {k : RunState → Program} → Move m (look k) m (k m.state)
    puts : {f : RunState → RunState} {k : Program} → Move m (put f k) (with_state m (f m.state)) k
    wins :
        {k : Bool → Program}
        → m.state.done ≡ false
        → Move m (claim k) (with_state m (record m.state { done = true })) (k true)
    loses : {k : Bool → Program} → m.state.done ≡ true → Move m (claim k) m (k false)
    hears :
        {args : List String} {k : CliReply → Program} (r : CliReply)
        → Move m (docker args k) (heard args r m) (k r)
    answered :
        {call : HostCall} {k : Option Failure → Program} (r : Option Failure)
        → answers call r ≡ true
        → Move m (host call k) m (k r)
    reads :
        {path : String} {k : EnvFile → Program} (file : EnvFile)
        → Move m (read_env_file path k) m (k file)
    ends : {k : Ending → Program} (ended : Ending) → Move m (wait_command k) m (k ended)

  -- a step of one of several
  pub data MoveOne (m : Shared) : List Program → Shared → List Program → Type 0 where
    first :
        {p p' : Program} {m' : Shared} {ps : List Program}
        → Move m p m' p'
        → MoveOne m (p ∷ ps) m' (p' ∷ ps)
    later :
        {p : Program} {m' : Shared} {ps ps' : List Program}
        → MoveOne m ps m' ps'
        → MoveOne m (p ∷ ps) m' (p ∷ ps')

  pub record System : Type 0 where
    pub shared : Shared
    pub threads : List Program

  -- A step of a goroutine, a request to cancel, a line of output, or the end of the connection, which
  -- cancels the context of the run.
  pub data Step (s : System) : System → Type 0 where
    moves :
        {m' : Shared} {ps' : List Program}
        → MoveOne s.shared s.threads m' ps'
        → Step s (record { shared = m'; threads = ps' })
    cancel_request :
        (reason : String) → Step s (record s { threads = handle_cancel reason ∷ s.threads })
    output_line :
        (text : String)
        → Step s (record s {
          shared =
              send_run_event worker_id stream_id
                (event event_assistant_delta (assistant_delta text))
                s.shared;
        })
    connection_lost :
        Step s
          (record s { shared = with_state s.shared (record s.shared.state { cancelled = true }) })

  pub data Reachable (start : System) : System → Type 0 where
    here : Reachable start start
    next : {s t : System} → Reachable start s → Step s t → Reachable start t
