-- ===== src/Worker/Run/Once.antt =====
-- A run completes at most once, whatever its goroutines and the environment do
-- (pkg/worker/worker.go, handleRunRequest and handleCancel).
use nano_cloud.Base.{
  ℕ, ◌+◌, ◌-◌, ◌≤◌, String, Bool, false, Option, List, [], ◌∷◌, ◌≡◌, arith, if◌then◌else◌,
}
use nano_cloud.Gateway.Messages.{Envelope, RunRequest, completes, get_run_event, is_completed}
use nano_cloud.Policy.Rules.{NetIp, RuleError}
use nano_cloud.Worker.Adapter.{SpecError}
use nano_cloud.Worker.Config.{Config}
use nano_cloud.Worker.Run.Program.{Program, Failure, HostCall, RunState}
use nano_cloud.Worker.Run.Container.{handle_run_request}
use nano_cloud.Worker.Run.System.{
  Shared, send_run_event, Move, MoveOne, first, later, System, Step, Reachable, here, next,
}
use nano_cloud.Worker.Run.Budget.{cost, Allowed, handle_cancel-Allowed}
use nano_cloud.Worker.Run.Budget.Handler.{Makes, handle_run_request-Allowed}

-- the completions among the messages
abbrev pub completions : List Envelope → ℕ
completions [] = 0
completions (env ∷ envs) = (if completes env then 1 else 0) + completions envs

abbrev sum : List ℕ → ℕ
sum [] = 0
sum (n ∷ ns) = n + sum ns

-- how many completions may have been sent or be owed
abbrev limit : RunState → ℕ
limit st = if st.done then 1 else 0

module _ (answers : HostCall → Option Failure → Bool) (worker_id stream_id : String) where
  abbrev Within : List ℕ → List Program → Type 0
  Within [] [] = Unit
  Within (n ∷ ns) (p ∷ ps) = Allowed answers n p × Within ns ps
  Within _ _ = ⊥

  -- a step spends what it sends, and gains what it claims
  abbrev Fair : Shared → ℕ → Shared → ℕ → Type 0
  Fair m n m' n' =
      completions m'.sent + n' + limit m.state ≤ completions m.sent + n + limit m'.state

  Move-Fair :
      (n : ℕ) {m m' : Shared} {p p' : Program}
      → Move answers worker_id stream_id m p m' p'
      → Allowed answers n p
      → (n' : ℕ) × Allowed answers n' p' × Fair m n m' n'
  unfolding send_run_event completes get_run_event
  Move-Fair n (Move.sends {e}) (paid, rest) = (n - cost e, rest, omega arith)
  Move-Fair n Move.looks rest = (n, rest _, omega arith)
  Move-Fair n {m} (Move.puts {f}) (kept, rest) = (n, rest, rw (kept m.state) (omega arith))
  Move-Fair n (Move.wins free) (won, lost) = (n + 1, won, ground (arith, free))
  Move-Fair n (Move.loses taken) (won, lost) = (n, lost, omega arith)
  Move-Fair n (Move.hears r) rest = (n, rest r, omega arith)
  Move-Fair n (Move.answered r given) rest = (n, rest r given, omega arith)
  Move-Fair n (Move.reads file) rest = (n, rest file, omega arith)
  Move-Fair n (Move.ends ended) rest = (n, rest ended, omega arith)

  MoveOne-Fair :
      (ns : List ℕ) {m m' : Shared} {ps ps' : List Program}
      → MoveOne answers worker_id stream_id m ps m' ps'
      → Within ns ps
      → (ns' : List ℕ) × Within ns' ps' × Fair m (sum ns) m' (sum ns')
  MoveOne-Fair [] (first mv) within = absurd within
  MoveOne-Fair [] (later mv) within = absurd within
  MoveOne-Fair (n ∷ ns) (first mv) (here_ok, others) =
      let (n', rest, fair) = Move-Fair n mv here_ok in (n' ∷ ns, (rest, others), omega arith)
  MoveOne-Fair (n ∷ ns) (later mv) (here_ok, others) =
      let (ns', rest, fair) = MoveOne-Fair ns mv others in (n ∷ ns', (here_ok, rest), omega arith)

  -- what has been sent and what is still owed is one completion at most, and none before `done`
  record IsOnce (s : System answers worker_id stream_id) : Type 0 where
    budgets : List ℕ
    within : Within budgets s.threads
    bounded : completions s.shared.sent + sum budgets ≤ limit s.shared.state

  Step-IsOnce :
      {s t : System answers worker_id stream_id}
      → Step answers worker_id stream_id s t
      → IsOnce s
      → IsOnce t
  unfolding send_run_event completes get_run_event is_completed
  Step-IsOnce (Step.moves mv) once =
      let (ns, within, fair) = MoveOne-Fair once.budgets mv once.within in
      record { budgets = ns; within = within; bounded = omega (arith, once.bounded) }
  Step-IsOnce (Step.cancel_request reason) once = record {
    budgets = 0 ∷ once.budgets;
    within = (handle_cancel-Allowed answers reason, once.within);
    bounded = omega (arith, once.bounded);
  }
  Step-IsOnce (Step.output_line text) once = record {
    budgets = once.budgets;
    within = once.within;
    bounded = omega (arith, once.bounded);
  }
  Step-IsOnce Step.connection_lost once = record {
    budgets = once.budgets;
    within = once.within;
    bounded = omega (arith, once.bounded);
  }

  Reachable-IsOnce :
      {s t : System answers worker_id stream_id}
      → IsOnce s
      → Reachable answers worker_id stream_id s t
      → IsOnce t
  Reachable-IsOnce once here = once
  Reachable-IsOnce once (next r st) = Step-IsOnce st (Reachable-IsOnce once r)

  IsOnce-completions :
      (s : System answers worker_id stream_id) → IsOnce s → completions s.shared.sent ≤ 1
  IsOnce-completions s once = ground (arith, once.bounded)

-- A worker sends at most one completion of a run, however its handler, any number of cancellations, the
-- lines of output and a lost connection interleave, and whatever docker and the host answer, as long as
-- the directory of the workspace can be made.
pub completes_once :
    (answers : HostCall → Option Failure → Bool) (ip : NetIp) (rule_text : RuleError → String)
    (spec_text : SpecError → String) (quote getenv : String → String) (cfg : Config)
    (stream_id : String) (req : RunRequest) (m : Shared)
    (s : System answers cfg.worker_id stream_id)
    → Makes answers
    → m.state.done ≡ false
    → completions m.sent ≡ 0
    → Reachable answers cfg.worker_id stream_id
        (record {
          shared = m;
          threads = handle_run_request ip rule_text spec_text quote getenv cfg stream_id req ∷ [];
        })
        s
    → completions s.shared.sent ≤ 1
completes_once answers ip rule_text spec_text quote getenv cfg stream_id req m s makes fresh unsent
      r =
    IsOnce-completions answers cfg.worker_id stream_id s (
      Reachable-IsOnce answers cfg.worker_id stream_id
        (record {
          budgets = 0 ∷ [];
          within = (
            handle_run_request-Allowed answers ip rule_text spec_text quote getenv cfg stream_id req
                makes,
            tt,
          );
          bounded = omega (arith, unsent);
        })
        r)
