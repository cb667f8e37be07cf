-- ===== src/Worker/Reconnect.antt =====
-- The loop of Start (pkg/worker/worker.go): a worker connects again after each failure, and waits longer
-- each time. Times are seconds.
pub mod Waits
mod Tests
use nano_cloud.Base.{ℕ, ◌*◌, Bool, true, false, List, [], ◌∷◌, ltb, if◌then◌else◌}

abbrev pub max_backoff : ℕ
max_backoff = 30

unfoldable pub next_backoff : ℕ → ℕ
next_backoff backoff = if ltb max_backoff (backoff * 2) then max_backoff else backoff * 2

-- One round of the loop: whether the context is cancelled before it, whether connectAndServe fails, and
-- whether the context is cancelled while the loop waits.
pub record Round : Type 0 where
  pub cancelled : Bool
  pub fails : Bool
  pub cancelled_waiting : Bool

-- how far the loop has come
pub data Progress : Type 0 where
  connecting : Progress
  finished : Progress
  interrupted : Progress

-- the waits that the loop begins, and its progress
unfoldable pub start_loop : ℕ → List Round → List ℕ × Progress
unfolding next_backoff
start_loop backoff [] = ([], connecting)
start_loop backoff (r ∷ rounds) =
    let later = start_loop (next_backoff backoff) rounds in
    if r.cancelled
    then ([], interrupted)
    else if r.fails
    then (if r.cancelled_waiting then (backoff ∷ [], interrupted) else (backoff ∷ later.0, later.1))
    else ([], finished)
