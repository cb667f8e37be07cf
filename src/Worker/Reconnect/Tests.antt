-- ===== src/Worker/Reconnect/Tests.antt =====
-- Reconnections of a worker (pkg/worker/worker.go, Start).
use nano_cloud.Base.{true, false, [], ◌∷◌, ◌≡◌, refl}
use nano_cloud.Worker.Reconnect.Waits.{get_elem?, wait, start_loop-wait}
use nano_cloud.Worker.Reconnect.{Round, start_loop, connecting}

abbrev lost : Round
lost = record { cancelled = false; fails = true; cancelled_waiting = false }

six_losses :
    start_loop 1 (lost ∷ lost ∷ lost ∷ lost ∷ lost ∷ lost ∷ [])
    ≡ (1 ∷ 2 ∷ 4 ∷ 8 ∷ 16 ∷ 30 ∷ [], connecting)
unfolding start_loop
six_losses = refl

start_loop-wait_example : 30 ≡ wait 5
unfolding start_loop get_elem?
start_loop-wait_example = start_loop-wait 5 30 (lost ∷ lost ∷ lost ∷ lost ∷ lost ∷ lost ∷ []) refl
