-- ===== src/Gateway/Queue/Capped.antt =====
-- The queues of control messages stay within their cap (pkg/server/server.go, enqueueControl).
use nano_cloud.Base.{
  ℕ, ◌-◌, ◌≤◌, ◌<◌, String, List, [], ◌∷◌, ◌++◌, ◌≡◌, refl, arith, length, length-append,
  length-drop, ltb, if◌then◌else◌, Bool-cases, inl, inr, ltb→lt, le→ltb_false, ◌==◌,
}
use nano_cloud.Base.Map.{lookup-insert}
use nano_cloud.Gateway.Messages.{Envelope}
use nano_cloud.Gateway.State.{Gateway, queue_of, slice, last_n, max_worker_queue_per_worker}
use nano_cloud.Gateway.Queue.{push_capped, enqueue_control}

pub length-last_n : {A : Type 0} (n : ℕ) (xs : List A) → n ≤ length xs → length (last_n n xs) ≡ n
unfolding last_n
length-last_n n xs enough = omega (arith, length-drop (length xs - n) xs)

pub length-push_capped :
    (cap : ℕ) (queue : List Envelope) (env : Envelope) → length (push_capped cap queue env) ≤ cap
unfolding push_capped
length-push_capped cap queue env = elim (Bool-cases (ltb cap (length (queue ++ env ∷ [])))) [
  | inl over ↦ rw over (
      omega (
        arith,
        length-last_n cap (queue ++ env ∷ [])
            (omega (arith, ltb→lt cap (length (queue ++ env ∷ [])) over)),
      ))
  | inr fits ↦ rw fits (ground arith)
]

pub push_capped-room :
    (cap : ℕ) (queue : List Envelope) (env : Envelope)
    → length queue < cap
    → push_capped cap queue env ≡ queue ++ env ∷ []
unfolding push_capped
push_capped-room cap queue env room =
    rw
      (le→ltb_false (length (queue ++ env ∷ [])) cap
        (omega (arith, length-append queue (env ∷ []))))
      refl

pub queue_of-enqueue_control :
    (id j : String) (env : Envelope) (g : Gateway)
    → queue_of (enqueue_control id env g) j ≡ (
        if id == j
        then push_capped max_worker_queue_per_worker (queue_of g id) env
        else queue_of g j)
unfolding enqueue_control slice
queue_of-enqueue_control id j env g =
    rw
      (lookup-insert id j (push_capped max_worker_queue_per_worker (queue_of g id) env)
        g.worker_queue)
      (elim (Bool-cases (id == j)) [ inl same ↦ rw same refl | inr other ↦ rw other refl ])
