-- ===== src/Gateway/Queue/Flush.antt =====
-- What the flush of a queue at a worker's connection writes and what it puts back
-- (pkg/server/server.go, flushWorkerQueue).
use nano_cloud.Base.{
  ◌+◌, ◌≤◌, ◌<◌, String, Bool, true, false, List, [], ◌∷◌, ◌++◌, ◌≡◌, ◌∙◌, refl, sym, ap, arith,
  length, length-append, append_assoc, append_nil, eq_refl,
}
use nano_cloud.Base.Map.{lookup-delete_self}
use nano_cloud.Gateway.Messages.{Envelope}
use nano_cloud.Gateway.State.{Gateway, queue_of, slice, max_worker_queue_per_worker}
use nano_cloud.Gateway.Queue.{
  enqueue_control, enqueue_all, write_all, take_queue, flush_worker_queue,
}
use nano_cloud.Gateway.Queue.Capped.{push_capped-room, queue_of-enqueue_control}

enqueue_control-room :
    (id : String) (env : Envelope) (g : Gateway)
    → length (queue_of g id) < max_worker_queue_per_worker
    → queue_of (enqueue_control id env g) id ≡ queue_of g id ++ env ∷ []
enqueue_control-room id env g room =
    queue_of-enqueue_control id id env g
    ∙ rw eq_refl (push_capped-room max_worker_queue_per_worker (queue_of g id) env room)

-- Messages that fit are queued behind the ones that are there.
enqueue_all-room :
    (id : String) (envs : List Envelope) (g : Gateway)
    → length (queue_of g id) + length envs ≤ max_worker_queue_per_worker
    → queue_of (enqueue_all id envs g) id ≡ queue_of g id ++ envs
unfolding enqueue_all
enqueue_all-room id [] g room = sym (append_nil (queue_of g id))
enqueue_all-room id (env ∷ rest) g room =
    let one = enqueue_control-room id env g (omega arith) in
    enqueue_all-room id rest (enqueue_control id env g)
      (rw one (omega (arith, length-append (queue_of g id) (env ∷ []))))
    ∙ rw one (append_assoc (queue_of g id) (env ∷ []) rest)

write_all_lem :
    (id : String) (writes : List Bool) (envs : List Envelope) (g : Gateway)
    → queue_of g id ≡ []
    → length envs ≤ max_worker_queue_per_worker
    → (write_all id writes envs g).0 ++ queue_of (write_all id writes envs g).1 id ≡ envs
unfolding write_all
write_all_lem id writes [] g none_left room = none_left
write_all_lem id [] (env ∷ rest) g none_left room =
    ap (λ tail. env ∷ tail) (write_all_lem id [] rest g none_left (omega arith))
write_all_lem id (true ∷ writes) (env ∷ rest) g none_left room =
    ap (λ tail. env ∷ tail) (write_all_lem id writes rest g none_left (omega arith))
write_all_lem id (false ∷ writes) (env ∷ rest) g none_left room =
    enqueue_all-room id (env ∷ rest) g (rw none_left (omega arith)) ∙ rw none_left refl

-- Whichever writes fail, a flush of a queue within its cap loses nothing and keeps the order: what was
-- written, followed by what the queue then holds, is the queue as it was.
pub flush_worker_queue-partitions :
    (id : String) (writes : List Bool) (g : Gateway)
    → length (queue_of g id) ≤ max_worker_queue_per_worker
    → (flush_worker_queue id writes g).0 ++ queue_of (flush_worker_queue id writes g).1 id
      ≡ queue_of g id
unfolding flush_worker_queue take_queue slice
flush_worker_queue-partitions id writes g capped =
    write_all_lem id writes (queue_of g id) (take_queue id g) (rw lookup-delete_self refl) capped
