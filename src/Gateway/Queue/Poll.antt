-- ===== src/Gateway/Queue/Poll.antt =====
-- What a poll delivers and leaves, and that what it leaves is what comes next (pkg/server/server.go).
use nano_cloud.Base.{
  eq_iff, ◌==◌, le→ltb_false, lt→ltb, suc, ℕ, zero, suc, ◌+◌, ◌≤◌, ◌<◌, String, true, false, not,
  List, [], ◌∷◌, ◌++◌, ◌≡◌, ◌∙◌, refl, sym, arith, length, length-append, append_assoc, append_nil,
  take, drop, leb, keep_if, if◌then◌else◌, Bool-cases, inl, inr, ap,
}
use nano_cloud.Base.Int.{ℤ, pos, negsuc}
use nano_cloud.Base.Map.{lookup-insert, lookup-insert_self}
use nano_cloud.Gateway.Messages.{Envelope}
use nano_cloud.Gateway.State.{Gateway, queue_of, slice}
use nano_cloud.Gateway.Queue.{clamp_max, poll_step, poll_loop, worker_poll}

-- the messages past the acknowledged number
abbrev pub unseen : ℕ → List Envelope → List Envelope
unseen last_seq = keep_if (λ env. not (leb env.seq last_seq))

poll_step-skip :
    (max last_seq : ℕ) (env : Envelope) (out remaining : List Envelope)
    → leb env.seq last_seq ≡ true
    → poll_step max last_seq env out remaining ≡ (out, remaining)
unfolding poll_step
poll_step-skip max last_seq env out remaining seen = rw seen refl

poll_step-take :
    (max last_seq : ℕ) (env : Envelope) (out remaining : List Envelope)
    → leb env.seq last_seq ≡ false
    → length out < max
    → poll_step max last_seq env out remaining ≡ (out ++ env ∷ [], remaining)
unfolding poll_step
poll_step-take max last_seq env out remaining new room = rw (new, lt→ltb (length out) max room) refl

poll_step-leave :
    (max last_seq : ℕ) (env : Envelope) (out remaining : List Envelope)
    → leb env.seq last_seq ≡ false
    → max ≤ length out
    → poll_step max last_seq env out remaining ≡ (out, remaining ++ env ∷ [])
unfolding poll_step
poll_step-leave max last_seq env out remaining new full =
    rw (new, le→ltb_false max (length out) full) refl

unseen-skip :
    (last_seq : ℕ) (env : Envelope) (queue : List Envelope)
    → leb env.seq last_seq ≡ true
    → unseen last_seq (env ∷ queue) ≡ unseen last_seq queue
unseen-skip last_seq env queue seen = rw seen refl

unseen-new :
    (last_seq : ℕ) (env : Envelope) (queue : List Envelope)
    → leb env.seq last_seq ≡ false
    → unseen last_seq (env ∷ queue) ≡ env ∷ unseen last_seq queue
unseen-new last_seq env queue new = rw new refl

-- With a full first list, the loop adds to the second one alone.
poll_loop-full :
    (max last_seq : ℕ) (out remaining queue : List Envelope)
    → max ≤ length out
    → poll_loop max last_seq out remaining queue ≡ (out, remaining ++ unseen last_seq queue)
unfolding poll_loop
poll_loop-full max last_seq out remaining [] full =
    ap (λ rest. (out, rest)) (sym (append_nil remaining))
poll_loop-full max last_seq out remaining (env ∷ queue) full =
    elim (Bool-cases (leb env.seq last_seq)) [
      | inl seen ↦
          rw
            (
              poll_step-skip max last_seq env out remaining seen,
              unseen-skip last_seq env queue seen,
            )
            (poll_loop-full max last_seq out remaining queue full)
      | inr new ↦
          rw
            (
              poll_step-leave max last_seq env out remaining new full,
              unseen-new last_seq env queue new,
            )
            (poll_loop-full max last_seq out (remaining ++ env ∷ []) queue full
              ∙ ap (λ rest. (out, rest))
                  (append_assoc remaining (env ∷ []) (unseen last_seq queue)))
    ]

poll_loop-room :
    (room max last_seq : ℕ) (out queue : List Envelope)
    → length out + room ≡ max
    → poll_loop max last_seq out [] queue
      ≡ (out ++ take room (unseen last_seq queue), drop room (unseen last_seq queue))
unfolding poll_loop
poll_loop-room zero max last_seq out queue space =
    poll_loop-full max last_seq out [] queue (omega arith)
    ∙ ap (λ first. (first, unseen last_seq queue)) (sym (append_nil out))
poll_loop-room (suc room) max last_seq out [] space =
    ap (λ first. (first, [])) (sym (append_nil out))
poll_loop-room (suc room) max last_seq out (env ∷ queue) space =
    elim (Bool-cases (leb env.seq last_seq)) [
      | inl seen ↦
          rw (poll_step-skip max last_seq env out [] seen, unseen-skip last_seq env queue seen)
            (poll_loop-room (suc room) max last_seq out queue space)
      | inr new ↦
          rw
            (
              poll_step-take max last_seq env out [] new (omega arith),
              unseen-new last_seq env queue new,
            )
            (poll_loop-room room max last_seq (out ++ env ∷ []) queue
                (omega (arith, length-append out (env ∷ [])))
              ∙ ap (λ first. (first, drop room (unseen last_seq queue)))
                  (append_assoc out (env ∷ []) (take room (unseen last_seq queue))))
    ]

-- A poll delivers, in order, the first messages of the queue past the acknowledged number, as many as
-- were asked for (100 unless that is positive, 1000 at most), and the queue then holds the others
-- past that number, in order; those up to it are gone.
pub worker_poll_lem :
    (worker_id : String) (last_seq : ℕ) (max_messages : ℤ) (g : Gateway)
    → ((worker_poll worker_id last_seq max_messages g).0
        ≡ take (clamp_max max_messages) (unseen last_seq (queue_of g worker_id)))
      × (queue_of (worker_poll worker_id last_seq max_messages g).1 worker_id
          ≡ drop (clamp_max max_messages) (unseen last_seq (queue_of g worker_id)))
unfolding worker_poll slice
worker_poll_lem worker_id last_seq max_messages g =
    let run =
      poll_loop-room (clamp_max max_messages) (clamp_max max_messages) last_seq []
        (queue_of g worker_id) (omega arith) in
    (ap (λ p. p.0) run, rw lookup-insert_self (ap (λ p. p.1) run))

-- What a poll asks for is between 1 and 1000 messages.
pub clamp_max_bounds :
    (max_messages : ℤ) → (1 ≤ clamp_max max_messages) × (clamp_max max_messages ≤ 1000)
unfolding clamp_max
clamp_max_bounds (pos n) = (ground arith, ground arith)
clamp_max_bounds (negsuc n) = (omega arith, omega arith)

-- A poll touches the queue of its worker alone.
pub queue_of-worker_poll :
    (worker_id j : String) (last_seq : ℕ) (max_messages : ℤ) (g : Gateway)
    → queue_of (worker_poll worker_id last_seq max_messages g).1 j ≡ (
        if worker_id == j
        then drop (clamp_max max_messages) (unseen last_seq (queue_of g worker_id))
        else queue_of g j)
queue_of-worker_poll worker_id j last_seq max_messages g = elim (Bool-cases (worker_id == j)) [
  | inl same ↦
      let one = (eq_iff worker_id j).0 same in
      rw same (rw (← one) ((worker_poll_lem worker_id last_seq max_messages g).1))
  | inr other ↦ rw other (unfold worker_poll slice in rw (lookup-insert worker_id j, other) refl)
]
