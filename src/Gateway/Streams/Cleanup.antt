-- ===== src/Gateway/Streams/Cleanup.antt =====
-- Which streams a tick of the cleanup purges, and which it leaves as they are (pkg/server/server.go,
-- cleanupLoop).
use nano_cloud.Base.{
  ℕ, ◌+◌, ◌≤◌, String, true, false, none, some, ◌≡◌, ◌∙◌, refl, arith, Bool-cases, Option-cases,
  inl, inr, ◌⊎◌, Any,
}
use nano_cloud.Base.Map.{lookup}
use nano_cloud.Gateway.State.{Gateway, stream_retention}
use nano_cloud.Gateway.Streams.{
  is_after, is_recent, has_subs, purge_idle, purge_done, done_step, idle_step, each, keys,
  expire_sessions, cleanup,
}
use nano_cloud.Gateway.Streams.Sweep.{
  view, gone, is_watched, done_stale, idle_stale, purge_idle-other, purge_done-other,
  purge_done_self, done_step_lem, idle_step_lem, purge_idle_self, lookup-keys, each-fresh,
  each-stale,
}

done_stale-keys :
    (now : ℕ) (k : String) (g : Gateway)
    → done_stale now (view k g) ≡ true
    → Any (λ id. id ≡ k) (keys g.stream_done_at)
unfolding done_stale view
done_stale-keys now k g old = elim (Option-cases (lookup k g.stream_done_at)) [
  | inl absent ↦ absurd (ground (arith, absent))
  | inr (t, here) ↦ lookup-keys k g.stream_done_at t here
]

idle_stale-keys :
    (now : ℕ) (k : String) (g : Gateway)
    → idle_stale now (view k g) ≡ true
    → Any (λ id. id ≡ k) (keys g.stream_last_at)
unfolding idle_stale view
idle_stale-keys now k g old = elim (Option-cases (lookup k g.stream_last_at)) [
  | inl absent ↦ absurd (ground (arith, absent))
  | inr (t, here) ↦ lookup-keys k g.stream_last_at t here
]

-- A stream is over when nobody watches it and its end, or for one without an end its last event, is
-- at least ten minutes ago.
abbrev pub IsOver : ℕ → Gateway → String → Type 0
IsOver now g k =
    (has_subs g k ≡ false)
    × ((t : ℕ) × ((lookup k g.stream_done_at ≡ some t)
          ⊎ ((lookup k g.stream_done_at ≡ none) × (lookup k g.stream_last_at ≡ some t)))
        × (t + stream_retention ≤ now))

done_stale_sound :
    (now : ℕ) (k : String) (g : Gateway) → done_stale now (view k g) ≡ true → IsOver now g k
unfolding done_stale view is_watched has_subs is_recent is_after
done_stale_sound now k g old = elim (Option-cases (lookup k g.stream_done_at)) [
  | inl absent ↦ absurd (ground (arith, absent))
  | inr (t, here) ↦ (ground (arith, here), (t, inl here, ground (arith, here)))
]

idle_stale_sound :
    (now : ℕ) (k : String) (g : Gateway) → idle_stale now (view k g) ≡ true → IsOver now g k
unfolding idle_stale view is_watched has_subs is_recent is_after
idle_stale_sound now k g old = elim (Option-cases (lookup k g.stream_last_at)) [
  | inl absent ↦ absurd (ground (arith, absent))
  | inr (t, here) ↦
      let running : lookup k g.stream_done_at ≡ none = ground (arith, here) in
      (ground (arith, here, running), (t, inr (running, here), ground (arith, here, running)))
]

stale_complete :
    (now : ℕ) (k : String) (g : Gateway)
    → IsOver now g k
    → (done_stale now (view k g) ≡ true) ⊎ (idle_stale now (view k g) ≡ true)
unfolding done_stale idle_stale view is_watched has_subs is_recent is_after
stale_complete now k g (alone, (t, inl here, old)) = inl (ground (arith, here))
stale_complete now k g (alone, (t, inr (running, here), old)) = inr (ground (arith, here, running))

pub IsOver-cases : (now : ℕ) (k : String) (g : Gateway) → IsOver now g k ⊎ (IsOver now g k → ⊥)
IsOver-cases now k g = elim (Bool-cases (done_stale now (view k g))) [
  | inl old ↦ inl (done_stale_sound now k g old)
  | inr done_new ↦ elim (Bool-cases (idle_stale now (view k g))) [
    | inl old ↦ inl (idle_stale_sound now k g old)
    | inr idle_new ↦ inr (λ over. elim (stale_complete now k g over) [
      | inl old ↦ absurd (ground (arith, old, done_new))
      | inr old ↦ absurd (ground (arith, old, idle_new))
    ])
  ]
]

expire_sessions-view :
    (now : ℕ) (k : String) (g : Gateway) → view k (expire_sessions now g) ≡ view k g
unfolding expire_sessions view
expire_sessions-view now k g = refl

sweep_done : ℕ → Gateway → Gateway
sweep_done now g = each (done_step now) (keys g.stream_done_at) g

sweep_idle : ℕ → Gateway → Gateway
sweep_idle now g = each (idle_step now) (keys g.stream_last_at) g

cleanup-view :
    (now : ℕ) (k : String) (g : Gateway)
    → view k (cleanup now g) ≡ view k (sweep_idle now (sweep_done now g))
unfolding cleanup sweep_done sweep_idle
cleanup-view now k g = expire_sessions-view now k _

module _ (now : ℕ) (k : String) (g : Gateway) where
  sweep_done-fresh : done_stale now (view k g) ≡ false → view k (sweep_done now g) ≡ view k g
  unfolding sweep_done done_stale
  sweep_done-fresh new =
      each-fresh (done_step now) (done_stale now) purge_done (done_step_lem now) purge_done-other
        (λ j h old. purge_done_self j h) refl (keys g.stream_done_at) k g new

  sweep_done-stale : done_stale now (view k g) ≡ true → view k (sweep_done now g) ≡ gone
  unfolding sweep_done done_stale
  sweep_done-stale old =
      each-stale (done_step now) (done_stale now) purge_done (done_step_lem now) purge_done-other
        (λ j h old. purge_done_self j h) refl (keys g.stream_done_at) k g old
        (done_stale-keys now k g old)

  sweep_idle-fresh : idle_stale now (view k g) ≡ false → view k (sweep_idle now g) ≡ view k g
  unfolding sweep_idle idle_stale
  sweep_idle-fresh new =
      each-fresh (idle_step now) (idle_stale now) purge_idle (idle_step_lem now) purge_idle-other
        (purge_idle_self now) refl (keys g.stream_last_at) k g new

  sweep_idle-stale : idle_stale now (view k g) ≡ true → view k (sweep_idle now g) ≡ gone
  unfolding sweep_idle idle_stale
  sweep_idle-stale old =
      each-stale (idle_step now) (idle_stale now) purge_idle (idle_step_lem now) purge_idle-other
        (purge_idle_self now) refl (keys g.stream_last_at) k g old (idle_stale-keys now k g old)

-- A tick of the cleanup drops all that the gateway holds of a stream that is over: its events, its
-- times, its subscribers and its run.
pub cleanup-over :
    (now : ℕ) (k : String) (g : Gateway) → IsOver now g k → view k (cleanup now g) ≡ gone
unfolding idle_stale
cleanup-over now k g over = cleanup-view now k g ∙ elim (Bool-cases (done_stale now (view k g))) [
  | inl old ↦
      let purged = sweep_done-stale now k g old in
      sweep_idle-fresh now k (sweep_done now g) (rw purged refl) ∙ purged
  | inr new ↦
      let same = sweep_done-fresh now k g new in
      sweep_idle-stale now k (sweep_done now g) (
        rw same (elim (stale_complete now k g over) [
          | inl old ↦ absurd (ground (arith, old, new))
          | inr old ↦ old
        ]))
]

-- A tick of the cleanup changes nothing of a stream that is not over: one that is watched, that ended
-- less than ten minutes ago, or that has no end and no last event as long ago as ten minutes.
pub cleanup-running :
    (now : ℕ) (k : String) (g : Gateway) → (IsOver now g k → ⊥) → view k (cleanup now g) ≡ view k g
cleanup-running now k g running =
    let done_new : done_stale now (view k g) ≡ false =
      elim (Bool-cases (done_stale now (view k g))) [
        | inl old ↦ absurd (running (done_stale_sound now k g old))
        | inr new ↦ new
      ] in
    let idle_new : idle_stale now (view k g) ≡ false =
      elim (Bool-cases (idle_stale now (view k g))) [
        | inl old ↦ absurd (running (idle_stale_sound now k g old))
        | inr new ↦ new
      ] in
    let same = sweep_done-fresh now k g done_new in
    cleanup-view now k g ∙ sweep_idle-fresh now k (sweep_done now g) (rw same idle_new) ∙ same
