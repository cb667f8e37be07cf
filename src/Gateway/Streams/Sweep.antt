-- ===== src/Gateway/Streams/Sweep.antt =====
-- The loops of the cleanup over the streams: each step purges a stale stream and does nothing else
-- (pkg/server/server.go, cleanupLoop).
use nano_cloud.Base.{
  ℕ, String, Bool, true, false, not, ◌||◌, Option, none, some, List, [], ◌∷◌, ◌≡◌, ◌∙◌, refl, arith,
  if◌then◌else◌, Bool-cases, inl, inr, ◌==◌, eq_iff, Any,
}
use nano_cloud.Base.Map.{Map, lookup, lookup-delete, lookup-delete_self}
use nano_cloud.Gateway.Messages.{Envelope}
use nano_cloud.Gateway.State.{Gateway, Subscriber, slice}
use nano_cloud.Gateway.Streams.{
  is_recent, has_subs, purge_idle, purge_done, done_step, idle_step, each, keys,
}

-- all that the gateway holds of one stream
pub record View : Type 0 where
  pub events : Option (List Envelope)
  pub event_times : Option (List ℕ)
  pub last_at : Option ℕ
  pub done_at : Option ℕ
  pub subs : Option (List Subscriber)
  pub run : Option String

unfoldable pub view : String → Gateway → View
view k g = record {
  events = lookup k g.stream_events;
  event_times = lookup k g.stream_event_times;
  last_at = lookup k g.stream_last_at;
  done_at = lookup k g.stream_done_at;
  subs = lookup k g.stream_subs;
  run = lookup k g.runs;
}

abbrev pub gone : View
gone = record {
  events = none;
  event_times = none;
  last_at = none;
  done_at = none;
  subs = none;
  run = none;
}

unfoldable pub is_watched : Option (List Subscriber) → Bool
is_watched o = elim (slice o) [ [] ↦ false | s ∷ subs ↦ true ]

unfoldable pub done_stale : ℕ → View → Bool
unfolding is_watched
done_stale now v = elim v.done_at [
  | none ↦ false
  | some t ↦ not (is_recent now t || is_watched v.subs)
]

unfoldable pub idle_stale : ℕ → View → Bool
unfolding is_watched
idle_stale now v = elim v.last_at [
  | none ↦ false
  | some t ↦ elim v.done_at [
    | some done ↦ false
    | none ↦ not (is_recent now t || is_watched v.subs)
  ]
]

pub purge_idle-other :
    (id k : String) (g : Gateway) → (id == k) ≡ false → view k (purge_idle id g) ≡ view k g
unfolding view purge_idle
purge_idle-other id k g other = simp (lookup-delete, other)

pub purge_done-other :
    (id k : String) (g : Gateway) → (id == k) ≡ false → view k (purge_done id g) ≡ view k g
unfolding view purge_done purge_idle
purge_done-other id k g other = simp (lookup-delete, other)

pub purge_done_self : (k : String) (g : Gateway) → view k (purge_done k g) ≡ gone
unfolding view purge_done purge_idle
purge_done_self k g = simp lookup-delete_self

pub done_step_lem :
    (now : ℕ) (k : String) (g : Gateway)
    → done_step now k g ≡ (if done_stale now (view k g) then purge_done k g else g)
unfolding done_step done_stale view has_subs is_watched
done_step_lem now k g = ground arith

pub idle_step_lem :
    (now : ℕ) (k : String) (g : Gateway)
    → idle_step now k g ≡ (if idle_stale now (view k g) then purge_idle k g else g)
unfolding idle_step idle_stale view has_subs is_watched
idle_step_lem now k g = ground arith

pub purge_idle_self :
    (now : ℕ) (k : String) (g : Gateway)
    → idle_stale now (view k g) ≡ true
    → view k (purge_idle k g) ≡ gone
unfolding view purge_idle idle_stale
purge_idle_self now k g stale =
    let absent : lookup k g.stream_done_at ≡ none = ground arith in
    simp (lookup-delete_self, absent)

-- A loop of steps, each of which purges its stream where the stream is stale and does nothing else.
module _ (step : String → Gateway → Gateway) (stale : View → Bool)
    (purge : String → Gateway → Gateway)
    (step_lem : (k : String) (g : Gateway) → step k g ≡ (if stale (view k g) then purge k g else g))
    (other_lem : (id k : String) (g : Gateway) → (id == k) ≡ false → view k (purge id g) ≡ view k g)
    (self_lem : (k : String) (g : Gateway) → stale (view k g) ≡ true → view k (purge k g) ≡ gone)
    (gone_lem : stale gone ≡ false) where
  step-other : (id k : String) (g : Gateway) → (id == k) ≡ false → view k (step id g) ≡ view k g
  step-other id k g other = rw step_lem (elim (Bool-cases (stale (view id g))) [
    | inl old ↦ rw old (other_lem id k g other)
    | inr new ↦ rw new refl
  ])

  step-fresh :
      (id k : String) (g : Gateway) → stale (view k g) ≡ false → view k (step id g) ≡ view k g
  step-fresh id k g new = elim (Bool-cases (id == k)) [
    | inl same ↦ rw ((eq_iff id k).0 same) (rw (step_lem k g) (rw new refl))
    | inr other ↦ step-other id k g other
  ]

  pub each-fresh :
      (ids : List String) (k : String) (g : Gateway)
      → stale (view k g) ≡ false
      → view k (each step ids g) ≡ view k g
  unfolding each
  each-fresh [] k g new = refl
  each-fresh (id ∷ ids) k g new =
      let same = step-fresh id k g new in each-fresh ids k (step id g) (rw same new) ∙ same

  pub each-stale :
      (ids : List String) (k : String) (g : Gateway)
      → stale (view k g) ≡ true
      → Any (λ id. id ≡ k) ids
      → view k (each step ids g) ≡ gone
  unfolding each
  each-stale [] k g old there = elim there [ ]
  each-stale (id ∷ ids) k g old there = elim (Bool-cases (id == k)) [
    | inl same ↦
        let purged : view k (step id g) ≡ gone =
          rw ((eq_iff id k).0 same) (rw (step_lem k g) (rw old (self_lem k g old))) in
        each-fresh ids k (step id g) (rw purged gone_lem) ∙ purged
    | inr other ↦
        let same = step-other id k g other in
        each-stale ids k (step id g) (rw same old)
          (elim there [ inl now_here ↦ absurd (ground (arith, eq_iff id k)) | inr later ↦ later ])
  ]

pub lookup-keys :
    {V : Type 0} (k : String) (m : Map V) (v : V)
    → lookup k m ≡ some v
    → Any (λ id. id ≡ k) (keys m)
unfolding lookup
lookup-keys k [] v here = cc
lookup-keys k ((j, w) ∷ m) v here = elim (Bool-cases (j == k)) [
  | inl same ↦ inl ((eq_iff j k).0 same)
  | inr other ↦ inr (lookup-keys k m v (rw other at here))
]
