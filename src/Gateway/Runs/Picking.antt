-- ===== src/Gateway/Runs/Picking.antt =====
-- The worker that is picked for a run (pkg/server/server.go, pickWorkerForRuntime).
use nano_cloud.Base.{
  Option-cases, String, true, some, List, [], ◌∷◌, ◌≡◌, ◌≢◌, refl, sym, arith, Bool-cases, inl, inr,
  ◌⊎◌, ◌↔◌, Any, All,
}
use nano_cloud.Base.Map.{Map}
use nano_cloud.Gateway.Messages.{Runtime, custom, WorkerHello}
use nano_cloud.Gateway.State.{WorkerSession}
use nano_cloud.Gateway.Runs.{runtime_eq, offers, session_offers, pick_worker_for_runtime}

-- a session of that id, after a hello, that lists the runtime or CUSTOM
abbrev pub Offers : Runtime → String → String × WorkerSession → Type 0
Offers rt id (j, w) =
    (j ≡ id)
    × ((h : WorkerHello) × ((w.hello ≡ some h)
          × Any (λ s. (s ≡ rt) ⊎ (s ≡ custom)) h.supported_runtimes))

runtime_eq_iff : (a b : Runtime) → (runtime_eq a b ≡ true) ↔ (a ≡ b)
unfolding runtime_eq
runtime_eq_iff a b = ground arith

offers_sound :
    (rt : Runtime) (rts : List Runtime)
    → offers rt rts ≡ true
    → Any (λ s. (s ≡ rt) ⊎ (s ≡ custom)) rts
unfolding offers
offers_sound rt [] m = cc
offers_sound rt (s ∷ rts) m =
    ground (arith, runtime_eq_iff s rt, runtime_eq_iff s custom, offers_sound rt rts)

offers_complete :
    (rt : Runtime) (rts : List Runtime)
    → Any (λ s. (s ≡ rt) ⊎ (s ≡ custom)) rts
    → offers rt rts ≡ true
unfolding offers
offers_complete rt [] any = absurd any
offers_complete rt (s ∷ rts) any =
    ground (arith, runtime_eq_iff s rt, runtime_eq_iff s custom, offers_complete rt rts)

session_offers_sound :
    (rt : Runtime) (id : String) (w : WorkerSession)
    → session_offers rt w ≡ true
    → Offers rt id (id, w)
unfolding session_offers
session_offers_sound rt id w m = elim (Option-cases w.hello) [
  | inl absent ↦ absurd (ground (arith, absent))
  | inr (h, here) ↦ (refl, (h, (here, offers_sound rt h.supported_runtimes (ground (arith, here)))))
]

session_offers_complete :
    (rt : Runtime) (id : String) (p : String × WorkerSession)
    → Offers rt id p
    → session_offers rt p.1 ≡ true
unfolding session_offers
session_offers_complete rt id (j, w) (same, (h, (here, any))) =
    ground (arith, here, offers_complete rt h.supported_runtimes any)

-- Where a worker is picked for a run, its session has said hello and lists the runtime or CUSTOM.
pub pick_worker_for_runtime_sound :
    (rt : Runtime) (id : String) (workers : Map WorkerSession)
    → id ≢ ""
    → pick_worker_for_runtime rt workers ≡ id
    → Any (Offers rt id) workers
unfolding pick_worker_for_runtime
pick_worker_for_runtime_sound rt id [] named picked = absurd (named (sym picked))
pick_worker_for_runtime_sound rt id ((j, w) ∷ rest) named picked =
    elim (Bool-cases (session_offers rt w)) [
      | inl serves ↦
          let same : j ≡ id = ground (arith, serves) in
          inl (rw (← same) (session_offers_sound rt j w serves))
      | inr lacks ↦ inr (pick_worker_for_runtime_sound rt id rest named (rw lacks at picked))
    ]

-- Where some session, all with ids that are not empty, offers the runtime, a worker is picked.
pub pick_worker_for_runtime_complete :
    (rt : Runtime) (id : String) (workers : Map WorkerSession)
    → All (λ (p : String × WorkerSession). p.0 ≢ "") workers
    → Any (Offers rt id) workers
    → pick_worker_for_runtime rt workers ≢ ""
unfolding pick_worker_for_runtime
pick_worker_for_runtime_complete rt id [] named any = absurd any
pick_worker_for_runtime_complete rt id ((j, w) ∷ rest) (named, later) any =
    elim (Bool-cases (session_offers rt w)) [
      | inl serves ↦ rw serves named
      | inr lacks ↦ rw lacks (
          pick_worker_for_runtime_complete rt id rest later (elim any [
            | inl here ↦ absurd (ground (arith, session_offers_complete rt id (j, w) here, lacks))
            | inr rest_any ↦ rest_any
          ]))
    ]
