-- ===== src/Gateway/Streams/Append.antt =====
-- What one appended event does to each stream (pkg/server/server.go, appendStreamEvent).
use nano_cloud.Base.{
  ap, drop-drop, length-append, length-drop, drop-append, drop, le→ltb_false, ℕ, ◌+◌, ◌-◌, ◌≤◌,
  String, List, [], ◌∷◌, ◌++◌, ◌≡◌, ◌∙◌, refl, sym, arith, length, ltb, if◌then◌else◌, Bool-cases,
  Option-cases, inl, inr, ltb→lt, ◌==◌,
}
use nano_cloud.Base.Map.{lookup, insert, delete, lookup-insert}
use nano_cloud.Gateway.Messages.{Envelope, completes}
use nano_cloud.Gateway.State.{
  last_n, Gateway, events_of, times_of, slice, max_stream_events_per_stream,
}
use nano_cloud.Gateway.Queue.Capped.{length-last_n}
use nano_cloud.Gateway.Streams.{
  cut_events, cut_times, record_event, mark_done, publish, append_stream_event,
}

pub length-cut_events :
    (events : List Envelope) → length (cut_events events) ≤ max_stream_events_per_stream
unfolding cut_events
length-cut_events events = elim (Bool-cases (ltb max_stream_events_per_stream (length events))) [
  | inl over ↦ rw over (
      omega (
        arith,
        length-last_n max_stream_events_per_stream events
            (omega (arith, ltb→lt max_stream_events_per_stream (length events) over)),
      ))
  | inr fits ↦ rw fits (ground arith)
]

cut_events-drop :
    (events : List Envelope)
    → cut_events events ≡ drop (length events - max_stream_events_per_stream) events
unfolding cut_events last_n
cut_events-drop events = elim (Bool-cases (ltb max_stream_events_per_stream (length events))) [
  | inl over ↦ rw over refl
  | inr fits ↦
      let none_over : length events - max_stream_events_per_stream ≡ 0 = ground arith in
      rw (fits, none_over) refl
]

pub cut_events-fits :
    (events : List Envelope)
    → length events ≤ max_stream_events_per_stream
    → cut_events events ≡ events
unfolding cut_events
cut_events-fits events fits =
    rw (le→ltb_false (length events) max_stream_events_per_stream fits) refl

-- Cutting in between makes no difference to what a later cut leaves.
pub cut_events-append :
    (xs ys : List Envelope) → cut_events (cut_events xs ++ ys) ≡ cut_events (xs ++ ys)
cut_events-append xs ys =
    let cap = max_stream_events_per_stream in
    let over = length xs - cap in
    let kept : cut_events xs ++ ys ≡ drop over (xs ++ ys) =
      rw cut_events-drop (sym (drop-append over xs ys (omega arith))) in
    let shorter = length-drop over (xs ++ ys) in
    let both = length-append xs ys in
    let sum : over + (length (drop over (xs ++ ys)) - cap) ≡ length (xs ++ ys) - cap =
      omega arith in
    rw kept (
      cut_events-drop (drop over (xs ++ ys))
      ∙ drop-drop (length (drop over (xs ++ ys)) - cap) over (xs ++ ys)
      ∙ ap (λ k. drop k (xs ++ ys)) sum
      ∙ sym (cut_events-drop (xs ++ ys)))

-- The two slices are cut to the same length.
pub length-cut_times :
    (events : List Envelope) (times : List ℕ)
    → length events ≡ length times
    → length (cut_events events) ≡ length (cut_times events times)
unfolding cut_events cut_times
length-cut_times events times same =
    elim (Bool-cases (ltb max_stream_events_per_stream (length events))) [
      | inl over ↦
          let enough = ltb→lt max_stream_events_per_stream (length events) over in
          rw (← same, over)
            (length-last_n max_stream_events_per_stream events (omega arith)
              ∙ sym (length-last_n max_stream_events_per_stream times (omega arith)))
      | inr fits ↦ rw fits same
    ]

publish-events :
    (id : String) (env : Envelope) (g : Gateway)
    → (publish id env g).stream_events ≡ g.stream_events
unfolding publish
publish-events id env g = elim (Option-cases (lookup id g.stream_subs)) [
  | inl gone ↦ rw (publish, gone) refl
  | inr (subs, here) ↦ rw (publish, here) refl
]

publish-times :
    (id : String) (env : Envelope) (g : Gateway)
    → (publish id env g).stream_event_times ≡ g.stream_event_times
unfolding publish
publish-times id env g = elim (Option-cases (lookup id g.stream_subs)) [
  | inl gone ↦ rw (publish, gone) refl
  | inr (subs, here) ↦ rw (publish, here) refl
]

append-stream_events :
    (id : String) (env : Envelope) (now : ℕ) (g : Gateway)
    → (append_stream_event id env now g).stream_events
      ≡ insert id (cut_events (events_of g id ++ env ∷ [])) g.stream_events
unfolding append_stream_event record_event mark_done
append-stream_events id env now g = elim (Bool-cases (completes env)) [
  | inl done ↦ rw done (publish-events id env _)
  | inr more ↦ rw more (publish-events id env _)
]

append-stream_event_times :
    (id : String) (env : Envelope) (now : ℕ) (g : Gateway)
    → (append_stream_event id env now g).stream_event_times
      ≡ insert id
          (cut_times (events_of g id ++ env ∷ []) (times_of g id ++ now ∷ []))
          g.stream_event_times
unfolding append_stream_event record_event mark_done
append-stream_event_times id env now g = elim (Bool-cases (completes env)) [
  | inl done ↦ rw done (publish-times id env _)
  | inr more ↦ rw more (publish-times id env _)
]

publish-queue :
    (id : String) (env : Envelope) (g : Gateway) → (publish id env g).worker_queue ≡ g.worker_queue
unfolding publish
publish-queue id env g = elim (Option-cases (lookup id g.stream_subs)) [
  | inl gone ↦ rw (publish, gone) refl
  | inr (subs, here) ↦ rw (publish, here) refl
]

pub append-worker_queue :
    (id : String) (env : Envelope) (now : ℕ) (g : Gateway)
    → (append_stream_event id env now g).worker_queue ≡ g.worker_queue
unfolding append_stream_event record_event mark_done
append-worker_queue id env now g = elim (Bool-cases (completes env)) [
  | inl done ↦ rw done (publish-queue id env _)
  | inr more ↦ rw more (publish-queue id env _)
]

pub events_of-append :
    (id j : String) (env : Envelope) (now : ℕ) (g : Gateway)
    → events_of (append_stream_event id env now g) j
      ≡ (if id == j then cut_events (events_of g id ++ env ∷ []) else events_of g j)
unfolding slice
events_of-append id j env now g =
    rw (append-stream_events id env now g, lookup-insert id j)
      (elim (Bool-cases (id == j)) [ inl same ↦ rw same refl | inr other ↦ rw other refl ])

pub times_of-append :
    (id j : String) (env : Envelope) (now : ℕ) (g : Gateway)
    → times_of (append_stream_event id env now g) j ≡ (
        if id == j
        then cut_times (events_of g id ++ env ∷ []) (times_of g id ++ now ∷ [])
        else times_of g j)
unfolding slice
times_of-append id j env now g =
    rw (append-stream_event_times id env now g, lookup-insert id j)
      (elim (Bool-cases (id == j)) [ inl same ↦ rw same refl | inr other ↦ rw other refl ])

publish-runs : (id : String) (env : Envelope) (g : Gateway) → (publish id env g).runs ≡ g.runs
unfolding publish
publish-runs id env g = elim (Option-cases (lookup id g.stream_subs)) [
  | inl gone ↦ rw (publish, gone) refl
  | inr (subs, here) ↦ rw (publish, here) refl
]

publish-done_at :
    (id : String) (env : Envelope) (g : Gateway)
    → (publish id env g).stream_done_at ≡ g.stream_done_at
unfolding publish
publish-done_at id env g = elim (Option-cases (lookup id g.stream_subs)) [
  | inl gone ↦ rw (publish, gone) refl
  | inr (subs, here) ↦ rw (publish, here) refl
]

-- An event that completes a run takes the run away and marks the end of its stream; no other event
-- does either.
pub append_stream_event-completes :
    (id : String) (env : Envelope) (now : ℕ) (g : Gateway)
    → ((append_stream_event id env now g).runs
        ≡ (if completes env then delete id g.runs else g.runs))
      × ((append_stream_event id env now g).stream_done_at
          ≡ (if completes env then insert id now g.stream_done_at else g.stream_done_at))
unfolding append_stream_event record_event mark_done
append_stream_event-completes id env now g = elim (Bool-cases (completes env)) [
  | inl done ↦ rw done (publish-runs id env _, publish-done_at id env _)
  | inr more ↦ rw more (publish-runs id env _, publish-done_at id env _)
]
