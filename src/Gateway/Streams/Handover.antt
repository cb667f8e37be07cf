-- ===== src/Gateway/Streams/Handover.antt =====
-- The subscription to a stream, between its history and the events that follow
-- (pkg/server/server.go, handleRunEvents and appendStreamEvent).
use nano_cloud.Base.{ℕ, String, List, [], ◌∷◌}
use nano_cloud.Gateway.Messages.{Envelope}
use nano_cloud.Gateway.State.{Gateway, Subscriber}
use nano_cloud.Gateway.Streams.{offer_all, append_stream_event}

-- the events of one stream, one after the other, each at its time
unfoldable pub append_all : String → List (Envelope × ℕ) → Gateway → Gateway
unfolding append_stream_event
append_all id [] g = g
append_all id ((env, now) ∷ rest) g = append_all id rest (append_stream_event id env now g)

unfoldable pub envelopes : List (Envelope × ℕ) → List Envelope
envelopes [] = []
envelopes ((env, now) ∷ rest) = env ∷ envelopes rest

offer_each : List Envelope → List Subscriber → List Subscriber
offer_each [] subs = subs
offer_each (env ∷ envs) subs = offer_each envs (offer_all env subs)

-- the buffer of the first subscriber
unfoldable pub head_buffer : List Subscriber → List Envelope
head_buffer [] = []
head_buffer (s ∷ subs) = s.buffer
