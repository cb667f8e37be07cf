-- ===== src/Lib.antt =====
-- Nano Cloud: a gateway that hands runs of coding agents to workers, and a proxy that limits the
-- network of a run.
--
-- Parts. The gateway (pkg/server) keeps its sessions, queues and event streams in memory and its
-- workers and pairing requests in files of one directory. A worker pairs with it (a request, a code that
-- an operator approves, a token that the worker polls for), connects over a websocket or polls over
-- HTTP, gets runs and sends events, which clients follow. The proxy (cmd/net-policy-proxy) lets a run
-- reach what an allowlist permits, which the worker (pkg/worker) checks beforehand.
--
-- Files.
--   Base: lists over native numbers, Go's maps, strings, paths of path/filepath, host:port
--     addresses of net, sort.Slice and (value,
--     error) results.
--   Store: pkg/server/worker_config_store.go and pairing_store.go. `Disk` is the directory; a
--     method is a function on it that returns a result and the directory after it, so that what was
--     written before an error stays written. `faults` says which writes fail. The steps of a method
--     are in the order of the code. Store.Workers and Store.Pairing have the methods under the
--     names of the code (RotateWorkerToken is rotate_worker_token), the other modules what is
--     proved of them. Store.Registry is the abstract view: a table of each worker's latest token
--     hash.
--   Policy: cmd/net-policy-proxy/main.go and pkg/worker/net_allowlist.go. Policy.Rules compiles and
--     checks the rules, Policy.Match decides; Policy.Names and Policy.Grants say what a rule means.
--     Policy.Proxy has the handlers of the proxy up to the dial or the round trip.
--   Gateway: pkg/server/server.go, admin_handlers.go, pairing_handlers.go,
--     worker_config_handlers.go. Gateway.State is GatewayServer; Gateway.Queue the control
--     messages, Gateway.Streams the events and the cleanup, Gateway.Runs the runs (Runs.Life from
--     creation to end), Gateway.Auth the checks and console sessions, Gateway.Connect the
--     connection of a worker, Gateway.Admin the handlers over the store; Gateway.Reach is the step
--     relation over all of them.
--   Worker: Worker.Adapter is BuildSpec and Sanitize of pkg/worker/runtime/base.go, with
--     nano_agent.go in Worker.Adapter.NanoAgent, Worker.Docker the arguments of docker run in
--     pkg/worker/docker_runner.go, and Worker.Runtimes what pkg/worker/worker.go advertises and
--     what a run finds of its configuration. Worker.Paths has the directories of a run and
--     resolveHostBindPath. Worker.Run is the life of a run: handleRunRequest (Run.Handler,
--     Run.Container) and handleCancel (Run.Cancel) are programs, in which each access to
--     runState, each message and each call of docker (Run.Commands) is an action with a
--     continuation; Run.System lets the goroutines of a run interleave, together with requests to
--     cancel, lines of output and the end of the connection; Run.Alone runs one goroutine by
--     itself, and Run.Network follows what it owes to docker. Worker.Bootstrap is
--     pkg/worker/bootstrap_remote.go with Start, dial and the hello of worker.go, and
--     Worker.Config the configuration with pkg/worker/config_edit.go in Config.Edit.
--     Worker.Reconnect is the loop of Start, Worker.AgentConfig setNestedYAML of
--     cmd/worker/main.go.
--
-- Conventions. Each operation is what the code does under one hold of its lock, or a sequence of
-- such; interleavings are sequences of steps, and Gateway.Reach has a step for each single hold as
-- well. What other requests do between the two holds of createRun is an argument of
-- create_run_during. Clock, random source, hash, resolver, address parsing, services, the reading
-- of an unusual host of a URL by http.Transport and the outcome of a network write are arguments.
-- Times are seconds. A uint64 wraps at 2 ^ 64. The limits are those of the code: 1000 queued
-- messages, 2000 events of a stream, 64 events in a channel, ten minutes of retention, 900 seconds
-- for a pairing. All loops are over lists, except that of decimal numerals, whose fuel is the
-- number itself. Case mapping and white space are those of ASCII. The random order of a Go map's
-- loop is the order of the model's list, over which the theorems quantify.
--
-- Not modelled: HTML and SSE output, HTTP and websocket I/O, JSON, YAML and protobuf encoding. Of a
-- run: the log files and the redaction of their lines, heartbeats and pings; the taking of a
-- sequence number and the write of the message are one step. Of the worker: its diagnosis and the
-- rest of the commands.
pub mod Base
pub mod Store
pub mod Policy
pub mod Gateway
pub mod Worker
