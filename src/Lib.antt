-- ===== src/Lib.antt =====
-- The command pipeline, the event bus, the knowledge graph, the telemetry pipeline, the plugin
-- manager, the metering of use, the roles and the REST API of OpenspaceOS-core.
--
-- A client hands a command for a satellite to `Pipeline.Send` (internal/pipeline/command/pipeline.go),
-- which puts it into the priority queue (queue.go). The scheduler's dispatch loop (scheduler.go) takes
-- a slot of a semaphore, takes the best queued command and starts a sender, which publishes
-- `CommandSent`, calls the adapter with a timeout, and on its answer publishes `CommandAcked`, or
-- waits out a backoff and queues the command again, or gives it up. Events go to the message bus
-- (internal/core/local_bus.go), which checks them against the schemas (pkg/event/schema.go), stores
-- them (internal/core/event_store_memory.go) and fans them out to the subscribers.
--
-- The graph's service (internal/core/kg_service.go) keeps nodes and relationships in two tables and
-- publishes what it changes. Telemetry comes in by TCP or in batches (internal/pipeline/telemetry), is
-- parsed into frames by a parser that plugins bring (internal/plugin), and each frame is published.
-- The REST API (internal/api/rest) checks who asks (internal/auth) and calls the graph's service and
-- the command pipeline.
--
-- Base           lists, maps, sorting, integers and tests that the parts share.
-- Event          the event and its payloads: pkg/event/event.go, types.go. Event/Schema is schema.go
--                (`Register`, `extractFields`, `Validate`), Event/Schema/Defaults the built-in tables,
--                Event/Schema/Valid what an accepted event is.
-- Bus            the interface of internal/core/bus.go that the scheduler takes as a parameter.
--                Bus/Local is local_bus.go (`Publish`, `Subscribe`, `Replay`, `Close`, `dispatchLoop`,
--                `fanout`); Delivery and Publish hold its proofs. Bus/Nats is nats_bus.go (`Publish`,
--                `Replay`, the subjects), Bus/Nats/Consumer its subscriptions and `Close`; Subjects,
--                Rounds, History, Consumer/Feed and Consumer/Shutdown hold the proofs.
-- Store          internal/core/event_store.go, event_store_memory.go and errors.go (`Append`, `Query`,
--                `Cleanup`, `Close`); Query, Paging and Cleanup hold its proofs. Store/Sqlite is
--                event_store_sqlite.go; Rows, Agreement, Order and Trim hold its proofs.
-- Migration      internal/storage/migrator.go (Order and Applied hold its proofs), and Migration/Copy
--                is internal/core/migrate.go, with its proofs in Batches.
-- Command        internal/pipeline/command: Item and Queue are queue.go, Metrics metrics.go, Scheduler
--                scheduler.go (`sendItem`, `retryOrFail`), Pipeline pipeline.go and validator.go, and
--                System the interleaving of them all. Below Queue: Valid, Best, Drain and Listing;
--                below Scheduler: Outcomes, Backoff and Events; below Pipeline: Requests and Kept;
--                below System: Threads, Safe, Change, Steps, Retries, Settled and Race.
-- Api            the REST API: internal/api/rest/router.go and internal/auth/middleware.go, and in
--                Api/Handlers handler.go's handlers of the graph and of commands; Access, Authorized
--                and Safe hold the proofs.
-- Graph          internal/core/repository.go, node_repo_sqlite.go (Graph/Nodes), rel_repo_sqlite.go
--                (Graph/Relationships) and kg_service.go (Graph/Service). Dialect is dialect.go. Rules,
--                Consistent, Repositories, Traversal (below it Rows, Collected and Exact), and below
--                Service Calls, Deletion, Modes, Atomic and Integrity, hold the proofs; Integrity has
--                the requests to the service.
-- Telemetry      internal/pipeline/telemetry: Tle is tle_parser.go, Json json_parser.go, Buffer
--                metrics.go, Receiver receiver.go, Pipeline normalizer.go, ingest.go and pipeline.go;
--                the modules below them hold the proofs.
-- Plugins        internal/plugin: manager.go (Globals its package-level registry), manifest.go
--                (Manifests) and broker.go (Broker); Instances and Registered hold the proofs.
-- Model          pkg/model: node.go, relationship.go and validate.go; Model/Valid holds its proofs.
-- Auth           internal/auth/roles.go; Auth/Roles holds its proofs. Auth/Clients is jwt.go, client.go
--                and client_service.go, with its proofs in Auth/Clients/Tokens, and Auth/Users is
--                service.go over store.go, with its proofs.
-- Usage          internal/usage: usage.go and collector.go; Usage/Tally holds its proofs.
-- But for Base/Tests, which holds Boolean tests, the modules called Tests hold runs on concrete data.
--
-- How code and model correspond. A Go map is an association list with unique keys, whose order stands
-- for an order of iteration; `sort.Slice` is a stable insertion sort. The queue's items are shared by
-- pointer, so they stand in a heap `cell` at addresses, and a pointer is an address. A mutex makes a
-- call one step; a goroutine is cut at its waits, and what it writes between two waits is one step, but
-- `Cancel` is two steps, since it holds no lock between its read and its write. A run is a list of
-- moves, and a move that its thread cannot make ends it with `none`, so a theorem on runs is about
-- every order of the steps. A channel is the list of what it buffers. Times are counts of nanoseconds
-- from Go's zero time, durations and ints are integers, and the backoff is computed in 64 bits; the
-- counters of the metrics do not wrap. The clock, fresh ids, `ctx.Err()`, the trace id of a context
-- and the adapter's answer are arguments. Events are values: callers are taken not to write to an
-- event after they published it. `dispatch` may take one more command after `Stop`, as the loop may.
-- The graph's tables are lists of rows. Each call of the database driver takes one entry of a list of
-- faults, and a fault is an error that changes nothing; a transaction that fails leaves the tables as
-- it found them. The order of `ORDER BY` is an argument, taken to rearrange rows (`Rearranges`), as
-- sorting does. Telemetry's float64 is an argument with its operations,
-- and so is the JWT library, of which `IsJwt` states what its documents promise.
-- `writeInt` fills a buffer of twenty digits, which is enough for 64 bits.
-- The rows of SQLite's table of events stand in the order of their insertion, which `ORDER BY` keeps
-- among equal keys; how SQLite compares texts and how Go writes times are parameters, of which
-- `IsDocumented` states what is relied on. Of a goroutine of the NATS bus a step is one call of `Next`,
-- one send or one look at the closed bus; stopping the iterator and closing the channel are one step.
-- A request to the REST API is one step, and no other part takes one between two requests.
-- `Publish` of the local bus is one step, though the code holds no lock from the store to its send.
-- `sort.Slice` and `ORDER BY` are stable in the model, which neither Go nor SQLite promises.
-- Replay of the NATS bus reads a list of all messages that reach the stream while it runs, of which a
-- fetch may find only some there yet (`short_batch`); it runs on fuel of one round more than there are
-- messages: every round but the last takes at least one of them. Without an end to the messages it need
-- not end, as in the code.
-- No other definition takes fuel: all loops are over lists, a run is as long as its list of moves, and a
-- traversal makes as many rounds as its depth.
--
-- Not modelled: logging; the setters and `Start` and `Stop` of the command pipeline, beyond the stop
-- signal; the JSON encoding of payloads other than those published here; the token bucket and the
-- deadlines of a TCP connection; the text of SQL, the opening of databases and of the NATS connection,
-- the usage store, the gRPC API and the handlers of the REST API that Api/Handlers does not have,
-- configuration and the programs, which are SQL, network or library calls, or parts of the system
-- beside these.
pub mod Base
pub mod Event
pub mod Bus
pub mod Command
pub mod Store
pub mod Migration
pub mod Api
pub mod Graph
pub mod Telemetry
pub mod Plugins
pub mod Usage
pub mod Auth
pub mod Model
