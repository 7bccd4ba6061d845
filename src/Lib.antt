-- ===== src/Lib.antt =====
-- Spectral Cloud: the core of the control plane for agents, jobs and routes.
--
-- The program is one Go server. Its packages under pkg/ each keep one part of the state behind
-- mutexes; the handlers of cmd/spectral-cloud call them. A public operation is one function here,
-- from the state before to the state after and the reply, and what happens over time is a
-- sequence of calls. The time of a call is an argument. Most operations hold their lock throughout.
-- The others are taken as one step as well: `SubmitWithOpts` and `CreatePipeline` draw their
-- number before they lock, `Publish` locks the history and the subscribers one after the other, a
-- tick of the scheduler and a delivery of a notification lock for each of their parts, `Next` of a
-- group draws its position after it has read the members, and pkg/circuit locks the manager and then
-- the breaker.
--
-- The parts:
-- * Blockchain is pkg/blockchain/blockchain.go: a chain is a list of blocks; `AddBlock` is
--   `add_block`, `VerifyChain` is `verify_chain`, and so on. SHA-256, HMAC and the printing of a
--   `float64` are parameters. Chain, Linked, History, Signatures and Search hold the proofs.
-- * Circuit is pkg/circuit/circuit.go: a manager with a breaker for each agent. Every call but
--   `Delete` creates the breaker that it asks for. Invariant, Trips and Agents hold the proofs.
-- * Jobs is pkg/jobs/jobs.go: Record has a job, its identifier and the order of claims, and Jobs
--   the queue. Effects is about the entry under a key, Ids about identifiers and the
--   counter, Asked and Claims about the loop of a claim, Exclusive about two claims in a row, and
--   History about histories of calls. Mirror, Mirrored, Restore and Recovery are about the store of the
--   queue and a load of it.
-- * Pipeline is pkg/pipeline/pipeline.go: Record has the data, State the manager with its
--   persistence, and Pipeline the operations. Advance is about one step of a run, Progress about
--   a whole run, Stages and History about the stages of the stored pipelines.
-- * Routing is pkg/routing/routing.go: Choice has a route, the filter and the score, and Routing
--   the operations of the engine. Ranking compares the two ways to choose a route, and Expiry is
--   about pruning and about rejected updates.
-- * Kv is pkg/kv/kv.go: the entries with a time to live, and Lookup about reads after writes.
-- * Events is pkg/events/events.go: the subscribers with the buffers of their channels, and the
--   ring of past events; the random identifier of an event is an argument of `publish`. Acts has
--   histories of calls by several subscribers and of receives from their channels, Delivery is about
--   what a subscriber finds, Ring and Retention about the past events.
-- * AgentGroup is pkg/agentgroup/agentgroup.go: Group has the data and the loops of `Next`, and
--   AgentGroup the operations. Slots, Rotation and Turns compare `Next` with a list that has each
--   member as often as its weight says, and Fairness is about many calls. The filter of `Next` may
--   change a state of its own, as the one of the server does with the circuit breakers.
-- * Agent is pkg/agent/agent.go: the registry, and Listing the operations that go through it. Live
--   and Lease are about what has expired, Listed and Best about the listings and `FindBest`.
-- * Scheduler is pkg/scheduler/scheduler.go: Record and State have the data, the goroutines and the
--   persistence, and Scheduler the operations; a tick submits to the queue of Jobs. Runners, Arming,
--   Standing, Adding, History and Shutdown are about the goroutines of a schedule, and Refused about
--   updates that are refused.
-- * Notify is pkg/notify/notify.go: Rule has a rule and what it matches, and Notify the operations
--   and the deliveries of an event of Events. Firing holds the proofs.
-- * Healthcheck is pkg/healthcheck/healthcheck.go: a round of checks over the registry of Agent and
--   the broker of Events; the answers of the network are a parameter. Effects holds the proofs.
-- * Persist is the interface `Persister` that pkg/jobs, pkg/pipeline, pkg/agentgroup, pkg/scheduler
--   and pkg/notify use of pkg/store, with the JSON of a value: parameters of the parts that use
--   them. JSON is not taken to read back every value: what needs it says of which values. Each part
--   has the database as its own, for the prefixes of their keys differ. Memory is
--   one such store.
-- * Prelude has the shared types: `int` as an integer with its wrap-around, instants, maps as
--   association lists, the loops over a map that change it, decimal numbers, bytes of a text,
--   and sorting. The modules called Examples hold tests and the theorems at concrete inputs.
--
-- How the code is rendered:
-- * A Go map is an association list in any order; a loop over it takes its entries in that order,
--   and what is proved is proved of every order. A loop that deletes or changes entries runs over
--   the keys and reads the entry that a key has then.
-- * A pointer that a map holds is a value that is stored back after a change. `Submit`,
--   `CreatePipeline` and `Create` of a group also return such a pointer, and the copies of a group
--   share its slice of members; what a caller sees or writes through these is left out.
-- * `int` is an integer that wraps where the code adds to it; `uint64` counters are numbers modulo
--   2^64. An index out of range, where Go panics, has a result of its own.
-- * `time.Time` counts nanoseconds since the zero time. A route's score, a `float64` in the code,
--   is an exact integer, which agrees with the code for latencies, penalties and throughputs below
--   2^51; beyond that the `float64` rounds, and what is proved of the order of routes is proved of
--   the exact scores.
-- * `sort.Slice` is a stable sort. Copies of a map, such as `clonePayload` makes, are the map.
-- * A loop is recursion on a list or on the number of its rounds. Only the printing of a number has
--   fuel: it gets one round more than the number, and a number has fewer digits than that.
--
-- Not modelled: the handlers, the clients and the processes of cmd/, which are HTTP, flags and
-- printing; pkg/ai and pkg/webhook, which are remote calls; pkg/proto, which is generated; the
-- storage engine of pkg/store; and, so far, pkg/auth, pkg/billing and pkg/mesh.
-- `Start` of pkg/notify and of pkg/healthcheck, which run goroutines, and the panic of a ticker whose
-- stored interval is not positive are left out, logging as well, and the mutexes, whose sections are
-- the steps.
pub mod Prelude
pub mod Circuit
pub mod Blockchain
pub mod Persist
pub mod Jobs
pub mod Routing
pub mod Pipeline
pub mod Kv
pub mod Events
pub mod AgentGroup
pub mod Agent
pub mod Scheduler
pub mod Notify
pub mod Healthcheck
