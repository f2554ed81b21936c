-- ===== src/Lib.antt =====
-- The distributed job processor: nodes that elect a leader through a MongoDB collection, a Redis
-- queue of jobs, a pool of workers that run them, strategies that choose a worker, and an HTTP
-- API with JSON Web Tokens.
--
-- A job (pkg/job/job.go) is pushed to Redis by the API (internal/queue/redis.go), popped by a
-- worker of a pool (internal/worker/pool.go), run by the processor that is registered for its
-- type, and written to MongoDB (internal/storage/mongodb.go) at each change. A failed job is
-- pushed again with a delay. The workers of all nodes share one Redis. The server
-- (internal/server) builds the parts from the configuration (internal/config) and answers the
-- requests. The nodes elect a leader (internal/election): bully and Raft read and write the nodes
-- collection, and Raft claims the leadership with `AtomicClaimLeadership` of the storage.
--
-- Files:
--   Base         shared names; Base/Tests: Boolean tests; Base/Lists: lists over the native
--                numbers; Base/Int64: the 64-bit integers of Go with their wrap-around.
--   Job          pkg/job/job.go.
--   LoadBalancer internal/loadbalancer/*.go, `WorkerStats` of internal/worker/pool.go. Selection:
--                the scans; Outcomes: what the strategies return; Rotation: the turns of round
--                robin.
--   Queue        internal/queue/redis.go. Server: the Redis client and the JSON codec as
--                interfaces with the documented effects; Defs: the operations; Lengths: the
--                statistics; Delayed and Order: theorems about them; Refinement: an abstract
--                queue, with Refinement/Scheduling and Refinement/Simulation; Sharing: several
--                workers and clients over one Redis, a command at a time, with Sharing/Runs and
--                Sharing/Clients (`Pop` and `Push` as such steps, from Sharing/Reaching),
--                Sharing/Counts, Sharing/Kept, Sharing/Loss and Sharing/Delivery (what becomes of an
--                entry, from Sharing/Places) and Sharing/Twice (two moves at a time).
--   Storage      internal/storage/mongodb.go. Connecting: `NewMongoStorage` and the indexes; Jobs:
--                the job operations; Documents: the effects of the driver on the documents, and what
--                the operations do to them, with Unique;
--                Listing: `GetJobs`, with Listing/Answers; Statistics: `GetJobStats`; Nodes: the
--                nodes collection; Claim: `AtomicClaimLeadership`, with Claim/Exclusion (mutual
--                exclusion), Claim/Window (its time windows) and Claim/Ending (its bound).
--   Worker       internal/worker/pool.go. Pool: `processJob`, the loop of a worker and the
--                statistics; Balance, Processing and Draining: their theorems.
--   Election     Factory: internal/election/factory.go. Raft: internal/election/raft.go. State:
--                the node, its mutex and the outside; Checks: the validations; Roles: the changes
--                of role; Rounds: what each case of the run loops does; Running: the loops as
--                steps; Stale: two methods that nothing calls; Votes, Locking and Leadership:
--                theorems. Bully: internal/election/bully.go. Node: the operations; Checks: the
--                decision; Starting: the constructor, the rounds and the questions. Gossip:
--                internal/election/gossip.go. Table: the members and the messages; Rounds:
--                discovery, the states and the choice of the leader; Merging and Electing:
--                theorems; Running: the node from its start on as a step relation.
--   Auth         internal/auth/auth.go and the routes of internal/server/server.go. Access: who
--                passes.
--   Retry        internal/retry/policies.go.
--   Config       internal/config/config.go.
--   Server       internal/server/server.go and election_info.go: `New` and `NewPool`. Jobs: the
--                handlers for jobs; Information: those that show something; Cluster: the nodes;
--                Routes: the routes behind the authentication; Lifecycle, Refusing, Deletion and
--                Completion: a job through the API; Ending: the orders of the start and the shutdown;
--                Stopping: a job that runs when the pool is stopped.
--   Metrics      internal/metrics/metrics.go and the leadership callback of
--                internal/server/server.go. Series: the functions as calls, and what a series
--                shows over time.
--   Tls          internal/tls/tls.go. Secured: what it makes when TLS is on.
--   Programs     cmd/server/main.go, examples/simple_processor.go and examples/client_example.go,
--                with `RegisterProcessor` of internal/server/server.go. Processors: the example's
--                processors; Runs: what becomes of a job in each program; Exit: the two
--                goroutines of the service's `main`; Client: the client, with Client/RoundTrip.
--   Examples     the theorems at concrete inputs.
--
-- How the code is modelled: a method is a function of the state that it reads to the state that
-- it leaves and its results, with the names of the source. The Redis client, the MongoDB driver,
-- the JSON codec, the JWT library, float64, the parsers of the standard library, gin, net/http,
-- the Prometheus client, the certificates and the processors are parameters; where a theorem
-- needs what they do, the documented effect is a hypothesis (`Effects`, `Answers`, `ReadsBack`,
-- `Documented`, `Responds`, `Finds`, `GroupsByStatus`, `Cancelled`, `Gauges`), and Examples has
-- stores of which they hold. A command of the queue that reports an error has run, with its reply
-- lost, or has not (`Sent`), and its pipeline may have run in part; an error of BRPOP has taken no
-- element, and one of the MongoDB driver has changed nothing. Readings of the clock and of the random
-- generator are arguments, one for each reading. Times are nanoseconds in the queue and the pool,
-- milliseconds in MongoDB and in the elections. Raft reads its outside (nodes, claims, clock) as
-- a sequence of answers, so that other nodes may act between any two, and its mutex is a part of
-- the state: a call that waits for a lock of its own goroutine has the outcome `blocks`; in the
-- gossip election such a call is `none`, or `blocked` with the node as it is then, from the flag
-- that tells whether the caller holds the lock.
--
-- Bounds: the definitions have no fuel; the loop of a worker takes the number of its rounds, and
-- as many as there are queued jobs empty the queue. Integers are 64 bits wide and wrap. `make` is taken to have the 2 ^ 48 bytes of a 64-bit
-- machine (`max_slots`), and the memory not to end below that.
--
-- Not modelled: the goroutines themselves (the rounds of their loops are functions or steps, one
-- after another within a node, but for the commands of the queue, which several workers may mix,
-- and the two of the service's `main`); the HTTP server itself; how the drivers
-- connect to the databases and close them; the logger, which only calls a library; the tests and scripts;
-- a Raft election timeout below one millisecond, for which `rand.Intn` panics.
pub mod Base
pub mod Job
pub mod LoadBalancer
pub mod Queue
pub mod Storage
pub mod Worker
pub mod Election
pub mod Auth
pub mod Retry
pub mod Config
pub mod Server
pub mod Metrics
pub mod Tls
pub mod Programs
pub mod Examples
