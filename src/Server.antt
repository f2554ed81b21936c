-- ===== src/Server.antt =====
-- internal/server/server.go: how `New` puts the parts together. The address of a server, the
-- logger and the TLS configuration are not part of the model.
pub mod Jobs
pub mod Lifecycle
pub mod Deletion
pub mod Completion
pub mod Refusing
pub mod Ending
pub mod Stopping
pub mod Routes
pub mod Information
pub mod Cluster
use distributed_job_processo.Base.{
  ℕ, zero, suc, ◌-◌, ◌^◌, String, ◌≡◌, refl, ap, ◌∙◌, Bool, true, false, not, ◌&&◌, ◌||◌, Option,
  none, some, List, [], ◌∷◌, str_eq, leb, Bool-cases, inl, inr, if◌then◌else◌, length, slt,
}
use distributed_job_processo.Config.{Config, Environment, Parsers, load, get_env}
use distributed_job_processo.Retry.{Floats, Policy, create_policy}
use distributed_job_processo.LoadBalancer.{Balancer, create}
use distributed_job_processo.Election.Factory.{
  Created, bully_election, raft_election, gossip_election, create_election, is_some, contains,
  get_supported_algorithms, at_least, quotient,
}
use distributed_job_processo.Auth.{AuthConfig}
use distributed_job_processo.Election.Bully.Starting.{
  bytes, new_bully, node_with, generate_node_address, generate_node_address-length,
}
use distributed_job_processo.Worker.Pool.{Worker}

-- The workers that `NewPool` makes from an index on; `worker_id` is `generateWorkerID`, a
-- `fmt.Sprintf` of the node and the index.
unfoldable pub workers_from :
    (worker_id : String → ℕ → String) → String → (index n : ℕ) → List Worker
workers_from worker_id node index zero = []
workers_from worker_id node index (suc n) =
    record { id = worker_id node index; node_id = node; is_active = false; job_count = 0 }
    ∷ workers_from worker_id node (suc index) n

-- The pointers that fit into the 2 ^ 48 bytes that the runtime can address on a 64-bit machine.
abbrev pub max_slots : ℕ
max_slots = 2 ^ 45

-- `make` of a slice of pointers does not panic: the length is neither negative nor too large.
abbrev pub makes : ℕ → Bool
makes count = not (slt count 0) && leb count max_slots

-- `NewPool`; `make` may panic (`none`).
unfoldable pub new_pool :
    (worker_id : String → ℕ → String) → (count : ℕ) → String → Option (List Worker)
unfolding workers_from
new_pool worker_id count node =
    if makes count then some (workers_from worker_id node 0 count) else none

pub record Server (F : Type 0) : Type 0 where
  pub config : Config F
  pub workers : List Worker
  pub retry_policy : Policy F
  pub election : Created
  pub load_balancer : Balancer
  pub auth : AuthConfig

-- What `New` does: return a server, return an error, or panic.
pub data Start (F : Type 0) : Type 0 where
  started : Server F → Start F
  no_database : Start F
  no_election : Start F
  panicked : Start F

-- Whether the constructor of the election returns for the node's id.
abbrev pub constructs : Created → String → Bool
constructs (bully_election timeout interval) id = is_some (new_bully id timeout)
constructs (raft_election timeout heartbeat) id = true
constructs (gossip_election interval suspicion) id = true

abbrev pub day : ℕ
day = 86_400_000_000_000

module _ {F : Type 0} (floats : Floats F) (worker_id : String → ℕ → String) where
  abbrev pub retry_policy_of : Config F → Policy F
  retry_policy_of config =
      create_policy floats config.retry.policy config.retry.base_delay config.retry.max_delay
        config.retry.multiplier config.retry.jitter_factor

  -- The constructor of the election panics, or gives it.
  abbrev pub with_created : Config F → List Worker → Created → Bool → Start F
  with_created config workers election false = panicked
  with_created config workers election true = started (record {
    config = config;
    workers = workers;
    retry_policy = retry_policy_of config;
    election = election;
    load_balancer = create config.strategy;
    auth = record {
      enabled = config.security.auth_enabled;
      jwt_secret = config.security.jwt_secret;
      token_ttl = day;
    };
  })

  abbrev pub with_election : Config F → List Worker → Option Created → Start F
  with_election config workers none = no_election
  with_election config workers (some election) =
      with_created config workers election (constructs election config.server.node_id)

  abbrev pub with_pool : Config F → Option (List Worker) → Start F
  with_pool config none = panicked
  with_pool config (some workers) =
      with_election config workers
        (create_election config.election.algorithm config.election.timeout config.election.interval)

  -- `connected`: what `NewMongoStorage` returns is no error, `is_opened` of Storage.Connecting.
  unfoldable pub new : (connected : Bool) → Config F → Start F
  unfolding new_pool create_policy create_election create
  new connected config =
      if connected
      then with_pool config (new_pool worker_id config.server.worker_count config.server.node_id)
      else no_database

abbrev pub is_started : {F : Type 0} → Start F → Bool
is_started (started s) = true
is_started no_database = false
is_started no_election = false
is_started panicked = false

length-workers_from :
    (worker_id : String → ℕ → String) (node : String) (index n : ℕ)
    → length (workers_from worker_id node index n) ≡ n
unfolding workers_from
length-workers_from worker_id node index zero = refl
length-workers_from worker_id node index (suc n) =
    ap suc (length-workers_from worker_id node (suc index) n)

constructs-bully : (id : String) (timeout : ℕ) → is_some (new_bully id timeout) ≡ leb 5 (bytes id)
unfolding new_bully
constructs-bully id timeout =
    by_address (generate_node_address id) ∙ generate_node_address-length id
  where
    by_address : (o : Option String) → is_some (node_with id timeout o) ≡ is_some o
    by_address none = refl
    by_address (some s) = refl

module _ {F : Type 0} (floats : Floats F) (worker_id : String → ℕ → String) (config : Config F)
    (workers : List Worker) where
  is_started-created :
      (election : Created) (b : Bool)
      → is_started (with_created floats worker_id config workers election b) ≡ b
  is_started-created election true = refl
  is_started-created election false = refl

  is_started-election :
      (algorithm : String) (timeout interval : ℕ)
      → is_started (
          with_election floats worker_id config workers
            (create_election algorithm timeout interval))
        ≡ (contains get_supported_algorithms algorithm
            && (not (str_eq algorithm "bully") || leb 5 (bytes config.server.node_id)))
  unfolding create_election
  is_started-election algorithm timeout interval =
      by_name (str_eq algorithm "bully") (str_eq algorithm "raft") (str_eq algorithm "gossip")
    where
      by_name :
          (b r g : Bool)
          → is_started (
              with_election floats worker_id config workers (
                if b
                then some (bully_election timeout interval)
                else if r
                then some (raft_election timeout (at_least 50_000_000 (quotient interval 3)))
                else if g
                then some (
                    gossip_election
                      (at_least 100_000_000 (quotient interval 2))
                      (at_least 1_000_000_000 (quotient timeout 2)))
                else none))
            ≡ ((b || (r || (g || false))) && (not b || leb 5 (bytes config.server.node_id)))
      by_name true r g =
          is_started-created (bully_election timeout interval) _
          ∙ constructs-bully config.server.node_id timeout
      by_name false true g = refl
      by_name false false true = refl
      by_name false false false = refl

-- A server comes up from the environment exactly if the database is reached, the number of workers
-- is neither negative nor above 2 ^ 45, ELECTION_ALGORITHM, with bully as its default, is a
-- supported algorithm, and for bully NODE_ID, with node-1 as its default, has at least five bytes.
pub new-supported :
    {F : Type 0} (floats : Floats F) (worker_id : String → ℕ → String) (parsers : Parsers F)
    (env : Environment) (connected : Bool)
    → let algorithm = get_env env "ELECTION_ALGORITHM" "bully" in
      let workers = (load parsers env).server.worker_count in
      is_started (new floats worker_id connected (load parsers env)) ≡ (
        connected
        && (not (slt workers 0) && leb workers (2 ^ 45))
        && contains get_supported_algorithms algorithm
        && (not (str_eq algorithm "bully") || leb 5 (bytes (get_env env "NODE_ID" "node-1"))))
unfolding new new_pool load
new-supported floats worker_id parsers env false = refl
new-supported floats worker_id parsers env true =
    let config = load parsers env in
    elim (Bool-cases (makes config.server.worker_count)) [
      | inl e ↦ rw e (
          is_started-election floats worker_id config _ config.election.algorithm
            config.election.timeout config.election.interval)
      | inr e ↦ rw e refl
    ]
