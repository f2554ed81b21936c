-- ===== src/Server/Information.antt =====
-- The handlers that only show something (internal/server/server.go and election_info.go). The
-- node's identity, its configured algorithm and what its election says are arguments.
use distributed_job_processo.Base.{
  ℕ, String, ◌≡◌, refl, sym, ap, ◌∙◌, inl, inr, Bool, true, false, not, Option, none, some, List,
  str_eq, if◌then◌else◌, Bool-cases,
}
use distributed_job_processo.Queue.Lengths.{Lengths, QueueStats, get_stats}
use distributed_job_processo.Storage.Statistics.{Groups, JobStats, get_job_stats}
use distributed_job_processo.Storage.Nodes.{NodeInfo, Nodes, get_nodes}
use distributed_job_processo.LoadBalancer.{Balancer, get_strategy, WorkerStats}
use distributed_job_processo.Election.Factory.{
  Configuration, get_supported_algorithms, get_algorithm_description, get_recommended_configuration,
  is_some, contains, algorithms_agree,
}
use distributed_job_processo.Worker.Pool.{World, Worker, get_worker_stats}
use distributed_job_processo.Server.Jobs.{Response, failed, answered, listed_or_500}

pub record StatsBody : Type 0 where
  pub jobs : JobStats
  pub queue : QueueStats
  pub id : String
  pub is_leader : Bool
  pub strategy : String

module _ (node_id : String) (is_leader : Bool) (balancer : Balancer) where
  abbrev pub with_queue_stats : JobStats → Option QueueStats → Response StatsBody
  with_queue_stats jobs none = failed 500
  with_queue_stats jobs (some queue) = answered 200 (record {
    jobs = jobs;
    queue = queue;
    id = node_id;
    is_leader = is_leader;
    strategy = get_strategy balancer;
  })

  abbrev pub with_job_stats : Option JobStats → Option QueueStats → Response StatsBody
  with_job_stats none queue = failed 500
  with_job_stats (some jobs) queue = with_queue_stats jobs queue

  unfoldable pub handle_get_stats :
      {S M : Type 0} → Groups M → Lengths S → World S M → Response StatsBody
  unfolding get_job_stats get_stats
  handle_get_stats groups lengths w =
      with_job_stats (get_job_stats groups w.mongo) (get_stats lengths w.redis)

unfoldable pub handle_get_workers : List Worker → Response (List WorkerStats)
unfolding get_worker_stats
handle_get_workers workers = answered 200 (get_worker_stats workers)

unfoldable pub handle_get_nodes : {S : Type 0} → Nodes S → (now : ℕ) → S → Response (List NodeInfo)
unfolding get_nodes
handle_get_nodes nodes now s = listed_or_500 (get_nodes nodes now s)

pub record LeaderBody : Type 0 where
  pub leader_id : String
  pub is_leader : Bool

unfoldable pub handle_get_leader : (leader_id : String) → (is_leader : Bool) → Response LeaderBody
handle_get_leader leader_id is_leader =
    answered 200 (record { leader_id = leader_id; is_leader = is_leader })

pub record ElectionBody : Type 0 where
  pub current_algorithm : String
  pub is_leader : Bool
  pub leader_id : String
  pub node_id : String
  pub supported_algorithms : List String

unfoldable pub handle_get_election_info :
    (algorithm node_id leader_id : String) → (is_leader : Bool) → Response ElectionBody
handle_get_election_info algorithm node_id leader_id is_leader = answered 200 (record {
  current_algorithm = algorithm;
  is_leader = is_leader;
  leader_id = leader_id;
  node_id = node_id;
  supported_algorithms = get_supported_algorithms;
})

pub record AlgorithmBody : Type 0 where
  pub algorithm : String
  pub description : String
  pub configuration : Option Configuration

unfoldable pub handle_get_algorithm_info : String → Response AlgorithmBody
unfolding get_algorithm_description get_recommended_configuration
handle_get_algorithm_info algorithm =
    let description = get_algorithm_description algorithm in
    if str_eq description "Unknown algorithm"
    then failed 404
    else answered 200 (record {
      algorithm = algorithm;
      description = description;
      configuration = get_recommended_configuration algorithm 5;
    })

pub record HealthBody : Type 0 where
  pub status : String
  pub node_id : String
  pub time : ℕ

unfoldable pub handle_health_check : (node_id : String) (now : ℕ) → Response HealthBody
handle_health_check node_id now =
    answered 200 (record { status = "healthy"; node_id = node_id; time = now })

-- The answer of `getAlgorithmInfo` that the other methods of the factory lead one to expect.
abbrev pub Informs : String → Response AlgorithmBody → Type 0
Informs algorithm (failed status) =
    (status ≡ 404) × (contains get_supported_algorithms algorithm ≡ false)
Informs algorithm (answered status body) =
    (status ≡ 200)
    × (contains get_supported_algorithms algorithm ≡ true)
    × (body.description ≡ get_algorithm_description algorithm)
    × (is_some body.configuration ≡ true)

-- `getAlgorithmInfo` answers 404 for an algorithm that is not supported, and 200 with its
-- description and a recommended configuration, never the configuration's error, for one that is.
pub handle_get_algorithm_info-Informs :
    (algorithm : String) → Informs algorithm (handle_get_algorithm_info algorithm)
unfolding handle_get_algorithm_info
handle_get_algorithm_info-Informs algorithm =
    let (_, described, configured) = algorithms_agree algorithm 0 0 5 in
    elim (Bool-cases (str_eq (get_algorithm_description algorithm) "Unknown algorithm")) [
      | inl e ↦ rw e (refl, sym described ∙ ap not e)
      | inr e ↦ let known = sym described ∙ ap not e in rw e (refl, known, refl, configured ∙ known)
    ]
