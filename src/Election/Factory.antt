-- ===== src/Election/Factory.antt =====
-- internal/election/factory.go. Durations are int64 patterns of nanoseconds.
use distributed_job_processo.Base.{
  ℕ, ◌/◌, String, ◌≡◌, refl, Bool, true, false, not, ◌||◌, Option, none, some, List, [], ◌∷◌, arith,
  str_eq, if◌then◌else◌, slt, negate,
}

-- `/` on int64 by a positive number: it rounds towards zero.
abbrev pub quotient : ℕ → ℕ → ℕ
quotient x k = if slt x 0 then negate (negate x / k) else x / k

-- The election and the durations that its constructor is given.
pub data Created : Type 0 where
  bully_election : (timeout interval : ℕ) → Created
  raft_election : (timeout heartbeat_timeout : ℕ) → Created
  gossip_election : (gossip_interval suspicion_timeout : ℕ) → Created

-- `if d < floor { d = floor }`
abbrev pub at_least : ℕ → ℕ → ℕ
at_least floor d = if slt d floor then floor else d

unfoldable pub create_election : (algorithm : String) (timeout interval : ℕ) → Option Created
create_election algorithm timeout interval =
    if str_eq algorithm "bully"
    then some (bully_election timeout interval)
    else if str_eq algorithm "raft"
    then some (raft_election timeout (at_least 50_000_000 (quotient interval 3)))
    else if str_eq algorithm "gossip"
    then some (
        gossip_election (at_least 100_000_000 (quotient interval 2))
          (at_least 1_000_000_000 (quotient timeout 2)))
    else none

abbrev pub get_supported_algorithms : List String
get_supported_algorithms = "bully" ∷ "raft" ∷ "gossip" ∷ []

abbrev bully_description : String
bully_description =
    "Bully Algorithm - Simple leader election based on node priorities. Best for small clusters with stable membership. Leader is the node with highest priority that's currently alive."

abbrev raft_description : String
raft_description =
    "Raft Consensus - Strong consistency with leader election and log replication. Best for critical systems requiring consensus on state changes. Handles network partitions gracefully with majority quorum."

abbrev gossip_description : String
gossip_description =
    "Gossip-based Election - Decentralized membership management with failure detection. Best for large, dynamic clusters with frequent membership changes. Eventually consistent leader election through gossip protocol."

unfoldable pub get_algorithm_description : String → String
get_algorithm_description algorithm =
    if str_eq algorithm "bully"
    then bully_description
    else if str_eq algorithm "raft"
    then raft_description
    else if str_eq algorithm "gossip"
    then gossip_description
    else "Unknown algorithm"

pub record Configuration : Type 0 where
  pub election_timeout : String
  pub election_interval : String
  pub recommended_for : String
  pub characteristics : List String

-- `none` is the map with the key "error".
unfoldable pub get_recommended_configuration : String → (cluster_size : ℕ) → Option Configuration
get_recommended_configuration algorithm cluster_size =
    if str_eq algorithm "bully"
    then some (record {
      election_timeout = "10s";
      election_interval = "30s";
      recommended_for = "Small clusters (2-10 nodes)";
      characteristics =
          "Simple and fast" ∷ "Single point of failure detection" ∷ "Good for stable membership"
          ∷ [];
    })
    else if str_eq algorithm "raft"
    then some (record {
      election_timeout = if slt 5 cluster_size then "10s" else "5s";
      election_interval = "2s";
      recommended_for = "Medium clusters (3-7 nodes)";
      characteristics =
          "Strong consistency guarantees" ∷ "Handles network partitions"
          ∷ "Requires majority quorum" ∷ [];
    })
    else if str_eq algorithm "gossip"
    then some (record {
      election_timeout = "15s";
      election_interval = if slt 20 cluster_size then "2s" else "1s";
      recommended_for = "Large clusters (10+ nodes)";
      characteristics =
          "Scales to large clusters" ∷ "Handles dynamic membership" ∷ "Eventually consistent"
          ∷ "Built-in failure detection" ∷ [];
    })
    else none

abbrev pub is_some {ℓ} : {A : Type ℓ} → Option A → Bool
is_some none = false
is_some (some _) = true

abbrev pub contains : List String → String → Bool
contains [] s = false
contains (x ∷ xs) s = str_eq s x || contains xs s

-- The durations of an election are not below their floors.
abbrev pub AboveFloors : Option Created → Type 0
AboveFloors none = Unit
AboveFloors (some (bully_election timeout interval)) = Unit
AboveFloors (some (raft_election timeout heartbeat)) = slt heartbeat 50_000_000 ≡ false
AboveFloors (some (gossip_election interval suspicion)) =
    (slt interval 100_000_000 ≡ false) × (slt suspicion 1_000_000_000 ≡ false)

at_least-floor : (floor d : ℕ) → slt (at_least floor d) floor ≡ false
at_least-floor floor d = ground arith

-- Whatever durations are configured, negative ones included, a Raft heartbeat is not below 50
-- ms, a gossip interval not below 100 ms and a suspicion timeout not below one second.
pub create_election-AboveFloors :
    (algorithm : String) (timeout interval : ℕ)
    → AboveFloors (create_election algorithm timeout interval)
unfolding create_election
create_election-AboveFloors algorithm timeout interval =
    by_name (str_eq algorithm "bully") (str_eq algorithm "raft") (str_eq algorithm "gossip")
  where
    by_name :
        (b r g : Bool)
        → AboveFloors (
            if b
            then some (bully_election timeout interval)
            else if r
            then some (raft_election timeout (at_least 50_000_000 (quotient interval 3)))
            else if g
            then some (
                gossip_election
                  (at_least 100_000_000 (quotient interval 2))
                  (at_least 1_000_000_000 (quotient timeout 2)))
            else none)
    by_name true r g = tt
    by_name false true g = at_least-floor 50_000_000 (quotient interval 3)
    by_name false false true = (
      at_least-floor 100_000_000 (quotient interval 2),
      at_least-floor 1_000_000_000 (quotient timeout 2),
    )
    by_name false false false = tt

-- The four methods know the same algorithms: those that `CreateElection` accepts are those that
-- are listed, those with a description and those with a recommended configuration.
pub algorithms_agree :
    (algorithm : String) (timeout interval size : ℕ)
    → (is_some (create_election algorithm timeout interval)
        ≡ contains get_supported_algorithms algorithm)
      × (not (str_eq (get_algorithm_description algorithm) "Unknown algorithm")
          ≡ contains get_supported_algorithms algorithm)
      × (is_some (get_recommended_configuration algorithm size)
          ≡ contains get_supported_algorithms algorithm)
unfolding create_election get_algorithm_description get_recommended_configuration
algorithms_agree algorithm timeout interval size = (
  ground arith,
  known (str_eq algorithm "bully") (str_eq algorithm "raft") (str_eq algorithm "gossip"),
  ground arith,
)
  where
    known :
        (b r g : Bool)
        → not (
            str_eq
              (if b
                then bully_description
                else if r
                then raft_description
                else if g
                then gossip_description
                else "Unknown algorithm")
              "Unknown algorithm")
          ≡ (b || (r || (g || false)))
    known true r g = refl
    known false true g = refl
    known false false true = refl
    known false false false = refl
