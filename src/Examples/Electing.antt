-- ===== src/Examples/Electing.antt =====
-- Elections among three nodes.
use distributed_job_processo.Base.{
  ℕ, String, ◌≡◌, refl, true, false, none, some, List, [], ◌∷◌, arith,
}
use distributed_job_processo.Storage.Nodes.{NodeInfo}
use distributed_job_processo.Election.Raft.State.{
  candidate, leader, free, Raft, Outside, Outcome, returns, blocks,
}
use distributed_job_processo.Election.Raft.Checks.{majority_of}
use distributed_job_processo.Election.Raft.Roles.{become_leader, become_follower}
use distributed_job_processo.Election.Raft.Leadership.{NoRival, become_leader_sound}
use distributed_job_processo.Election.Raft.Locking.{become_follower_blocks}
use distributed_job_processo.Election.Bully.Node.{
  Node, Bully, Inputs, check_leadership as check_bully,
}
use distributed_job_processo.Election.Raft.Locking.{ending}
use distributed_job_processo.Election.Bully.Node.{calculate_priority, get_current_leader_unsafe}
use distributed_job_processo.Election.Bully.Checks.{check_leadership-is_leader}

abbrev pub peer : String → (term : ℕ) → NodeInfo
peer id term = record {
  id = id;
  address = "localhost:8080";
  is_leader = false;
  last_seen = 99_000;
  worker_count = 10;
  version = "1.0.0";
  term = term;
}

abbrev pub three_nodes : ℕ → List NodeInfo
three_nodes term = peer "a" 1 ∷ peer "b" 1 ∷ peer "c" term ∷ []

-- The third node's term is given; the claim is granted.
abbrev pub calm : ℕ → Outside
calm term = record {
  get_nodes = λ _. some (three_nodes term);
  claim = λ _. some true;
  now = λ _. 100_000;
  now_at = λ _ _. 100_000;
  intn = λ _ _. 0;
}

abbrev standing : Raft
standing = record {
  node_id = "a";
  state = candidate;
  current_term = 1;
  voted_for = "a";
  log = [];
  commit_index = 0;
  next_index = [];
  match_index = [];
  election_timeout = 5_000;
  heartbeat_timeout = 1_000;
  last_heartbeat = 90_000;
  votes = "b" ∷ "a" ∷ [];
  leadership_start_time = 0;
  last_heartbeat_received = 90_000;
  election_deadline = none;
  mu = free;
  registered = [];
  notified = [];
  asked = 0;
}

abbrev state_after : {A : Type 0} → Outcome A → Raft
state_after (returns a r) = r
state_after blocks = standing

elected : Raft
unfolding become_leader
elected = state_after (become_leader (calm 1) standing)

become_leader_sound_example :
    (nodes : List NodeInfo) × (candidate ≡ candidate)
    × (some (three_nodes 1) ≡ some nodes)
    × NoRival "a" 1 1_000 (λ _. 100_000) nodes
    × (majority_of 2 (some (three_nodes 1)) ≡ true)
    × (some true ≡ some true)
    × (elected.current_term ≡ 1)
    × (elected.notified ≡ (true, "a") ∷ [])
unfolding elected become_leader
become_leader_sound_example =
    become_leader_sound (calm 1) standing elected refl refl refl (λ e. ground arith)

become_follower_blocks_example : ending (become_follower (calm 1) 2 standing) ≡ none
become_follower_blocks_example = become_follower_blocks (calm 1) standing refl 2

abbrev ruling : Raft
ruling = record standing { state = leader }

abbrev cached : Node
cached = record { id = "z"; address = "z:8080"; priority = 122; last_seen = 99_000 }

abbrev small : Bully
small = record {
  node_id = "a";
  node_addr = "a:8080";
  nodes = cached ∷ [];
  is_leader = true;
  timeout = 15_000;
  registered = [];
  notified = [];
}

abbrev readings : Inputs
readings = record {
  ranking = λ _. 100_000;
  searching = λ _. 100_000;
  notifying = λ _ _. 100_000;
  stored = λ _. some [];
  looking = λ _ _. 100_000;
  clearing = some [];
  registers = true;
}

check_leadership-is_leader_example : (check_bully readings small).is_leader ≡ false
unfolding calculate_priority get_current_leader_unsafe
check_leadership-is_leader_example = check_leadership-is_leader readings small
