-- ===== src/Election/Raft/State.antt =====
-- The state of a Raft node (internal/election/raft.go), its lock, and what it asks of the
-- outside. Times and durations are in milliseconds, terms are int64 patterns.
use distributed_job_processo.Base.{
  ℕ, ◌+◌, String, Bool, true, false, ◌||◌, Option, none, List, [], ◌∷◌, str_eq, if◌then◌else◌,
}
use distributed_job_processo.Storage.Nodes.{NodeInfo}

pub data RaftState : Type 0 where
  follower candidate leader : RaftState

-- `mu`, as the running goroutine has it. Others release it in time.
pub data Mutex : Type 0 where
  free write_locked read_locked : Mutex

-- `map[string]bool` is the list of its keys, which are all true; `log` is the entries' terms.
pub record Raft : Type 0 where
  pub node_id : String
  pub state : RaftState
  pub current_term : ℕ
  pub voted_for : String
  pub log : List ℕ
  pub commit_index : ℕ
  pub next_index : List (String × ℕ)
  pub match_index : List (String × ℕ)
  pub election_timeout : ℕ
  pub heartbeat_timeout : ℕ
  pub last_heartbeat : ℕ
  pub votes : List String
  pub leadership_start_time : ℕ
  pub last_heartbeat_received : ℕ
  pub election_deadline : Option ℕ  -- `electionTimer`
  pub mu : Mutex
  pub registered : List NodeInfo  -- calls of `RegisterNode`, the latest first
  pub notified : List (Bool × String)  -- calls of the callbacks, the latest first
  pub asked : ℕ  -- how many answers of the outside have been used

-- The answers of the outside, in the order in which they are asked for: `GetNodes`,
-- `AtomicClaimLeadership`, `time.Now`, the clock at each node of a loop, and `rand.Intn`. Other
-- nodes act between any two.
pub record Outside : Type 0 where
  pub get_nodes : ℕ → Option (List NodeInfo)
  pub claim : ℕ → Option Bool
  pub now : ℕ → ℕ
  pub now_at : ℕ → ℕ → ℕ
  pub intn : ℕ → ℕ → ℕ

-- A call returns, or waits for a lock that its own goroutine holds, for ever.
pub data Outcome (A : Type 0) : Type 0 where
  returns : A → Raft → Outcome A
  blocks : Outcome A

abbrev pub Act : Type 0 → Type 0
Act A = Raft → Outcome A

abbrev pub and_then : {A B : Type 0} → Outcome A → (A → Act B) → Outcome B
and_then (returns a r) f = f a r
and_then blocks f = blocks

infixl 5 ◌>>=◌ ◌>>◌
abbrev pub ◌>>=◌ : {A B : Type 0} → Act A → (A → Act B) → Act B
◌>>=◌ m f r = and_then (m r) f

abbrev pub ◌>>◌ : {A B : Type 0} → Act A → Act B → Act B
◌>>◌ m k r = and_then (m r) (λ _. k)

abbrev pub pure : {A : Type 0} → A → Act A
pure a r = returns a r

abbrev pub get : Act Raft
get r = returns r r

abbrev pub modify : (Raft → Raft) → Act (Unit {0})
modify f r = returns tt (f r)

abbrev pub ask : {A : Type 0} → (ℕ → A) → Act A
ask answer r = returns (answer r.asked) (record r { asked = r.asked + 1 })

abbrev pub locking : Mutex → Mutex → Raft → Outcome (Unit {0})
locking free m r = returns tt (record r { mu = m })
locking write_locked m r = blocks
locking read_locked m r = blocks

-- Neither lock can be taken by a goroutine that holds the write lock; this one never holds a read
-- lock when it takes another.
abbrev pub lock : Act (Unit {0})
lock r = locking r.mu write_locked r

abbrev pub r_lock : Act (Unit {0})
r_lock r = locking r.mu read_locked r

abbrev pub unlock : Act (Unit {0})
unlock = modify (λ r. record r { mu = free })

abbrev pub is_leader_state : RaftState → Bool
is_leader_state leader = true
is_leader_state _ = false

abbrev pub is_candidate_state : RaftState → Bool
is_candidate_state candidate = true
is_candidate_state _ = false

abbrev pub is_follower_state : RaftState → Bool
is_follower_state follower = true
is_follower_state _ = false

-- `m[id] = true`
abbrev pub has_key : String → List String → Bool
has_key id [] = false
has_key id (x ∷ xs) = str_eq x id || has_key id xs

abbrev pub add_key : String → List String → List String
add_key id xs = if has_key id xs then xs else id ∷ xs

-- `NewRaftElection`; both clock readings are given.
unfoldable pub new_raft : String → (election_timeout heartbeat_timeout now later : ℕ) → Raft
new_raft id election heartbeat now later = record {
  node_id = id;
  state = follower;
  current_term = 0;
  voted_for = "";
  log = [];
  commit_index = 0;
  next_index = [];
  match_index = [];
  election_timeout = election;
  heartbeat_timeout = heartbeat;
  last_heartbeat = now;
  votes = [];
  leadership_start_time = 0;
  last_heartbeat_received = later;
  election_deadline = none;
  mu = free;
  registered = [];
  notified = [];
  asked = 0;
}
