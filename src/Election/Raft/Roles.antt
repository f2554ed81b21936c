-- ===== src/Election/Raft/Roles.antt =====
-- How a Raft node changes its role: internal/election/raft.go from `becomeFollower` to
-- `handleVoteResponse`, with every lock and unlock.
use distributed_job_processo.Base.{
  ℕ, ◌+◌, String, Bool, true, false, not, ◌||◌, Option, none, some, List, [], ◌∷◌, str_eq, ◌==◌,
  if◌then◌else◌, length, slt, inc,
}
use distributed_job_processo.Storage.Nodes.{NodeInfo}
use distributed_job_processo.Election.Raft.State.{
  RaftState, follower, candidate, leader, Raft, Outside, Act, ◌>>=◌, ◌>>◌, pure, get, modify, ask,
  lock, r_lock, unlock, is_leader_state, is_candidate_state, is_follower_state, add_key,
}
use distributed_job_processo.Election.Raft.Checks.{
  has_majority, validate_term_consistency, try_claim_leadership, first_leader,
}

-- `if b { ... }`
abbrev pub when : Bool → Act (Unit {0}) → Act (Unit {0})
when true m = m
when false m = pure tt

module _ (outside : Outside) where
  open outside use {get_nodes, now, intn}

  -- A random timeout of one to two base timeouts, and a jitter below 200 ms. The base timeout is
  -- one millisecond at least: `rand.Intn` panics below it.
  unfoldable pub reset_election_timer : Act (Unit {0})
  reset_election_timer = do
    r ← get
    factor ← ask (λ i. intn i r.election_timeout)
    jitter ← ask (λ i. intn i 200)
    t ← ask now
    modify
        (λ r'. record r' { election_deadline = some (t + (r.election_timeout + factor + jitter)) })

  -- It takes a read lock; the error of `RegisterNode` is only logged.
  unfoldable pub update_node_info : Bool → Act (Unit {0})
  update_node_info is_leader = do
    r_lock
    r ← get
    unlock
    modify (λ r'. record r' {
      registered =
          record {
            id = r.node_id;
            address = "localhost:8080";
            is_leader = is_leader;
            last_seen = 0;
            worker_count = 10;
            version = "1.0.0";
            term = r.current_term;
          }
          ∷ r'.registered;
    })

  abbrev pub leader_seen : Option (List NodeInfo) → String
  leader_seen none = ""
  leader_seen (some nodes) = first_leader nodes

  abbrev pub notify : Bool → String → Raft → Raft
  notify is_leader id r = record r { notified = (is_leader, id) ∷ r.notified }

  -- Called with the lock held; one entry stands for the call of every callback.
  unfoldable pub notify_callbacks : Act (Unit {0})
  notify_callbacks = do
    r ← get
    if is_leader_state r.state
        then modify (notify true r.node_id)
        else do nodes ← ask get_nodes; modify (notify false (leader_seen nodes))

  abbrev pub take_term : ℕ → Raft → Raft
  take_term term r =
      if slt r.current_term term then record r { current_term = term; voted_for = "" } else r

  -- The tail of `becomeFollower` for a node that was no follower: the lock is still held.
  abbrev pub leave_office : RaftState → Act (Unit {0})
  leave_office old =
      when (not (is_follower_state old)) (do update_node_info false; notify_callbacks)

  unfoldable pub become_follower : ℕ → Act (Unit {0})
  unfolding reset_election_timer update_node_info notify_callbacks
  become_follower term = do
    lock
    modify (take_term term)
    r ← get
    heard ← ask now
    received ← ask now
    modify (λ r'. record r' {
      state = follower;
      last_heartbeat = heard;
      last_heartbeat_received = received;
    })
    reset_election_timer
    leave_office r.state
    unlock

  -- The lock is released during the random delay; a follower becomes a candidate.
  unfoldable pub become_candidate : Act (Unit {0})
  become_candidate = do
    lock
    ask (λ i. intn i 50)
    unlock
    lock
    modify (λ r. if is_follower_state r.state then record r { state = candidate } else r)
    unlock

  unfoldable pub become_follower_unsafe : ℕ → Act (Unit {0})
  unfolding reset_election_timer notify_callbacks
  become_follower_unsafe term = do
    modify (take_term term)
    r ← get
    when (not (is_follower_state r.state)) (do
      modify (λ r'. record r' { state = follower; votes = [] })
      reset_election_timer
      notify_callbacks)

  abbrev pub indexed : (id : String) (value : ℕ) → List NodeInfo → List (String × ℕ)
  indexed id value [] = []
  indexed id value (n ∷ ns) =
      let rest = indexed id value ns in if str_eq n.id id then rest else (n.id, value) ∷ rest

  abbrev pub index_nodes : Option (List NodeInfo) → Raft → Raft
  index_nodes none r = record r { next_index = []; match_index = [] }
  index_nodes (some nodes) r = record r {
    next_index = indexed r.node_id (length r.log + 1) nodes;
    match_index = indexed r.node_id 0 nodes;
  }

  unfoldable pub initialize_leader_state : Act (Unit {0})
  initialize_leader_state = do nodes ← ask get_nodes; modify (index_nodes nodes)

  -- `becomeLeader` once the claim is granted: the lock is released for the registration.
  unfoldable pub take_office : Act (Unit {0})
  unfolding initialize_leader_state notify_callbacks update_node_info
  take_office = do
    modify (λ r. record r { state = leader })
    initialize_leader_state
    notify_callbacks
    unlock
    update_node_info true
    lock
    t ← ask now
    modify (λ r. record r { leadership_start_time = t })
    unlock
    lock

  -- After the majority test.
  abbrev pub claim_office : Act (Unit {0})
  claim_office = do
    granted ← try_claim_leadership outside
    if granted then take_office else do r ← get; become_follower_unsafe r.current_term

  abbrev pub count_votes : Act (Unit {0})
  count_votes = do
    r ← get
    majority ← has_majority outside (length r.votes)
    if majority then claim_office else become_follower_unsafe r.current_term

  abbrev pub stand : Act (Unit {0})
  stand = do
    consistent ← validate_term_consistency outside
    if consistent then count_votes else do r ← get; become_follower_unsafe (inc r.current_term)

  unfoldable pub become_leader : Act (Unit {0})
  unfolding validate_term_consistency has_majority try_claim_leadership become_follower_unsafe
      take_office
  become_leader = do lock; r ← get; when (is_candidate_state r.state) stand; unlock

  -- The answer of a peer.
  abbrev pub stays_out : Raft → ℕ → Bool
  stays_out r term = not (is_candidate_state r.state) || not (term == r.current_term)

  abbrev pub record_vote : String → Bool → Raft → Raft
  record_vote voter vote_granted r =
      if vote_granted then record r { votes = add_key voter r.votes } else r

  abbrev pub step_back : ℕ → Act (Unit {0})
  step_back term = do
    modify (λ r. record r { current_term = term; voted_for = ""; state = follower })
    reset_election_timer

  unfoldable pub handle_vote_response :
      (voter : String) (term : ℕ) (vote_granted : Bool) → Act (Unit {0})
  unfolding reset_election_timer
  handle_vote_response voter term vote_granted = do
    lock
    r ← get
    when (not (stays_out r term)) (
        if slt r.current_term term then step_back term else modify (record_vote voter vote_granted))
    unlock
