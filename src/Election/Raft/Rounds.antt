-- ===== src/Election/Raft/Rounds.antt =====
-- The entry points and the loops of internal/election/raft.go. A loop over `select` is one
-- function for each of its cases; which case comes next is up to the timers.
use distributed_job_processo.Base.{
  ℕ, ◌+◌, ◌*◌, String, Bool, true, false, not, Option, none, some, List, [], ◌∷◌, str_eq, ltb, leb,
  if◌then◌else◌, length, inc,
}
use distributed_job_processo.Storage.Nodes.{NodeInfo}
use distributed_job_processo.Election.Raft.State.{
  follower, Outside, Act, ◌>>=◌, ◌>>◌, pure, get, modify, ask, lock, r_lock, unlock,
  is_leader_state, is_candidate_state,
}
use distributed_job_processo.Election.Raft.Checks.{
  has_majority, validate_leadership_continuity, receive_heartbeat, Conflict, no_conflict, behind,
  rival, conflict_scan,
}
use distributed_job_processo.Election.Raft.Roles.{
  when, reset_election_timer, update_node_info, become_follower, become_candidate, become_leader,
  leader_seen,
}

-- `AppendEntriesRequest`; its entries are always empty.
pub record AppendEntries : Type 0 where
  pub term : ℕ
  pub leader_id : String
  pub prev_log_index : ℕ
  pub prev_log_term : ℕ
  pub leader_commit : ℕ

pub record VoteRequest : Type 0 where
  pub term : ℕ
  pub candidate_id : String
  pub last_log_index : ℕ
  pub last_log_term : ℕ

unfoldable pub get_last_log_term : List ℕ → ℕ
get_last_log_term [] = 0
get_last_log_term (t ∷ []) = t
get_last_log_term (t ∷ u ∷ log) = get_last_log_term (u ∷ log)

-- The ids of the other nodes, in order.
pub others : String → List NodeInfo → List String
others id [] = []
others id (n ∷ ns) = let rest = others id ns in if str_eq n.id id then rest else n.id ∷ rest

module _ (outside : Outside) where
  open outside use {get_nodes, now}

  unfoldable pub start : Act (Unit {0})
  unfolding reset_election_timer
  start = do lock; modify (λ r. record r { state = follower }); reset_election_timer outside; unlock

  unfoldable pub stop : Act (Unit {0})
  unfolding update_node_info
  stop = do
    lock
    modify (λ r. record r { election_deadline = none })
    r ← get
    when (is_leader_state r.state)
        (do modify (λ r'. record r' { state = follower }); update_node_info outside false)
    unlock

  unfoldable pub is_leader : Act Bool
  is_leader = do r_lock; r ← get; unlock; pure (is_leader_state r.state)

  unfoldable pub get_leader : Act String
  get_leader = do
    r_lock
    r ← get
    who ←
        (if is_leader_state r.state
          then pure r.node_id
          else do nodes ← ask get_nodes; pure (leader_seen outside nodes))
    unlock
    pure who

  -- `runFollower`, when the ticker fires.
  unfoldable pub check_heartbeat : Act (Unit {0})
  unfolding receive_heartbeat reset_election_timer
  check_heartbeat = do
    heard ← receive_heartbeat outside
    when heard (do
      lock
      t ← ask now
      modify (λ r. record r { last_heartbeat_received = t })
      reset_election_timer outside
      unlock)

  -- `runFollower`, when the election timer fires; true if the loop ends.
  unfoldable pub election_timed_out : Act Bool
  unfolding reset_election_timer become_candidate
  election_timed_out = do
    r_lock
    r ← get
    t ← ask now
    unlock
    if ltb t (r.last_heartbeat_received + r.election_timeout)
        then (do lock; reset_election_timer outside; unlock; pure false)
        else (do become_candidate outside; pure true)

  -- `runCandidate` before its loop; the vote requests go out in another goroutine.
  unfoldable pub begin_election : Act (Unit {0})
  unfolding reset_election_timer
  begin_election = do
    lock
    modify (λ r. record r {
      current_term = inc r.current_term;
      voted_for = r.node_id;
      votes = r.node_id ∷ [];
    })
    reset_election_timer outside
    unlock

  abbrev pub lead_if : Bool → Act Bool
  lead_if false = pure false
  lead_if true = do become_leader outside; pure true

  -- `runCandidate`, when the ticker fires; true if the loop ends.
  unfoldable pub poll_votes : Act Bool
  unfolding has_majority become_leader
  poll_votes = do
    r_lock
    r ← get
    unlock
    if not (is_candidate_state r.state)
        then pure true
        else do majority ← has_majority outside (length r.votes); lead_if majority

  -- `runCandidate`, when the longest wait is over.
  unfoldable pub final_vote_check : Act (Unit {0})
  unfolding has_majority become_leader become_follower
  final_vote_check = do
    r_lock
    r ← get
    unlock
    majority ← has_majority outside (length r.votes)
    if majority then become_leader outside else do r' ← get; become_follower outside r'.current_term

  -- `requestVotes`: the request and its targets.
  unfoldable pub request_votes : Act (Option (VoteRequest × List String))
  unfolding get_last_log_term others
  request_votes = do
    nodes ← ask get_nodes
    elim nodes [
      | none ↦ pure none
      | some ns ↦ (do
        r_lock
        r ← get
        unlock
        pure (
            some (
              record {
                term = r.current_term;
                candidate_id = r.node_id;
                last_log_index = length r.log;
                last_log_term = get_last_log_term r.log;
              },
              others r.node_id ns,
            )))
    ]

  -- `runLeader`, when the conflict ticker fires: the failures so far, and true if the loop ends.
  abbrev pub leadership_failed : ℕ → Act (ℕ × Bool)
  leadership_failed failures =
      if leb 3 failures
      then (do
        lock
        modify (λ r. record r { state = follower })
        update_node_info outside false
        unlock
        pure (failures, true))
      else pure (failures, false)

  unfoldable pub check_leadership : ℕ → Act (ℕ × Bool)
  unfolding validate_leadership_continuity update_node_info
  check_leadership failures = do
    valid ← validate_leadership_continuity outside
    if valid then pure (0, false) else leadership_failed (failures + 1)

  -- The ticker's next interval in milliseconds after so many failures in a row.
  unfoldable pub backoff_interval : ℕ → ℕ
  backoff_interval failures =
      if ltb 1 failures
      then (if ltb 2_000 (failures * failures * 100) then 2_000 else failures * failures * 100)
      else 100

  abbrev pub resolve : Conflict → List String → Act (Option (AppendEntries × List String))
  resolve (behind t) targets = do
    lock
    modify (λ r. record r { current_term = t; state = follower; voted_for = "" })
    unlock
    pure none
  resolve rival targets = do lock; modify (λ r. record r { state = follower }); unlock; pure none
  resolve no_conflict targets = do
    r_lock
    r ← get
    unlock
    pure (
        some (
          record {
            term = r.current_term;
            leader_id = r.node_id;
            prev_log_index = 0;
            prev_log_term = 0;
            leader_commit = r.commit_index;
          },
          targets,
        ))

  abbrev pub beat : String → ℕ → Option (List NodeInfo) → Act (Option (AppendEntries × List String))
  beat id term none = pure none
  beat id term (some nodes) = resolve (conflict_scan id term nodes) (others id nodes)

  -- The request and its targets, if heartbeats are sent.
  unfoldable pub send_heartbeats : Act (Option (AppendEntries × List String))
  unfolding conflict_scan others update_node_info
  send_heartbeats = do
    r_lock
    r ← get
    unlock
    if not (is_leader_state r.state) then pure none else do
      update_node_info outside true
      nodes ← ask get_nodes
      beat r.node_id r.current_term nodes
