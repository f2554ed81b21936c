-- ===== src/Election/Raft/Locking.antt =====
-- The lock in the operations of a Raft node (internal/election/raft.go): `updateNodeInfo` takes a
-- read lock, and `sync.RWMutex` is not reentrant.
use distributed_job_processo.Base.{
  if◌then◌else◌, Option, none, some, ℕ, ◌≤◌, String, ◌≡◌, Bool, false, arith,
}
use distributed_job_processo.Election.Raft.State.{
  free, Raft, Outside, Outcome, returns, blocks, Mutex, is_follower_state, is_leader_state,
}
use distributed_job_processo.Election.Raft.Roles.{
  become_follower, become_candidate, become_leader, handle_vote_response,
}
use distributed_job_processo.Election.Raft.Checks.{validate_leadership_continuity}
use distributed_job_processo.Election.Raft.Rounds.{
  stop, begin_election, check_heartbeat, election_timed_out, poll_votes, check_leadership,
  send_heartbeats, request_votes,
}

-- The call returns in a state of which `P` holds.
abbrev pub Ends : {A : Type 0} → (Raft → Type 0) → Outcome A → Type 0
Ends P (returns a r) = P r
Ends P blocks = ⊥

abbrev pub IsReleased : Raft → Type 0
IsReleased r = r.mu ≡ free

-- What a call does to the lock: its state when the call returns, `none` if it waits for ever.
abbrev pub ending : {A : Type 0} → Outcome A → Option Mutex
ending (returns a r) = some r.mu
ending blocks = none

module _ (outside : Outside) (r : Raft) (is_free : IsReleased r) where
  -- `becomeFollower` releases the lock exactly on a follower; a candidate or a leader that steps
  -- back waits for ever.
  pub become_follower_blocks :
      (term : ℕ)
      → ending (become_follower outside term r)
        ≡ (if is_follower_state r.state then some free else none)
  unfolding become_follower
  become_follower_blocks term = ground arith

  -- `Stop` waits for ever exactly on a leader, and releases the lock else.
  pub stop_blocks : ending (stop outside r) ≡ (if is_leader_state r.state then none else some free)
  unfolding stop
  stop_blocks = ground arith

  pub become_leader-Releases : Ends IsReleased (become_leader outside r)
  unfolding become_leader
  become_leader-Releases = ground arith

  -- All that the run loops call, but the steps back to follower, returns with its lock released.
  pub rounds-Release :
      (voter : String) (term : ℕ) (vote_granted : Bool)
      → Ends IsReleased (become_candidate outside r)
        × Ends IsReleased (become_leader outside r)
        × Ends IsReleased (begin_election outside r)
        × Ends IsReleased (election_timed_out outside r)
        × Ends IsReleased (poll_votes outside r)
        × Ends IsReleased (check_heartbeat outside r)
        × Ends IsReleased (handle_vote_response outside voter term vote_granted r)
        × Ends IsReleased (send_heartbeats outside r)
        × Ends IsReleased (request_votes outside r)
  unfolding become_candidate become_leader begin_election election_timed_out poll_votes
      check_heartbeat handle_vote_response send_heartbeats request_votes
  rounds-Release voter term vote_granted = (
    ground arith,
    ground arith,
    ground arith,
    ground arith,
    ground arith,
    ground arith,
    ground arith,
    ground arith,
    ground arith,
  )

  -- A leader whose validation fails for the third time in a row or later waits for ever instead
  -- of stepping down.
  pub check_leadership_blocks :
      (failures : ℕ) (r' : Raft)
      → validate_leadership_continuity outside r ≡ returns false r'
      → 2 ≤ failures
      → check_leadership outside failures r ≡ blocks
  unfolding check_leadership
  check_leadership_blocks failures r' v h = ground arith
