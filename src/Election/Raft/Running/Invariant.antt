-- ===== src/Election/Raft/Running/Invariant.antt =====
-- What holds of a Raft node between two rounds (internal/election/raft.go).
use distributed_job_processo.Base.{
  ℕ, String, ◌≡◌, refl, subst, inl, inr, Bool, false, List, [], ◌∷◌, arith, Bool-cases,
}
use distributed_job_processo.Election.Raft.State.{
  Raft, Outside, Outcome, returns, blocks, has_key, add_key, new_raft,
}
use distributed_job_processo.Election.Raft.Rounds.{
  VoteRequest, start, check_heartbeat, election_timed_out, begin_election, poll_votes,
  final_vote_check, request_votes, check_leadership, send_heartbeats,
}
use distributed_job_processo.Election.Raft.Roles.{become_candidate, handle_vote_response}
use distributed_job_processo.Election.Raft.Locking.{IsReleased}
use distributed_job_processo.Election.Raft.Running.{
  Round, hears, election_timer, candidacy, polls, gives_up, restarts, asks_votes, sends_heartbeats,
  checks_office, gets_vote, perform, Reachable, started, stepped, send_vote_request,
}

-- No key stands twice in the map.
abbrev pub DistinctKeys : List String → Type 0
DistinctKeys [] = Unit
DistinctKeys (x ∷ xs) = (has_key x xs ≡ false) × DistinctKeys xs

DistinctKeys-add_key :
    (x : String) (xs : List String) → DistinctKeys xs → DistinctKeys (add_key x xs)
DistinctKeys-add_key x xs h = elim (Bool-cases (has_key x xs)) [
  | inl e ↦ rw e h
  | inr e ↦ rw e (e, h)
]

-- The lock is free, and no voter is counted twice.
abbrev pub Sound : Raft → Type 0
Sound r = IsReleased r × DistinctKeys r.votes

-- In the state in which a call returns, if it does.
abbrev Leaves : {A : Type 0} → (Raft → Type 0) → Outcome A → Type 0
Leaves P (returns a r) = P r
Leaves P blocks = Unit

module _ (outside : Outside) (r : Raft) (sound : Sound r) where
  hears-Sound : Leaves Sound (perform outside hears r)
  unfolding perform check_heartbeat
  hears-Sound = ground (arith, sound)

  election_timer-Sound : Leaves Sound (perform outside election_timer r)
  unfolding perform election_timed_out
  election_timer-Sound = ground (arith, sound)

  candidacy-Sound : Leaves Sound (perform outside candidacy r)
  unfolding perform begin_election
  candidacy-Sound = ground (arith, sound)

  polls-Sound : Leaves Sound (perform outside polls r)
  unfolding perform poll_votes
  polls-Sound = ground (arith, sound)

  gives_up-Sound : Leaves Sound (perform outside gives_up r)
  unfolding perform final_vote_check
  gives_up-Sound = ground (arith, sound)

  restarts-Sound : Leaves Sound (perform outside restarts r)
  unfolding perform become_candidate
  restarts-Sound = ground (arith, sound)

  asks_votes-Sound : Leaves Sound (perform outside asks_votes r)
  unfolding perform request_votes
  asks_votes-Sound = ground (arith, sound)

  sends_heartbeats-Sound : Leaves Sound (perform outside sends_heartbeats r)
  unfolding perform send_heartbeats
  sends_heartbeats-Sound = ground (arith, sound)

  checks_office-Sound : (failures : ℕ) → Leaves Sound (perform outside (checks_office failures) r)
  unfolding perform check_leadership
  checks_office-Sound failures = ground (arith, sound)

  gets_vote-Sound :
      (voter : String) (request : VoteRequest) (granted : Bool)
      → Leaves Sound (perform outside (gets_vote voter request granted) r)
  unfolding perform send_vote_request handle_vote_response
  gets_vote-Sound voter request granted = ground (arith, sound, DistinctKeys-add_key voter r.votes)

  perform-Sound : (round : Round) → Leaves Sound (perform outside round r)
  perform-Sound hears = hears-Sound
  perform-Sound election_timer = election_timer-Sound
  perform-Sound candidacy = candidacy-Sound
  perform-Sound polls = polls-Sound
  perform-Sound gives_up = gives_up-Sound
  perform-Sound restarts = restarts-Sound
  perform-Sound asks_votes = asks_votes-Sound
  perform-Sound sends_heartbeats = sends_heartbeats-Sound
  perform-Sound (checks_office failures) = checks_office-Sound failures
  perform-Sound (gets_vote voter request granted) = gets_vote-Sound voter request granted

started-Sound :
    (id : String) (election heartbeat now later : ℕ) (outside : Outside)
    → Leaves Sound (start outside (new_raft id election heartbeat now later))
unfolding start new_raft
started-Sound id election heartbeat now later outside = (refl, tt)

-- Between the rounds of a node that has started, whatever rounds and vote responses have gone
-- before, the lock is free and no voter is counted twice.
pub Reachable-Sound :
    (id : String) (election heartbeat : ℕ) (r : Raft) → Reachable id election heartbeat r → Sound r
Reachable-Sound id election heartbeat _ (started outside now later r e) =
    subst (Leaves Sound) e (started-Sound id election heartbeat now later outside)
Reachable-Sound id election heartbeat _ (stepped outside round r r' reached e) =
    subst (Leaves Sound) e
      (perform-Sound outside r (Reachable-Sound id election heartbeat r reached) round)
