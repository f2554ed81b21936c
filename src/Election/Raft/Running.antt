-- ===== src/Election/Raft/Running.antt =====
-- A Raft node from its start on (internal/election/raft.go): the rounds of its loops as steps,
-- one after another, with an outside that may be another one in each. The vote request is
-- simulated in the code: its answer has the term of the request.
pub mod Invariant
use distributed_job_processo.Base.{
  ℕ, zero, suc, ◌+◌, ◌-◌, ◌*◌, ◌/◌, ◌%◌, ◌^◌, ◌≤◌, ◌<◌, String, ◌≡◌, refl, sym, ap, ◌∙◌, subst, ◌≢◌,
  ◌↔◌, ◌⊎◌, inl, inr, Bool, true, false, not, ◌&&◌, ◌||◌, Option, none, some, List, [], ◌∷◌, ◌++◌,
  map, arith, str_eq, eq_iff, ltb, leb, ◌==◌, if◌then◌else◌, Bool-cases, Option-cases, str_eq_self,
  str_eq_of_ne, length, get_elem?, filter, Member, All, Any, wrap, minus_one, slt, inc, negate,
  slt-eq-ltb, some-eq,
}
use distributed_job_processo.Election.Raft.State.{
  Raft, Outside, Act, Outcome, returns, RaftState, follower, candidate, leader, ◌>>=◌, ◌>>◌, pure,
  new_raft,
}
use distributed_job_processo.Election.Raft.Roles.{become_candidate, handle_vote_response}
use distributed_job_processo.Election.Raft.Rounds.{
  VoteRequest, start, check_heartbeat, election_timed_out, begin_election, poll_votes,
  final_vote_check, request_votes, check_leadership, send_heartbeats,
}

-- `sendVoteRequest`; `granted` is the random choice.
unfoldable pub send_vote_request :
    Outside → (voter : String) → VoteRequest → (granted : Bool) → Act (Unit {0})
unfolding handle_vote_response
send_vote_request outside voter request granted =
    handle_vote_response outside voter request.term granted

-- The cases of the loops, and what goes on in other goroutines.
pub data Round : Type 0 where
  hears election_timer candidacy polls gives_up restarts asks_votes sends_heartbeats : Round
  checks_office : (failures : ℕ) → Round
  gets_vote : (voter : String) → VoteRequest → (granted : Bool) → Round

module _ (outside : Outside) where
  unfoldable pub perform : Round → Act (Unit {0})
  unfolding check_heartbeat election_timed_out begin_election poll_votes final_vote_check
      become_candidate request_votes send_heartbeats check_leadership send_vote_request
  perform hears = check_heartbeat outside
  perform election_timer = do election_timed_out outside; pure tt
  perform candidacy = begin_election outside
  perform polls = do poll_votes outside; pure tt
  perform gives_up = final_vote_check outside
  perform restarts = become_candidate outside
  perform asks_votes = do request_votes outside; pure tt
  perform sends_heartbeats = do send_heartbeats outside; pure tt
  perform (checks_office failures) = do check_leadership outside failures; pure tt
  perform (gets_vote voter request granted) = send_vote_request outside voter request granted

-- The states of a node that has started; a round that waits for ever leads nowhere.
pub data Reachable (id : String) (election heartbeat : ℕ) : Raft → Type 0 where
  started :
      (outside : Outside) (now later : ℕ) (r : Raft)
      → start outside (new_raft id election heartbeat now later) ≡ returns tt r
      → Reachable id election heartbeat r
  stepped :
      (outside : Outside) (round : Round) (r r' : Raft)
      → Reachable id election heartbeat r
      → perform outside round r ≡ returns tt r'
      → Reachable id election heartbeat r'
