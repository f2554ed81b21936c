-- ===== src/Examples/Voting.antt =====
-- A Raft node that starts, stands for election and gets two votes.
use distributed_job_processo.Base.{refl, true}
use distributed_job_processo.Election.Raft.State.{Raft, Outcome, returns, blocks, new_raft}
use distributed_job_processo.Election.Raft.Rounds.{VoteRequest, start}
use distributed_job_processo.Election.Raft.Running.{
  Round, election_timer, candidacy, gets_vote, perform, started, stepped,
}
use distributed_job_processo.Election.Raft.Running.Invariant.{Sound, Reachable-Sound}
use distributed_job_processo.Examples.Electing.{calm}

-- The state that a call leaves.
abbrev left_by : Outcome (Unit {0}) → Raft → Raft
left_by (returns a r) r' = r
left_by blocks r' = r'

abbrev node : Raft
node = new_raft "a" 1_000 100 0 0

abbrev request : VoteRequest
request = record { term = 1; candidate_id = "a"; last_log_index = 0; last_log_term = 0 }

abbrev running : Raft
running = left_by (start (calm 1) node) node

abbrev after : Round → Raft → Raft
after round r = left_by (perform (calm 1) round r) r

abbrev voted : Raft
voted =
    after (gets_vote "b" request true)
      (after (gets_vote "b" request true) (after candidacy (after election_timer running)))

Reachable-Sound_example : Sound voted
unfolding perform start new_raft
Reachable-Sound_example = Reachable-Sound "a" 1_000 100 voted (
    stepped (calm 1) (gets_vote "b" request true) _ voted
      (stepped (calm 1) (gets_vote "b" request true) _ _
        (stepped (calm 1) candidacy _ _
          (stepped (calm 1) election_timer _ _ (started (calm 1) 0 0 running refl) refl) refl)
        refl)
      refl)
