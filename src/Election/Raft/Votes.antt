-- ===== src/Election/Raft/Votes.antt =====
-- The votes of a Raft candidate: `handleVoteResponse` of internal/election/raft.go.
use distributed_job_processo.Base.{
  ℕ, String, ◌≡◌, inl, inr, Bool, false, ◌&&◌, List, [], ◌∷◌, arith, ◌==◌, if◌then◌else◌,
  Bool-cases,
}
use distributed_job_processo.Election.Raft.State.{
  free, Raft, Outside, returns, add_key, has_key, is_candidate_state,
}
use distributed_job_processo.Election.Raft.Roles.{handle_vote_response}

-- The keys of a map are distinct.
abbrev pub DistinctKeys : List String → Type 0
DistinctKeys [] = Unit
DistinctKeys (x ∷ xs) = (has_key x xs ≡ false) × DistinctKeys xs

add_key-DistinctKeys :
    (id : String) (xs : List String) → DistinctKeys xs → DistinctKeys (add_key id xs)
add_key-DistinctKeys id xs h = elim (Bool-cases (has_key id xs)) [
  | inl e ↦ rw e h
  | inr e ↦ rw e (e, h)
]

module _ (outside : Outside) (r : Raft) (is_free : r.mu ≡ free) where
  -- A response never blocks. It counts a vote of the sender, once, if it is granted to a
  -- candidate in the candidate's term; it changes nothing else, and so a response with a higher
  -- term is ignored.
  pub handle_vote_response-eq :
      (voter : String) (term : ℕ) (vote_granted : Bool)
      → handle_vote_response outside voter term vote_granted r
        ≡ returns tt (record r {
          votes =
              if is_candidate_state r.state && term == r.current_term && vote_granted
              then add_key voter r.votes
              else r.votes;
        })
  unfolding handle_vote_response
  handle_vote_response-eq voter term vote_granted = ground arith
