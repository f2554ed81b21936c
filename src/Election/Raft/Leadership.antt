-- ===== src/Election/Raft/Leadership.antt =====
-- When a Raft node takes office, and what happens to its term: `becomeLeader` of
-- internal/election/raft.go.
use distributed_job_processo.Base.{
  ℕ, suc, ◌+◌, ◌*◌, String, ◌≡◌, ◌≢◌, inl, inr, true, false, ◌&&◌, some, List, [], ◌∷◌, arith, ltb,
  Option-cases, length, slt, ◌<◌, ◌^◌,
}
use distributed_job_processo.Storage.Nodes.{NodeInfo}
use distributed_job_processo.Election.Raft.State.{
  candidate, leader, follower, free, Raft, Outside, returns,
}
use distributed_job_processo.Election.Raft.Checks.{
  majority_of, consistent, rules_now, term_scan, higher_term,
}
use distributed_job_processo.Election.Raft.Locking.{Ends}
use distributed_job_processo.Election.Raft.Roles.{become_leader}

-- What `validateTermConsistency` has made sure of when it succeeds: no registered node has a
-- higher term, and no other node rules in this term and was seen within two heartbeat timeouts.
abbrev pub NoRival : (id : String) (term heartbeat : ℕ) (now : ℕ → ℕ) → List NodeInfo → Type 0
NoRival id term heartbeat now [] = Unit
NoRival id term heartbeat now (n ∷ ns) =
    (slt term n.term ≡ false)
    × (rules_now id term n && ltb (now 0) (n.last_seen + heartbeat * 2) ≡ false)
    × NoRival id term heartbeat (λ i. now (suc i)) ns

term_scan-consistent :
    (id : String) (term heartbeat : ℕ) (now : ℕ → ℕ) (ns : List NodeInfo)
    → term_scan id term heartbeat now ns ≡ consistent
    → NoRival id term heartbeat now ns
unfolding term_scan
term_scan-consistent id term heartbeat now [] e = tt
term_scan-consistent id term heartbeat now (n ∷ ns) e = (
  ground arith,
  ground arith,
  term_scan-consistent id term heartbeat (λ i. now (suc i)) ns (ground arith),
)

module _ (outside : Outside) (r r' : Raft) where
  -- A node that comes out of `becomeLeader` as leader was a candidate, and in this call it saw
  -- no rival and no higher term among the nodes, then had more votes than half of the nodes,
  -- then was granted the claim; its term is as before and the callbacks were told.
  pub become_leader_sound :
      r.mu ≡ free
      → become_leader outside r ≡ returns tt r'
      → r'.state ≡ leader
      → r.state ≢ leader
      → (nodes : List NodeInfo) × (r.state ≡ candidate)
        × (outside.get_nodes r.asked ≡ some nodes)
        × NoRival r.node_id r.current_term r.heartbeat_timeout (outside.now_at (r.asked + 1)) nodes
        × (majority_of (length r.votes) (outside.get_nodes (r.asked + 2)) ≡ true)
        × (outside.claim (r.asked + 3) ≡ some true)
        × (r'.current_term ≡ r.current_term)
        × (r'.notified ≡ (true, r.node_id) ∷ r.notified)
  unfolding become_leader
  become_leader_sound is_free e is_leader was = elim (Option-cases (outside.get_nodes r.asked)) [
    | inl none_seen ↦ absurd (ground arith)
    | inr (nodes, seen) ↦ (
      nodes,
      ground arith,
      seen,
      term_scan-consistent _ _ _ _ nodes (ground arith),
      ground arith,
      ground arith,
      ground arith,
      ground arith,
    )
  ]

module _ (outside : Outside) (r : Raft) where
  -- A candidate that sees a node with a higher term becomes a follower without votes, in the term
  -- after the one that it saw.
  pub become_leader_overshoots :
      (nodes : List NodeInfo) (t : ℕ)
      → r.mu ≡ free
      → r.state ≡ candidate
      → outside.get_nodes r.asked ≡ some nodes
      → term_scan r.node_id r.current_term r.heartbeat_timeout (outside.now_at (r.asked + 1)) nodes
        ≡ higher_term t
      → t + 1 < 2 ^ 63
      → Ends
          (λ r'.
            (r'.state ≡ follower)
            × (r'.current_term ≡ t + 1)
            × (r'.voted_for ≡ "")
            × (r'.votes ≡ []))
          (become_leader outside r)
  unfolding become_leader
  become_leader_overshoots nodes t is_free stands seen higher fits = ground arith
