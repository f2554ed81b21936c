-- ===== src/Election/Gossip/Running.antt =====
-- A gossip node from its start on (internal/election/gossip.go): the rounds of its goroutines
-- and the messages that reach it. Sending is simulated in the code: the answer to a message is
-- made from the node's own table.
pub mod Leaderless
use distributed_job_processo.Base.{
  ℕ, suc, ◌*◌, String, ◌≡◌, Bool, false, Option, none, some, List, [], ◌∷◌, if◌then◌else◌, str_eq,
}
use distributed_job_processo.Storage.Nodes.{NodeInfo}
use distributed_job_processo.Election.Gossip.Table.{
  Gossip, GossipMember, alive, GossipMessage, membership, LeadershipInfo, handle_gossip_message,
  select_gossip_targets,
}
use distributed_job_processo.Election.Gossip.Rounds.{
  discover_nodes, update_member_states, Ended, returned, elect_leader,
}

unfoldable pub new_gossip : String → (suspicion_timeout : ℕ) → Gossip
new_gossip id suspicion_timeout = record {
  node_id = id;
  address = "localhost:8080";
  members = [];
  is_leader = false;
  current_leader = "";
  leader_term = 0;
  suspicion_timeout = suspicion_timeout;
  failure_timeout = suspicion_timeout * 2;
  suspicions = [];
  registered = [];
  notified = [];
}

-- `members[m.ID] = m`
unfoldable pub put_member : GossipMember → List GossipMember → List GossipMember
put_member m [] = m ∷ []
put_member m (x ∷ xs) = let rest = x ∷ put_member m xs in if str_eq x.id m.id then m ∷ xs else rest

-- `Start` puts the node into its table; the incarnation and the priority are those of the
-- constructor.
unfoldable pub start : (incarnation priority now : ℕ) → Gossip → Gossip
unfolding put_member
start incarnation priority now g = record g {
  members =
      put_member
        (record {
          id = g.node_id;
          address = g.address;
          state = alive;
          incarnation = incarnation;
          last_seen = now;
          priority = some priority;
        })
        g.members;
}

abbrev own_leadership : Gossip → Option LeadershipInfo
own_leadership g =
    if g.is_leader then some (record { leader_id = g.node_id; term = g.leader_term }) else none

abbrev with_targets :
    GossipMessage → Gossip → Option (List String) → Option (GossipMessage × List String × Gossip)
with_targets message g none = none
with_targets message g (some targets) = some (message, targets, g)

-- `performGossipRound`: the message, its targets and the node afterwards. The message is made
-- before the discovery.
unfoldable pub perform_gossip_round :
    (perm : ℕ → List ℕ) (clock random : ℕ → ℕ)
    → Option (List NodeInfo)
    → Gossip
    → Option (GossipMessage × List String × Gossip)
unfolding discover_nodes select_gossip_targets
perform_gossip_round perm clock random nodes g =
    let message = membership g.members (own_leadership g) in
    let g' = discover_nodes clock random nodes g in
    with_targets message g' (select_gossip_targets perm false 3 g')

-- The members that the random generator keeps.
unfoldable pub sampled : (keep : ℕ → Bool) → List GossipMember → List GossipMember
sampled keep [] = []
sampled keep (m ∷ ms) =
    let rest = sampled (λ i. keep (suc i)) ms in if keep 0 then m ∷ rest else rest

-- `simulateGossipResponse`
unfoldable pub simulate_gossip_response : (keep : ℕ → Bool) → Gossip → Gossip
unfolding sampled handle_gossip_message
simulate_gossip_response keep g = handle_gossip_message (membership (sampled keep g.members) none) g

abbrev pub then_elect : (ℕ → List ℕ) → Option Gossip → Option Ended
then_elect perm none = none
then_elect perm (some g) = some (elect_leader perm g)

-- A tick of `runMembershipMaintenance`; `none`: it waits for ever in `updateMemberStates`.
unfoldable pub maintain :
    (perm perm' : ℕ → List ℕ) (now : ℕ) (clock : ℕ → ℕ) → Gossip → Option Ended
unfolding update_member_states elect_leader
maintain perm perm' now clock g = then_elect perm' (update_member_states perm now clock g)

-- What can happen to a node that runs: the calls that return.
pub data Step : Gossip → Gossip → Type 0 where
  gossips :
      (perm : ℕ → List ℕ) (clock random : ℕ → ℕ) (nodes : Option (List NodeInfo)) (g g' : Gossip)
      (message : GossipMessage) (targets : List String)
      → perform_gossip_round perm clock random nodes g ≡ some (message, targets, g')
      → Step g g'
  answers : (keep : ℕ → Bool) (g : Gossip) → Step g (simulate_gossip_response keep g)
  maintains :
      (perm perm' : ℕ → List ℕ) (now : ℕ) (clock : ℕ → ℕ) (g g' : Gossip)
      → maintain perm perm' now clock g ≡ some (returned g')
      → Step g g'

-- The states of a node with this id between its calls.
pub data Reachable (id : String) (suspicion_timeout : ℕ) : Gossip → Type 0 where
  started :
      (incarnation priority now : ℕ)
      → Reachable id suspicion_timeout
          (start incarnation priority now (new_gossip id suspicion_timeout))
  stepped :
      (g g' : Gossip)
      → Reachable id suspicion_timeout g
      → Step g g'
      → Reachable id suspicion_timeout g'
