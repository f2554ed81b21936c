-- ===== src/Election/Gossip/Running/Leaderless.antt =====
-- When a node of internal/election/gossip.go leads: only in the call that makes it the leader and
-- then blocks.
use distributed_job_processo.Base.{
  ℕ, String, ◌≡◌, refl, sym, ap, ◌∙◌, subst, false, Option, none, some, List, arith, some-eq,
}
use distributed_job_processo.Storage.Nodes.{NodeInfo}
use distributed_job_processo.Election.Gossip.Table.{
  Gossip, GossipMessage, handle_gossip_message, select_gossip_targets,
}
use distributed_job_processo.Election.Gossip.Rounds.{
  discover_nodes, update_member_states, swept, Aged, Ended,
}
use distributed_job_processo.Election.Gossip.Electing.{LeadsIfBlocked, elect_leader-LeadsIfBlocked}
use distributed_job_processo.Election.Gossip.Running.{
  new_gossip, start, perform_gossip_round, with_targets, simulate_gossip_response, maintain,
  then_elect, Step, gossips, answers, maintains, Reachable, started, stepped,
}

discover_nodes-is_leader :
    (clock random : ℕ → ℕ) (nodes : Option (List NodeInfo)) (g : Gossip)
    → (discover_nodes clock random nodes g).is_leader ≡ g.is_leader
unfolding discover_nodes
discover_nodes-is_leader clock random none g = refl
discover_nodes-is_leader clock random (some nodes) g = refl

with_targets-eq :
    (message message' : GossipMessage) (g g' : Gossip) (o : Option (List String))
    (targets : List String)
    → with_targets message g o ≡ some (message', targets, g')
    → g ≡ g'
with_targets-eq message message' g g' none targets h = absurd cc
with_targets-eq message message' g g' (some ts) targets h = cc

swept-is_leader :
    (clock : ℕ → ℕ) (g g' : Gossip) (a : Option Aged)
    → swept clock g a ≡ some g'
    → g'.is_leader ≡ g.is_leader
swept-is_leader clock g g' none h = ground arith
swept-is_leader clock g g' (some a) h = sym (ap (λ (x : Gossip). x.is_leader) (some-eq _ g' h))

update_member_states-is_leader :
    (perm : ℕ → List ℕ) (now : ℕ) (clock : ℕ → ℕ) (g g' : Gossip)
    → update_member_states perm now clock g ≡ some g'
    → g'.is_leader ≡ g.is_leader
unfolding update_member_states
update_member_states-is_leader perm now clock g g' h = swept-is_leader clock g g' _ h

-- A tick of the maintenance that returns leaves a node that does not lead; one that waits for
-- ever in `electLeader` has made the node the leader.
abbrev pub LeadsOnlyBlocked : Option Ended → Type 0
LeadsOnlyBlocked none = Unit
LeadsOnlyBlocked (some e) = LeadsIfBlocked e

maintain-LeadsOnlyBlocked :
    (perm perm' : ℕ → List ℕ) (now : ℕ) (clock : ℕ → ℕ) (g : Gossip)
    → g.is_leader ≡ false
    → LeadsOnlyBlocked (maintain perm perm' now clock g)
unfolding maintain
maintain-LeadsOnlyBlocked perm perm' now clock g out =
    by_aged (update_member_states perm now clock g) refl
  where
    by_aged :
        (o : Option Gossip)
        → update_member_states perm now clock g ≡ o
        → LeadsOnlyBlocked (then_elect perm' o)
    by_aged none e = tt
    by_aged (some aged) e =
        elect_leader-LeadsIfBlocked perm' aged
          (update_member_states-is_leader perm now clock g aged e ∙ out)

step_stays_out : (g g' : Gossip) → Step g g' → g.is_leader ≡ false → g'.is_leader ≡ false
unfolding perform_gossip_round simulate_gossip_response handle_gossip_message
step_stays_out _ _ (gossips perm clock random nodes g g' message targets h) out =
    let g'' = discover_nodes clock random nodes g in
    sym (
      ap (λ (x : Gossip). x.is_leader)
        (with_targets-eq _ message g'' g' (select_gossip_targets perm false 3 g'') targets h))
    ∙ discover_nodes-is_leader clock random nodes g
    ∙ out
step_stays_out _ _ (answers keep g) out = out
step_stays_out _ _ (maintains perm perm' now clock g g' h) out =
    subst LeadsOnlyBlocked h (maintain-LeadsOnlyBlocked perm perm' now clock g out)

Reachable-stays_out :
    (id : String) (suspicion_timeout : ℕ) (g : Gossip)
    → Reachable id suspicion_timeout g
    → g.is_leader ≡ false
unfolding start new_gossip
Reachable-stays_out id suspicion_timeout _ (started incarnation priority now) = refl
Reachable-stays_out id suspicion_timeout _ (stepped g g' r s) =
    step_stays_out g g' s (Reachable-stays_out id suspicion_timeout g r)

-- Between its calls a node that was started does not lead, whatever rounds, answers and ticks of
-- the maintenance have returned before, in whatever order and with whatever tables of nodes. The
-- next tick waits for ever in `updateMemberStates`, or returns to a node that does not lead, or
-- makes the node the leader, tells the database and the callbacks so, and waits for ever in
-- `electLeader`.
pub Reachable-LeadsOnlyBlocked :
    (id : String) (suspicion_timeout : ℕ) (g : Gossip)
    → Reachable id suspicion_timeout g
    → (perm perm' : ℕ → List ℕ) (now : ℕ) (clock : ℕ → ℕ)
    → (g.is_leader ≡ false) × LeadsOnlyBlocked (maintain perm perm' now clock g)
Reachable-LeadsOnlyBlocked id suspicion_timeout g r perm perm' now clock =
    let out = Reachable-stays_out id suspicion_timeout g r in
    (out, maintain-LeadsOnlyBlocked perm perm' now clock g out)
