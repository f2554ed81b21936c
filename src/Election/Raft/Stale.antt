-- ===== src/Election/Raft/Stale.antt =====
-- Two methods of internal/election/raft.go that nothing calls: the test for a leader and the
-- clearing of leaders that are not seen any more.
use distributed_job_processo.Base.{
  ℕ, suc, ◌+◌, ◌*◌, String, Bool, false, not, ◌&&◌, ◌||◌, none, some, List, [], ◌∷◌, str_eq, ltb,
  if◌then◌else◌,
}
use distributed_job_processo.Storage.Nodes.{NodeInfo}
use distributed_job_processo.Election.Raft.State.{Outside, Act, ◌>>=◌, pure, get, modify, ask}

-- The loop of `hasLeaderInCurrentTerm`; the clock at each node.
unfoldable pub other_leader_active :
    (id : String) (heartbeat : ℕ) (now : ℕ → ℕ) → List NodeInfo → Bool
other_leader_active id heartbeat now [] = false
other_leader_active id heartbeat now (n ∷ ns) =
    (not (str_eq n.id id) && n.is_leader && ltb (now 0) (n.last_seen + heartbeat * 3))
    || other_leader_active id heartbeat (λ i. now (suc i)) ns

-- What `clearStaleLeaders` registers for a node.
abbrev pub cleared : NodeInfo → NodeInfo
cleared n = record n { is_leader = false; last_seen = 0; term = 0 }

-- The loop of `clearStaleLeaders`: its registrations, the latest first, on top of the earlier
-- ones.
unfoldable pub clear_stale :
    (heartbeat : ℕ) (now : ℕ → ℕ) → List NodeInfo → List NodeInfo → List NodeInfo
clear_stale heartbeat now [] registered = registered
clear_stale heartbeat now (n ∷ ns) registered =
    clear_stale heartbeat (λ i. now (suc i)) ns
      (if n.is_leader && ltb (n.last_seen + heartbeat * 3) (now 0)
        then cleared n ∷ registered
        else registered)

module _ (outside : Outside) where
  open outside use {get_nodes, now_at}

  unfoldable pub has_leader_in_current_term : Act Bool
  unfolding other_leader_active
  has_leader_in_current_term = do
    nodes ← ask get_nodes
    elim nodes [
      | none ↦ pure false
      | some ns ↦ (do
        t ← ask now_at
        r ← get
        pure (other_leader_active r.node_id r.heartbeat_timeout t ns))
    ]

  unfoldable pub clear_stale_leaders : Act (Unit {0})
  unfolding clear_stale
  clear_stale_leaders = do
    nodes ← ask get_nodes
    elim nodes [
      | none ↦ pure tt
      | some ns ↦ (do
        t ← ask now_at
        modify (λ r. record r { registered = clear_stale r.heartbeat_timeout t ns r.registered }))
    ]
