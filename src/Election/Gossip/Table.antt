-- ===== src/Election/Gossip/Table.antt =====
-- The member table of the gossip election (internal/election/gossip.go). The Go map `members` is
-- the list of its values in the order of the iteration; each stands under its own id. A priority
-- is the bit pattern of a float64 that is not negative (`rand.Float64`): the patterns are
-- ordered as the numbers. Times are in milliseconds. `none` stands for a call that waits for
-- ever.
use distributed_job_processo.Base.{
  ℕ, zero, suc, String, Bool, true, false, not, ◌&&◌, Option, none, some, List, [], ◌∷◌, map,
  str_eq, leb, if◌then◌else◌, length, get_elem?, filter, slt,
}
use distributed_job_processo.Storage.Nodes.{NodeInfo}

pub data GossipNodeState : Type 0 where
  alive suspected failed : GossipNodeState

pub record GossipMember : Type 0 where
  pub id : String
  pub address : String
  pub state : GossipNodeState
  pub incarnation : ℕ
  pub last_seen : ℕ
  pub priority : Option ℕ  -- `Metadata["priority"]`, if it is a float64

pub record SuspicionInfo : Type 0 where
  pub target_id : String
  pub suspector_id : String
  pub incarnation : ℕ

pub record LeadershipInfo : Type 0 where
  pub leader_id : String
  pub term : ℕ

pub data GossipMessage : Type 0 where
  membership : List GossipMember → Option LeadershipInfo → GossipMessage
  suspicion : Option SuspicionInfo → GossipMessage
  other_type : GossipMessage

pub record Gossip : Type 0 where
  pub node_id : String
  pub address : String
  pub members : List GossipMember
  pub is_leader : Bool
  pub current_leader : String
  pub leader_term : ℕ
  pub suspicion_timeout : ℕ
  pub failure_timeout : ℕ
  pub suspicions : List (String × SuspicionInfo)
  pub registered : List NodeInfo  -- calls of `RegisterNode`, the latest first
  pub notified : List (Bool × String)  -- calls of the callbacks, the latest first

unfoldable pub find_member : String → List GossipMember → Option GossipMember
find_member id [] = none
find_member id (m ∷ ms) = let rest = find_member id ms in if str_eq m.id id then some m else rest

-- `mergeMemberList`, one member that is not the node itself.
abbrev pub renew : GossipMember → GossipMember → GossipMember
renew m old =
    if slt old.incarnation m.incarnation
    then record old {
      state = m.state;
      incarnation = m.incarnation;
      last_seen = m.last_seen;
      priority = m.priority;
    }
    else old

unfoldable pub absorb : GossipMember → List GossipMember → List GossipMember
absorb m [] = m ∷ []
absorb m (x ∷ xs) = let rest = absorb m xs in if str_eq x.id m.id then renew m x ∷ xs else x ∷ rest

unfoldable pub merge_member_list :
    (own : String) → List GossipMember → List GossipMember → List GossipMember
unfolding absorb
merge_member_list own [] ms = ms
merge_member_list own (m ∷ l) ms =
    merge_member_list own l (if str_eq m.id own then ms else absorb m ms)

-- `updateNodeInfo` and `notifyCallbacks`
abbrev pub announce : Gossip → Gossip
announce g = record g {
  registered =
      record {
        id = g.node_id;
        address = g.address;
        is_leader = g.is_leader;
        last_seen = 0;
        worker_count = 10;
        version = "1.0.0";
        term = 0;
      }
      ∷ g.registered;
  notified = (g.is_leader, g.current_leader) ∷ g.notified;
}

unfoldable pub handle_leadership_info : LeadershipInfo → Gossip → Gossip
handle_leadership_info l g =
    let g' = record g {
      current_leader = l.leader_id;
      leader_term = l.term;
      is_leader = str_eq l.leader_id g.node_id;
    } in
    if slt g.leader_term l.term
    then (if str_eq g.current_leader l.leader_id then g' else announce g')
    else g

abbrev pub is_alive : GossipMember → Bool
is_alive m = elim m.state [ alive ↦ true | _ ↦ false ]

abbrev pub is_failed : GossipMember → Bool
is_failed m = elim m.state [ failed ↦ true | _ ↦ false ]

abbrev pub drop_key : String → List (String × SuspicionInfo) → List (String × SuspicionInfo)
drop_key id = filter (λ e. not (str_eq e.0 id))

abbrev pub suspect : String → List GossipMember → List GossipMember
suspect id [] = []
suspect id (m ∷ ms) = (if str_eq m.id id then record m { state = suspected } else m) ∷ suspect id ms

abbrev pub suspect_found : SuspicionInfo → Option GossipMember → Gossip → Gossip
suspect_found s none g = g
suspect_found s (some m) g =
    if not (slt s.incarnation m.incarnation) && is_alive m
    then record g {
      members = suspect s.target_id g.members;
      suspicions = (s.target_id, s) ∷ drop_key s.target_id g.suspicions;
    }
    else g

unfoldable pub handle_suspicion : SuspicionInfo → Gossip → Gossip
unfolding find_member
handle_suspicion s g = suspect_found s (find_member s.target_id g.members) g

abbrev pub with_leadership : Option LeadershipInfo → Gossip → Gossip
with_leadership none g = g
with_leadership (some l) g = handle_leadership_info l g

-- A message of another type, "leadership" among them, is ignored.
unfoldable pub handle_gossip_message : GossipMessage → Gossip → Gossip
unfolding merge_member_list handle_leadership_info handle_suspicion
handle_gossip_message (membership l info) g =
    with_leadership info (record g { members = merge_member_list g.node_id l g.members })
handle_gossip_message (suspicion none) g = g
handle_gossip_message (suspicion (some s)) g = handle_suspicion s g
handle_gossip_message other_type g = g

-- The targets at the first indices.
abbrev pub choose_at : List String → ℕ → List ℕ → List String
choose_at targets zero indices = []
choose_at targets (suc n) [] = []
choose_at targets (suc n) (i ∷ indices) =
    let rest = choose_at targets n indices in
    elim (get_elem? targets i) [ none ↦ rest | some t ↦ t ∷ rest ]

-- `selectGossipTargets`: it takes the read lock, which never comes to a goroutine that holds
-- the lock; `perm` is `rand.Perm`.
unfoldable pub select_gossip_targets :
    (perm : ℕ → List ℕ) (holds_lock : Bool) → ℕ → Gossip → Option (List String)
select_gossip_targets perm holds_lock count g =
    let targets =
      map (λ (m : GossipMember). m.id)
        (filter (λ m. not (str_eq m.id g.node_id) && is_alive m) g.members) in
    if holds_lock
    then none
    else some (
        if leb (length targets) count
        then targets
        else choose_at targets count (perm (length targets)))
