-- ===== src/Election/Gossip/Rounds.antt =====
-- The rounds of the gossip election (internal/election/gossip.go): discovery, the states of the
-- members, and the choice of the leader. `updateMemberStates` and `electLeader` hold the lock
-- until they return.
use distributed_job_processo.Base.{
  ℕ, suc, ◌+◌, ◌*◌, String, Bool, true, false, ◌&&◌, ◌||◌, Option, none, some, List, [], ◌∷◌, ◌++◌,
  str_eq, ltb, ◌==◌, if◌then◌else◌, length, inc,
}
use Prim.Native.String.{compare}
use text.Mathlib.Text.{is_lt}
use distributed_job_processo.Storage.Nodes.{NodeInfo}
use distributed_job_processo.Election.Gossip.Table.{
  GossipMember, GossipNodeState, alive, suspected, failed, SuspicionInfo, Gossip, find_member,
  is_alive, is_failed, drop_key, announce, select_gossip_targets,
}

-- `discoverNodes`: a new member has the incarnation and the priority that the clock and the
-- random generator give.
abbrev pub seen_at : String → ℕ → List GossipMember → List GossipMember
seen_at id time [] = []
seen_at id time (m ∷ ms) =
    (if str_eq m.id id then record m { last_seen = time } else m) ∷ seen_at id time ms

abbrev pub discovered : NodeInfo → (incarnation priority : ℕ) → GossipMember
discovered n incarnation priority = record {
  id = n.id;
  address = n.address;
  state = alive;
  incarnation = incarnation;
  last_seen = n.last_seen;
  priority = some priority;
}

abbrev pub discover_one :
    NodeInfo
    → (incarnation priority : ℕ) → Option GossipMember
    → List GossipMember
    → List GossipMember
discover_one n incarnation priority none ms = discovered n incarnation priority ∷ ms
discover_one n incarnation priority (some _) ms = seen_at n.id n.last_seen ms

unfoldable pub discover_all :
    (own : String) (clock random : ℕ → ℕ) → List NodeInfo → List GossipMember → List GossipMember
unfolding find_member
discover_all own clock random [] ms = ms
discover_all own clock random (n ∷ ns) ms =
    discover_all own (λ i. clock (suc i)) (λ i. random (suc i)) ns
      (if str_eq n.id own then ms else discover_one n (clock 0) (random 0) (find_member n.id ms) ms)

unfoldable pub discover_nodes : (clock random : ℕ → ℕ) → Option (List NodeInfo) → Gossip → Gossip
unfolding discover_all
discover_nodes clock random none g = g
discover_nodes clock random (some nodes) g = record g {
  members = discover_all g.node_id clock random nodes g.members;
}

-- `propagateSuspicion` for a suspicion that is there, and `propagateLeadership`; the targets of
-- the message.
unfoldable pub propagate_suspicion :
    (ℕ → List ℕ) → (holds_lock : Bool) → Gossip → Option (List String)
unfolding select_gossip_targets
propagate_suspicion perm holds_lock g = select_gossip_targets perm holds_lock 2 g

unfoldable pub propagate_leadership :
    (ℕ → List ℕ) → (holds_lock : Bool) → Gossip → Option (List String)
unfolding select_gossip_targets
propagate_leadership perm holds_lock g = select_gossip_targets perm holds_lock (length g.members) g

-- The locals of the first loop of `updateMemberStates`: the members done, the latest first, and
-- the suspicions.
abbrev pub Aged : Type 0
Aged = List GossipMember × List (String × SuspicionInfo)

module _ (perm : ℕ → List ℕ) (now : ℕ) (g : Gossip) where
  abbrev suspicion_of : GossipMember → SuspicionInfo
  suspicion_of m = record {
    target_id = m.id;
    suspector_id = g.node_id;
    incarnation = m.incarnation;
  }

  -- After the call of `propagateSuspicion`.
  abbrev pub suspected_now : GossipMember → Aged → Option (List String) → Option Aged
  suspected_now m a none = none
  suspected_now m (done, suspicions) (some targets) =
      some
        (record m { state = suspected } ∷ done, (m.id, suspicion_of m) ∷ drop_key m.id suspicions)

  -- The targets are chosen from the table as the loop has changed it.
  abbrev pub age_state :
      (later : List GossipMember) → GossipNodeState → GossipMember → Aged → Option Aged
  age_state later alive m a =
      if ltb (m.last_seen + g.suspicion_timeout) now
      then suspected_now m a (
          propagate_suspicion perm true
            (record g { members = a.0 ++ record m { state = suspected } ∷ later }))
      else some (m ∷ a.0, a.1)
  age_state later suspected m a =
      if ltb (m.last_seen + g.failure_timeout) now
      then some (record m { state = failed } ∷ a.0, drop_key m.id a.1)
      else some (m ∷ a.0, a.1)
  age_state later failed m a = some (m ∷ a.0, a.1)

  abbrev pub age_member : List GossipMember → GossipMember → Aged → Option Aged
  age_member later m a =
      if str_eq m.id g.node_id then some (m ∷ a.0, a.1) else age_state later m.state m a

  unfoldable pub age_all : List GossipMember → Option Aged → Option Aged
  unfolding propagate_suspicion
  age_all [] a = a
  age_all (m ∷ ms) none = none
  age_all (m ∷ ms) (some a) = age_all ms (age_member ms m a)

-- The second loop; the clock is read at each failed member.
abbrev pub forget : (timeout : ℕ) (clock : ℕ → ℕ) → List GossipMember → List GossipMember
forget timeout clock [] = []
forget timeout clock (m ∷ ms) =
    let rest = forget timeout (λ i. clock (suc i)) ms in
    if is_failed m && ltb (m.last_seen + timeout * 2) (clock 0) then rest else m ∷ rest

abbrev pub swept : (clock : ℕ → ℕ) → Gossip → Option Aged → Option Gossip
swept clock g none = none
swept clock g (some (done, suspicions)) =
    some (record g { members = forget g.failure_timeout clock done; suspicions = suspicions })

unfoldable pub update_member_states :
    (ℕ → List ℕ) → (now : ℕ) (clock : ℕ → ℕ) → Gossip → Option Gossip
unfolding age_all
update_member_states perm now clock g =
    swept clock g (age_all perm now g g.members (some ([], g.suspicions)))

-- `electLeader`: the highest priority so far (none stands for -1.0) and the candidates that have
-- it.
abbrev pub better : ℕ → Option ℕ → Bool
better p none = true
better p (some h) = ltb h p

abbrev pub same_priority : ℕ → Option ℕ → Bool
same_priority p none = false
same_priority p (some h) = p == h

abbrev pub consider_priority :
    GossipMember → Option ℕ → Option ℕ × List String → Option ℕ × List String
consider_priority m none s = s
consider_priority m (some p) (highest, candidates) =
    if better p highest
    then (some p, m.id ∷ [])
    else if same_priority p highest
    then (highest, candidates ++ m.id ∷ [])
    else (highest, candidates)

unfoldable pub candidates_from : List GossipMember → Option ℕ × List String → Option ℕ × List String
candidates_from [] s = s
candidates_from (m ∷ ms) s =
    candidates_from ms (if is_alive m then consider_priority m m.priority s else s)

unfoldable pub least_id : String → List String → String
least_id leader [] = leader
least_id leader (c ∷ cs) =
    least_id (if is_lt (compare c leader) || str_eq leader "" then c else leader) cs

abbrev pub new_leader : List String → Option String
new_leader [] = none
new_leader (c ∷ []) = some c
new_leader (c ∷ d ∷ cs) = some (least_id "" (c ∷ d ∷ cs))

-- A call returns, or waits for ever for the lock that its own goroutine holds; the node is as it
-- is then.
pub data Ended : Type 0 where
  returned : Gossip → Ended
  blocked : Gossip → Ended

abbrev pub spread : Gossip → Option (List String) → Ended
spread g none = blocked g
spread g (some targets) = returned g

abbrev pub take_lead : (ℕ → List ℕ) → Gossip → Ended
take_lead perm g = if g.is_leader then spread g (propagate_leadership perm true g) else returned g

abbrev pub elect : (ℕ → List ℕ) → Gossip → Option String → Ended
elect perm g none = returned g
elect perm g (some leader) =
    if str_eq leader g.current_leader
    then returned g
    else take_lead perm (
        announce (record g {
          current_leader = leader;
          leader_term = inc g.leader_term;
          is_leader = str_eq leader g.node_id;
        }))

unfoldable pub elect_leader : (ℕ → List ℕ) → Gossip → Ended
unfolding candidates_from least_id propagate_leadership
elect_leader perm g = elect perm g (new_leader (candidates_from g.members (none, [])).1)
