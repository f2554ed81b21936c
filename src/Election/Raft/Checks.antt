-- ===== src/Election/Raft/Checks.antt =====
-- What a Raft node concludes from the registered nodes: the validations and the majority test of
-- internal/election/raft.go.
use distributed_job_processo.Base.{
  suc, ℕ, ◌+◌, ◌*◌, ◌/◌, String, Bool, true, false, not, ◌&&◌, Option, none, some, List, [], ◌∷◌,
  str_eq, ltb, ◌==◌, if◌then◌else◌, length, slt,
}
use distributed_job_processo.Storage.Nodes.{NodeInfo}
use distributed_job_processo.Election.Raft.State.{
  Raft, Outside, Act, ◌>>=◌, ◌>>◌, pure, get, modify, ask, lock, r_lock, unlock, is_leader_state,
}

-- `voteCount > totalNodes/2`
abbrev pub majority_of : ℕ → Option (List NodeInfo) → Bool
majority_of votes none = false
majority_of votes (some nodes) = ltb (length nodes / 2) votes

-- The loop of `validateTermConsistency`: what it finds first. `now` is the
-- clock at each node.
pub data Consistency : Type 0 where
  consistent : Consistency
  higher_term : ℕ → Consistency
  active_leader : Consistency

abbrev pub rules_now : String → ℕ → NodeInfo → Bool
rules_now id term n = n.is_leader && n.term == term && not (str_eq n.id id)

unfoldable pub term_scan :
    (id : String) (term heartbeat : ℕ) (now : ℕ → ℕ) → List NodeInfo → Consistency
term_scan id term heartbeat now [] = consistent
term_scan id term heartbeat now (n ∷ ns) =
    let rest = term_scan id term heartbeat (λ i. now (suc i)) ns in
    if slt term n.term
    then higher_term n.term
    else if rules_now id term n && ltb (now 0) (n.last_seen + heartbeat * 2)
    then active_leader
    else rest

-- The loop of `validateLeadershipContinuity`; `active` counts.
unfoldable pub continuity_scan :
    (id : String) (term : ℕ) (now : ℕ → ℕ) (active : ℕ) → List NodeInfo → Bool
continuity_scan id term now active [] = not (active == 0)
continuity_scan id term now active (n ∷ ns) =
    let own = continuity_scan id term (λ i. now (suc i)) (active + 1) ns in
    let rest = continuity_scan id term (λ i. now (suc i)) active ns in
    if slt term n.term
    then false
    else if n.is_leader && n.term == term && ltb (now 0) (n.last_seen + 3_000)
    then (if str_eq n.id id then own else false)
    else rest

-- The loop of `receiveHeartbeat`: the term of the first active leader that is not behind.
unfoldable pub heartbeat_scan :
    (id : String) (term heartbeat : ℕ) (now : ℕ → ℕ) → List NodeInfo → Option ℕ
heartbeat_scan id term heartbeat now [] = none
heartbeat_scan id term heartbeat now (n ∷ ns) =
    let rest = heartbeat_scan id term heartbeat (λ i. now (suc i)) ns in
    if not (str_eq n.id id)
      && n.is_leader
      && ltb (now 0) (n.last_seen + heartbeat)
      && not (slt n.term term)
    then some n.term
    else rest

-- The first loop of `sendHeartbeats`.
pub data Conflict : Type 0 where
  no_conflict : Conflict
  behind : ℕ → Conflict
  rival : Conflict

unfoldable pub conflict_scan : (id : String) (term : ℕ) → List NodeInfo → Conflict
conflict_scan id term [] = no_conflict
conflict_scan id term (n ∷ ns) =
    let rest = conflict_scan id term ns in
    if slt term n.term then behind n.term else if rules_now id term n then rival else rest

unfoldable pub first_leader : List NodeInfo → String
first_leader [] = ""
first_leader (n ∷ ns) = let rest = first_leader ns in if n.is_leader then n.id else rest

module _ (outside : Outside) where
  open outside use {get_nodes, claim, now, now_at}

  unfoldable pub has_majority : ℕ → Act Bool
  has_majority votes = do nodes ← ask get_nodes; pure (majority_of votes nodes)

  abbrev pub conclude : Consistency → Act Bool
  conclude consistent = pure true
  conclude (higher_term t) = do
    modify (λ r. record r { current_term = t; voted_for = "" })
    pure false
  conclude active_leader = pure false

  abbrev pub consider : Option (List NodeInfo) → (ℕ → ℕ) → Act Bool
  consider none t = pure false
  consider (some nodes) t = do
    r ← get
    conclude (term_scan r.node_id r.current_term r.heartbeat_timeout t nodes)

  -- Called with the lock held.
  unfoldable pub validate_term_consistency : Act Bool
  unfolding term_scan
  validate_term_consistency = do nodes ← ask get_nodes; t ← ask now_at; consider nodes t

  abbrev pub continue_with : Raft → Option (List NodeInfo) → (ℕ → ℕ) → Bool
  continue_with r none t = true
  continue_with r (some nodes) t = continuity_scan r.node_id r.current_term t 0 nodes

  abbrev pub continuity_of_leader : Raft → Act Bool
  continuity_of_leader r = do
    t ← ask now
    if ltb t (r.leadership_start_time + 2_000)
        then pure true
        else do nodes ← ask get_nodes; t' ← ask now_at; pure (continue_with r nodes t')

  unfoldable pub validate_leadership_continuity : Act Bool
  unfolding continuity_scan
  validate_leadership_continuity = do
    r_lock
    r ← get
    unlock
    if is_leader_state r.state then continuity_of_leader r else pure false

  abbrev pub adopt : ℕ → Raft → Raft
  adopt t r = record r { current_term = t; voted_for = "" }

  abbrev pub hear : ℕ → Option ℕ → Act Bool
  hear term none = pure false
  hear term (some t) =
      if slt term t then (do lock; modify (adopt t); unlock; pure true) else pure true

  abbrev pub listen : Option (List NodeInfo) → Act Bool
  listen none = pure false
  listen (some nodes) = do
    r_lock
    r ← get
    unlock
    t ← ask now_at
    hear r.current_term (heartbeat_scan r.node_id r.current_term r.heartbeat_timeout t nodes)

  unfoldable pub receive_heartbeat : Act Bool
  unfolding heartbeat_scan
  receive_heartbeat = do nodes ← ask get_nodes; listen nodes

  abbrev pub granted : Option Bool → Bool
  granted none = false
  granted (some b) = b

  unfoldable pub try_claim_leadership : Act Bool
  try_claim_leadership = do answer ← ask claim; pure (granted answer)
