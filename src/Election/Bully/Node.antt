-- ===== src/Election/Bully/Node.antt =====
-- A node of the bully election (internal/election/bully.go). The Go map `nodes` is the list of
-- its values in the order of the iteration, which the runtime chooses. Times are in
-- milliseconds.
use distributed_job_processo.Base.{
  ℕ, suc, ◌+◌, ◌*◌, String, Bool, true, false, not, ◌&&◌, ◌||◌, Option, none, some, List, [], ◌∷◌,
  map, str_eq, ltb, ◌==◌, if◌then◌else◌, wrap, slt, negate,
}
use Prim.Native.Char.{code}
use distributed_job_processo.Storage.Nodes.{NodeInfo}

pub record Node : Type 0 where
  pub id : String
  pub address : String
  pub priority : ℕ
  pub last_seen : ℕ

pub record Bully : Type 0 where
  pub node_id : String
  pub node_addr : String
  pub nodes : List Node
  pub is_leader : Bool
  pub timeout : ℕ
  pub registered : List NodeInfo  -- calls of `RegisterNode`, the latest first
  pub notified : List (Bool × String)  -- calls of the callbacks, the latest first

-- `hash = hash*31 + int(char)` over the characters.
hash_from : ℕ → String → ℕ
hash_from hash String.[] = hash
hash_from hash (String.◌∷◌ c s) = hash_from (wrap (hash * 31 + code c)) s

unfoldable pub calculate_priority : String → ℕ
unfolding hash_from
calculate_priority id = let hash = hash_from 0 id in if slt hash 0 then negate hash else hash

-- What one call of `checkLeadership` reads: the clock at each cached node (for the priorities,
-- for the search, for the callbacks), the answer of `GetNodes` at each cached node and the clock
-- at each node of that answer, the answer for the clearing, and whether the registration
-- succeeds.
pub record Inputs : Type 0 where
  pub ranking : ℕ → ℕ
  pub searching : ℕ → ℕ
  pub notifying : ℕ → ℕ → ℕ
  pub stored : ℕ → Option (List NodeInfo)
  pub looking : ℕ → ℕ → ℕ
  pub clearing : Option (List NodeInfo)
  pub registers : Bool

-- The loop of `getHighestPriority`.
unfoldable pub highest_from : (timeout : ℕ) (now : ℕ → ℕ) → ℕ → List Node → ℕ
highest_from timeout now highest [] = highest
highest_from timeout now highest (n ∷ ns) =
    highest_from timeout (λ i. now (suc i))
      (if slt highest n.priority && ltb (now 0) (n.last_seen + timeout)
        then n.priority
        else highest)
      ns

unfoldable pub get_highest_priority : (ℕ → ℕ) → Bully → ℕ
unfolding highest_from calculate_priority
get_highest_priority now b = highest_from b.timeout now (calculate_priority b.node_id) b.nodes

-- The inner loop of `getCurrentLeaderUnsafe`.
unfoldable pub claims : (timeout : ℕ) (now : ℕ → ℕ) → String → List NodeInfo → Bool
claims timeout now id [] = false
claims timeout now id (n ∷ ns) =
    (str_eq n.id id && n.is_leader && ltb (now 0) (n.last_seen + timeout))
    || claims timeout (λ i. now (suc i)) id ns

abbrev pub claims_in : (timeout : ℕ) (now : ℕ → ℕ) → String → Option (List NodeInfo) → Bool
claims_in timeout now id none = false
claims_in timeout now id (some nodes) = claims timeout now id nodes

unfoldable pub current_leader_from :
    (timeout : ℕ) (now : ℕ → ℕ) (stored : ℕ → Option (List NodeInfo)) (looking : ℕ → ℕ → ℕ)
    → List Node
    → String
unfolding claims
current_leader_from timeout now stored looking [] = ""
current_leader_from timeout now stored looking (n ∷ ns) =
    let rest =
      current_leader_from timeout (λ i. now (suc i)) (λ i. stored (suc i)) (λ i. looking (suc i))
        ns in
    if ltb (now 0) (n.last_seen + timeout) && claims_in timeout (looking 0) n.id (stored 0)
    then n.id
    else rest

unfoldable pub get_current_leader_unsafe : Inputs → Bully → String
unfolding current_leader_from
get_current_leader_unsafe inputs b =
    current_leader_from b.timeout inputs.searching inputs.stored inputs.looking b.nodes

abbrev pub registration : Bool → Bully → NodeInfo
registration leader b = record {
  id = b.node_id;
  address = b.node_addr;
  is_leader = leader;
  last_seen = 0;
  worker_count = 10;
  version = "1.0.0";
  term = 0;
}

-- The loop of `clearExistingLeaders`: every leader with a lower priority is registered, cleared.
unfoldable pub clear_from : Bully → (registered : List NodeInfo) → List NodeInfo → List NodeInfo
unfolding calculate_priority
clear_from b registered [] = registered
clear_from b registered (n ∷ ns) =
    clear_from b
      (if n.is_leader
          && not (str_eq n.id b.node_id)
          && slt (calculate_priority n.id) (calculate_priority b.node_id)
        then record n { is_leader = false; last_seen = 0; term = 0 } ∷ registered
        else registered)
      ns

abbrev pub clear_existing_leaders : Option (List NodeInfo) → Bully → List NodeInfo
clear_existing_leaders none b = b.registered
clear_existing_leaders (some nodes) b = clear_from b b.registered nodes

unfoldable pub become_leader : Inputs → Bully → Bully
unfolding clear_from
become_leader inputs b = record b {
  is_leader = inputs.registers;
  registered = registration true b ∷ clear_existing_leaders inputs.clearing b;
}

unfoldable pub step_down : Bully → Bully
step_down b = record b { is_leader = false; registered = registration false b ∷ b.registered }

unfoldable pub send_heartbeat : Bully → Bully
send_heartbeat b = record b { registered = registration b.is_leader b ∷ b.registered }

-- The loop of `notifyCallbacks`: the first node in the map's order with the highest priority.
unfoldable pub top_node : Bully → (ℕ → ℕ → ℕ) → List Node → String
unfolding get_highest_priority
top_node b now [] = ""
top_node b now (n ∷ ns) =
    let rest = top_node b (λ i. now (suc i)) ns in
    if n.priority == get_highest_priority (now 0) b then n.id else rest

unfoldable pub notify_callbacks : Inputs → Bully → Bully
unfolding top_node
notify_callbacks inputs b =
    let top = top_node b inputs.notifying b.nodes in
    let who = if str_eq top "" && b.is_leader then b.node_id else top in
    record b { notified = (b.is_leader, who) ∷ b.notified }

-- `if wasLeader != b.isLeader { b.notifyCallbacks() }`
abbrev pub notify_change : Inputs → Bool → Bully → Bully
notify_change inputs true b = if b.is_leader then b else notify_callbacks inputs b
notify_change inputs false b = if b.is_leader then notify_callbacks inputs b else b

-- `shouldBeLeader`, from the two priorities and the current leader.
unfoldable pub should_be_leader : (mine highest : ℕ) (current own : String) → Bool
should_be_leader mine highest current own =
    if slt highest mine
    then true
    else if mine == highest
    then str_eq current "" || str_eq current own
    else false

abbrev pub outranked_by : String → Bully → Bool
outranked_by current b =
    not (str_eq current "")
    && not (str_eq current b.node_id)
    && slt (calculate_priority b.node_id) (calculate_priority current)

abbrev pub act_on : Inputs → Bool → Bully → Bully
act_on inputs should b =
    if should && not b.is_leader
    then become_leader inputs b
    else if not should && b.is_leader
    then step_down b
    else b

unfoldable pub check_leadership : Inputs → Bully → Bully
unfolding get_highest_priority get_current_leader_unsafe should_be_leader become_leader step_down
    notify_callbacks
check_leadership inputs b =
    let mine = calculate_priority b.node_id in
    let highest = get_highest_priority inputs.ranking b in
    let current = get_current_leader_unsafe inputs b in
    if outranked_by current b
    then (if b.is_leader then step_down b else b)
    else notify_change inputs b.is_leader
        (act_on inputs (should_be_leader mine highest current b.node_id) b)

abbrev as_node : NodeInfo → Node
as_node n = record {
  id = n.id;
  address = n.address;
  priority = calculate_priority n.id;
  last_seen = n.last_seen;
}

unfoldable pub update_nodes : Option (List NodeInfo) → Bully → Bully
update_nodes none b = b
update_nodes (some nodes) b = record b { nodes = map as_node nodes }
