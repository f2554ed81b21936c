-- ===== src/Election/Bully/Checks.antt =====
-- The decision of `checkLeadership` (internal/election/bully.go).
use distributed_job_processo.Base.{
  ℕ, suc, ◌+◌, String, ◌≡◌, refl, inl, inr, Bool, true, false, not, ◌&&◌, ◌||◌, List, [], ◌∷◌,
  arith, str_eq, ltb, if◌then◌else◌, Bool-cases, slt,
}
use distributed_job_processo.Election.Bully.Node.{
  Node, Bully, Inputs, highest_from, calculate_priority, get_highest_priority,
  get_current_leader_unsafe, should_be_leader, notify_callbacks, become_leader, step_down,
  check_leadership, act_on, notify_change, outranked_by,
}

-- Some live node of the list has a higher priority than `mine`.
abbrev pub outranks : (mine timeout : ℕ) (now : ℕ → ℕ) → List Node → Bool
outranks mine timeout now [] = false
outranks mine timeout now (n ∷ ns) =
    (slt mine n.priority && ltb (now 0) (n.last_seen + timeout))
    || outranks mine timeout (λ i. now (suc i)) ns

raises :
    (mine timeout : ℕ) (now : ℕ → ℕ) (highest : ℕ) (ns : List Node)
    → slt mine highest ≡ true
    → slt mine (highest_from timeout now highest ns) ≡ true
unfolding highest_from
raises mine timeout now highest [] h = h
raises mine timeout now highest (n ∷ ns) h =
    raises mine timeout (λ i. now (suc i)) _ ns (ground arith)

highest_from-outranks :
    (mine timeout : ℕ) (now : ℕ → ℕ) (ns : List Node)
    → outranks mine timeout now ns ≡ true
    → slt mine (highest_from timeout now mine ns) ≡ true
unfolding highest_from
highest_from-outranks mine timeout now [] h = ground arith
highest_from-outranks mine timeout now (n ∷ ns) h =
    elim (Bool-cases (slt mine n.priority && ltb (now 0) (n.last_seen + timeout))) [
      | inl e ↦ rw e (raises mine timeout (λ i. now (suc i)) n.priority ns (ground arith))
      | inr e ↦ rw e (highest_from-outranks mine timeout (λ i. now (suc i)) ns (ground arith))
    ]

highest_from-mine :
    (mine timeout : ℕ) (now : ℕ → ℕ) (ns : List Node)
    → outranks mine timeout now ns ≡ false
    → highest_from timeout now mine ns ≡ mine
unfolding highest_from
highest_from-mine mine timeout now [] h = refl
highest_from-mine mine timeout now (n ∷ ns) h =
    elim (Bool-cases (slt mine n.priority && ltb (now 0) (n.last_seen + timeout))) [
      | inl e ↦ ground arith
      | inr e ↦ rw e (highest_from-mine mine timeout (λ i. now (suc i)) ns (ground arith))
    ]

pub free_for : Inputs → Bully → Bool
free_for inputs b =
    let current = get_current_leader_unsafe inputs b in
    str_eq current "" || str_eq current b.node_id

act_on-is_leader :
    (inputs : Inputs) (should : Bool) (b : Bully)
    → (notify_change inputs b.is_leader (act_on inputs should b)).is_leader
      ≡ (should && (b.is_leader || inputs.registers))
unfolding become_leader step_down notify_callbacks
act_on-is_leader inputs should b = ground arith

settle-is_leader :
    (inputs : Inputs) (should : Bool) (outranked : Bool) (b : Bully)
    → (outranked ≡ true → should ≡ false)
    → (if outranked
        then (if b.is_leader then step_down b else b)
        else notify_change inputs b.is_leader (act_on inputs should b)).is_leader
      ≡ (should && (b.is_leader || inputs.registers))
unfolding step_down
settle-is_leader inputs should true b h = rw (h refl) (ground arith)
settle-is_leader inputs should false b h = act_on-is_leader inputs should b

should_be_leader-eq :
    (now : ℕ → ℕ) (current : String) (b : Bully)
    → should_be_leader (calculate_priority b.node_id) (get_highest_priority now b) current b.node_id
      ≡ (not (outranks (calculate_priority b.node_id) b.timeout now b.nodes)
          && (str_eq current "" || str_eq current b.node_id))
unfolding should_be_leader get_highest_priority
should_be_leader-eq now current b =
    elim (Bool-cases (outranks (calculate_priority b.node_id) b.timeout now b.nodes)) [
      | inl e ↦
          let h = highest_from-outranks (calculate_priority b.node_id) b.timeout now b.nodes e in
          ground arith
      | inr e ↦
          let h = highest_from-mine (calculate_priority b.node_id) b.timeout now b.nodes e in
          rw (h, e) (ground arith)
    ]

-- A check leaves the node a leader exactly if no live cached node has a higher priority, its lookup
-- of the current leader (`getCurrentLeaderUnsafe`) gives nobody or the node itself, and the node
-- led before or can register.
pub check_leadership-is_leader :
    (inputs : Inputs) (b : Bully)
    → (check_leadership inputs b).is_leader ≡ (
        not (outranks (calculate_priority b.node_id) b.timeout inputs.ranking b.nodes)
        && (str_eq (get_current_leader_unsafe inputs b) ""
            || str_eq (get_current_leader_unsafe inputs b) b.node_id)
        && (b.is_leader || inputs.registers))
unfolding check_leadership
check_leadership-is_leader inputs b =
    rw (should_be_leader-eq inputs.ranking (get_current_leader_unsafe inputs b) b) (
      settle-is_leader inputs _ (outranked_by (get_current_leader_unsafe inputs b) b) b
        (λ h. ground arith))
