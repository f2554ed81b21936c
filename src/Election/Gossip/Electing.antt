-- ===== src/Election/Gossip/Electing.antt =====
-- What the rounds of the gossip election come to (internal/election/gossip.go).
use distributed_job_processo.Base.{
  ℕ, ◌+◌, ◌≤◌, ◌<◌, String, ◌≡◌, refl, sym, ap, ◌∙◌, subst, ◌≢◌, inl, inr, Bool, true, false, ◌||◌,
  Option, none, some, List, [], ◌∷◌, ◌++◌, arith, ltb, ◌==◌, str_eq, eq_iff, if◌then◌else◌,
  Bool-cases, str_eq_of_ne, Member, All, some-eq,
}
use distributed_job_processo.Storage.Nodes.{NodeInfo}
use distributed_job_processo.Election.Gossip.Table.{GossipMember, alive, Gossip, is_alive}
use distributed_job_processo.Election.Gossip.Rounds.{
  Aged, age_member, age_all, update_member_states, swept, candidates_from, consider_priority,
  least_id, new_leader, Ended, returned, blocked, elect, elect_leader, propagate_suspicion,
  propagate_leadership,
}

-- The node leads, and the database and the callbacks have been told so last.
abbrev pub Leads : Gossip → Type 0
Leads g' =
    (g'.is_leader ≡ true)
    × (g'.current_leader ≡ g'.node_id)
    × ((n : NodeInfo) × (ns : List NodeInfo) × (g'.registered ≡ n ∷ ns)
        × (n.id ≡ g'.node_id)
        × (n.is_leader ≡ true))
    × ((told : List (Bool × String)) × (g'.notified ≡ (true, g'.node_id) ∷ told))

-- A call that returns leaves a node that does not lead; one that waits for ever has made the
-- node the leader.
abbrev pub LeadsIfBlocked : Ended → Type 0
LeadsIfBlocked (returned g') = g'.is_leader ≡ false
LeadsIfBlocked (blocked g') = Leads g'

module _ (perm : ℕ → List ℕ) (g : Gossip) where
  elect-LeadsIfBlocked : (o : Option String) → g.is_leader ≡ false → LeadsIfBlocked (elect perm g o)
  unfolding propagate_leadership
  elect-LeadsIfBlocked none h = h
  elect-LeadsIfBlocked (some leader) h = elim (Bool-cases (str_eq leader g.current_leader)) [
    | inl same ↦ rw same h
    | inr other ↦ elim (Bool-cases (str_eq leader g.node_id)) [
      | inl self ↦
          let own = (eq_iff leader g.node_id).0 self in
          rw (other, self)
            (
              refl,
              own,
              (_, _, refl, refl, refl),
              (g.notified, ap (λ id. (true, id) ∷ g.notified) own),
            )
      | inr e ↦ rw (other, e) refl
    ]
  ]

  -- On a node that does not lead, `electLeader` does not make it the leader, or makes it the
  -- leader and waits for ever for the lock that it holds.
  pub elect_leader-LeadsIfBlocked : g.is_leader ≡ false → LeadsIfBlocked (elect_leader perm g)
  unfolding elect_leader
  elect_leader-LeadsIfBlocked h =
      elect-LeadsIfBlocked (new_leader (candidates_from g.members (none, [])).1) h

  module _ (now : ℕ) where
    age_all-blocked : (ms : List GossipMember) → age_all perm now g ms none ≡ none
    unfolding age_all
    age_all-blocked [] = refl
    age_all-blocked (m ∷ ms) = refl

    abbrev pub IsOverdue : GossipMember → Type 0
    IsOverdue m = (m.id ≢ g.node_id) × (m.state ≡ alive) × (m.last_seen + g.suspicion_timeout < now)

    age_member-blocks :
        (later : List GossipMember) (m : GossipMember) (a : Aged)
        → IsOverdue m
        → age_member perm now g later m a ≡ none
    unfolding propagate_suspicion
    age_member-blocks later m a (other, living, late) =
        rw (str_eq_of_ne m.id g.node_id other, living) (ground arith)

    age_all-blocks :
        (ms : List GossipMember) (m : GossipMember) (o : Option Aged)
        → Member m ms
        → IsOverdue m
        → age_all perm now g ms o ≡ none
    unfolding age_all
    age_all-blocks [] m o i h = absurd i
    age_all-blocks (x ∷ ms) m none i h = refl
    age_all-blocks (x ∷ ms) m (some a) (inl e) h =
        ap (age_all perm now g ms) (age_member-blocks ms x a (subst IsOverdue e h))
        ∙ age_all-blocked ms
    age_all-blocks (x ∷ ms) m (some a) (inr i) h = age_all-blocks ms m _ i h

    -- As soon as one other live member has not been seen for longer than the suspicion timeout,
    -- `updateMemberStates` waits for ever, so no member is ever suspected by it.
    pub update_member_states_blocks :
        (clock : ℕ → ℕ) (m : GossipMember)
        → Member m g.members
        → IsOverdue m
        → update_member_states perm now clock g ≡ none
    unfolding update_member_states
    update_member_states_blocks clock m i h =
        ap (swept clock g) (age_all-blocks g.members m (some ([], g.suspicions)) i h)

abbrev pub AtMost : Option ℕ → Option ℕ → Type 0
AtMost none h = Unit
AtMost (some a) none = ⊥
AtMost (some a) (some b) = a ≤ b

AtMost-refl : (a : Option ℕ) → AtMost a a
AtMost-refl none = tt
AtMost-refl (some a) = omega arith

AtMost-trans : (a b c : Option ℕ) → AtMost a b → AtMost b c → AtMost a c
AtMost-trans none b c p q = tt
AtMost-trans (some a) none c p q = absurd p
AtMost-trans (some a) (some b) none p q = absurd q
AtMost-trans (some a) (some b) (some c) p q = omega arith

-- A live member of the table with this id and priority.
abbrev pub Candidate : List GossipMember → Option ℕ → String → Type 0
Candidate all h c =
    (m : GossipMember) × (p : ℕ) × Member m all
    × (m.id ≡ c)
    × (is_alive m ≡ true)
    × (m.priority ≡ some p)
    × (h ≡ some p)

module _ (all : List GossipMember) where
  abbrev IsFair : Option ℕ × List String → Type 0
  IsFair s = All (Candidate all s.0) s.1

  All-snoc :
      (P : String → Type 0) (cs : List String) (c : String) → All P cs → P c → All P (cs ++ c ∷ [])
  All-snoc P [] c h p = (p, tt)
  All-snoc P (x ∷ cs) c h p = (h.0, All-snoc P cs c h.1 p)

  consider-IsFair :
      (m : GossipMember) (o : Option ℕ) (s : Option ℕ × List String)
      → m.priority ≡ o
      → Member m all
      → is_alive m ≡ true
      → IsFair s
      → IsFair (consider_priority m o s)
        × AtMost s.0 (consider_priority m o s).0
        × AtMost o (consider_priority m o s).0
  consider-IsFair m none s e i a h = (h, AtMost-refl s.0, tt)
  consider-IsFair m (some p) (none, cs) e i a h =
      (((m, p, i, refl, a, e, refl), tt), tt, omega arith)
  consider-IsFair m (some p) (some q, cs) e i a h = elim (Bool-cases (ltb q p)) [
    | inl b ↦ rw b (((m, p, i, refl, a, e, refl), tt), ground arith, omega arith)
    | inr b ↦ rw b (elim (Bool-cases (p == q)) [
      | inl same ↦ rw same (
        All-snoc (Candidate all (some q)) cs m.id h (m, p, i, refl, a, e, ground arith),
        omega arith,
        ground arith,
      )
      | inr other ↦ rw other (h, omega arith, ground arith)
    ])
  ]

  -- No live member of the list has a priority above `h`.
  abbrev pub Bounded : Option ℕ → List GossipMember → Type 0
  Bounded h = All (λ m. is_alive m ≡ true → AtMost m.priority h)

  candidates-IsFair :
      (ms : List GossipMember) (s : Option ℕ × List String)
      → All (λ m. Member m all) ms
      → IsFair s
      → IsFair (candidates_from ms s)
        × AtMost s.0 (candidates_from ms s).0
        × Bounded (candidates_from ms s).0 ms
  unfolding candidates_from
  candidates-IsFair [] s i h = (h, AtMost-refl s.0, tt)
  candidates-IsFair (m ∷ ms) s i h = elim (Bool-cases (is_alive m)) [
    | inl a ↦
        let (fair, up, covers) = consider-IsFair m m.priority s refl i.0 a h in
        let (fair', up', covers') =
          candidates-IsFair ms (consider_priority m m.priority s) i.1 fair in
        let step : candidates_from (m ∷ ms) s
            ≡ candidates_from ms (consider_priority m m.priority s) =
          rw a refl in
        subst (λ t. IsFair t × AtMost s.0 t.0 × Bounded t.0 (m ∷ ms)) (sym step)
          (
            fair',
            AtMost-trans s.0 _ _ up up',
            ((λ _. AtMost-trans m.priority _ _ covers up'), covers'),
          )
    | inr d ↦
        let (fair', up', covers') = candidates-IsFair ms s i.1 h in
        let step : candidates_from (m ∷ ms) s ≡ candidates_from ms s = rw d refl in
        subst (λ t. IsFair t × AtMost s.0 t.0 × Bounded t.0 (m ∷ ms)) (sym step)
          (fair', up', ((λ a. absurd (ground arith)), covers'))
  ]

  least_id-All :
      (P : String → Type 0) (cs : List String) (leader : String)
      → P leader
      → All P cs
      → P (least_id leader cs)
  unfolding least_id
  least_id-All P [] leader p h = p
  least_id-All P (c ∷ cs) leader p h = least_id-All P cs _ (pick _ h.0 p) h.1
    where
      pick : (b : Bool) → P c → P leader → P (if b then c else leader)
      pick true x y = x
      pick false x y = y

  -- The loop takes the first candidate, since it starts from the empty text.
  least_id-first : (c : String) (cs : List String) → least_id "" (c ∷ cs) ≡ least_id c cs
  unfolding least_id
  least_id-first c cs = ap (λ b. least_id (if b then c else "") cs) (or_true _)
    where
      or_true : (b : Bool) → (b || true) ≡ true
      or_true true = refl
      or_true false = refl

  new_leader-All :
      (P : String → Type 0) (cs : List String) (c : String)
      → All P cs
      → new_leader cs ≡ some c
      → P c
  new_leader-All P [] c h e = absurd (ground arith)
  new_leader-All P (x ∷ []) c h e = subst P (some-eq x c e) h.0
  new_leader-All P (x ∷ y ∷ cs) c h e =
      subst P (some-eq _ c e)
        (subst P (sym (least_id-first x (y ∷ cs))) (least_id-All P (y ∷ cs) x h.0 h.1))

All-map :
    (P Q : GossipMember → Type 0) (ms : List GossipMember)
    → ((m : GossipMember) → P m → Q m)
    → All P ms
    → All Q ms
All-map P Q [] f h = tt
All-map P Q (m ∷ ms) f h = (f m h.0, All-map P Q ms f h.1)

All-Member : (ms : List GossipMember) → All (λ m. Member m ms) ms
All-Member [] = tt
All-Member (m ∷ ms) = (inl refl, All-map (λ x. Member x ms) _ ms (λ x i. inr i) (All-Member ms))

-- The member that `electLeader` chooses is a live one of the table, and no live member has a
-- higher priority.
pub new_leader-Candidate :
    (g : Gossip) (leader : String)
    → new_leader (candidates_from g.members (none, [])).1 ≡ some leader
    → (h : Option ℕ) × Candidate g.members h leader × Bounded g.members h g.members
new_leader-Candidate g leader e =
    let (fair, _, bounded) =
      candidates-IsFair g.members g.members (none, []) (All-Member g.members) tt in
    (_, new_leader-All g.members _ _ leader fair e, bounded)
