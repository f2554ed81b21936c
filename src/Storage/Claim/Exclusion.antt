-- ===== src/Storage/Claim/Exclusion.antt =====
-- Nodes that claim leadership at about the same time: every interleaving of
-- `AtomicClaimLeadership` of internal/storage/mongodb.go.
pub mod Documents
pub mod Steps
pub mod Marks
pub mod Accesses
use distributed_job_processo.Base.{
  ℕ, ◌+◌, ◌-◌, ◌≤◌, String, ◌≡◌, refl, sym, ap, ◌∙◌, subst, ◌≢◌, inl, inr, Bool, true, Option, none,
  some, str_eq, eq_iff, Bool-cases, str_eq_self,
}
use distributed_job_processo.Storage.Nodes.{
  NodeInfo, Nodes, Effects, register_node, set_registration, after_upsert,
}
use distributed_job_processo.Storage.Claim.{Stage, waiting, claimed, advance}
use Documents.{Present, Present-upsert_other, Present-upsert_self}
use Steps.{System, assign, Step, access, registration, heartbeat, Reach, start, later}
use Marks.{Marked, Sound, Marked-of, Marked-advance}
use Accesses.{Sound-advance, advance_crowded}

module _ {S : Type 0} (nodes : Nodes S) (term_of : String → ℕ) (begin : ℕ)
    (effects : Effects nodes) where
  record Inv (s : System S) : Type 0 where
    sound : (i : String) → Sound nodes term_of begin effects i s.db (s.stage i)
    unique : (i j : String) → s.stage i ≡ claimed → s.stage j ≡ claimed → i ≡ j

  -- Only the mark matters to a stage.
  Sound-of_Marked :
      (i : String) (s t : S) (st : Stage)
      → (Marked nodes term_of begin effects i s → Marked nodes term_of begin effects i t)
      → Sound nodes term_of begin effects i s st
      → Sound nodes term_of begin effects i t st
  Sound-of_Marked i s t Stage.waiting f m = tt
  Sound-of_Marked i s t Stage.cleared f m = tt
  Sound-of_Marked i s t (Stage.checked n) f m = m
  Sound-of_Marked i s t (Stage.registered n r c) f m = (m.0, f m.1)
  Sound-of_Marked i s t Stage.conflict f m = tt
  Sound-of_Marked i s t Stage.claimed f m = f m
  Sound-of_Marked i s t Stage.refused f m = tt
  Sound-of_Marked i s t Stage.failed f m = tt

  module _ (s : System S) (inv : Inv s) (k : String) (now : ℕ) (g : begin ≤ now)
      (h : now ≤ begin + 2_000) where
    abbrev next_stage : Stage
    next_stage = (advance nodes k (term_of k) now (s.stage k) s.db).0

    abbrev next_db : S
    next_db = (advance nodes k (term_of k) now (s.stage k) s.db).1

    access-Sound :
        (i : String) → Sound nodes term_of begin effects i next_db (assign s.stage k next_stage i)
    access-Sound i = elim (Bool-cases (str_eq k i)) [
      | inl e ↦ rw e (
          subst (λ x. Sound nodes term_of begin effects x next_db next_stage) ((eq_iff k i).0 e)
            (Sound-advance nodes term_of begin effects k now (s.stage k) s.db g h (inv.sound k)))
      | inr e ↦ rw e (
          Sound-of_Marked i s.db next_db (s.stage i)
            (Marked-advance nodes term_of begin effects k i now (s.stage k) s.db
              (λ q. cc (e, q, str_eq_self i)) h)
            (inv.sound i))
    ]

    through : (j : String) → k ≢ j → next_stage ≡ claimed → s.stage j ≡ claimed → k ≡ j
    through j d e f =
        inv.unique k j
          (advance_crowded nodes term_of begin effects k j now (s.stage k) s.db d (inv.sound k)
            (subst (Sound nodes term_of begin effects j s.db) f (inv.sound j)) e)
          f

    access_unique :
        (i j : String)
        → assign s.stage k next_stage i ≡ claimed
        → assign s.stage k next_stage j ≡ claimed
        → i ≡ j
    access_unique i j p q = elim (Bool-cases (str_eq k i)) [
      | inl e ↦ elim (Bool-cases (str_eq k j)) [
        | inl f ↦ sym ((eq_iff k i).0 e) ∙ (eq_iff k j).0 f
        | inr f ↦
            sym ((eq_iff k i).0 e)
            ∙ through j (λ x. cc (f, x, str_eq_self j)) (rw e at p) (rw f at q)
      ]
      | inr e ↦ elim (Bool-cases (str_eq k j)) [
        | inl f ↦
            sym (through i (λ x. cc (e, x, str_eq_self i)) (rw f at q) (rw e at p))
            ∙ (eq_iff k j).0 f
        | inr f ↦ inv.unique i j (rw e at p) (rw f at q)
      ]
    ]

  -- A registration leaves the marks of other nodes, and a leader's own heartbeat renews its mark.
  registered_other :
      (i : String) (node : NodeInfo) (now : ℕ) (s : S) (o : Option (Bool × S))
      → node.id ≢ i
      → nodes.upsert node.id (set_registration now node) s ≡ o
      → Marked nodes term_of begin effects i s
      → Marked nodes term_of begin effects i (after_upsert nodes s o).0
  registered_other i node now s none d e m = m
  registered_other i node now s (some (changed, s')) d e m =
      Marked-of nodes term_of begin effects i s' _
        (effects.upsert_effect node.id (set_registration now node) s changed s' e)
        (Present-upsert_other begin node.id i (set_registration now node) (nodes.documents s) d m)

  registered_self :
      (node : NodeInfo) (now : ℕ) (s : S) (o : Option (Bool × S))
      → node.is_leader ≡ true
      → begin ≤ now
      → nodes.upsert node.id (set_registration now node) s ≡ o
      → Marked nodes term_of begin effects node.id s
      → Marked nodes term_of begin effects node.id (after_upsert nodes s o).0
  unfolding set_registration
  registered_self node now s none l g e m = m
  registered_self node now s (some (changed, s')) l g e m =
      Marked-of nodes term_of begin effects node.id s' _
        (effects.upsert_effect node.id (set_registration now node) s changed s' e)
        (Present-upsert_self begin node.id (set_registration now node) (nodes.documents s)
          (λ n same. (same, l, g)))

  abbrev after_registration : (node : NodeInfo) (now : ℕ) → System S → System S
  after_registration node now s = record s { db = (register_node nodes now node s.db).0 }

  registration-Inv :
      (s : System S) (node : NodeInfo) (now : ℕ)
      → s.stage node.id ≡ waiting
      → Inv s
      → Inv (after_registration node now s)
  unfolding register_node
  registration-Inv s node now idle inv = record {
    sound = λ i. elim (Bool-cases (str_eq node.id i)) [
      | inl e ↦
          subst (Sound nodes term_of begin effects i _)
            (sym idle ∙ ap s.stage ((eq_iff node.id i).0 e)) tt
      | inr e ↦
          Sound-of_Marked i s.db _ (s.stage i)
            (registered_other i node now s.db _ (λ x. cc (e, x, str_eq_self i)) refl) (inv.sound i)
    ];
    unique = inv.unique;
  }

  heartbeat-Inv :
      (s : System S) (node : NodeInfo) (now : ℕ)
      → node.is_leader ≡ true
      → begin ≤ now
      → Inv s
      → Inv (after_registration node now s)
  unfolding register_node
  heartbeat-Inv s node now l g inv = record {
    sound = λ i. elim (Bool-cases (str_eq node.id i)) [
      | inl e ↦
          subst
            (λ x.
              Sound nodes term_of begin effects x (after_registration node now s).db (s.stage x))
            ((eq_iff node.id i).0 e)
            (Sound-of_Marked node.id s.db _ (s.stage node.id)
              (registered_self node now s.db _ l g refl) (inv.sound node.id))
      | inr e ↦
          Sound-of_Marked i s.db _ (s.stage i)
            (registered_other i node now s.db _ (λ x. cc (e, x, str_eq_self i)) refl) (inv.sound i)
    ];
    unique = inv.unique;
  }

  Step-Inv : {s t : System S} → Step nodes term_of begin s t → Inv s → Inv t
  Step-Inv {s} (access k now g h) inv = record {
    sound = access-Sound s inv k now g h;
    unique = access_unique s inv k now g h;
  }
  Step-Inv {s} (registration node now idle) inv = registration-Inv s node now idle inv
  Step-Inv {s} (heartbeat node now won l g) inv = heartbeat-Inv s node now l g inv

  Reach-Inv : {s : System S} → Reach nodes term_of begin s → Inv s
  Reach-Inv (start db) = record { sound = λ i. tt; unique = λ i j e f. cc }
  Reach-Inv (later r st) = Step-Inv st (Reach-Inv r)

  -- However the accesses of claims are interleaved, and whatever errors they meet, at most one
  -- node's claim succeeds among those that run within a burst of two seconds, from any database,
  -- while other nodes register and the winner sends heartbeats.
  pub claim_exclusive :
      {s : System S}
      → Reach nodes term_of begin s
      → (i j : String) → s.stage i ≡ claimed
      → s.stage j ≡ claimed
      → i ≡ j
  claim_exclusive r i j e f = (Reach-Inv r).unique i j e f
