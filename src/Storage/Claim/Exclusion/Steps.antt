-- ===== src/Storage/Claim/Exclusion/Steps.antt =====
-- Several nodes that run `AtomicClaimLeadership` over one database, interleaved in any order.
use distributed_job_processo.Base.{ℕ, ◌+◌, ◌≤◌, String, ◌≡◌, true, str_eq, if◌then◌else◌}
use distributed_job_processo.Storage.Nodes.{NodeInfo, Nodes, register_node}
use distributed_job_processo.Storage.Claim.{Stage, waiting, claimed, advance}

-- The database, and where each node's claim stands.
pub record System (S : Type 0) : Type 0 where
  pub db : S
  pub stage : String → Stage

abbrev pub assign : (String → Stage) → String → Stage → String → Stage
assign f i p j = if str_eq i j then p else f j

module _ {S : Type 0} (nodes : Nodes S) (term_of : String → ℕ) (begin : ℕ) where
  -- One access of one claim, whose clock reads a time of the burst of two seconds; a registration
  -- by a node that does not claim; a heartbeat by a node whose claim has succeeded.
  pub data Step (s : System S) : System S → Type 0 where
    access :
        (i : String) (now : ℕ)
        → begin ≤ now
        → now ≤ begin + 2_000
        → Step s (record {
          db = (advance nodes i (term_of i) now (s.stage i) s.db).1;
          stage = assign s.stage i (advance nodes i (term_of i) now (s.stage i) s.db).0;
        })
    registration :
        (node : NodeInfo) (now : ℕ)
        → s.stage node.id ≡ waiting
        → Step s (record s { db = (register_node nodes now node s.db).0 })
    heartbeat :
        (node : NodeInfo) (now : ℕ)
        → s.stage node.id ≡ claimed
        → node.is_leader ≡ true
        → begin ≤ now
        → Step s (record s { db = (register_node nodes now node s.db).0 })

  -- From any database, before any claim has made its first access.
  pub data Reach : System S → Type 0 where
    start : (db : S) → Reach (record { db = db; stage = λ _. waiting })
    later : {s t : System S} → Reach s → Step s t → Reach t
