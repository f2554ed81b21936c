-- ===== src/Examples/Claiming.antt =====
-- Claims on a collection that is a list.
use distributed_job_processo.Base.{
  ℕ, ◌≤◌, String, ◌≡◌, refl, inl, true, List, [], ◌∷◌, arith, eq_iff,
}
use distributed_job_processo.Storage.Nodes.{NodeInfo}
use distributed_job_processo.Storage.Claim.{waiting, claimed, advance, claim_from}
use distributed_job_processo.Storage.Claim.Exclusion.Steps.{
  System, assign, Reach, access, start, later,
}
use distributed_job_processo.Storage.Claim.Exclusion.{claim_exclusive}
use distributed_job_processo.Storage.Claim.Window.{two_leaders, MarkedLeader}
use distributed_job_processo.Storage.Claim.Ending.{claim_ends, is_final}
use distributed_job_processo.Examples.Stores.{list_nodes, list_nodes-Effects, list_nodes-Answers}

abbrev terms : String → ℕ
terms id = 1

-- One access of the claim of a node.
after : (id : String) (now : ℕ) → System (List NodeInfo) → System (List NodeInfo)
unfolding advance
after id now s = record {
  db = (advance list_nodes id 1 now (s.stage id) s.db).1;
  stage = assign s.stage id (advance list_nodes id 1 now (s.stage id) s.db).0;
}

abbrev begun : System (List NodeInfo)
begun = record { db = []; stage = λ _. waiting }

-- Node a claims while node b is refused.
abbrev played : System (List NodeInfo)
played = after "a" 20_003 (
    after "b" 20_002
      (after "a" 20_002 (after "a" 20_001 (after "b" 20_001 (after "a" 20_000 begun)))))

after-Reach :
    (id : String) (now : ℕ) (s : System (List NodeInfo))
    → 20_000 ≤ now
    → now ≤ 22_000
    → Reach list_nodes terms 20_000 s
    → Reach list_nodes terms 20_000 (after id now s)
unfolding after
after-Reach id now s g h r = later r (access id now g h)

played-Reach : Reach list_nodes terms 20_000 played
played-Reach = after-Reach "a" 20_003 _ (omega arith) (omega arith) (
    after-Reach "b" 20_002 _ (omega arith) (omega arith) (
      after-Reach "a" 20_002 _ (omega arith) (omega arith) (
        after-Reach "a" 20_001 _ (omega arith) (omega arith) (
          after-Reach "b" 20_001 _ (omega arith) (omega arith)
            (after-Reach "a" 20_000 begun (omega arith) (omega arith) (start []))))))

claim_exclusive_example : ◌≡◌ {A = String} "a" "a"
unfolding after advance
claim_exclusive_example =
    claim_exclusive list_nodes terms 20_000 list_nodes-Effects played-Reach "a" "a" refl refl

claim_ends_example :
    is_final (claim_from list_nodes "a" 1 (1 ∷ 2 ∷ 3 ∷ 4 ∷ 5 ∷ 6 ∷ 7 ∷ []) (waiting, [])).0 ≡ true
claim_ends_example = claim_ends list_nodes "a" 1 (1 ∷ 2 ∷ 3 ∷ 4 ∷ 5 ∷ 6 ∷ 7 ∷ []) [] (omega arith)

abbrev old_leader : NodeInfo
old_leader = record {
  id = "a";
  address = "localhost:8080";
  is_leader = true;
  last_seen = 15_000;
  worker_count = 10;
  version = "1.0.0";
  term = 1;
}

two_leaders_example :
    (s' : List NodeInfo) × (claim_from list_nodes "b" 2
        (20_000 ∷ 20_000 ∷ 20_000 ∷ 20_000 ∷ [])
        (waiting, old_leader ∷ [])
      ≡ (claimed, s'))
    × MarkedLeader "a" s'
    × MarkedLeader "b" s'
two_leaders_example =
    two_leaders list_nodes list_nodes-Effects list_nodes-Answers "b" 2 20_000 "a" (old_leader ∷ [])
      (λ e. ground (arith, (eq_iff "b" "a").1 e)) (λ l. omega arith, tt)
      (inl (refl, refl, omega arith))
