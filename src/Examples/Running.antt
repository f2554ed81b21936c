-- ===== src/Examples/Running.antt =====
-- A gossip node that has started and has had an answer.
use distributed_job_processo.Base.{◌≡◌, false, [], ◌==◌}
use distributed_job_processo.Election.Gossip.Table.{Gossip}
use distributed_job_processo.Election.Gossip.Running.{
  new_gossip, start, simulate_gossip_response, maintain, started, stepped, answers,
}
use distributed_job_processo.Election.Gossip.Running.Leaderless.{
  LeadsOnlyBlocked, Reachable-LeadsOnlyBlocked,
}

abbrev fresh : Gossip
fresh = start 5 7 1_000 (new_gossip "a" 5_000)

-- After the answer, its only member is the node itself, and a tick makes it the leader.
Reachable-LeadsOnlyBlocked_example :
    ((simulate_gossip_response (λ n. n == 0) fresh).is_leader ≡ false)
    × LeadsOnlyBlocked (
        maintain
          (λ n. [])
          (λ n. [])
          2_000
          (λ n. 2_000)
          (simulate_gossip_response (λ n. n == 0) fresh))
Reachable-LeadsOnlyBlocked_example =
    Reachable-LeadsOnlyBlocked "a" 5_000 (simulate_gossip_response (λ n. n == 0) fresh)
      (stepped fresh _ (started 5 7 1_000) (answers (λ n. n == 0) fresh)) (λ n. []) (λ n. []) 2_000
      (λ n. 2_000)
