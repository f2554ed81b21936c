-- ===== src/Examples/Balancing.antt =====
-- The strategies on three workers, of which one is busy.
use distributed_job_processo.Base.{
  ℕ, ◌-◌, ◌<◌, String, ◌≡◌, Bool, true, false, Option, none, List, [], ◌∷◌, arith, get_elem?,
}
use distributed_job_processo.Job.{Job}
use distributed_job_processo.LoadBalancer.{
  WorkerStats, of_option, idle, or_panic, priority_select, round_robin, select_worker,
}
use distributed_job_processo.LoadBalancer.Selection.{ByPriority, priority_select-ByPriority}
use distributed_job_processo.LoadBalancer.Outcomes.{Promise, select_worker-Promise}
use distributed_job_processo.LoadBalancer.Rotation.{round_robin_fair, nth_pick}

abbrev worker : String → Bool → ℕ → WorkerStats
worker id busy count = record { id = id; node_id = "n"; is_active = busy; job_count = count }

abbrev workers : List WorkerStats
workers = worker "a" false 4 ∷ worker "b" true 0 ∷ worker "c" false 2 ∷ []

abbrev urgent : Job
urgent = record {
  id = 1;
  type = "email";
  payload = "{}";
  status = "pending";
  priority = 10;
  created_at = 1;
  updated_at = 1;
  scheduled_at = 1;
  started_at = none;
  completed_at = none;
  retry_count = 0;
  max_retries = 3;
  worker_id = "";
  error = "";
}

priority_select-ByPriority_example :
    (o : Option WorkerStats) × (priority_select workers urgent ≡ of_option o)
    × ByPriority 10 (idle workers) o
priority_select-ByPriority_example =
    priority_select-ByPriority workers urgent (omega arith, (omega arith, (omega arith, tt)))

select_worker-Promise_example :
    Promise workers (select_worker (λ n. n - 1) (round_robin 7) workers urgent).0
select_worker-Promise_example =
    select_worker-Promise (λ n. n - 1) (λ n h. omega arith) (round_robin 7) (omega arith) workers
      (omega arith, (omega arith, (omega arith, tt))) urgent

round_robin_fair_example :
    (i : ℕ) × (i < 2) × (nth_pick i 7 workers ≡ or_panic (get_elem? (idle workers) 1))
round_robin_fair_example = round_robin_fair workers 7 1 (omega arith) (omega arith)
