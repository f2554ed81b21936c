-- ===== src/Examples/Refining.antt =====
-- Three pushes and three pops against the abstract queue.
use distributed_job_processo.Base.{refl, List, [], ◌∷◌}
use distributed_job_processo.Queue.Refinement.{
  Abstract, Operation, push_op, pop_op, Steps, Represents,
}
use distributed_job_processo.Queue.Refinement.Simulation.{perform_all, perform_all-Steps}
use distributed_job_processo.Examples.Stores.{
  plain_codec, plain_codec-ReadsBack, list_redis, list_redis-Effects, list_redis-Answers,
}
use distributed_job_processo.Examples.Queueing.{job, empty}

abbrev late : Operation
late = push_op 0 (record (job 3) { scheduled_at = 4_000_000_000 })

abbrev operations : List Operation
operations =
    push_op 5 (job 1) ∷ late ∷ pop_op 6 ∷ pop_op 7 ∷ push_op 8 (job 2) ∷ pop_op 9_000_000_000 ∷ []

abbrev nothing_queued : Abstract
nothing_queued = record { ready = []; delayed = [] }

perform_all-Steps_example :
    let (xs, s) = perform_all plain_codec list_redis operations empty in
    (b : Abstract) × Steps operations xs nothing_queued b × Represents plain_codec list_redis b s
perform_all-Steps_example =
    perform_all-Steps plain_codec list_redis plain_codec-ReadsBack list_redis-Effects
      list_redis-Answers operations nothing_queued empty
      ((_, refl), ((_, refl), (tt, (tt, ((_, refl), (tt, tt)))))) (refl, tt, tt)
