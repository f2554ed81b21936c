-- ===== src/Examples/Queueing.antt =====
-- The queue and the pool on small jobs.
use distributed_job_processo.Base.{
  ℕ, String, ◌≡◌, refl, ◌≢◌, inl, false, none, List, [], ◌∷◌, map, arith, str_eq, eq_iff, Member,
}
use distributed_job_processo.Job.{Job, get}
use distributed_job_processo.Queue.Server.{Contents}
use distributed_job_processo.Queue.Defs.{got, pop}
use distributed_job_processo.Queue.Order.{pop_each-push_each, pop_each, push_each}
use distributed_job_processo.Worker.Pool.{Worker, World, Processor, process_job}
use distributed_job_processo.Worker.Processing.{process_job-Listed}
use distributed_job_processo.Storage.Jobs.{Collection}
use distributed_job_processo.Examples.Stores.{
  plain_codec, plain_codec-ReadsBack, list_redis, list_redis-Effects, list_redis-Answers,
}

abbrev pub job : ℕ → Job
job id = record {
  id = id;
  type = "email";
  payload = "{}";
  status = "pending";
  priority = 5;
  created_at = 1;
  updated_at = 1;
  scheduled_at = 1;
  started_at = none;
  completed_at = none;
  retry_count = 0;
  max_retries = 3;
  worker_id = "";
  error = "";
}

abbrev pub empty : Contents Job
empty = record { queue = []; processing = []; completed = []; failed = []; delayed = [] }

abbrev three_jobs : List Job
three_jobs = job 1 ∷ job 2 ∷ job 3 ∷ []

abbrev pub worker : Worker
worker = record { id = "w"; node_id = "n"; is_active = false; job_count = 0 }

abbrev pub sender : Processor
sender j = (j, none)

abbrev pub no_jobs : Collection (Unit {0})
no_jobs = record {
  insert_one = λ j m. none;
  update_one = λ id j m. none;
  find_one = λ id m. none;
  delete_one = λ id m. none;
}

abbrev queued : World (Contents Job) (Unit {0})
queued = record { redis = record empty { queue = job 1 ∷ [] }; mongo = tt }

abbrev taken : World (Contents Job) (Unit {0})
taken = record { redis = record empty { processing = job 1 ∷ [] }; mongo = tt }

abbrev delayed : Contents Job
delayed = record empty { delayed = (job 1, 3) ∷ (job 2, 8) ∷ [] }

abbrev moved : Contents Job
moved = record empty { queue = job 1 ∷ []; delayed = (job 2, 8) ∷ [] }

texts_differ : (s t : String) → str_eq s t ≡ false → s ≢ t
texts_differ s t h e = ground (arith, (eq_iff s t).1 e)

pop_each-push_each_example :
    pop_each plain_codec list_redis 9 3 (push_each plain_codec list_redis 7 three_jobs empty)
    ≡ map got three_jobs
pop_each-push_each_example =
    pop_each-push_each plain_codec list_redis plain_codec-ReadsBack list_redis-Effects
      list_redis-Answers 7 9 three_jobs empty ((job 1, refl), ((job 2, refl), ((job 3, refl), tt)))
      (omega arith, (omega arith, (omega arith, tt))) refl refl

process_job-Listed_example :
    Member
      (job 1)
      (process_job plain_codec list_redis no_jobs
        (λ n. n)
        (λ n. n)
        (("email", sender) ∷ [])
        worker
        queued).1.redis.processing
unfolding get pop
process_job-Listed_example =
    process_job-Listed plain_codec list_redis no_jobs (λ n. n) (λ n. n) plain_codec-ReadsBack
      list_redis-Effects (job 1) (job 1) refl (("email", sender) ∷ []) worker queued taken.redis
      (λ e. texts_differ "pending" "completed" refl e, λ e. texts_differ "pending" "failed" refl e)
      (omega arith) (λ k. refl) refl (inl refl)
