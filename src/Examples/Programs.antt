-- ===== src/Examples/Programs.antt =====
-- The service, the example program and its client on one job.
use distributed_job_processo.Base.{ℕ, ◌≡◌, refl, false, Option, none, some, [], ◌∷◌, arith}
use distributed_job_processo.Job.{Job, get, status_completed, status_failed, status_running}
use distributed_job_processo.Queue.Server.{Contents, Redis, failure, refused}
use distributed_job_processo.Queue.Order.{Ready}
use distributed_job_processo.Queue.Defs.{push}
use distributed_job_processo.Storage.Jobs.{Collection, with_defaults}
use distributed_job_processo.Storage.Documents.{stored}
use distributed_job_processo.Worker.Pool.{World, process_job}
use distributed_job_processo.Server.Jobs.{
  Response, failed, answered, handle_create_job, handle_get_job,
}
use distributed_job_processo.Server.Stopping.{Cancelled, process_stopped, process_stopped-running}
use distributed_job_processo.Programs.{
  service_registries, example_registries, process_email, Payloads,
}
use distributed_job_processo.Programs.Runs.{service_fails, example_completes}
use distributed_job_processo.Programs.Client.{Http, create_job, get_job}
use distributed_job_processo.Programs.Client.RoundTrip.{get_job-create_job}
use distributed_job_processo.Examples.Stores.{
  plain_codec, plain_codec-ReadsBack, list_redis, list_redis-Effects, list_redis-Answers,
}
use distributed_job_processo.Examples.Queueing.{job, worker, sender}
use distributed_job_processo.Examples.Collections.{
  Documents, list_jobs, list_jobs-Documented, list_jobs-Responds,
}
use distributed_job_processo.Examples.Serving.{idle, kept, seven, created}

service_fails_example :
    (result : Job) × (handle_get_job list_jobs seven "7"
        (process_job plain_codec list_redis list_jobs
          (λ n. n)
          (λ n. 9_000_000)
          service_registries.pool
          worker
          created.1).1
      ≡ answered 200 result)
    × (result.status ≡ status_failed)
unfolding list_jobs-Documented with_defaults
service_fails_example =
    service_fails plain_codec list_redis list_jobs list_jobs-Documented list_jobs-Responds (λ n. n)
      (λ n. 9_000_000) seven plain_codec-ReadsBack list_redis-Effects list_redis-Answers 3 7
      2_000_000 2_000_000 (job 0) idle kept "7" worker refl refl refl (omega arith) (refl, refl)

abbrev any_text : Payloads
any_text payload key = some "text"

example_completes_example :
    (result : Job) × (handle_get_job list_jobs seven "7"
        (process_job plain_codec list_redis list_jobs
          (λ n. n)
          (λ n. 9_000_000)
          (example_registries any_text).pool
          worker
          created.1).1
      ≡ answered 200 result)
    × (result.status ≡ status_completed)
unfolding list_jobs-Documented with_defaults example_registries get
example_completes_example =
    example_completes plain_codec list_redis list_jobs list_jobs-Documented list_jobs-Responds
      (λ n. n) (λ n. 9_000_000) seven plain_codec-ReadsBack list_redis-Effects list_redis-Answers
      any_text 3 7 2_000_000 2_000_000 (job 0) idle kept "7" worker (process_email any_text) refl
      refl refl (omega arith) (refl, refl) refl refl

-- The clients once the pool is stopped.
abbrev stopped_redis : Redis (Contents Job) Job
stopped_redis = record list_redis {
  lpush = λ k d s. refused;
  lrem = λ k d s. refused;
  brpop = λ s. failure;
  zadd = λ n d s. refused;
  zrange_by_score = λ n s. none;
  exec = λ cs s. (s, false);
}

abbrev stopped_jobs : Collection Documents
stopped_jobs = record {
  insert_one = λ j m. none;
  update_one = λ id j m. none;
  find_one = λ id m. none;
  delete_one = λ id m. none;
}

clients-Cancelled : Cancelled stopped_redis stopped_jobs
clients-Cancelled = record { no_lrem = λ k d s. refl; no_update = λ id j m. refl }

process_stopped-running_example :
    let w =
      process_stopped plain_codec list_redis stopped_redis list_jobs stopped_jobs
        (λ n. n)
        (λ n. 9_000_000)
        (("email", sender) ∷ [])
        worker
        created.1 in
    (result : Job) × (handle_get_job list_jobs seven "7" w ≡ answered 200 result)
    × (result.status ≡ status_running)
    × Ready plain_codec list_redis 9_000_000 [] w.redis
unfolding list_jobs-Documented with_defaults
process_stopped-running_example =
    process_stopped-running plain_codec list_redis stopped_redis list_jobs stopped_jobs
      clients-Cancelled list_jobs-Documented list_jobs-Responds (λ n. n) (λ n. 9_000_000) seven
      plain_codec-ReadsBack list_redis-Effects list_redis-Answers 3 7 2_000_000 2_000_000 (job 0)
      idle kept "7" (("email", sender) ∷ []) worker refl refl refl (omega arith) (refl, refl)

-- A transport with the server behind it.
abbrev written : Response Job → ℕ × Job
written (failed status) = (status, job 0)
written (answered status j) = (status, j)

abbrev direct : Http (World (Contents Job) Documents) Job
direct = record {
  post = λ url d w.
      let (r, w') =
        handle_create_job plain_codec list_redis list_jobs 3 7 2_000_000 2_000_000 (some d) w in
      (some (written r), w');
  fetch = λ url w. (some (written (handle_get_job list_jobs seven "7" w)), w);
}

abbrev no_stats : Job → Option ℕ
no_stats j = none

get_job-create_job_example :
    ((create_job direct plain_codec no_stats "/api" (job 0) idle).0 ≡ some kept)
    × ((get_job direct plain_codec no_stats "/api" "7"
          (create_job direct plain_codec no_stats "/api" (job 0) idle).1).0
        ≡ some (stored kept))
unfolding list_jobs-Documented with_defaults push handle_create_job handle_get_job create_job stored
get_job-create_job_example =
    get_job-create_job plain_codec list_redis list_jobs list_jobs-Documented list_jobs-Responds
      seven direct plain_codec plain_codec-ReadsBack no_stats "/api" (job 0) 3 7 2_000_000 2_000_000
      (job 0) (job 0) idle "7" (201, kept) (200, stored kept) refl refl refl (refl, (refl, refl))
      (refl, (refl, refl))
