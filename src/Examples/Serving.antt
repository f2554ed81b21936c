-- ===== src/Examples/Serving.antt =====
-- A job through the API: requests, a worker, and an administrator.
use distributed_job_processo.Base.{ℕ, String, ◌≡◌, refl, sym, ◌⊎◌, Option, some, [], ◌∷◌, arith}
use distributed_job_processo.Job.{Job, get, status_completed}
use distributed_job_processo.Queue.Server.{Contents, Redis, Effects, lost, push_left}
use distributed_job_processo.Queue.Defs.{got, pop, push}
use distributed_job_processo.Storage.Jobs.{with_defaults}
use distributed_job_processo.Storage.Documents.{stored}
use distributed_job_processo.Worker.Pool.{World, process_job}
use distributed_job_processo.Server.Jobs.{
  Response, failed, answered, handle_create_job, handle_get_job, handle_delete_job,
}
use distributed_job_processo.Server.Lifecycle.{accepted, handle_get_job-create}
use distributed_job_processo.Server.Refusing.{Queued, handle_create_job-Queued}
use distributed_job_processo.Server.Deletion.{pop-handle_delete_job}
use distributed_job_processo.Server.Completion.{handle_get_job-process_job}
use distributed_job_processo.Examples.Stores.{
  plain_codec, plain_codec-ReadsBack, list_redis, list_redis-Effects, list_redis-Answers,
}
use distributed_job_processo.Examples.Queueing.{job, empty, worker, sender}
use distributed_job_processo.Examples.Collections.{
  Documents, list_jobs, list_jobs-Documented, list_jobs-Responds, no_documents,
}

abbrev pub idle : World (Contents Job) Documents
idle = record { redis = empty; mongo = no_documents }

abbrev pub kept : Job
kept = accepted 3 7 2_000_000 (job 0)

abbrev pub seven : String → Option ℕ
seven s = some 7

abbrev pub created : Response Job × World (Contents Job) Documents
created =
    handle_create_job plain_codec list_redis list_jobs 3 7 2_000_000 2_000_000 (some (job 0)) idle

handle_get_job-create_example :
    (created.0 ≡ answered 201 kept)
    × (handle_get_job list_jobs seven "7" created.1 ≡ answered 200 (stored kept))
unfolding list_jobs-Documented with_defaults push
handle_get_job-create_example =
    handle_get_job-create plain_codec list_redis list_jobs list_jobs-Documented list_jobs-Responds
      seven 3 7 2_000_000 2_000_000 (job 0) idle "7" refl refl

-- A Redis whose replies to LPUSH are lost.
abbrev lossy_redis : Redis (Contents Job) Job
lossy_redis = record list_redis { lpush = λ k d c. lost (push_left k d c) }

lossy_redis-Effects : Effects lossy_redis
lossy_redis-Effects = record {
  lpush_effect = λ k d s s' e. sym e;
  lrem_effect = list_redis-Effects.lrem_effect;
  brpop_effect = list_redis-Effects.brpop_effect;
  zadd_effect = list_redis-Effects.zadd_effect;
  zrange_effect = list_redis-Effects.zrange_effect;
  exec_effect = list_redis-Effects.exec_effect;
  same_iff = list_redis-Effects.same_iff;
}

abbrev unanswered : Response Job × World (Contents Job) Documents
unanswered =
    handle_create_job plain_codec lossy_redis list_jobs 3 7 2_000_000 2_000_000 (some (job 0)) idle

handle_create_job-Queued_example :
    (unanswered.1.mongo.items ≡ stored kept ∷ [])
    × (((unanswered.0 ≡ answered 201 kept)
          × Queued plain_codec lossy_redis 2_000_000 kept empty unanswered.1.redis)
        ⊎ ((unanswered.0 ≡ failed 500)
            × ((unanswered.1.redis ≡ empty)
                ⊎ Queued plain_codec lossy_redis 2_000_000 kept empty unanswered.1.redis)))
unfolding list_jobs-Documented with_defaults
handle_create_job-Queued_example =
    handle_create_job-Queued plain_codec lossy_redis lossy_redis-Effects list_jobs
      list_jobs-Documented list_jobs-Responds 3 7 2_000_000 2_000_000 (job 0) idle refl

abbrev removed : Response (Unit {0}) × World (Contents Job) Documents
removed = handle_delete_job list_jobs seven "7" created.1

pop-handle_delete_job_example :
    (removed.0 ≡ answered 200 tt)
    × (handle_get_job list_jobs seven "7" removed.1 ≡ failed 404)
    × ((pop plain_codec list_redis 5_000_000 removed.1.redis).0 ≡ got kept)
unfolding list_jobs-Documented with_defaults
pop-handle_delete_job_example =
    pop-handle_delete_job plain_codec list_redis list_jobs list_jobs-Documented list_jobs-Responds
      seven plain_codec-ReadsBack list_redis-Effects list_redis-Answers 3 7 2_000_000 2_000_000
      5_000_000 (job 0) idle kept "7" refl refl refl (omega arith) (refl, refl)

handle_get_job-process_job_example :
    (result : Job) × (handle_get_job list_jobs seven "7"
        (process_job plain_codec list_redis list_jobs
          (λ n. n)
          (λ n. 9_000_000)
          (("email", sender) ∷ [])
          worker
          created.1).1
      ≡ answered 200 result)
    × (result.status ≡ status_completed)
unfolding get list_jobs-Documented with_defaults
handle_get_job-process_job_example =
    handle_get_job-process_job plain_codec list_redis list_jobs list_jobs-Documented
      list_jobs-Responds (λ n. n) (λ n. 9_000_000) seven plain_codec-ReadsBack list_redis-Effects
      list_redis-Answers 3 7 2_000_000 2_000_000 (job 0) idle kept "7" (("email", sender) ∷ [])
      worker sender refl refl refl (omega arith) (refl, refl) refl (λ k h l. (refl, refl))
