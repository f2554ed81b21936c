-- ===== src/Server/Stopping.antt =====
-- A worker that runs a job when the pool is stopped: `Stop` of internal/worker/pool.go cancels
-- the context that all its calls of Redis and MongoDB use, and waits for the workers.
use distributed_job_processo.Base.{
  ℕ, ◌≤◌, String, ◌≡◌, refl, sym, ap, ◌∙◌, subst, inl, inr, false, Option, none, some, List, [],
  Bool-cases,
}
use distributed_job_processo.Job.{Job, status_running}
use distributed_job_processo.Job
use distributed_job_processo.Queue.Server.{
  refused, Codec, ReadsBack, Redis, Effects, Answers, ListKey, processing_queue,
}
use distributed_job_processo.Queue.Defs.{
  pop, got, no_job, pop_error, Popped, on_data, finish, complete, fail, retry,
  remove_from_processing,
}
use distributed_job_processo.Queue.Order.{Ready}
use distributed_job_processo.Storage.Jobs.{Collection, update_job}
use distributed_job_processo.Storage.Documents.{Documented, Responds, stored, set_fields, find_id}
use distributed_job_processo.Worker.Pool.{
  World, Worker, Processor, mark_running, run_processor, processed, handle_job_success,
  handle_job_error, handle_job_failure, schedule_retry, may_retry, count_failure,
}
use distributed_job_processo.Server.Jobs.{answered, handle_create_job, handle_get_job}
use distributed_job_processo.Server.Lifecycle.{accepted, Fresh, get-found}
use distributed_job_processo.Server.Completion.{created_taken, updated-found, Ended}

-- The clients with a context that is cancelled: each call reports an error and sends nothing, as
-- documented.
pub record Cancelled {S D M : Type 0} (redis : Redis S D) (jobs : Collection M) : Type 0 where
  pub no_lrem : (k : ListKey) (d : D) (s : S) → redis.lrem k d s ≡ refused
  pub no_update : (id : ℕ) (j : Job) (m : M) → jobs.update_one id j m ≡ none

-- `stopped_redis` and `stopped_jobs` are the clients from the moment on at which the pool's
-- context is cancelled.
module _ {S D M : Type 0} (codec : Codec D) (redis stopped_redis : Redis S D)
    (jobs stopped_jobs : Collection M) (next_delay clock : ℕ → ℕ) where
  -- `processJob` after `Pop`, when the pool is stopped while `Process` runs, or right before it.
  unfoldable pub settle_stopped : List (String × Processor) → String → Job → World S M → World S M
  unfolding mark_running
  settle_stopped registry worker j w =
      let (f, mongo, _) = update_job jobs (clock 2) (mark_running worker (clock 1) j) w.mongo in
      run_processor codec stopped_redis stopped_jobs next_delay clock (Job.get registry f.type) f
        (record w { mongo = mongo })

  abbrev pub popped_stopped :
      List (String × Processor) → Worker → Popped × S → World S M → World S M
  popped_stopped registry worker (no_job, s) w = record w { redis = s }
  popped_stopped registry worker (pop_error, s) w = record w { redis = s }
  popped_stopped registry worker (got j, s) w =
      settle_stopped registry worker.id j (record w { redis = s })

  -- The last call of `processJob` of a worker.
  unfoldable pub process_stopped : List (String × Processor) → Worker → World S M → World S M
  unfolding settle_stopped
  process_stopped registry worker w =
      popped_stopped registry worker (pop codec redis (clock 0) w.redis) w

  module _ (cancelled : Cancelled stopped_redis stopped_jobs) where
    cancelled_remove :
        (j : Job) (s : S) → remove_from_processing codec stopped_redis j s ≡ (s, false)
    unfolding remove_from_processing
    cancelled_remove j s = by_data (codec.marshal j)
      where
        by_data :
            (o : Option D)
            → on_data o s (λ d. finish s (stopped_redis.lrem processing_queue d s)) ≡ (s, false)
        by_data none = refl
        by_data (some d) = ap (finish s) (cancelled.no_lrem processing_queue d s)

    cancelled_update :
        (now : ℕ) (j : Job) (m : M)
        → update_job stopped_jobs now j m ≡ (record j { updated_at = now }, m, false)
    unfolding update_job
    cancelled_update now j m = rw (cancelled.no_update j.id (record j { updated_at = now }) m) refl

    cancelled_success :
        (j : Job) (w : World S M)
        → handle_job_success codec stopped_redis stopped_jobs next_delay clock j w ≡ w
    unfolding handle_job_success complete
    cancelled_success j w = rw (cancelled_update, cancelled_remove) refl

    cancelled_failure :
        (j : Job) (message : String) (w : World S M)
        → handle_job_failure codec stopped_redis stopped_jobs next_delay clock j message w ≡ w
    unfolding handle_job_failure fail
    cancelled_failure j message w = rw (cancelled_update, cancelled_remove) refl

    cancelled_retry :
        (j : Job) (w : World S M)
        → schedule_retry codec stopped_redis stopped_jobs next_delay clock j w ≡ w
    unfolding retry
    cancelled_retry j w = rw (cancelled_update, cancelled_remove) refl

    cancelled_error :
        (j : Job) (message : String) (w : World S M)
        → handle_job_error codec stopped_redis stopped_jobs next_delay clock j message w ≡ w
    unfolding handle_job_error
    cancelled_error j message w =
        let counted = count_failure (clock 3) message j in
        elim (Bool-cases (may_retry counted)) [
          | inl e ↦ rw e (cancelled_retry counted w)
          | inr e ↦ rw e (cancelled_failure counted message w)
        ]

    -- Whatever the processor did, the world stays as it is.
    pub cancelled_run :
        (o : Option Processor) (j : Job) (w : World S M)
        → run_processor codec stopped_redis stopped_jobs next_delay clock o j w ≡ w
    cancelled_run none j w = cancelled_failure j _ w
    cancelled_run (some p) j w = by_outcome (p j)
      where
        by_outcome :
            (r : Job × Option String)
            → processed codec stopped_redis stopped_jobs next_delay clock r w ≡ w
        by_outcome (k, none) = cancelled_success k w
        by_outcome (k, some message) = cancelled_error k message w

module _ {S D M : Type 0} (codec : Codec D) (redis stopped_redis : Redis S D)
    (jobs stopped_jobs : Collection M) (cancelled : Cancelled stopped_redis stopped_jobs)
    (effects : Documented jobs) (responds : Responds jobs effects.documents)
    (next_delay clock : ℕ → ℕ) (from_hex : String → Option ℕ) (laws : ReadsBack codec)
    (commands : Effects redis) (answers : Answers redis) where
  settle_stopped-Ended :
      (registry : List (String × Processor)) (worker : String) (j old : Job) (w : World S M)
      → find_id j.id (effects.documents w.mongo) ≡ some old
      → let w' =
          settle_stopped codec redis stopped_redis jobs stopped_jobs next_delay clock registry
            worker j w in
        (w'.redis ≡ w.redis)
        × Ended codec redis jobs effects responds next_delay clock status_running j.id w'.mongo
  unfolding settle_stopped mark_running set_fields update_job
  settle_stopped-Ended registry worker j old w h =
      let running = mark_running worker (clock 1) j in
      let stays =
        cancelled_run codec redis stopped_redis jobs stopped_jobs next_delay clock cancelled
          (Job.get registry j.type) (update_job jobs (clock 2) running w.mongo).0
          (record w { mongo = (update_job jobs (clock 2) running w.mongo).1 }) in
      (
        ap (λ (v : World S M). v.redis) stays,
        subst
            (λ (v : World S M).
              Ended codec redis jobs effects responds next_delay clock status_running j.id v.mongo)
            (sym stays)
            (
              _,
              updated-found codec redis jobs effects responds next_delay clock (clock 2) running old
                  w.mongo h,
              refl,
            ),
      )

  -- A job that a worker runs when the pool is stopped is stranded: on servers that answer, if it
  -- was created with a new id when it is due, on an empty queue with nothing due, and the next
  -- worker has taken it, then whatever its processor does, `getJob` shows it as running, and
  -- nothing is ready on the queue that would run it again.
  pub process_stopped-running :
      (max_retries new_id now later : ℕ) (j : Job) (w : World S M) (d : D) (id : String)
      (registry : List (String × Processor)) (worker : Worker)
      → Fresh effects max_retries new_id now j w
      → let i = accepted max_retries new_id now j in
        from_hex id ≡ some i.id
        → codec.marshal i ≡ some d
        → i.scheduled_at ≤ later
        → Ready codec redis (clock 0) [] w.redis
        → let created =
            handle_create_job codec redis jobs max_retries new_id now later (some j) w in
          let w' =
            process_stopped codec redis stopped_redis jobs stopped_jobs next_delay clock registry
              worker created.1 in
          (result : Job) × (handle_get_job jobs from_hex id w' ≡ answered 200 result)
          × (result.status ≡ status_running)
          × Ready codec redis (clock 0) [] w'.redis
  unfolding process_stopped
  process_stopped-running max_retries new_id now later j w d id registry worker fresh hex marshalled
        due empty =
      let i = accepted max_retries new_id now j in
      let w₁ = (handle_create_job codec redis jobs max_retries new_id now later (some j) w).1 in
      let (s, popped, ready, found_there) =
        created_taken codec redis jobs effects responds next_delay clock from_hex laws commands
          answers max_retries new_id now later j w d fresh marshalled due empty in
      let (kept, (result, found, running)) =
        settle_stopped-Ended registry worker.id i (stored i) (record w₁ { redis = s })
          found_there in
      let last = λ (r : Popped × S).
        popped_stopped codec redis stopped_redis jobs stopped_jobs next_delay clock registry worker
          r w₁ in
      (
        result,
        ap (λ r. handle_get_job jobs from_hex id (last r)) popped
            ∙ get-found codec redis jobs effects responds from_hex id i.id result _ hex found,
        running,
        subst (λ r. Ready codec redis (clock 0) [] (last r).redis) (sym popped)
            (subst (Ready codec redis (clock 0) []) (sym kept) ready),
      )
