-- ===== src/Worker/Pool.antt =====
-- The worker pool of internal/worker/pool.go. Processors come from the caller and may change the
-- job that they are given. Readings of `time.Now()` in a call are the values of a clock.
use distributed_job_processo.Base.{
  ℕ, zero, suc, String, Bool, false, not, ◌&&◌, ◌||◌, Option, none, some, List, [], ◌∷◌, map, ◌==◌,
  if◌then◌else◌, minus_one, slt, inc,
}
use Prim.Native.String.{◌++◌ as str_append}
use distributed_job_processo.Job.{
  Job, status_running, status_completed, status_failed, status_retrying,
}
use distributed_job_processo.Job
use distributed_job_processo.Queue.Server.{Codec, Redis}
use distributed_job_processo.Queue.Defs.{Popped, no_job, pop_error, got, pop, complete, fail, retry}
use distributed_job_processo.Storage.Jobs.{Collection, update_job}
use distributed_job_processo.LoadBalancer.{WorkerStats}

pub record Worker : Type 0 where
  pub id : String
  pub node_id : String
  pub is_active : Bool
  pub job_count : ℕ

-- `Process`: the job afterwards, and the text of the error if there is one.
abbrev pub Processor : Type 0
Processor = Job → Job × Option String

-- Redis and MongoDB.
pub record World (S M : Type 0) : Type 0 where
  pub redis : S
  pub mongo : M

-- The job while a worker has it, and after it failed `RetryCount` times more.
unfoldable pub mark_running : String → (now : ℕ) → Job → Job
mark_running worker now j = record j {
  worker_id = worker;
  status = status_running;
  started_at = some now;
  updated_at = now;
}

unfoldable pub mark_completed : (now : ℕ) → Job → Job
mark_completed now j = record j {
  status = status_completed;
  completed_at = some now;
  updated_at = now;
}

unfoldable pub mark_failed : (now : ℕ) → String → Job → Job
mark_failed now message j = record j { status = status_failed; error = message; updated_at = now }

-- `handleJobError` up to its test.
unfoldable pub count_failure : (now : ℕ) → String → Job → Job
count_failure now message j = record j {
  error = message;
  retry_count = inc j.retry_count;
  updated_at = now;
}

abbrev pub may_retry : Job → Bool
may_retry j = slt j.retry_count j.max_retries

module _ {S D M : Type 0} (codec : Codec D) (redis : Redis S D) (jobs : Collection M)
    (next_delay : ℕ → ℕ) (clock : ℕ → ℕ) where
  -- Errors of `UpdateJob` and of the queue are only logged.
  unfoldable pub handle_job_success : Job → World S M → World S M
  unfolding mark_completed
  handle_job_success j w =
      let (f, mongo, _) = update_job jobs (clock 4) (mark_completed (clock 3) j) w.mongo in
      record { redis = (complete codec redis f w.redis).0; mongo = mongo }

  unfoldable pub handle_job_failure : Job → String → World S M → World S M
  unfolding mark_failed
  handle_job_failure j message w =
      let (f, mongo, _) = update_job jobs (clock 5) (mark_failed (clock 4) message j) w.mongo in
      record { redis = (fail codec redis f w.redis).0; mongo = mongo }

  abbrev pub schedule_retry : Job → World S M → World S M
  schedule_retry j w =
      let (f, mongo, _) =
        update_job jobs (clock 4) (record j { status = status_retrying }) w.mongo in
      record {
        redis = (retry codec redis (clock 5) (clock 6) f (next_delay j.retry_count) w.redis).0;
        mongo = mongo;
      }

  unfoldable pub handle_job_error : Job → String → World S M → World S M
  unfolding count_failure handle_job_failure
  handle_job_error j message w =
      let counted = count_failure (clock 3) message j in
      if may_retry counted then schedule_retry counted w else handle_job_failure counted message w

  abbrev pub processed : Job × Option String → World S M → World S M
  processed (j, none) w = handle_job_success j w
  processed (j, some message) w = handle_job_error j message w

  abbrev pub run_processor : Option Processor → Job → World S M → World S M
  run_processor none j w =
      handle_job_failure j (str_append "No processor found for job type: " j.type) w
  run_processor (some p) j w = processed (p j) w

  -- What `processJob` does with a job that it has popped.
  unfoldable pub settle : List (String × Processor) → String → Job → World S M → World S M
  unfolding mark_running handle_job_success handle_job_error
  settle registry worker j w =
      let (f, mongo, _) = update_job jobs (clock 2) (mark_running worker (clock 1) j) w.mongo in
      run_processor (Job.get registry f.type) f (record w { mongo = mongo })

  abbrev pub popped_job :
      List (String × Processor) → Worker → Popped × S → World S M → Worker × World S M
  popped_job registry worker (no_job, s) w = (worker, record w { redis = s })
  popped_job registry worker (pop_error, s) w = (worker, record w { redis = s })
  popped_job registry worker (got j, s) w = (
    record worker { is_active = false; job_count = inc worker.job_count },
    settle registry worker.id j (record w { redis = s }),
  )

  -- The worker after the call; during it `isActive` is true.
  unfoldable pub process_job : List (String × Processor) → Worker → World S M → Worker × World S M
  unfolding settle
  process_job registry worker w = popped_job registry worker (pop codec redis (clock 0) w.redis) w

-- `runWorker`: the rounds of its loop until the context is done, each with its readings of the
-- clock.
module _ {S D M : Type 0} (codec : Codec D) (redis : Redis S D) (jobs : Collection M)
    (next_delay : ℕ → ℕ) (clock : (round : ℕ) → ℕ → ℕ) (registry : List (String × Processor)) where
  unfoldable pub run_worker : (rounds : ℕ) → Worker → World S M → Worker × World S M
  unfolding process_job
  run_worker zero worker w = (worker, w)
  run_worker (suc n) worker w =
      let (worker', w') = process_job codec redis jobs next_delay (clock n) registry worker w in
      run_worker n worker' w'

abbrev pub stats_of : Worker → WorkerStats
stats_of w = record {
  id = w.id;
  node_id = w.node_id;
  is_active = w.is_active;
  job_count = w.job_count;
}

unfoldable pub get_worker_stats : List Worker → List WorkerStats
get_worker_stats = map stats_of

-- The locals of the loop of `GetLeastLoadedWorker`.
abbrev pub least_step : Worker → Option Worker × ℕ → Option Worker × ℕ
least_step w (best, min_jobs) =
    if not w.is_active && (min_jobs == minus_one || slt w.job_count min_jobs)
    then (some w, w.job_count)
    else (best, min_jobs)

unfoldable pub least_loop : List Worker → Option Worker × ℕ → Option Worker × ℕ
least_loop [] s = s
least_loop (w ∷ ws) s = least_loop ws (least_step w s)

unfoldable pub get_least_loaded_worker : List Worker → Option Worker
unfolding least_loop
get_least_loaded_worker workers = (least_loop workers (none, minus_one)).0
