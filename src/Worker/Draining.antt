-- ===== src/Worker/Draining.antt =====
-- The loop of a worker over a queue that nobody fills: `runWorker` of internal/worker/pool.go.
use distributed_job_processo.Base.{
  ℕ, ◌+◌, ◌^◌, ◌<◌, String, ◌≡◌, refl, sym, ap, ◌∙◌, subst, Bool, true, false, Option, none, some,
  List, [], ◌∷◌, arith, if◌then◌else◌, length, wrap, inc,
}
use distributed_job_processo.Job.{Job}
use distributed_job_processo.Job
use distributed_job_processo.Queue.Server.{
  Codec, ReadsBack, Redis, Effects, Answers, Contents, ListKey, completed_queue, failed_queue,
  processing_queue, due, push_left,
}
use distributed_job_processo.Queue.Order.{Loaded, move_delayed_jobs-idle, pop_reply-Loaded}
use distributed_job_processo.Queue.Defs.{
  pop, pop_reply, got, unix, finish, on_data, finish_cases, on_data_cases, remove_from_processing,
  leave_for, complete, fail,
}
use distributed_job_processo.Storage.Jobs.{Collection, update_job}
use distributed_job_processo.Worker.Pool.{
  Worker, World, Processor, processed, run_processor, popped_job, process_job, settle, run_worker,
  handle_job_success, handle_job_failure, mark_running,
}

module _ {S D M : Type 0} (codec : Codec D) (redis : Redis S D) (jobs : Collection M)
    (next_delay : ℕ → ℕ) (clock : (round : ℕ) → ℕ → ℕ) (registry : List (String × Processor))
    (laws : ReadsBack codec) (effects : Effects redis) (answers : Answers redis) where
  -- The queue and the sorted set are those of another state.
  abbrev SameQueue : S → S → Type 0
  SameQueue s t =
      ((redis.contents t).queue ≡ (redis.contents s).queue)
      × ((redis.contents t).delayed ≡ (redis.contents s).delayed)

  SameQueue-trans : (s t u : S) → SameQueue s t → SameQueue t u → SameQueue s u
  SameQueue-trans s t u (a, b) (c, d) = (c ∙ a, d ∙ b)

  remove-SameQueue : (j : Job) (s : S) → SameQueue s (remove_from_processing codec redis j s).0
  unfolding remove_from_processing
  remove-SameQueue j s =
      on_data_cases (SameQueue s) (codec.marshal j) s _ (refl, refl)
        λ d _.
          finish_cases (SameQueue s) s (redis.lrem processing_queue d s) (refl, refl)
            λ s' e.
              let effect = effects.lrem_effect processing_queue d s s' e in
              (ap (λ (c : Contents D). c.queue) effect, ap (λ (c : Contents D). c.delayed) effect)

  -- The lists that finished jobs go to
  abbrev IsEnd : ListKey → Type 0
  IsEnd k =
      (d : D) (c : Contents D)
      → ((push_left k d c).queue ≡ c.queue) × ((push_left k d c).delayed ≡ c.delayed)

  push-SameQueue :
      (k : ListKey) (j : Job) (s : S)
      → IsEnd k
      → SameQueue s (on_data (codec.marshal j) s (λ d. finish s (redis.lpush k d s))).0
  push-SameQueue k j s is_end =
      on_data_cases (SameQueue s) (codec.marshal j) s _ (refl, refl)
        λ d _.
          finish_cases (SameQueue s) s (redis.lpush k d s) (refl, refl)
            λ s' e.
              let effect = effects.lpush_effect k d s s' e in
              let (queue, delayed) = is_end d (redis.contents s) in
              (
                ap (λ (c : Contents D). c.queue) effect ∙ queue,
                ap (λ (c : Contents D). c.delayed) effect ∙ delayed,
              )

  leave_for-SameQueue :
      (k : ListKey) (j : Job) (s : S) → IsEnd k → SameQueue s (leave_for codec redis k j s).0
  leave_for-SameQueue k j s is_end =
      let t = (remove_from_processing codec redis j s).0 in
      by_removal (remove_from_processing codec redis j s).1 t (remove-SameQueue j s)
        (push-SameQueue k j t is_end)
    where
      by_removal :
          (b : Bool) (t : S)
          → SameQueue s t
          → SameQueue t (on_data (codec.marshal j) t (λ d. finish t (redis.lpush k d t))).0
          → SameQueue s
              (if b
                then on_data (codec.marshal j) t (λ d. finish t (redis.lpush k d t))
                else (t, false)).0
      by_removal true t a b = SameQueue-trans s t _ a b
      by_removal false t a b = a

  -- No processor reports an error.
  abbrev pub NeverFails : List (String × Processor) → Type 0
  NeverFails r =
      (kind : String) (p : Processor) → Job.get r kind ≡ some p → (k : Job) → (p k).1 ≡ none

  module _ (reads : ℕ → ℕ) where
    success-SameQueue :
        (j : Job) (w : World S M)
        → SameQueue w.redis (handle_job_success codec redis jobs next_delay reads j w).redis
    unfolding handle_job_success complete
    success-SameQueue j w = leave_for-SameQueue completed_queue _ w.redis (λ d c. (refl, refl))

    failure-SameQueue :
        (j : Job) (message : String) (w : World S M)
        → SameQueue w.redis (handle_job_failure codec redis jobs next_delay reads j message w).redis
    unfolding handle_job_failure fail
    failure-SameQueue j message w = leave_for-SameQueue failed_queue _ w.redis (λ d c. (refl, refl))

    processed-SameQueue :
        (r : Job × Option String) (w : World S M)
        → r.1 ≡ none
        → SameQueue w.redis (processed codec redis jobs next_delay reads r w).redis
    processed-SameQueue (k, none) w h = success-SameQueue k w
    processed-SameQueue (k, some message) w h = ground arith

    run-SameQueue :
        (o : Option Processor) (j : Job) (w : World S M)
        → ((p : Processor) → o ≡ some p → (k : Job) → (p k).1 ≡ none)
        → SameQueue w.redis (run_processor codec redis jobs next_delay reads o j w).redis
    run-SameQueue none j w h = failure-SameQueue j _ w
    run-SameQueue (some p) j w h = processed-SameQueue (p j) w (h p refl j)

    settle-SameQueue :
        (worker : String) (j : Job) (w : World S M)
        → NeverFails registry
        → SameQueue w.redis (settle codec redis jobs next_delay reads registry worker j w).redis
    unfolding settle mark_running update_job
    settle-SameQueue worker j w h = run-SameQueue (Job.get registry j.type) _ _ (h j.type)

  -- These jobs are queued, and none waits.
  abbrev pub Only : List Job → S → Type 0
  Only js s = Loaded codec redis js (redis.contents s).queue × ((redis.contents s).delayed ≡ [])

  process_job-Only :
      (round : ℕ) (worker : Worker) (j : Job) (js : List Job) (w : World S M)
      → NeverFails registry
      → Only (j ∷ js) w.redis
      → let (worker', w') =
          process_job codec redis jobs next_delay (clock round) registry worker w in
        (worker'.job_count ≡ inc worker.job_count) × (worker'.is_active ≡ false) × Only js w'.redis
  unfolding process_job pop
  process_job-Only round worker j js w h (loaded, none_waits) =
      let quiet : due (unix (clock round 0)) (redis.contents w.redis).delayed ≡ [] =
        ap (due (unix (clock round 0))) none_waits in
      let (s, popped, rest, delayed) =
        pop_reply-Loaded codec redis laws effects answers j js w.redis loaded in
      let reply : pop codec redis (clock round 0) w.redis ≡ (got j, s) =
        ap (λ m. pop_reply codec redis (redis.brpop m) m)
          (move_delayed_jobs-idle codec redis laws effects answers (clock round 0) w.redis quiet)
        ∙ popped in
      let (queue, waits) = settle-SameQueue (clock round) worker.id j (record w { redis = s }) h in
      subst
        (λ r.
          let (worker', w') =
            popped_job codec redis jobs next_delay (clock round) registry worker r w in
          (worker'.job_count ≡ inc worker.job_count)
          × (worker'.is_active ≡ false)
          × Only js w'.redis)
        (sym reply)
        (refl, refl, (subst (Loaded codec redis js) (sym queue) rest, waits ∙ delayed ∙ none_waits))

  -- A worker empties the queue: on a server that answers, when no job waits, no processor
  -- reports an error and nobody pushes, then after as many rounds as jobs are queued the queue
  -- and the sorted set are empty, and an idle worker with its count in range is idle again and
  -- has counted each job, as an int64.
  pub run_worker-Only :
      (js : List Job) (worker : Worker) (w : World S M)
      → NeverFails registry
      → worker.job_count < 2 ^ 64
      → worker.is_active ≡ false
      → Only js w.redis
      → let (worker', w') =
          run_worker codec redis jobs next_delay clock registry (length js) worker w in
        (worker'.job_count ≡ wrap (worker.job_count + length js))
        × (worker'.is_active ≡ false)
        × Only [] w'.redis
  unfolding run_worker
  run_worker-Only [] worker w h range idle only = (omega arith, idle, only)
  run_worker-Only (j ∷ js) worker w h range idle only =
      let (count, idle', rest) = process_job-Only (length js) worker j js w h only in
      let next = process_job codec redis jobs next_delay (clock (length js)) registry worker w in
      let (total, at_end, empty) =
        run_worker-Only js next.0 next.1 h (subst (λ n. n < 2 ^ 64) (sym count) (omega arith)) idle'
          rest in
      (total ∙ ap (λ n. wrap (n + length js)) count ∙ omega arith, at_end, empty)
