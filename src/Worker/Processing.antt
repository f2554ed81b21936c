-- ===== src/Worker/Processing.antt =====
-- The list jobs:processing: `Pop` writes the job as it was queued, and the pool removes the job
-- as it has become (internal/worker/pool.go, internal/queue/redis.go).
use distributed_job_processo.Base.{
  ℕ, ◌^◌, ◌<◌, String, ◌≡◌, refl, sym, ap, ◌∙◌, subst, ◌≢◌, inl, inr, Bool, true, false, Option,
  none, some, List, [], ◌∷◌, arith, ltb, if◌then◌else◌, Bool-cases, Member, inc,
}
use distributed_job_processo.Job.{Job, status_completed, status_failed}
use distributed_job_processo.Job
use distributed_job_processo.Base.{some-eq}
use distributed_job_processo.Queue.Server.{
  Codec, ReadsBack, Redis, Effects, Contents, ListKey, job_queue, processing_queue, completed_queue,
  failed_queue, push_left, remove_first,
}
use distributed_job_processo.Queue.Defs.{
  got, pop, finish, unix, finish_cases, on_data_cases, push, remove_from_processing, leave_for,
  complete, fail, retry,
}
use distributed_job_processo.Storage.Jobs.{Collection, update_job}
use distributed_job_processo.Worker.Pool.{
  Worker, Processor, World, mark_running, mark_completed, mark_failed, count_failure, may_retry,
  handle_job_success, handle_job_failure, handle_job_error, schedule_retry, processed,
  run_processor, settle, popped_job, process_job,
}

module _ {S D : Type 0} (codec : Codec D) (redis : Redis S D) (effects : Effects redis)
    (d : D) where
  -- The entry is in the processing list.
  abbrev pub Listed : S → Type 0
  Listed s = Member d (redis.contents s).processing

  Member-remove_first :
      (x : D) (l : List D) → x ≢ d → Member d l → Member d (remove_first redis.same x l)
  Member-remove_first x [] h m = absurd m
  Member-remove_first x (y ∷ l) h (inl e) = ground (arith, effects.same_iff y x)
  Member-remove_first x (y ∷ l) h (inr m) = elim (Bool-cases (redis.same y x)) [
    | inl t ↦ rw t m
    | inr t ↦ rw t (inr (Member-remove_first x l h m))
  ]

  Listed-of :
      (s s' : S) (c : Contents D) → redis.contents s' ≡ c → Member d c.processing → Listed s'
  Listed-of s s' c e m = subst (λ (c : Contents D). Member d c.processing) (sym e) m

  Listed-lpush :
      (k : ListKey) (x : D) (s : S)
      → Listed s
      → Member d (push_left k x (redis.contents s)).processing
  Listed-lpush job_queue x s m = m
  Listed-lpush processing_queue x s m = inr m
  Listed-lpush completed_queue x s m = m
  Listed-lpush failed_queue x s m = m

  Listed-finish_lpush :
      (k : ListKey) (x : D) (s : S) → Listed s → Listed (finish s (redis.lpush k x s)).0
  Listed-finish_lpush k x s m =
      finish_cases Listed s (redis.lpush k x s) m
        λ s' e. Listed-of s s' _ (effects.lpush_effect k x s s' e) (Listed-lpush k x s m)

  -- The job is not the one whose data the entry is.
  abbrev Differs : Job → Type 0
  Differs j = (x : D) → codec.marshal j ≡ some x → x ≢ d

  Listed-remove :
      (j : Job) (s : S) → Differs j → Listed s → Listed (remove_from_processing codec redis j s).0
  unfolding remove_from_processing
  Listed-remove j s h m = on_data_cases Listed (codec.marshal j) s _ m λ x marshalled.
      finish_cases Listed s (redis.lrem processing_queue x s) m λ s' e.
        Listed-of s s' _ (effects.lrem_effect processing_queue x s s' e)
          (Member-remove_first x (redis.contents s).processing (h x marshalled) m)

  Listed-if : (b : Bool) (r q : S × Bool) → Listed r.0 → Listed q.0 → Listed (if b then r else q).0
  Listed-if true r q m n = m
  Listed-if false r q m n = n

  Listed-push : (now : ℕ) (j : Job) (s : S) → Listed s → Listed (push codec redis now j s).0
  unfolding push
  Listed-push now j s m = on_data_cases Listed (codec.marshal j) s _ m λ x _.
      Listed-if (ltb now j.scheduled_at) _ _
        (finish_cases Listed s (redis.zadd (unix j.scheduled_at) x s) m λ s' e.
          let (before, after, _, effect) = effects.zadd_effect (unix j.scheduled_at) x s s' e in
          Listed-of s s' _ effect m)
        (Listed-finish_lpush job_queue x s m)

  Listed-leave_for :
      (k : ListKey) (j : Job) (s : S)
      → Differs j
      → Listed s
      → Listed (leave_for codec redis k j s).0
  Listed-leave_for k j s h m =
      let t = (remove_from_processing codec redis j s).0 in
      let kept = Listed-remove j s h m in
      Listed-if (remove_from_processing codec redis j s).1 _ (t, false)
        (on_data_cases Listed (codec.marshal j) t _ kept (λ x _. Listed-finish_lpush k x t kept))
        kept

  Listed-retry :
      (now later : ℕ) (j : Job) (delay : ℕ) (s : S)
      → Differs j
      → Listed s
      → Listed (retry codec redis now later j delay s).0
  unfolding retry
  Listed-retry now later j delay s h m =
      let t = (remove_from_processing codec redis j s).0 in
      let kept = Listed-remove j s h m in
      Listed-if (remove_from_processing codec redis j s).1 _ (t, false) (Listed-push later _ t kept)
        kept

module _ {S D M : Type 0} (codec : Codec D) (redis : Redis S D) (jobs : Collection M)
    (next_delay clock : ℕ → ℕ) (laws : ReadsBack codec) (effects : Effects redis) (j : Job) (d : D)
    (written : codec.marshal j ≡ some d) where
  -- A job that is another has other data.
  Differs_of_ne : (f : Job) → f ≢ j → (x : D) → codec.marshal f ≡ some x → x ≢ d
  Differs_of_ne f h x e same = h (
      some-eq f j
        (sym (laws.read_back f x e) ∙ ap codec.unmarshal same ∙ laws.read_back j d written))

  -- `j` is as it was queued: neither completed nor failed.
  abbrev pub IsOpen : Job → Type 0
  IsOpen i = (i.status ≢ status_completed) × (i.status ≢ status_failed)

  abbrev Kept : World S M → Type 0
  Kept w = Listed codec redis effects d w.redis

  success-Kept :
      IsOpen j
      → (k : Job) (w : World S M) → Kept w
      → Kept (handle_job_success codec redis jobs next_delay clock k w)
  unfolding handle_job_success complete update_job mark_completed
  success-Kept opened k w m =
      Listed-leave_for codec redis effects d completed_queue _ w.redis
        (Differs_of_ne _ (λ e. opened.0 (sym (ap (λ (i : Job). i.status) e)))) m

  failure-Kept :
      IsOpen j
      → (k : Job) (message : String) (w : World S M) → Kept w
      → Kept (handle_job_failure codec redis jobs next_delay clock k message w)
  unfolding handle_job_failure fail update_job mark_failed
  failure-Kept opened k message w m =
      Listed-leave_for codec redis effects d failed_queue _ w.redis
        (Differs_of_ne _ (λ e. opened.1 (sym (ap (λ (i : Job). i.status) e)))) m

  retry-Kept :
      (k : Job) (w : World S M)
      → k.retry_count ≢ j.retry_count
      → Kept w
      → Kept (schedule_retry codec redis jobs next_delay clock k w)
  unfolding update_job
  retry-Kept k w h m =
      Listed-retry codec redis effects d (clock 5) (clock 6) _ _ w.redis
        (Differs_of_ne _ (λ e. h (ap (λ (i : Job). i.retry_count) e))) m

  inc-ne : (n m : ℕ) → n < 2 ^ 64 → m ≡ n → inc m ≢ n
  inc-ne n m h e = omega arith

  World-if : (b : Bool) (w v : World S M) → Kept w → Kept v → Kept (if b then w else v)
  World-if true w v m n = m
  World-if false w v m n = n

  error-Kept :
      IsOpen j
      → j.retry_count < 2 ^ 64
      → (k : Job) (message : String) (w : World S M) → k.retry_count ≡ j.retry_count
      → Kept w
      → Kept (handle_job_error codec redis jobs next_delay clock k message w)
  unfolding handle_job_error count_failure
  error-Kept opened range k message w e m =
      World-if (may_retry (count_failure (clock 3) message k)) _ _
        (retry-Kept (count_failure (clock 3) message k) w
          (inc-ne j.retry_count k.retry_count range e) m)
        (failure-Kept opened (count_failure (clock 3) message k) message w m)

  processed-Kept :
      IsOpen j
      → j.retry_count < 2 ^ 64
      → (r : Job × Option String) (w : World S M) → r.0.retry_count ≡ j.retry_count
      → Kept w
      → Kept (processed codec redis jobs next_delay clock r w)
  processed-Kept opened range (k, none) w e m = success-Kept opened k w m
  processed-Kept opened range (k, some message) w e m = error-Kept opened range k message w e m

  -- Processors leave the retry count to the pool.
  abbrev pub LeavesCount : Option Processor → Type 0
  LeavesCount none = Unit
  LeavesCount (some p) = (k : Job) → (p k).0.retry_count ≡ k.retry_count

  run-Kept :
      IsOpen j
      → j.retry_count < 2 ^ 64
      → (p : Option Processor) → LeavesCount p
      → (k : Job) (w : World S M) → k.retry_count ≡ j.retry_count
      → Kept w
      → Kept (run_processor codec redis jobs next_delay clock p k w)
  run-Kept opened range none leaves k w e m = failure-Kept opened k _ w m
  run-Kept opened range (some p) leaves k w e m =
      processed-Kept opened range (p k) w (leaves k ∙ e) m

  -- The entry that `Pop` wrote is never taken off the processing list: when a job that is neither
  -- completed nor failed is popped and its entry is listed, the entry is still listed after
  -- `processJob`, whether the job succeeded, failed or is retried, and whatever commands reported
  -- errors; the processor leaves the retry count alone.
  pub process_job-Listed :
      (registry : List (String × Processor)) (worker : Worker) (w : World S M) (s : S)
      → IsOpen j
      → j.retry_count < 2 ^ 64
      → LeavesCount (Job.get registry j.type)
      → pop codec redis (clock 0) w.redis ≡ (got j, s)
      → Listed codec redis effects d s
      → Listed codec redis effects d
          (process_job codec redis jobs next_delay clock registry worker w).1.redis
  unfolding process_job settle update_job mark_running
  process_job-Listed registry worker w s opened range leaves popped m =
      subst (λ r. Kept (popped_job codec redis jobs next_delay clock registry worker r w).1)
        (sym popped) (run-Kept opened range (Job.get registry j.type) leaves _ _ refl m)
