-- ===== src/Programs/Runs.antt =====
-- What becomes of a job in the service of cmd/server/main.go, and in the program of
-- examples/simple_processor.go.
use distributed_job_processo.Base.{ℕ, ◌≤◌, String, ◌≡◌, refl, ap, ◌∙◌, Option, none, some, List, []}
use mathlib.Core.Option
use distributed_job_processo.Job.{Job, get, status_completed, status_failed}
use distributed_job_processo.Queue.Server.{Codec, ReadsBack, Redis, Effects, Answers}
use distributed_job_processo.Queue.Order.{Ready}
use distributed_job_processo.Storage.Jobs.{Collection}
use distributed_job_processo.Storage.Documents.{Documented, Responds}
use distributed_job_processo.Worker.Pool.{World, Worker, Processor, process_job}
use distributed_job_processo.Server.Jobs.{answered, handle_create_job, handle_get_job}
use distributed_job_processo.Server.Lifecycle.{accepted, Fresh}
use distributed_job_processo.Server.Completion.{
  handle_get_job-process_job, handle_get_job-unregistered,
}
use distributed_job_processo.Programs.{Payloads, service_registries, example_registries}
use distributed_job_processo.Programs.Processors.{
  required, first_missing, process-first_missing, not_found,
}

module _ {S D M : Type 0} (codec : Codec D) (redis : Redis S D) (jobs : Collection M)
    (effects : Documented jobs) (responds : Responds jobs effects.documents)
    (next_delay clock : ℕ → ℕ) (from_hex : String → Option ℕ) (laws : ReadsBack codec)
    (commands : Effects redis) (answers : Answers redis) where
  -- What `getJob` shows of a job after it was created and the next worker has run.
  abbrev Shows :
      String
      → (registry : List (String × Processor)) (worker : Worker) (max_retries new_id now later : ℕ)
      → Job
      → World S M
      → String
      → Type 0
  Shows status registry worker max_retries new_id now later j w id =
      let created = handle_create_job codec redis jobs max_retries new_id now later (some j) w in
      let processed = process_job codec redis jobs next_delay clock registry worker created.1 in
      (result : Job) × (handle_get_job jobs from_hex id processed.1 ≡ answered 200 result)
      × (result.status ≡ status)

  -- The service that the Dockerfile builds registers no processor, so on servers that answer
  -- every job fails: whatever its type, one that is created with a new id when it is due, on an
  -- empty queue with nothing due, is shown as failed after the next worker has run.
  pub service_fails :
      (max_retries new_id now later : ℕ) (j : Job) (w : World S M) (d : D) (id : String)
      (worker : Worker)
      → Fresh effects max_retries new_id now j w
      → let i = accepted max_retries new_id now j in
        from_hex id ≡ some i.id
        → codec.marshal i ≡ some d
        → i.scheduled_at ≤ later
        → Ready codec redis (clock 0) [] w.redis
        → Shows status_failed service_registries.pool worker max_retries new_id now later j w id
  unfolding service_registries get
  service_fails max_retries new_id now later j w d id worker fresh hex marshalled due empty =
      handle_get_job-unregistered codec redis jobs effects responds next_delay clock from_hex laws
        commands answers max_retries new_id now later j w d id [] worker fresh hex marshalled due
        empty refl

  -- In the example program, on servers that answer, a job of one of its two types, whose payload
  -- has a text under each key that the type needs and which is created with a new id when it is
  -- due, on an empty queue with nothing due, is shown as completed after the next worker has run.
  pub example_completes :
      (text_of : Payloads) (max_retries new_id now later : ℕ) (j : Job) (w : World S M) (d : D)
      (id : String) (worker : Worker) (p : Processor)
      → Fresh effects max_retries new_id now j w
      → let i = accepted max_retries new_id now j in
        from_hex id ≡ some i.id
        → codec.marshal i ≡ some d
        → i.scheduled_at ≤ later
        → Ready codec redis (clock 0) [] w.redis
        → get (example_registries text_of).pool i.type ≡ some p
        → first_missing text_of i.payload (required i.type) ≡ none
        → Shows status_completed
            (example_registries text_of).pool
            worker
            max_retries
            new_id
            now
            later
            j
            w
            id
  example_completes text_of max_retries new_id now later j w d id worker p fresh hex marshalled due
        empty known complete =
      let i = accepted max_retries new_id now j in
      handle_get_job-process_job codec redis jobs effects responds next_delay clock from_hex laws
        commands answers max_retries new_id now later j w d id _ worker p fresh hex marshalled due
        empty known
        (λ k kind payload.
          let outcome =
            process-first_missing text_of k p
              (ap (get (example_registries text_of).pool) kind ∙ known) in
          (
            ap (λ (r : Job × Option String). r.0.id) outcome,
            ap (λ (r : Job × Option String). r.1) outcome
                ∙ ap
                    (λ t.
                      Option.map (not_found text_of) (first_missing text_of k.payload (required t)))
                    kind
                ∙ ap
                    (λ t.
                      Option.map (not_found text_of) (first_missing text_of t (required i.type)))
                    payload
                ∙ ap (Option.map (not_found text_of)) complete,
          ))
