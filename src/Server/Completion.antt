-- ===== src/Server/Completion.antt =====
-- From the request to the result: a job of `createJob` (internal/server/server.go) that a worker
-- of internal/worker/pool.go runs.
use distributed_job_processo.Base.{
  ℕ, ◌≤◌, String, ◌≡◌, refl, ap, ◌∙◌, subst, Option, none, some, List, [], arith,
}
use distributed_job_processo.Job.{Job, status_completed, status_failed}
use distributed_job_processo.Job
use distributed_job_processo.Queue.Server.{Codec, ReadsBack, Redis, Effects, Answers}
use distributed_job_processo.Queue.Defs.{pop, got}
use distributed_job_processo.Queue.Order.{Ready, pop-Ready}
use distributed_job_processo.Storage.Jobs.{Collection, update_job}
use distributed_job_processo.Storage.Documents.{
  Documented, Responds, stored, set_fields, find_id, find-update_self, set_fields-id,
  update_job-documents,
}
use distributed_job_processo.Worker.Pool.{
  World, Worker, Processor, process_job, settle, handle_job_success, handle_job_failure,
  mark_failed, mark_running, mark_completed, processed, popped_job,
}
use distributed_job_processo.Server.Jobs.{answered, handle_create_job, handle_get_job}
use distributed_job_processo.Server.Lifecycle.{
  accepted, Fresh, find-head, created-documents, created-Ready, get-found,
}

module _ {S D M : Type 0} (codec : Codec D) (redis : Redis S D) (jobs : Collection M)
    (effects : Documented jobs) (responds : Responds jobs effects.documents)
    (next_delay clock : ℕ → ℕ) where
  pub updated-found :
      (now : ℕ) (j old : Job) (m : M)
      → find_id j.id (effects.documents m) ≡ some old
      → find_id j.id (effects.documents (update_job jobs now j m).1)
        ≡ some (set_fields (record j { updated_at = now }) old)
  unfolding update_job
  updated-found now j old m h =
      let (_, _, after) = update_job-documents jobs effects responds now j old m h in
      ap (find_id j.id) after
      ∙ find-update_self j.id (set_fields (record j { updated_at = now })) (effects.documents m) old
          (set_fields-id (record j { updated_at = now })) h

  -- The document with this id is that of a job with this status.
  abbrev pub Ended : String → ℕ → M → Type 0
  Ended status id m = (i : Job) × (find_id id (effects.documents m) ≡ some i) × (i.status ≡ status)

  success-Ended :
      (j old : Job) (w : World S M)
      → find_id j.id (effects.documents w.mongo) ≡ some old
      → Ended status_completed j.id (handle_job_success codec redis jobs next_delay clock j w).mongo
  unfolding handle_job_success mark_completed set_fields
  success-Ended j old w h =
      (_, updated-found (clock 4) (mark_completed (clock 3) j) old w.mongo h, refl)

  failure-Ended :
      (j old : Job) (message : String) (w : World S M)
      → find_id j.id (effects.documents w.mongo) ≡ some old
      → Ended status_failed j.id
          (handle_job_failure codec redis jobs next_delay clock j message w).mongo
  unfolding handle_job_failure mark_failed set_fields
  failure-Ended j old message w h =
      (_, updated-found (clock 5) (mark_failed (clock 4) message j) old w.mongo h, refl)

  processed-Ended :
      (r : Job × Option String) (id : ℕ) (old : Job) (w : World S M)
      → r.0.id ≡ id
      → r.1 ≡ none
      → find_id id (effects.documents w.mongo) ≡ some old
      → Ended status_completed id (processed codec redis jobs next_delay clock r w).mongo
  processed-Ended (k, none) id old w same done h =
      subst
        (λ n.
          Ended status_completed n (handle_job_success codec redis jobs next_delay clock k w).mongo)
        same (success-Ended k old w (rw same h))
  processed-Ended (k, some message) id old w same done h = ground arith

  -- The processor succeeds on a job with the type and the payload of this one, and leaves its id.
  abbrev pub Succeeds : Processor → Job → Type 0
  Succeeds p j =
      (k : Job) → k.type ≡ j.type → k.payload ≡ j.payload → ((p k).0.id ≡ k.id) × ((p k).1 ≡ none)

  pub settle-Ended :
      (registry : List (String × Processor)) (worker : String) (p : Processor) (j old : Job)
      (w : World S M)
      → Job.get registry j.type ≡ some p
      → Succeeds p j
      → find_id j.id (effects.documents w.mongo) ≡ some old
      → Ended status_completed j.id
          (settle codec redis jobs next_delay clock registry worker j w).mongo
  unfolding settle mark_running update_job
  settle-Ended registry worker p j old w known succeeds h =
      let running = mark_running worker (clock 1) j in
      let f = record running { updated_at = clock 2 } in
      rw known (
        processed-Ended (p f) j.id _ _ (succeeds f refl refl).0 (succeeds f refl refl).1
          (updated-found (clock 2) running old w.mongo h))

  -- A job of a type that has no processor fails, whatever its retries.
  settle-unregistered :
      (registry : List (String × Processor)) (worker : String) (j old : Job) (w : World S M)
      → Job.get registry j.type ≡ none
      → find_id j.id (effects.documents w.mongo) ≡ some old
      → Ended status_failed j.id
          (settle codec redis jobs next_delay clock registry worker j w).mongo
  unfolding settle mark_running update_job
  settle-unregistered registry worker j old w unknown h =
      let running = mark_running worker (clock 1) j in
      rw unknown (
        failure-Ended (record running { updated_at = clock 2 }) _ _
          (record w { mongo = (update_job jobs (clock 2) running w.mongo).1 })
          (updated-found (clock 2) running old w.mongo h))

  module _ (from_hex : String → Option ℕ) (laws : ReadsBack codec) (commands : Effects redis)
      (answers : Answers redis) where
    -- The next worker takes a job that was created on an empty queue; its document is there and
    -- nothing else is ready.
    pub created_taken :
        (max_retries new_id now later : ℕ) (j : Job) (w : World S M) (d : D)
        → Fresh effects max_retries new_id now j w
        → let i = accepted max_retries new_id now j in
          codec.marshal i ≡ some d
          → i.scheduled_at ≤ later
          → Ready codec redis (clock 0) [] w.redis
          → let w' =
              (handle_create_job codec redis jobs max_retries new_id now later (some j) w).1 in
            (s : S) × (pop codec redis (clock 0) w'.redis ≡ (got i, s))
            × Ready codec redis (clock 0) [] s
            × (find_id i.id (effects.documents w'.mongo) ≡ some (stored i))
    created_taken max_retries new_id now later j w d fresh marshalled due empty =
        let i = accepted max_retries new_id now j in
        let w' = (handle_create_job codec redis jobs max_retries new_id now later (some j) w).1 in
        let (_, documents, _) =
          created-documents codec redis jobs effects responds from_hex max_retries new_id now later
            j w fresh in
        let (s, popped, ready) =
          pop-Ready codec redis laws commands answers (clock 0) i [] w'.redis (
            created-Ready codec redis jobs effects responds from_hex laws commands answers
              max_retries new_id now later (clock 0) j w d fresh marshalled due empty) in
        (s, popped, ready, ap (find_id i.id) documents ∙ find-head i _)

    -- What the next worker makes of a job that was created on an empty queue is what `getJob`
    -- shows.
    shown :
        (status : String) (max_retries new_id now later : ℕ) (j : Job) (w : World S M) (d : D)
        (id : String) (registry : List (String × Processor)) (worker : Worker)
        → Fresh effects max_retries new_id now j w
        → let i = accepted max_retries new_id now j in
          from_hex id ≡ some i.id
          → codec.marshal i ≡ some d
          → i.scheduled_at ≤ later
          → Ready codec redis (clock 0) [] w.redis
          → ((v : World S M)
              → find_id i.id (effects.documents v.mongo) ≡ some (stored i)
              → Ended status i.id
                  (settle codec redis jobs next_delay clock registry worker.id i v).mongo)
          → let created =
              handle_create_job codec redis jobs max_retries new_id now later (some j) w in
            let processed =
              process_job codec redis jobs next_delay clock registry worker created.1 in
            (result : Job) × (handle_get_job jobs from_hex id processed.1 ≡ answered 200 result)
            × (result.status ≡ status)
    unfolding process_job
    shown status max_retries new_id now later j w d id registry worker fresh hex marshalled due
          empty settles =
        let i = accepted max_retries new_id now j in
        let w' = (handle_create_job codec redis jobs max_retries new_id now later (some j) w).1 in
        let (s, popped, _, found_there) =
          created_taken max_retries new_id now later j w d fresh marshalled due empty in
        let (result, found, ended) = settles (record w' { redis = s }) found_there in
        (
          result,
          ap
                (λ r.
                  handle_get_job jobs from_hex id
                    (popped_job codec redis jobs next_delay clock registry worker r w').1)
                popped
              ∙ get-found codec redis jobs effects responds from_hex id i.id result _ hex found,
          ended,
        )

    -- From the request to the result: on servers that answer, a job that is created with a new
    -- id when it is due, on an empty queue with nothing due, is taken by the next worker that
    -- pops, and when the processor of its type succeeds on its type and payload and keeps the
    -- id, `getJob` shows the job as completed.
    pub handle_get_job-process_job :
        (max_retries new_id now later : ℕ) (j : Job) (w : World S M) (d : D) (id : String)
        (registry : List (String × Processor)) (worker : Worker) (p : Processor)
        → Fresh effects max_retries new_id now j w
        → let i = accepted max_retries new_id now j in
          from_hex id ≡ some i.id
          → codec.marshal i ≡ some d
          → i.scheduled_at ≤ later
          → Ready codec redis (clock 0) [] w.redis
          → Job.get registry i.type ≡ some p
          → Succeeds p i
          → let created =
              handle_create_job codec redis jobs max_retries new_id now later (some j) w in
            let processed =
              process_job codec redis jobs next_delay clock registry worker created.1 in
            (result : Job) × (handle_get_job jobs from_hex id processed.1 ≡ answered 200 result)
            × (result.status ≡ status_completed)
    handle_get_job-process_job max_retries new_id now later j w d id registry worker p fresh hex
          marshalled due empty known succeeds =
        let i = accepted max_retries new_id now j in
        shown status_completed max_retries new_id now later j w d id registry worker fresh hex
          marshalled due empty
          (λ v h. settle-Ended registry worker.id p i (stored i) v known succeeds h)

    -- A job of a type that no registered processor has, created and taken in the same way, is
    -- shown as failed after its first run, however many retries it allows.
    pub handle_get_job-unregistered :
        (max_retries new_id now later : ℕ) (j : Job) (w : World S M) (d : D) (id : String)
        (registry : List (String × Processor)) (worker : Worker)
        → Fresh effects max_retries new_id now j w
        → let i = accepted max_retries new_id now j in
          from_hex id ≡ some i.id
          → codec.marshal i ≡ some d
          → i.scheduled_at ≤ later
          → Ready codec redis (clock 0) [] w.redis
          → Job.get registry i.type ≡ none
          → let created =
              handle_create_job codec redis jobs max_retries new_id now later (some j) w in
            let processed =
              process_job codec redis jobs next_delay clock registry worker created.1 in
            (result : Job) × (handle_get_job jobs from_hex id processed.1 ≡ answered 200 result)
            × (result.status ≡ status_failed)
    handle_get_job-unregistered max_retries new_id now later j w d id registry worker fresh hex
          marshalled due empty unknown =
        let i = accepted max_retries new_id now j in
        shown status_failed max_retries new_id now later j w d id registry worker fresh hex
          marshalled due empty
          (λ v h. settle-unregistered registry worker.id i (stored i) v unknown h)
