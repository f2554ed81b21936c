-- ===== src/Server/Deletion.antt =====
-- `deleteJob` of internal/server/server.go and the queue.
use distributed_job_processo.Base.{
  ℕ, ◌≤◌, String, ◌≡◌, refl, ap, ◌∙◌, Bool, true, false, Option, none, some, [], arith,
}
use distributed_job_processo.Job.{Job}
use distributed_job_processo.Queue.Server.{Codec, ReadsBack, Redis, Effects, Answers, due}
use distributed_job_processo.Queue.Order.{Ready, pop-Ready}
use distributed_job_processo.Queue.Defs.{pop, got}
use distributed_job_processo.Storage.Jobs.{Collection, delete_job}
use distributed_job_processo.Storage.Documents.{
  Documented, Responds, stored, find_id, get_job-eq, delete_job-documents,
}
use distributed_job_processo.Worker.Pool.{World}
use distributed_job_processo.Server.Jobs.{
  failed, answered, handle_create_job, handle_get_job, handle_delete_job, after_delete, get_by_id,
  found_or_404,
}
use distributed_job_processo.Server.Lifecycle.{
  accepted, Fresh, find-head, created-documents, created-Ready,
}

module _ {S D M : Type 0} (codec : Codec D) (redis : Redis S D) (jobs : Collection M)
    (effects : Documented jobs) (responds : Responds jobs effects.documents) where
  module _ (from_hex : String → Option ℕ) where
    get-missing :
        (id : String) (n : ℕ) (w : World S M)
        → from_hex id ≡ some n
        → find_id n (effects.documents w.mongo) ≡ none
        → handle_get_job jobs from_hex id w ≡ failed 404
    unfolding handle_get_job
    get-missing id n w hex h =
        ap (get_by_id jobs from_hex w) hex
        ∙ ap found_or_404 (get_job-eq jobs effects responds n w.mongo ∙ h)

    after_delete-deleted :
        (s : S) (n : ℕ) (p : M × Bool)
        → p.1 ≡ true
        → find_id n (effects.documents p.0) ≡ none
        → let (reply, w) = after_delete jobs from_hex s p in
          (reply ≡ answered 200 tt) × (w.redis ≡ s) × (find_id n (effects.documents w.mongo) ≡ none)
    after_delete-deleted s n (m, true) h gone = (refl, refl, gone)
    after_delete-deleted s n (m, false) h gone = ground arith

    delete-found :
        (id : String) (n : ℕ) (j : Job) (w : World S M)
        → from_hex id ≡ some n
        → find_id n (effects.documents w.mongo) ≡ some j
        → let (reply, w') = handle_delete_job jobs from_hex id w in
          (reply ≡ answered 200 tt)
          × (w'.redis ≡ w.redis)
          × (find_id n (effects.documents w'.mongo) ≡ none)
    unfolding handle_delete_job
    delete-found id n j w hex h =
        let (deleted, _, gone) = delete_job-documents jobs effects responds n w.mongo in
        rw hex
          (after_delete-deleted w.redis n (delete_job jobs n w.mongo) (deleted ∙ rw h refl) gone)

    module _ (laws : ReadsBack codec) (commands : Effects redis) (answers : Answers redis) where
      -- `deleteJob` does not reach the queue: on servers that answer, a job that is created with
      -- a new id when it is due, on an empty queue with nothing due, and then deleted is
      -- answered with 200 and not found any more, and the next `Pop` still gives it.
      pub pop-handle_delete_job :
          (max_retries new_id now later t : ℕ) (j : Job) (w : World S M) (d : D) (id : String)
          → Fresh effects max_retries new_id now j w
          → from_hex id ≡ some (accepted max_retries new_id now j).id
          → codec.marshal (accepted max_retries new_id now j) ≡ some d
          → (accepted max_retries new_id now j).scheduled_at ≤ later
          → Ready codec redis t [] w.redis
          → let w' =
              (handle_create_job codec redis jobs max_retries new_id now later (some j) w).1 in
            let (reply, w'') = handle_delete_job jobs from_hex id w' in
            (reply ≡ answered 200 tt)
            × (handle_get_job jobs from_hex id w'' ≡ failed 404)
            × ((pop codec redis t w''.redis).0 ≡ got (accepted max_retries new_id now j))
      pop-handle_delete_job max_retries new_id now later t j w d id fresh hex marshalled due empty =
          let i = accepted max_retries new_id now j in
          let w' = (handle_create_job codec redis jobs max_retries new_id now later (some j) w).1 in
          let (_, documents, _) =
            created-documents codec redis jobs effects responds from_hex max_retries new_id now
              later j w fresh in
          let (reply, kept, gone) =
            delete-found id i.id (stored i) w' hex (ap (find_id i.id) documents ∙ find-head i _) in
          let (s, popped, _) = pop-Ready codec redis laws commands answers t i [] w'.redis (
            created-Ready codec redis jobs effects responds from_hex laws commands answers
              max_retries new_id now later t j w d fresh marshalled due empty) in
          (
            reply,
            get-missing id i.id _ hex gone,
            ap (λ s. (pop codec redis t s).0) kept ∙ ap (λ r. r.0) popped,
          )
