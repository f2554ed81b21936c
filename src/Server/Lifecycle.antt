-- ===== src/Server/Lifecycle.antt =====
-- A job through the API of internal/server/server.go: what is stored and queued when `createJob`
-- has answered, and what `getJob` shows then.
use distributed_job_processo.Base.{
  ℕ, ◌≤◌, String, ◌≡◌, refl, sym, ap, ◌∙◌, subst, Bool, true, false, Option, none, some, List, [],
  ◌∷◌, arith, if◌then◌else◌,
}
use distributed_job_processo.Job.{Job}
use distributed_job_processo.Queue.Server.{Codec, ReadsBack, Redis, Effects, Answers, due}
use distributed_job_processo.Queue.Order.{Ready, push-Ready}
use distributed_job_processo.Queue.Defs.{push}
use distributed_job_processo.Storage.Jobs.{Collection, with_defaults, create_job}
use distributed_job_processo.Storage.Documents.{
  Documented, Responds, stored, find_id, get_job-eq, create_job-documents,
}
use distributed_job_processo.Worker.Pool.{World}
use distributed_job_processo.Server.Jobs.{
  failed, answered, with_retries, after_push, after_create, handle_create_job, handle_get_job,
  get_by_id, found_or_404,
}

-- The job that `createJob` makes of the job of a request.
abbrev pub accepted : (max_retries new_id now : ℕ) → Job → Job
accepted max_retries new_id now j = with_defaults new_id now (with_retries max_retries j)

-- The new id is not taken.
abbrev pub Fresh :
    {S M : Type 0} {jobs : Collection M}
    → Documented jobs
    → (max_retries new_id now : ℕ) → Job
    → World S M
    → Type 0
Fresh effects max_retries new_id now j w =
    find_id (accepted max_retries new_id now j).id (effects.documents w.mongo) ≡ none

-- The first document is found by its id.
pub find-head : (j : Job) (js : List Job) → find_id j.id (stored j ∷ js) ≡ some (stored j)
unfolding stored
find-head j js = ground arith

module _ {S D M : Type 0} (codec : Codec D) (redis : Redis S D) (jobs : Collection M)
    (effects : Documented jobs) (responds : Responds jobs effects.documents) where
  created-eq :
      (max_retries new_id now later : ℕ) (j : Job) (w : World S M)
      → Fresh effects max_retries new_id now j w
      → (m : M) × (effects.documents m
          ≡ stored (accepted max_retries new_id now j) ∷ effects.documents w.mongo)
        × (handle_create_job codec redis jobs max_retries new_id now later (some j) w
            ≡ after_push codec redis jobs
                (accepted max_retries new_id now j)
                m
                (push codec redis later (accepted max_retries new_id now j) w.redis))
  unfolding handle_create_job
  created-eq max_retries new_id now later j w fresh =
      let r = create_job jobs new_id now (with_retries max_retries j) w.mongo in
      let (same, created, after) =
        create_job-documents jobs effects responds new_id now (with_retries max_retries j) w.mongo
          fresh in
      (
        r.1,
        after ∙ ap (λ i. stored i ∷ effects.documents w.mongo) same,
        ap (λ b. after_create codec redis jobs later w.redis (r.0, r.1, b)) created
            ∙ ap (λ i. after_create codec redis jobs later w.redis (i, r.1, true)) same,
      )

  module _ (from_hex : String → Option ℕ) where
    pub get-found :
        (id : String) (n : ℕ) (j : Job) (w : World S M)
        → from_hex id ≡ some n
        → find_id n (effects.documents w.mongo) ≡ some j
        → handle_get_job jobs from_hex id w ≡ answered 200 j
    unfolding handle_get_job
    get-found id n j w hex h =
        ap (get_by_id jobs from_hex w) hex
        ∙ ap found_or_404 (get_job-eq jobs effects responds n w.mongo ∙ h)

    reply-pushed :
        (j : Job) (m : M) (p : S × Bool)
        → let (reply, w) = after_push codec redis jobs j m p in
          (reply ≡ (if p.1 then answered 201 j else failed 500)) × (w.mongo ≡ m) × (w.redis ≡ p.0)
    reply-pushed j m (s, false) = (refl, refl, refl)
    reply-pushed j m (s, true) = (refl, refl, refl)

    pub created-documents :
        (max_retries new_id now later : ℕ) (j : Job) (w : World S M)
        → Fresh effects max_retries new_id now j w
        → let i = accepted max_retries new_id now j in
          let pushed = push codec redis later i w.redis in
          let (reply, w') =
            handle_create_job codec redis jobs max_retries new_id now later (some j) w in
          (reply ≡ (if pushed.1 then answered 201 i else failed 500))
          × (effects.documents w'.mongo ≡ stored i ∷ effects.documents w.mongo)
          × (w'.redis ≡ pushed.0)
    created-documents max_retries new_id now later j w fresh =
        let (m, after, e) = created-eq max_retries new_id now later j w fresh in
        let i = accepted max_retries new_id now j in
        let (reply, mongo, kept) = reply-pushed i m (push codec redis later i w.redis) in
        (
          ap (λ r. r.0) e ∙ reply,
          ap (λ r. effects.documents r.1.mongo) e ∙ ap effects.documents mongo ∙ after,
          ap (λ r. r.1.redis) e ∙ kept,
        )

    -- What `createJob` has taken `getJob` gives back: after a request with a new id on a
    -- database that answers, the job is found under that id with the times cut to milliseconds,
    -- whether the push succeeded, and the answer was 201 with the job, or failed, and it was
    -- 500.
    pub handle_get_job-create :
        (max_retries new_id now later : ℕ) (j : Job) (w : World S M) (id : String)
        → Fresh effects max_retries new_id now j w
        → from_hex id ≡ some (accepted max_retries new_id now j).id
        → let i = accepted max_retries new_id now j in
          let (reply, w') =
            handle_create_job codec redis jobs max_retries new_id now later (some j) w in
          (reply ≡ (if (push codec redis later i w.redis).1 then answered 201 i else failed 500))
          × (handle_get_job jobs from_hex id w' ≡ answered 200 (stored i))
    handle_get_job-create max_retries new_id now later j w id fresh hex =
        let i = accepted max_retries new_id now j in
        let (reply, documents, _) = created-documents max_retries new_id now later j w fresh in
        (reply, get-found id i.id (stored i) _ hex (ap (find_id i.id) documents ∙ find-head i _))

    module _ (laws : ReadsBack codec) (commands : Effects redis) (answers : Answers redis) where
      -- After `createJob` on an empty queue with nothing due the job is the only one that is
      -- ready.
      pub created-Ready :
          (max_retries new_id now later t : ℕ) (j : Job) (w : World S M) (d : D)
          → Fresh effects max_retries new_id now j w
          → codec.marshal (accepted max_retries new_id now j) ≡ some d
          → (accepted max_retries new_id now j).scheduled_at ≤ later
          → Ready codec redis t [] w.redis
          → Ready codec redis t
              (accepted max_retries new_id now j ∷ [])
              (handle_create_job codec redis jobs max_retries new_id now later (some j) w).1.redis
      created-Ready max_retries new_id now later t j w d fresh marshalled due empty =
          let i = accepted max_retries new_id now j in
          let (_, _, kept) = created-documents max_retries new_id now later j w fresh in
          subst (Ready codec redis t (i ∷ [])) (sym kept) (
            push-Ready codec redis laws commands answers t later [] i w.redis d marshalled due
              empty)
