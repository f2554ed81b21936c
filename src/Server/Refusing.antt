-- ===== src/Server/Refusing.antt =====
-- `createJob` of internal/server/server.go with all that Redis may answer: what the client is told,
-- what is stored and what is queued.
use distributed_job_processo.Base.{
  ℕ, ◌≤◌, ◌<◌, ◌≡◌, refl, ◌⊎◌, inl, inr, Bool, true, false, Option, none, some, List, ◌∷◌, ◌++◌,
  arith, ltb, if◌then◌else◌, Bool-cases,
}
use distributed_job_processo.Job.{Job}
use distributed_job_processo.Queue.Server.{
  Sent, done, refused, lost, Ran, Codec, Redis, Effects, Contents, without, push_left, job_queue,
}
use distributed_job_processo.Queue.Defs.{finish, on_data, push, unix}
use distributed_job_processo.Storage.Jobs.{Collection}
use distributed_job_processo.Storage.Documents.{Documented, Responds, stored}
use distributed_job_processo.Worker.Pool.{World}
use distributed_job_processo.Server.Jobs.{failed, answered, handle_create_job}
use distributed_job_processo.Server.Lifecycle.{accepted, Fresh, created-documents}

module _ {S D : Type 0} (codec : Codec D) (redis : Redis S D) where
  -- The second data are the first with those of the job: on the queue if it is due, else in the
  -- sorted set.
  abbrev pub Queued : (now : ℕ) → Job → Contents D → Contents D → Type 0
  Queued now j c c' =
      (d : D) × (codec.marshal j ≡ some d)
      × (((j.scheduled_at ≤ now) × (c' ≡ push_left job_queue d c))
          ⊎ ((now < j.scheduled_at)
              × ((before : List (D × ℕ)) × (after : List (D × ℕ)) × (without redis.same d c.delayed
                    ≡ before ++ after)
                  × (c' ≡ record c { delayed = before ++ (d, unix j.scheduled_at) ∷ after }))))

  -- Without an error the change has been made; with one it has been made or nothing has.
  abbrev Outcome : (Contents D → Type 0) → S → S × Bool → Type 0
  Outcome P s (t, ok) =
      ((ok ≡ true) × P (redis.contents t))
      ⊎ ((ok ≡ false) × ((redis.contents t ≡ redis.contents s) ⊎ P (redis.contents t)))

  finish-Outcome :
      (P : Contents D → Type 0) (s : S) (o : Sent S)
      → ((t : S) → Ran o t → P (redis.contents t))
      → Outcome P s (finish s o)
  finish-Outcome P s refused f = inr (refl, inl refl)
  finish-Outcome P s (lost t) f = inr (refl, inr (f t refl))
  finish-Outcome P s (done t) f = inl (refl, f t refl)

  module _ (effects : Effects redis) where
    push-Outcome :
        (now : ℕ) (j : Job) (s : S)
        → Outcome (Queued now j (redis.contents s)) s (push codec redis now j s)
    unfolding push
    push-Outcome now j s = by_data (codec.marshal j) refl
      where
        by_data :
            (o : Option D)
            → codec.marshal j ≡ o
            → Outcome (Queued now j (redis.contents s)) s (
                on_data o s λ d.
                  if ltb now j.scheduled_at
                  then finish s (redis.zadd (unix j.scheduled_at) d s)
                  else finish s (redis.lpush job_queue d s))
        by_data none e = inr (refl, inl refl)
        by_data (some d) e = elim (Bool-cases (ltb now j.scheduled_at)) [
          | inl t ↦ rw t (
              finish-Outcome (Queued now j (redis.contents s)) s
                (redis.zadd (unix j.scheduled_at) d s)
                (λ y ran.
                  let (before, after, split, effect) =
                    effects.zadd_effect (unix j.scheduled_at) d s y ran in
                  (d, e, inr (ground (arith, t), (before, after, split, effect)))))
          | inr t ↦ rw t (
              finish-Outcome (Queued now j (redis.contents s)) s (redis.lpush job_queue d s)
                (λ y ran.
                  (d, e, inl (ground (arith, t), effects.lpush_effect job_queue d s y ran))))
        ]

    module _ {M : Type 0} (jobs : Collection M) (documented : Documented jobs)
        (responds : Responds jobs documented.documents) where
      -- On a database that answers, after `createJob` with a new id the document of the job is in
      -- the collection, and the client was told 201 and the job is queued, or the client was told
      -- 500 and the job is either not queued at all or queued all the same, because only the reply
      -- of Redis was lost; nothing else in Redis changes.
      pub handle_create_job-Queued :
          (max_retries new_id now later : ℕ) (j : Job) (w : World S M)
          → Fresh documented max_retries new_id now j w
          → let i = accepted max_retries new_id now j in
            let (reply, w') =
              handle_create_job codec redis jobs max_retries new_id now later (some j) w in
            let before = redis.contents w.redis in
            let after = redis.contents w'.redis in
            (documented.documents w'.mongo ≡ stored i ∷ documented.documents w.mongo)
            × (((reply ≡ answered 201 i) × Queued later i before after)
                ⊎ ((reply ≡ failed 500) × ((after ≡ before) ⊎ Queued later i before after)))
      handle_create_job-Queued max_retries new_id now later j w fresh =
          let (reply, stays, same) =
            created-documents codec redis jobs documented responds (λ id. none) max_retries new_id
              now later j w fresh in
          let i = accepted max_retries new_id now j in
          (
            stays,
            rw (reply, same)
                (by_outcome i (push codec redis later i w.redis) (push-Outcome later i w.redis)),
          )
        where
          by_outcome :
              (i : Job) (p : S × Bool)
              → Outcome (Queued later i (redis.contents w.redis)) w.redis p
              → (((if p.1 then answered 201 i else failed 500) ≡ answered 201 i)
                  × Queued later i (redis.contents w.redis) (redis.contents p.0))
                ⊎ (((if p.1 then answered 201 i else failed 500) ≡ failed 500)
                    × ((redis.contents p.0 ≡ redis.contents w.redis)
                        ⊎ Queued later i (redis.contents w.redis) (redis.contents p.0)))
          by_outcome i (t, ok) (inl (e, q)) = inl (rw e refl, q)
          by_outcome i (t, ok) (inr (e, q)) = inr (rw e refl, q)
