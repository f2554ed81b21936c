-- ===== src/Queue/Refinement/Simulation.antt =====
-- `Push` and `Pop` of internal/queue/redis.go against the abstract queue.
use distributed_job_processo.Base.{
  ℕ, ◌≤◌, ◌<◌, ◌≡◌, refl, sym, ◌∙◌, subst, inl, inr, true, false, some, List, [], ◌∷◌, ◌++◌, arith,
  ltb, Bool-cases, All,
}
use distributed_job_processo.Job.{Job}
use distributed_job_processo.Queue.Server.{
  Ran-done, Codec, ReadsBack, Redis, Effects, Answers, Blocking, timeout, failure, element,
}
use distributed_job_processo.Queue.Defs.{
  Popped, no_job, pop_error, got, unix, push, pop, pop_reply, move_delayed_jobs,
}
use distributed_job_processo.Queue.Order.{Loaded-push, push-contents, pop_reply-Loaded}
use distributed_job_processo.Queue.Delayed.{Distinct, move_delayed_jobs-contents}
use distributed_job_processo.Queue.Refinement.{
  Abstract, due_jobs, waiting_jobs, Removed, Operation, push_op, pop_op, Shown, pushed, taken,
  nothing, Step, enqueue, schedule, dequeue, wait, Steps, done, more, Scheduled, RepresentsContents,
  Represents,
}
use distributed_job_processo.Queue.Refinement.Scheduling.{
  Distinct-insert, Scheduled-without, Scheduled-insert, Scheduled-waiting, Loaded-due,
  Distinct-waiting, Distinct-without,
}

-- What an answer of `Pop` shows: both a timeout and an error show that there is nothing.
abbrev pub shown_by : Popped → Shown
shown_by no_job = nothing
shown_by pop_error = nothing
shown_by (got j) = taken j

snoc-ne-nil : {D : Type 0} (q : List D) (d : D) → [] ≡ q ++ d ∷ [] → ⊥
snoc-ne-nil [] d e = cc
snoc-ne-nil (x ∷ q) d e = cc

module _ {S D : Type 0} (codec : Codec D) (redis : Redis S D) where
  -- An operation on Redis, and what it shows.
  unfoldable pub perform : Operation → S → Shown × S
  unfolding push pop
  perform (push_op now j) s = (pushed, (push codec redis now j s).0)
  perform (pop_op now) s = let (p, s') = pop codec redis now s in (shown_by p, s')

  unfoldable pub perform_all : List Operation → S → List Shown × S
  unfolding perform
  perform_all [] s = ([], s)
  perform_all (o ∷ os) s =
      let (x, s') = perform o s in let (xs, s'') = perform_all os s' in (x ∷ xs, s'')

  -- json.Marshal writes the job.
  abbrev pub Writable : Operation → Type 0
  Writable (push_op now j) = (d : D) × (codec.marshal j ≡ some d)
  Writable (pop_op now) = Unit

  -- The abstract queue makes the step.
  abbrev pub Simulates : Operation → Abstract → Shown × S → Type 0
  Simulates o a (x, s) = (b : Abstract) × Step o x a b × Represents codec redis b s

  module _ (laws : ReadsBack codec) (effects : Effects redis) (answers : Answers redis) where
    push_due-Simulates :
        (now : ℕ) (j : Job) (d : D) (a : Abstract) (s : S)
        → codec.marshal j ≡ some d
        → j.scheduled_at ≤ now
        → Represents codec redis a s
        → Simulates (push_op now j) a (perform (push_op now j) s)
    unfolding perform
    push_due-Simulates now j d a s e h (loaded, scheduled, distinct) = (
      record a { ready = a.ready ++ j ∷ [] },
      enqueue now j a h,
      subst (RepresentsContents codec redis (record a { ready = a.ready ++ j ∷ [] }))
          (sym (push-contents codec redis laws effects answers now j s d e h))
          (
            Loaded-push codec redis a.ready _ d j (laws.read_back j d e) loaded,
            scheduled,
            distinct,
          ),
    )

    push_later-Simulates :
        (now : ℕ) (j : Job) (d : D) (a : Abstract) (s : S)
        → codec.marshal j ≡ some d
        → now < j.scheduled_at
        → Represents codec redis a s
        → Simulates (push_op now j) a (perform (push_op now j) s)
    unfolding perform push
    push_later-Simulates now j d a s e h (loaded, scheduled, distinct) =
        let score = unix j.scheduled_at in
        let (s', added) = answers.zadd_answers score d s in
        let (before, after, split, effect) =
          effects.zadd_effect score d s s' (Ran-done _ s' added) in
        let (k, removed, kept) =
          Scheduled-without codec redis laws effects j d a.delayed _ e scheduled in
        let (b, c, parts, inserted) =
          Scheduled-insert codec redis laws effects j d score k before after e
            (subst (Scheduled codec redis k) split kept) in
        let (alone, fresh) = Distinct-without codec redis laws effects d _ distinct in
        let later : ltb now j.scheduled_at ≡ true = ground arith in
        (
          record a { delayed = b ++ (j, score) ∷ c },
          schedule now j a b c h (subst (Removed j a.delayed) parts removed),
          rw (e, push)
              (rw (later, added)
                (rw effect (
                  loaded,
                  inserted,
                  Distinct-insert codec redis laws effects d score before after
                      (subst (All (λ m. redis.same m.0 d ≡ false)) split fresh)
                      (subst (Distinct redis.same) split alone),
                ))),
        )

    -- After the move
    moved-Represents :
        (now : ℕ) (a : Abstract) (s : S)
        → Represents codec redis a s
        → Represents codec redis
            (record {
              ready = a.ready ++ due_jobs (unix now) a.delayed;
              delayed = waiting_jobs (unix now) a.delayed;
            })
            (move_delayed_jobs codec redis now s)
    moved-Represents now a s (loaded, scheduled, distinct) =
        subst (RepresentsContents codec redis _)
          (sym (move_delayed_jobs-contents codec redis effects answers now s distinct))
          (
            Loaded-due codec redis laws effects (unix now) a.delayed _ a.ready _ scheduled loaded,
            Scheduled-waiting codec redis laws effects (unix now) a.delayed _ scheduled,
            Distinct-waiting codec redis laws effects (unix now) _ distinct,
          )

    -- BRPOP on an empty queue
    empty-Shows :
        (s : S)
        → (redis.contents s).queue ≡ []
        → let r = pop_reply codec redis (redis.brpop s) s in (shown_by r.0 ≡ nothing) × (r.1 ≡ s)
    empty-Shows s empty = by_reply (redis.brpop s) refl
      where
        by_reply :
            (r : Blocking S D)
            → redis.brpop s ≡ r
            → (shown_by (pop_reply codec redis r s).0 ≡ nothing)
              × ((pop_reply codec redis r s).1 ≡ s)
        by_reply timeout e = (refl, refl)
        by_reply failure e = (refl, refl)
        by_reply (element d s') e =
            let (q, split, _) = effects.brpop_effect s s' d e in
            absurd (snoc-ne-nil q d (sym empty ∙ split))

    taken-Simulates :
        (now : ℕ) (a : Abstract) (s : S) (js : List Job)
        → a.ready ++ due_jobs (unix now) a.delayed ≡ js
        → Represents codec redis
            (record { ready = js; delayed = waiting_jobs (unix now) a.delayed })
            s
        → let r = pop_reply codec redis (redis.brpop s) s in
          Simulates (pop_op now) a (shown_by r.0, r.1)
    taken-Simulates now a s [] e (loaded, scheduled, distinct) =
        let (shows, same) = empty-Shows s loaded in
        let b : Abstract = record { ready = []; delayed = waiting_jobs (unix now) a.delayed } in
        (
          b,
          subst (λ x. Step (pop_op now) x a b) (sym shows) (wait now a e),
          subst (Represents codec redis b) (sym same) (loaded, scheduled, distinct),
        )
    taken-Simulates now a s (j ∷ js) e (loaded, scheduled, distinct) =
        let (s', popped, rest, delayed) =
          pop_reply-Loaded codec redis laws effects answers j js s loaded in
        subst (λ (r : Popped × S). Simulates (pop_op now) a (shown_by r.0, r.1)) (sym popped)
          (
            record { ready = js; delayed = waiting_jobs (unix now) a.delayed },
            dequeue now j js a e,
            (
              rest,
              subst (Scheduled codec redis (waiting_jobs (unix now) a.delayed)) (sym delayed)
                  scheduled,
              subst (Distinct redis.same) (sym delayed) distinct,
            ),
          )

    pop-Simulates :
        (now : ℕ) (a : Abstract) (s : S)
        → Represents codec redis a s
        → Simulates (pop_op now) a (perform (pop_op now) s)
    unfolding perform pop
    pop-Simulates now a s r =
        taken-Simulates now a (move_delayed_jobs codec redis now s) _ refl
          (moved-Represents now a s r)

    perform-Simulates :
        (o : Operation) (a : Abstract) (s : S)
        → Writable o
        → Represents codec redis a s
        → Simulates o a (perform o s)
    perform-Simulates (pop_op now) a s w r = pop-Simulates now a s r
    perform-Simulates (push_op now j) a s (d, e) r = elim (Bool-cases (ltb now j.scheduled_at)) [
      | inl t ↦ push_later-Simulates now j d a s e (ground arith) r
      | inr t ↦ push_due-Simulates now j d a s e (ground arith) r
    ]

    -- The queue over Redis refines the abstract one: on a server that answers, whatever pushes
    -- and pops are made at whatever times, with jobs that can be written, the abstract queue has
    -- steps that show the same, from any state that Redis represents to one that it represents
    -- afterwards.
    pub perform_all-Steps :
        (os : List Operation) (a : Abstract) (s : S)
        → All Writable os
        → Represents codec redis a s
        → let (xs, s') = perform_all os s in
          (b : Abstract) × Steps os xs a b × Represents codec redis b s'
    unfolding perform_all
    perform_all-Steps [] a s w r = (a, done a, r)
    perform_all-Steps (o ∷ os) a s w r =
        let (b, step, represented) = perform-Simulates o a s w.0 r in
        let (c, steps, at_end) = perform_all-Steps os b (perform o s).1 w.1 represented in
        (c, more o _ os _ a b c step steps, at_end)
