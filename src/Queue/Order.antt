-- ===== src/Queue/Order.antt =====
-- The order of the jobs: `Push` and `Pop` of internal/queue/redis.go.
use distributed_job_processo.Base.{
  ℕ, zero, suc, ◌≤◌, ◌≡◌, refl, sym, ap, ◌∙◌, subst, false, some, List, [], ◌∷◌, ◌++◌, map, arith,
  ltb, length, All,
}
use mathlib.Core.List.{append-nil, append_assoc}
use distributed_job_processo.Job.{Job}
use distributed_job_processo.Queue.Server.{
  Ran-done, Codec, ReadsBack, Redis, Effects, Answers, Contents, job_queue, processing_queue,
  push_left, due,
}
use distributed_job_processo.Queue.Defs.{
  pop_reply, pop_read, finish_cases, on_data_cases, unix, Popped, got, push, move_delayed_jobs,
  move_to_processing, pop,
}

cons-eq : {A : Type 0} (x y : A) (xs ys : List A) → x ∷ xs ≡ y ∷ ys → (x ≡ y) × (xs ≡ ys)
cons-eq x y xs ys e = (cc, cc)

cons-ne-nil : {A : Type 0} (x : A) (xs : List A) → x ∷ xs ≡ [] → ⊥
cons-ne-nil x xs e = cc

snoc-ne-nil : {A : Type 0} (xs : List A) (x : A) → xs ++ x ∷ [] ≡ [] → ⊥
snoc-ne-nil [] x e = cc
snoc-ne-nil (y ∷ xs) x e = cc

-- The last element and what stands before it are determined by the list.
snoc-injective :
    {A : Type 0} (xs ys : List A) (x y : A) → xs ++ x ∷ [] ≡ ys ++ y ∷ [] → (xs ≡ ys) × (x ≡ y)
snoc-injective [] [] x y e = (refl, cc)
snoc-injective [] (z ∷ ys) x y e = absurd (snoc-ne-nil ys y (sym (cons-eq _ _ _ _ e).1))
snoc-injective (z ∷ xs) [] x y e = absurd (snoc-ne-nil xs x (cons-eq _ _ _ _ e).1)
snoc-injective (z ∷ xs) (v ∷ ys) x y e =
    let (heads, rest) = cons-eq z v (xs ++ x ∷ []) (ys ++ y ∷ []) e in
    let (tails, last) = snoc-injective xs ys x y rest in (cc (heads, tails), last)

module _ {S D : Type 0} (codec : Codec D) (redis : Redis S D) where
  -- The queue holds the data of these jobs, the oldest at its right end.
  abbrev pub Loaded : List Job → List D → Type 0
  Loaded [] q = q ≡ []
  Loaded (j ∷ js) q =
      (q' : List D) × (d : D) × (q ≡ q' ++ d ∷ []) × (codec.unmarshal d ≡ some j) × Loaded js q'

  -- Nothing is due, and the queue holds these jobs.
  abbrev pub Ready : ℕ → List Job → S → Type 0
  Ready later js s =
      Loaded js (redis.contents s).queue × (due (unix later) (redis.contents s).delayed ≡ [])

  -- Pushing one job after the other, all at one time.
  pub push_each : ℕ → List Job → S → S
  push_each now [] s = s
  push_each now (j ∷ js) s = push_each now js (push codec redis now j s).0

  -- Popping `n` times, all at one time.
  pub pop_each : ℕ → ℕ → S → List Popped
  pop_each later zero s = []
  pop_each later (suc n) s = let (p, s') = pop codec redis later s in p ∷ pop_each later n s'

  pub Loaded-push :
      (js : List Job) (q : List D) (d : D) (j : Job)
      → codec.unmarshal d ≡ some j
      → Loaded js q
      → Loaded (js ++ j ∷ []) (d ∷ q)
  Loaded-push [] q d j e h = ([], d, ap (λ r. d ∷ r) h, e, refl)
  Loaded-push (i ∷ js) q d j e (q', x, split, read, rest) =
      (d ∷ q', x, ap (λ r. d ∷ r) split, read, Loaded-push js q' d j e rest)

  module _ (laws : ReadsBack codec) (effects : Effects redis) (answers : Answers redis) where
    pub push-contents :
        (now : ℕ) (j : Job) (s : S) (d : D)
        → codec.marshal j ≡ some d
        → j.scheduled_at ≤ now
        → redis.contents (push codec redis now j s).0 ≡ push_left job_queue d (redis.contents s)
    unfolding push
    push-contents now j s d e h =
        let (s', pushed) = answers.lpush_answers job_queue d s in
        rw (e, push)
          (rw (not_later, pushed) (effects.lpush_effect job_queue d s s' (Ran-done _ s' pushed)))
      where
        not_later : ltb now j.scheduled_at ≡ false
        not_later = ground arith

    pub push-Ready :
        (later now : ℕ) (js : List Job) (j : Job) (s : S) (d : D)
        → codec.marshal j ≡ some d
        → j.scheduled_at ≤ now
        → Ready later js s
        → Ready later (js ++ j ∷ []) (push codec redis now j s).0
    push-Ready later now js j s d e h (loaded, quiet) =
        rw (push-contents now j s d e h) (Loaded-push js _ d j (laws.read_back j d e) loaded, quiet)

    pub move_delayed_jobs-idle :
        (later : ℕ) (s : S)
        → due (unix later) (redis.contents s).delayed ≡ []
        → move_delayed_jobs codec redis later s ≡ s
    unfolding move_delayed_jobs
    move_delayed_jobs-idle later s quiet =
        let (ds, e) = answers.zrange_answers (unix later) s in
        let none_due : ds ≡ [] = effects.zrange_effect (unix later) s ds e ∙ quiet in
        rw (e ∙ ap some none_due, move_delayed_jobs)

    move_to_processing-queue :
        (j : Job) (s : S)
        → let c = redis.contents (move_to_processing codec redis j s).0 in
          (c.queue ≡ (redis.contents s).queue) × (c.delayed ≡ (redis.contents s).delayed)
    unfolding move_to_processing
    move_to_processing-queue j s =
        on_data_cases Kept (codec.marshal j) s _ (refl, refl)
          λ d _.
            finish_cases Kept s (redis.lpush processing_queue d s) (refl, refl)
              λ s' e.
                let effect = effects.lpush_effect processing_queue d s s' e in
                (ap (λ (c : Contents D). c.queue) effect, ap (λ (c : Contents D). c.delayed) effect)
      where
        Kept : S → Type 0
        Kept t =
            ((redis.contents t).queue ≡ (redis.contents s).queue)
            × ((redis.contents t).delayed ≡ (redis.contents s).delayed)

    -- What `Pop` does after the move when the oldest element is the data of `j`.
    pub pop_reply-Loaded :
        (j : Job) (js : List Job) (s : S)
        → Loaded (j ∷ js) (redis.contents s).queue
        → (s' : S) × (pop_reply codec redis (redis.brpop s) s ≡ (got j, s'))
          × Loaded js (redis.contents s').queue
          × ((redis.contents s').delayed ≡ (redis.contents s).delayed)
    pop_reply-Loaded j js s (q', d, split, read, rest) =
        let (d', s', popped) = answers.brpop_answers s (λ e. snoc-ne-nil q' d (sym split ∙ e)) in
        let (q, before, after) = effects.brpop_effect s s' d' popped in
        let (same_rest, same_last) = snoc-injective q q' d' d (sym before ∙ split) in
        let (kept, quiet) = move_to_processing-queue j s' in
        (
          (move_to_processing codec redis j s').0,
          ap (λ r. pop_reply codec redis r s) popped
              ∙ ap (λ o. pop_read codec redis o s') (ap codec.unmarshal same_last ∙ read),
          subst (Loaded js) (sym (kept ∙ ap (λ (c : Contents D). c.queue) after ∙ same_rest)) rest,
          quiet ∙ ap (λ (c : Contents D). c.delayed) after,
        )

    -- `Pop` when nothing is due
    pub pop-Ready :
        (later : ℕ) (j : Job) (js : List Job) (s : S)
        → Ready later (j ∷ js) s
        → (s' : S) × (pop codec redis later s ≡ (got j, s')) × Ready later js s'
    unfolding pop
    pop-Ready later j js s (loaded, quiet) =
        let (s', popped, rest, delayed) = pop_reply-Loaded j js s loaded in
        (
          s',
          ap (λ m. pop_reply codec redis (redis.brpop m) m) (move_delayed_jobs-idle later s quiet)
              ∙ popped,
          (rest, ap (due (unix later)) delayed ∙ quiet),
        )

    push_each-Ready :
        (later now : ℕ) (js ks : List Job) (s : S)
        → All (λ j. (d : D) × (codec.marshal j ≡ some d)) ks
        → All (λ j. j.scheduled_at ≤ now) ks
        → Ready later js s
        → Ready later (js ++ ks) (push_each now ks s)
    unfolding push_each
    push_each-Ready later now js [] s w h r = rw append-nil r
    push_each-Ready later now js (k ∷ ks) s w h r =
        subst (λ l. Ready later l (push_each now ks (push codec redis now k s).0))
          (append_assoc js (k ∷ []) ks)
          (push_each-Ready later now (js ++ k ∷ []) ks (push codec redis now k s).0 w.1 h.1
            (push-Ready later now js k s w.0.0 w.0.1 h.0 r))

    pop_each-Ready :
        (later : ℕ) (js : List Job) (s : S)
        → Ready later js s
        → pop_each later (length js) s ≡ map got js
    unfolding pop_each
    pop_each-Ready later [] s r = refl
    pop_each-Ready later (j ∷ js) s r =
        let (s', e, r') = pop-Ready later j js s r in
        ap (λ (x : Popped × S). x.0 ∷ pop_each later (length js) x.1) e
        ∙ ap (λ l. got j ∷ l) (pop_each-Ready later js s' r')

    -- First in, first out: jobs that are pushed when they are due, onto an empty queue with no
    -- delayed job due, are popped unchanged and in the order of the pushes, on a server that
    -- answers.
    pub pop_each-push_each :
        (now later : ℕ) (js : List Job) (s : S)
        → All (λ j. (d : D) × (codec.marshal j ≡ some d)) js
        → All (λ j. j.scheduled_at ≤ now) js
        → (redis.contents s).queue ≡ []
        → due (unix later) (redis.contents s).delayed ≡ []
        → pop_each later (length js) (push_each now js s) ≡ map got js
    pop_each-push_each now later js s w h empty quiet =
        pop_each-Ready later js (push_each now js s)
          (push_each-Ready later now [] js s w h (empty, quiet))
