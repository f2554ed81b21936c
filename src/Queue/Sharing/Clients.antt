-- ===== src/Queue/Sharing/Clients.antt =====
-- `Push` of internal/queue/redis.go as a step of several clients and workers.
use distributed_job_processo.Base.{
  ℕ, ◌≡◌, refl, sym, ap, ◌∙◌, subst, inl, inr, Bool, true, false, Option, none, some, ◌∷◌, ◌++◌,
  ltb, if◌then◌else◌, Bool-cases, Member,
}
use distributed_job_processo.Job.{Job}
use distributed_job_processo.Queue.Server.{
  Sent, done, refused, lost, Ran, Ran-done, Codec, Redis, Effects, Contents, without, push_left,
  job_queue,
}
use distributed_job_processo.Queue.Defs.{unix, push, finish, on_data}
use distributed_job_processo.Queue.Sharing.{Shared, push_now, push_later, Steps, here, next}

module _ {S D : Type 0} (codec : Codec D) (redis : Redis S D) where
  -- The steps lead to the state that `Push` leaves, and an answer without error means that the
  -- job's data were accepted.
  pub record Pushes (j : Job) (s : Shared D) (r : S × Bool) : Type 0 where
    pub last : Shared D
    pub steps : Steps redis.same s last
    pub reached : last.contents ≡ redis.contents r.0
    pub places : last.place ≡ s.place
    pub accepts : r.1 ≡ true → (d : D) × (codec.marshal j ≡ some d) × Member d last.accepted

  refused_push :
      (j : Job) (x : S) (s : Shared D) → s.contents ≡ redis.contents x → Pushes j s (x, false)
  refused_push j x s h = record {
    last = s;
    steps = here;
    reached = h;
    places = refl;
    accepts = λ e. cc;
  }

  module _ (effects : Effects redis) where
    -- A command that ran is a step, whether or not its reply arrived.
    zadd_arrived :
        (j : Job) (d : D) (score : ℕ) (x : S) (s : Shared D) (y : S) (ok : Bool)
        → codec.marshal j ≡ some d
        → s.contents ≡ redis.contents x
        → Ran (redis.zadd score d x) y
        → Pushes j s (y, ok)
    zadd_arrived j d score x s y ok m h e =
        let (before, after, split, effect) = effects.zadd_effect score d x y e in
        record {
          last = _;
          steps = next here (
              push_later d score before after
                (ap (λ (c : Contents D). without redis.same d c.delayed) h ∙ split));
          reached =
              ap (λ (c : Contents D). record c { delayed = before ++ (d, score) ∷ after }) h
              ∙ sym effect;
          places = refl;
          accepts = λ t. (d, m, inl refl);
        }

    lpush_arrived :
        (j : Job) (d : D) (x : S) (s : Shared D) (y : S) (ok : Bool)
        → codec.marshal j ≡ some d
        → s.contents ≡ redis.contents x
        → Ran (redis.lpush job_queue d x) y
        → Pushes j s (y, ok)
    lpush_arrived j d x s y ok m h e = record {
      last = _;
      steps = next here (push_now d);
      reached = ap (push_left job_queue d) h ∙ sym (effects.lpush_effect job_queue d x y e);
      places = refl;
      accepts = λ t. (d, m, inl refl);
    }

    zadd-Pushes :
        (j : Job) (d : D) (score : ℕ) (x : S) (s : Shared D) (o : Sent S)
        → codec.marshal j ≡ some d
        → s.contents ≡ redis.contents x
        → redis.zadd score d x ≡ o
        → Pushes j s (finish x o)
    zadd-Pushes j d score x s refused m h e = refused_push j x s h
    zadd-Pushes j d score x s (lost y) m h e =
        zadd_arrived j d score x s y false m h (subst (λ o. Ran o y) (sym e) refl)
    zadd-Pushes j d score x s (done y) m h e =
        zadd_arrived j d score x s y true m h (Ran-done _ y e)

    lpush-Pushes :
        (j : Job) (d : D) (x : S) (s : Shared D) (o : Sent S)
        → codec.marshal j ≡ some d
        → s.contents ≡ redis.contents x
        → redis.lpush job_queue d x ≡ o
        → Pushes j s (finish x o)
    lpush-Pushes j d x s refused m h e = refused_push j x s h
    lpush-Pushes j d x s (lost y) m h e =
        lpush_arrived j d x s y false m h (subst (λ o. Ran o y) (sym e) refl)
    lpush-Pushes j d x s (done y) m h e = lpush_arrived j d x s y true m h (Ran-done _ y e)

    -- `Push` is one step of a client, whether or not the reply of its command arrives, or none
    -- when it reports an error: from the same data to the same data, with every worker where it
    -- was; without an error the job's data are accepted.
    pub push-Pushes :
        (now : ℕ) (j : Job) (x : S) (s : Shared D)
        → s.contents ≡ redis.contents x
        → Pushes j s (push codec redis now j x)
    unfolding push
    push-Pushes now j x s h = by_data (codec.marshal j) refl
      where
        by_data :
            (o : Option D)
            → codec.marshal j ≡ o
            → Pushes j s (
                on_data o x λ d.
                  if ltb now j.scheduled_at
                  then finish x (redis.zadd (unix j.scheduled_at) d x)
                  else finish x (redis.lpush job_queue d x))
        by_data none e = refused_push j x s h
        by_data (some d) e = elim (Bool-cases (ltb now j.scheduled_at)) [
          | inl t ↦ rw t (zadd-Pushes j d (unix j.scheduled_at) x s _ e h refl)
          | inr t ↦ rw t (lpush-Pushes j d x s _ e h refl)
        ]
