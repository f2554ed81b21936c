-- ===== src/Queue/Defs.antt =====
-- internal/queue/redis.go: the job queue over Redis. A method returns the server's state and
-- whether its error is nil; readings of `time.Now()` are arguments.
use distributed_job_processo.Base.{
  ◌≡◌, refl, ℕ, ◌+◌, ◌/◌, Bool, true, false, Option, none, some, List, [], ◌∷◌, ltb, if◌then◌else◌,
}
use distributed_job_processo.Job.{Job}
use distributed_job_processo.Queue.Server.{
  Sent, done, refused, lost, Ran, Blocking, Codec, Redis, Command, push_job, remove_delayed,
  timeout, failure, element, ListKey, processing_queue, completed_queue, failed_queue, job_queue,
}

-- `Time.Unix`: whole seconds.
abbrev pub unix : ℕ → ℕ
unix t = t / 1_000_000_000

-- What `Pop` returns: (nil, nil), an error, or a job.
pub data Popped : Type 0 where
  no_job : Popped
  pop_error : Popped
  got : Job → Popped

-- The state after a command, and whether its error is nil.
abbrev pub finish : {S : Type 0} → S → Sent S → S × Bool
finish s refused = (s, false)
finish s (lost s') = (s', false)
finish s (done s') = (s', true)

-- The commands that `moveDelayedJobs` queues for each member.
module _ {D : Type 0} where
  abbrev pub pipeline : List D → List (Command D)
  pipeline [] = []
  pipeline (d ∷ ds) = push_job d ∷ remove_delayed d ∷ pipeline ds

-- What follows `data, err := json.Marshal(j)` and the return of its error.
abbrev pub on_data : {S D : Type 0} → Option D → S → (D → S × Bool) → S × Bool
on_data none s use_data = (s, false)
on_data (some d) s use_data = use_data d

module _ {S D : Type 0} (codec : Codec D) (redis : Redis S D) where
  abbrev pub with_data : Job → S → (D → S × Bool) → S × Bool
  with_data j s use_data = on_data (codec.marshal j) s use_data

  unfoldable pub push : ℕ → Job → S → S × Bool
  push now j s = with_data j s λ d.
      if ltb now j.scheduled_at
      then finish s (redis.zadd (unix j.scheduled_at) d s)
      else finish s (redis.lpush job_queue d s)

  unfoldable pub move_to_processing : Job → S → S × Bool
  move_to_processing j s = with_data j s λ d. finish s (redis.lpush processing_queue d s)

  unfoldable pub remove_from_processing : Job → S → S × Bool
  remove_from_processing j s = with_data j s λ d. finish s (redis.lrem processing_queue d s)

  -- After ZRANGEBYSCORE: an error or no member ends the call.
  abbrev pub move_found : Option (List D) → S → S
  move_found none s = s
  move_found (some []) s = s
  move_found (some (d ∷ ds)) s = (redis.exec (pipeline (d ∷ ds)) s).0

  unfoldable pub move_delayed_jobs : ℕ → S → S
  move_delayed_jobs now s = move_found (redis.zrange_by_score (unix now) s) s

  -- An element that cannot be read is gone; an error of `moveToProcessing` is only logged.
  abbrev pub pop_read : Option Job → S → Popped × S
  pop_read none s = (pop_error, s)
  pop_read (some j) s = (got j, (move_to_processing j s).0)

  abbrev pub pop_reply : Blocking S D → S → Popped × S
  pop_reply timeout s = (no_job, s)
  pop_reply failure s = (pop_error, s)
  pop_reply (element d s') s = pop_read (codec.unmarshal d) s'

  unfoldable pub pop : ℕ → S → Popped × S
  unfolding move_delayed_jobs move_to_processing
  pop now s = let moved = move_delayed_jobs now s in pop_reply (redis.brpop moved) moved

  -- The common body of `Complete` and `Fail`.
  abbrev pub leave_for : ListKey → Job → S → S × Bool
  leave_for key j s =
      let (s₁, removed) = remove_from_processing j s in
      if removed then with_data j s₁ (λ d. finish s₁ (redis.lpush key d s₁)) else (s₁, false)

  unfoldable pub complete : Job → S → S × Bool
  unfolding remove_from_processing
  complete j s = leave_for completed_queue j s

  unfoldable pub fail : Job → S → S × Bool
  unfolding remove_from_processing
  fail j s = leave_for failed_queue j s

  -- `now` is read for the schedule, `later` by `Push`.
  unfoldable pub retry : (now later : ℕ) → Job → (delay : ℕ) → S → S × Bool
  unfolding remove_from_processing push
  retry now later j delay s =
      let (s₁, removed) = remove_from_processing j s in
      if removed then push later (record j { scheduled_at = now + delay }) s₁ else (s₁, false)

-- A command has run or not, whatever it reports.
pub finish_cases :
    {S : Type 0} (P : S → Type 0) (s : S) (o : Sent S)
    → P s
    → ((s' : S) → Ran o s' → P s')
    → P (finish s o).0
finish_cases P s refused before after = before
finish_cases P s (lost s') before after = after s' refl
finish_cases P s (done s') before after = after s' refl

pub on_data_cases :
    {S D : Type 0} (P : S → Type 0) (o : Option D) (s : S) (f : D → S × Bool)
    → P s
    → ((d : D) → o ≡ some d → P (f d).0)
    → P (on_data o s f).0
on_data_cases P none s f before after = before
on_data_cases P (some d) s f before after = after d refl
