-- ===== src/Queue/Refinement.antt =====
-- What internal/queue/redis.go promises: a queue of jobs that are ready, oldest first, and of
-- jobs that wait for their second.
pub mod Scheduling
pub mod Simulation
use distributed_job_processo.Base.{
  ℕ, ◌+◌, ◌≤◌, ◌<◌, ◌≡◌, ◌≢◌, ◌⊎◌, not, some, List, [], ◌∷◌, ◌++◌, leb, if◌then◌else◌, filter,
}
use distributed_job_processo.Job.{Job}
use distributed_job_processo.Queue.Defs.{unix}
use distributed_job_processo.Queue.Server.{Codec, Redis, Contents}
use distributed_job_processo.Queue.Order.{Loaded}
use distributed_job_processo.Queue.Delayed.{Distinct}

-- The abstract queue; the order of the jobs that wait is that in which they become ready.
pub record Abstract : Type 0 where
  pub ready : List Job
  pub delayed : List (Job × ℕ)

-- The jobs whose second has come, in order, and the others.
abbrev pub due_jobs : ℕ → List (Job × ℕ) → List Job
due_jobs max [] = []
due_jobs max ((j, n) ∷ l) = let rest = due_jobs max l in if leb n max then j ∷ rest else rest

abbrev pub waiting_jobs : ℕ → List (Job × ℕ) → List (Job × ℕ)
waiting_jobs max = filter (λ m. not (leb m.1 max))

-- The second list is the first without the entries of a job.
abbrev pub Removed : Job → List (Job × ℕ) → List (Job × ℕ) → Type 0
Removed j [] k = k ≡ []
Removed j (m ∷ l) k =
    ((m.0 ≡ j) × Removed j l k)
    ⊎ ((m.0 ≢ j) × ((rest : List (Job × ℕ)) × (k ≡ m ∷ rest) × Removed j l rest))

-- An operation at a time, and what it shows.
pub data Operation : Type 0 where
  push_op : (now : ℕ) → Job → Operation
  pop_op : (now : ℕ) → Operation

pub data Shown : Type 0 where
  pushed : Shown
  taken : Job → Shown
  nothing : Shown

-- The steps of the abstract queue.
pub data Step : Operation → Shown → Abstract → Abstract → Type 0 where
  enqueue :
      (now : ℕ) (j : Job) (a : Abstract)
      → j.scheduled_at ≤ now
      → Step (push_op now j) pushed a (record a { ready = a.ready ++ j ∷ [] })
  schedule :
      (now : ℕ) (j : Job) (a : Abstract) (before after : List (Job × ℕ))
      → now < j.scheduled_at
      → Removed j a.delayed (before ++ after)
      → Step
          (push_op now j)
          pushed
          a
          (record a { delayed = before ++ (j, unix j.scheduled_at) ∷ after })
  dequeue :
      (now : ℕ) (j : Job) (js : List Job) (a : Abstract)
      → a.ready ++ due_jobs (unix now) a.delayed ≡ j ∷ js
      → Step
          (pop_op now)
          (taken j)
          a
          (record { ready = js; delayed = waiting_jobs (unix now) a.delayed })
  wait :
      (now : ℕ) (a : Abstract)
      → a.ready ++ due_jobs (unix now) a.delayed ≡ []
      → Step
          (pop_op now)
          nothing
          a
          (record { ready = []; delayed = waiting_jobs (unix now) a.delayed })

-- Several steps, with what each shows.
pub data Steps : List Operation → List Shown → Abstract → Abstract → Type 0 where
  done : (a : Abstract) → Steps [] [] a a
  more :
      (o : Operation) (x : Shown) (os : List Operation) (xs : List Shown) (a b c : Abstract)
      → Step o x a b
      → Steps os xs b c
      → Steps (o ∷ os) (x ∷ xs) a c

module _ {S D : Type 0} (codec : Codec D) (redis : Redis S D) where
  -- The sorted set holds the data of these jobs with these seconds.
  abbrev pub Scheduled : List (Job × ℕ) → List (D × ℕ) → Type 0
  Scheduled [] [] = Unit
  Scheduled [] (m ∷ c) = ⊥
  Scheduled (m ∷ a) [] = ⊥
  Scheduled ((j, n) ∷ a) ((d, m) ∷ c) = (codec.marshal j ≡ some d) × (n ≡ m) × Scheduled a c

  abbrev pub RepresentsContents : Abstract → Contents D → Type 0
  RepresentsContents a c =
      Loaded codec redis a.ready c.queue
      × Scheduled a.delayed c.delayed
      × Distinct redis.same c.delayed

  abbrev pub Represents : Abstract → S → Type 0
  Represents a s = RepresentsContents a (redis.contents s)
