-- ===== src/Queue/Server.antt =====
-- What internal/queue/redis.go uses of go-redis and of encoding/json, as interfaces, with the
-- documented effect of each command on the server's data.
use distributed_job_processo.Base.{
  ℕ, ◌≡◌, refl, sym, subst, ◌≢◌, ◌↔◌, Bool, true, not, Option, some, List, [], ◌∷◌, ◌++◌, leb,
  if◌then◌else◌, filter,
}
use distributed_job_processo.Job.{Job}

-- json.Marshal and json.Unmarshal at `job.Job`; `none` is an error.
pub record Codec (D : Type 0) : Type 0 where
  pub marshal : Job → Option D
  pub unmarshal : D → Option Job

-- A job that was written is read back.
pub record ReadsBack {D : Type 0} (codec : Codec D) : Type 0 where
  pub read_back : (j : Job) (d : D) → codec.marshal j ≡ some d → codec.unmarshal d ≡ some j

-- The lists jobs:queue, jobs:processing, jobs:completed and jobs:failed.
pub data ListKey : Type 0 where
  job_queue processing_queue completed_queue failed_queue : ListKey

-- The data under the five keys: lists from the left end, the sorted set with its scores in order.
pub record Contents (D : Type 0) : Type 0 where
  pub queue : List D
  pub processing : List D
  pub completed : List D
  pub failed : List D
  pub delayed : List (D × ℕ)

-- A command of a pipeline.
pub data Command (D : Type 0) : Type 0 where
  push_job : D → Command D
  remove_delayed : D → Command D

-- The reply of BRPOP: redis.Nil after the timeout, another error, or the element.
pub data Blocking (S D : Type 0) : Type 0 where
  timeout : Blocking S D
  failure : Blocking S D
  element : D → S → Blocking S D

-- What comes of a command: its reply, an error before it ran, or an error after it ran, when the
-- reply did not arrive.
pub data Sent (S : Type 0) : Type 0 where
  done : S → Sent S
  refused : Sent S
  lost : S → Sent S

-- The command ran and led to a state.
abbrev pub Ran : {S : Type 0} → Sent S → S → Type 0
Ran (done t) s = t ≡ s
Ran refused s = ⊥
Ran (lost t) s = t ≡ s

-- The client; for a query `none` is an error, and an error of BRPOP has taken no element. A
-- pipeline may have run in part when it reports an error, so it gives the state as well.
pub record Redis (S D : Type 0) : Type 0 where
  pub lpush : ListKey → D → S → Sent S
  pub lrem : ListKey → D → S → Sent S
  pub brpop : S → Blocking S D
  pub zadd : ℕ → D → S → Sent S
  pub zrange_by_score : ℕ → S → Option (List D)
  pub exec : List (Command D) → S → S × Bool
  -- What the server holds, and when two members are the same bytes.
  pub contents : S → Contents D
  pub same : D → D → Bool

module _ {D : Type 0} where
  abbrev pub push_left : ListKey → D → Contents D → Contents D
  push_left job_queue d c = record c { queue = d ∷ c.queue }
  push_left processing_queue d c = record c { processing = d ∷ c.processing }
  push_left completed_queue d c = record c { completed = d ∷ c.completed }
  push_left failed_queue d c = record c { failed = d ∷ c.failed }

  module _ (same : D → D → Bool) where
    -- LREM with count 1: the first element from the left that equals the value.
    abbrev pub remove_first : D → List D → List D
    remove_first d [] = []
    remove_first d (x ∷ xs) = let rest = x ∷ remove_first d xs in if same x d then xs else rest

    abbrev pub remove : ListKey → D → Contents D → Contents D
    remove job_queue d c = record c { queue = remove_first d c.queue }
    remove processing_queue d c = record c { processing = remove_first d c.processing }
    remove completed_queue d c = record c { completed = remove_first d c.completed }
    remove failed_queue d c = record c { failed = remove_first d c.failed }

    -- ZREM
    abbrev pub without : D → List (D × ℕ) → List (D × ℕ)
    without d = filter (λ m. not (same m.0 d))

    abbrev pub run_command : Contents D → Command D → Contents D
    run_command c (push_job d) = push_left job_queue d c
    run_command c (remove_delayed d) = record c { delayed = without d c.delayed }

    abbrev pub run_commands : Contents D → List (Command D) → Contents D
    run_commands c [] = c
    run_commands c (x ∷ xs) = run_commands (run_command c x) xs

  -- ZRANGEBYSCORE from 0 up to a score
  abbrev pub due : ℕ → List (D × ℕ) → List D
  due max [] = []
  due max ((d, score) ∷ l) = let rest = due max l in if leb score max then d ∷ rest else rest

pub Ran-done : {S : Type 0} (o : Sent S) (s : S) → o ≡ done s → Ran o s
Ran-done o s e = subst (λ p. Ran p s) (sym e) refl

-- The documented effects, of a command whose reply was lost as well.
pub record Effects {S D : Type 0} (redis : Redis S D) : Type 0 where
  pub lpush_effect :
      (k : ListKey) (d : D) (s s' : S)
      → Ran (redis.lpush k d s) s'
      → redis.contents s' ≡ push_left k d (redis.contents s)
  pub lrem_effect :
      (k : ListKey) (d : D) (s s' : S)
      → Ran (redis.lrem k d s) s'
      → redis.contents s' ≡ remove redis.same k d (redis.contents s)
  pub brpop_effect :
      (s s' : S) (d : D)
      → redis.brpop s ≡ element d s'
      → (q : List D) × ((redis.contents s).queue ≡ q ++ d ∷ [])
        × (redis.contents s' ≡ record (redis.contents s) { queue = q })
  pub zadd_effect :
      (score : ℕ) (d : D) (s s' : S)
      → Ran (redis.zadd score d s) s'
      → (before after : List (D × ℕ)) × (without redis.same d (redis.contents s).delayed
          ≡ before ++ after)
        × (redis.contents s' ≡ record (redis.contents s) { delayed = before ++ (d, score) ∷ after })
  pub zrange_effect :
      (max : ℕ) (s : S) (ds : List D)
      → redis.zrange_by_score max s ≡ some ds
      → ds ≡ due max (redis.contents s).delayed
  pub exec_effect :
      (cs : List (Command D)) (s s' : S)
      → redis.exec cs s ≡ (s', true)
      → redis.contents s' ≡ run_commands redis.same (redis.contents s) cs
  pub same_iff : (a b : D) → (redis.same a b ≡ true) ↔ (a ≡ b)

-- A server that answers: no command reports an error, and BRPOP on a queue that is not empty
-- returns an element.
pub record Answers {S D : Type 0} (redis : Redis S D) : Type 0 where
  pub lpush_answers : (k : ListKey) (d : D) (s : S) → (s' : S) × (redis.lpush k d s ≡ done s')
  pub lrem_answers : (k : ListKey) (d : D) (s : S) → (s' : S) × (redis.lrem k d s ≡ done s')
  pub brpop_answers :
      (s : S) → (redis.contents s).queue ≢ [] → (d : D) × (s' : S) × (redis.brpop s ≡ element d s')
  pub zadd_answers : (n : ℕ) (d : D) (s : S) → (s' : S) × (redis.zadd n d s ≡ done s')
  pub zrange_answers : (n : ℕ) (s : S) → (ds : List D) × (redis.zrange_by_score n s ≡ some ds)
  pub exec_answers : (cs : List (Command D)) (s : S) → (redis.exec cs s).1 ≡ true
