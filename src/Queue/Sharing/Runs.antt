-- ===== src/Queue/Sharing/Runs.antt =====
-- `Pop` of internal/queue/redis.go as a sequence of steps of several workers.
use distributed_job_processo.Base.{◌≡◌, ◌⊎◌, none, some, List, ◌∷◌}
use distributed_job_processo.Job.{Job}
use distributed_job_processo.Queue.Server.{Codec, Redis}
use distributed_job_processo.Queue.Defs.{Popped, no_job, pop_error, got}

module _ {S D : Type 0} (codec : Codec D) (redis : Redis S D) where
  -- What an answer of `Pop` says of the entries that BRPOP has handed out
  abbrev pub Gives : Popped → List D → List D → Type 0
  Gives no_job before after = after ≡ before
  Gives pop_error before after =
      (after ≡ before) ⊎ ((d : D) × (after ≡ d ∷ before) × (codec.unmarshal d ≡ none))
  Gives (got j) before after = (d : D) × (after ≡ d ∷ before) × (codec.unmarshal d ≡ some j)
